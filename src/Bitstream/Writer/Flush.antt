-- ===== src/Bitstream/Writer/Flush.antt =====
-- `flush_remaining` and `into_bytes`, by the written number.
use zrip.Common.{ℕ, zero, suc, ◌+◌, ◌-◌, ◌*◌, ◌/◌, ◌^◌, ◌≤◌, ◌<◌, ◌≡◌, refl, sym, ap, ap₂, ◌∙◌}
use zrip.Common.{List, [], ◌∷◌, ◌++◌, length, take, arith}
use zrip.Common.{ltb, Bool-cases, inl, inr, ltb→lt, ltb→ge, All-append, length-append}
use zrip.Common.{resize, length-resize, take-resize, All-resize, take_all}
use zrip.Common.Words.{u8}
use zrip.Common.Bytes.{IsByte, IsBytes, from_le_bytes, from_le_bytes-append}
use zrip.Common.Powers.{pow-add, pow_pos, pow_mono}
use native.Mathlib.Nat.{div-add-mod, div-lt_iff_lt-mul}
use zrip.Bitstream.Writer.{BitWriter, reserved, push_byte, flush_loop, flush_remaining, into_bytes}
use zrip.Bitstream.Writer.Value.{IsValid, bit_len, value}

-- The vector and the waiting bits as one number.
abbrev total : BitWriter → ℕ
total w = from_le_bytes w.buf + w.bits * 2 ^ (8 * length w.buf)

module _ (grow : ℕ → ℕ → ℕ) where
  push_byte-total : (w : BitWriter) → total (push_byte grow w) ≡ total w
  unfolding push_byte
  push_byte-total w =
      let n : ℕ = length w.buf in
      omega (
        arith,
        from_le_bytes-append w.buf (u8 w.bits ∷ []),
        ap (λ (t : ℕ). w.bits / 2 ^ 8 * 2 ^ t)
            (let e : 8 * length (w.buf ++ (u8 w.bits ∷ [])) ≡ 8 * n + 8 =
                omega (arith, length-append w.buf (u8 w.bits ∷ [])) in
              e),
        ap (λ (t : ℕ). w.bits / 2 ^ 8 * t) (pow-add (8 * n) 8),
        ap (λ (t : ℕ). 2 ^ (8 * n) * t) (div-add-mod w.bits 256),
      )

  -- What the loop returns: all bits are in the vector, `(bits_used + 7) / 8` bytes more.
  record Flushed (w w' : BitWriter) : Type 0 where
    same : from_le_bytes w'.buf ≡ total w
    long : length w'.buf ≡ length w.buf + (w.bits_used + 7) / 8
    bytes : IsBytes w'.buf
    done : (w'.bits ≡ 0) × (w'.bits_used ≡ 0)

  empty-Flushed :
      (w : BitWriter) → w.bits_used ≡ 0 → w.bits < 2 ^ w.bits_used → IsBytes w.buf → Flushed w w
  empty-Flushed w e fit bytes =
      let z : w.bits ≡ 0 = omega (arith, ap (λ (t : ℕ). 2 ^ t) e) in
      record {
        same = omega (arith, ap (λ (t : ℕ). t * 2 ^ (8 * length w.buf)) z);
        long = omega arith;
        bytes = bytes;
        done = (z, e);
      }

  -- Eight bits off the bottom.
  shift_fits : (u x : ℕ) → x < 2 ^ u → x / 2 ^ 8 < 2 ^ (u - 8)
  shift_fits u x h = elim (Bool-cases (ltb u 8)) [
    | inl e ↦
        let small : 2 ^ u ≤ 2 ^ 8 = pow_mono u 8 (omega (arith, ltb→lt u 8 e)) in
        omega (arith, small, pow_pos (u - 8))
    | inr e ↦ (div-lt_iff_lt-mul {k = 2 ^ 8} {x = x} {y = 2 ^ (u - 8)} (omega arith)).1 (
        omega (
          arith,
          h,
          pow-add (u - 8) 8,
          ap (λ (t : ℕ). 2 ^ t) (let f : u ≡ u - 8 + 8 = omega (arith, ltb→ge u 8 e) in f),
        ))
  ]

  pushed-Flushed :
      (w w' : BitWriter) → 0 < w.bits_used → Flushed (push_byte grow w) w' → Flushed w w'
  unfolding push_byte
  pushed-Flushed w w' pos f = record {
    same = f.same ∙ push_byte-total w;
    long = omega (arith, f.long, length-append w.buf (u8 w.bits ∷ []));
    bytes = f.bytes;
    done = f.done;
  }

  flush_loop-Flushed :
      (fuel : ℕ) (w : BitWriter)
      → w.bits_used ≤ fuel
      → w.bits < 2 ^ w.bits_used
      → IsBytes w.buf
      → Flushed w (flush_loop grow fuel w)
  unfolding flush_loop push_byte
  flush_loop-Flushed zero w h fit bytes = empty-Flushed w (omega arith) fit bytes
  flush_loop-Flushed (suc fuel) w h fit bytes = elim (Bool-cases (ltb 0 w.bits_used)) [
    | inr e ↦ rw e (empty-Flushed w (omega (arith, ltb→ge 0 w.bits_used e)) fit bytes)
    | inl e ↦ rw e (
        pushed-Flushed w _ (ltb→lt 0 w.bits_used e) (
          flush_loop-Flushed fuel (push_byte grow w) (omega arith)
            (shift_fits w.bits_used w.bits fit)
            (All-append IsByte w.buf (u8 w.bits ∷ []) bytes (omega arith, tt))))
  ]

  -- Flushing a valid writer: bytes, as many as the bits need, that spell the written number.
  flushed :
      (w : BitWriter)
      → IsValid w
      → IsBytes (flush_remaining grow w).buf
        × (from_le_bytes (flush_remaining grow w).buf ≡ value w)
        × (length (flush_remaining grow w).buf ≡ (bit_len w + 7) / 8)
        × ((flush_remaining grow w).bits ≡ 0)
        × ((flush_remaining grow w).bits_used ≡ 0)
  unfolding flush_remaining
  flushed w h =
      let cut : List ℕ = resize w.buf w.pos 0 in
      let cut_eq : cut ≡ take w.pos w.buf =
        sym (take_all w.pos cut (omega (arith, length-resize w.buf w.pos 0)))
        ∙ take-resize w.buf w.pos w.pos 0 (omega arith) h.pos_le in
      let f =
        flush_loop-Flushed w.bits_used
          (record w { buf = cut; capacity = reserved grow w.capacity w.pos }) (omega arith)
          h.bits_fit (All-resize IsByte w.buf w.pos 0 (omega arith) h.bytes) in
      (
        f.bytes,
        f.same
            ∙ ap₂ (λ (b : List ℕ) (n : ℕ). from_le_bytes b + w.bits * 2 ^ (8 * n)) cut_eq
                (length-resize w.buf w.pos 0),
        omega (arith, f.long, length-resize w.buf w.pos 0),
        f.done.0,
        f.done.1,
      )

  -- A flushed writer is valid and holds the same number, now in whole bytes.
  pub flush_remaining-IsValid :
      (w : BitWriter)
      → IsValid w
      → IsValid (flush_remaining grow w)
        × (value (flush_remaining grow w) ≡ value w)
        × (bit_len (flush_remaining grow w) ≡ 8 * ((bit_len w + 7) / 8))
  flush_remaining-IsValid w h =
      let f = flush_remaining grow w in
      let (bytes, val, len, no_bits, no_used) = flushed w h in
      let pos : f.pos ≡ length f.buf = unfold flush_remaining in refl in
      (
        record {
          used_lt = omega (arith, no_used);
          bits_fit = omega (arith, no_bits, no_used, pow_pos f.bits_used);
          pos_le = omega (arith, pos);
          slack = omega (arith, pos);
          bytes = bytes;
        },
        ap₂ (λ (b : List ℕ) (x : ℕ). from_le_bytes b + x * 2 ^ (8 * f.pos))
              (take_all f.pos f.buf (omega (arith, pos))) no_bits
            ∙ omega (arith, val),
        omega (arith, pos, len, no_used),
      )

  -- `into_bytes` of a valid writer: bytes, as many as the bits need, that spell the written number.
  pub into_bytes_lem :
      (w : BitWriter)
      → IsValid w
      → IsBytes (into_bytes grow w)
        × (from_le_bytes (into_bytes grow w) ≡ value w)
        × (length (into_bytes grow w) ≡ (bit_len w + 7) / 8)
  unfolding into_bytes
  into_bytes_lem w h = let (bytes, val, len, a, b) = flushed w h in (bytes, val, len)
