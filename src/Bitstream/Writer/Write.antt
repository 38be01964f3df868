-- ===== src/Bitstream/Writer/Write.antt =====
-- `write_bits`, by the written number.
use zrip.Common.{ℕ, zero, suc, ◌+◌, ◌*◌, ◌/◌, ◌%◌, ◌^◌, ◌≤◌, ◌<◌, ◌≡◌, refl, ap, ap₂, ◌∙◌}
use zrip.Common.{length, take, arith, none, some, bit_and}
use zrip.Common.{◌≢◌, ◌↔◌, ◌⊎◌, leb, if◌then◌else◌, Bool-cases, inl, inr, leb→gt}
use zrip.Common.{length-take}
use zrip.Common.Words.{◌<<<◌, ◌>>>◌}
use zrip.Common.Bytes.{from_le_bytes, to_le_bytes, from_le_bytes-append}
use zrip.Common.Bytes.{to_le_bytes-IsBytes, from_le_bytes-to_le_bytes, from_le_bytes-take}
use zrip.Common.Bits.{bit_and_mask}
use zrip.Common.Powers.{pow-add, pow_mono, pow_pos}
use native.Mathlib.Nat.{div-add-mod, div-lt_iff_lt-mul}
use zrip.Bitstream.Writer.{BitWriter, write_u64_le, ensure_capacity, store_bytes, spill, put_field}
use zrip.Bitstream.Writer.{write_bits, empty_writer, new, reserved}
use zrip.Bitstream.Writer.Value.{IsReady, IsValid, bit_len, value, Extends, put_field-IsReady}
use zrip.Bitstream.Writer.Value.{put_field-Extends, ensure_capacity_lem, write_u64_le_lem}

module _ (grow : ℕ → ℕ → ℕ) (w : BitWriter) (h : IsReady 57 w) where
  abbrev nb : ℕ
  nb = w.bits_used >>> 3

  bits_small : w.bits < 2 ^ 57
  bits_small = omega (arith, h.bits_fit, pow_mono w.bits_used 57 (omega (arith, h.used_lt)))

  -- The bytes stored are the low `8 * nb` bits.
  stored_value :
      from_le_bytes (take (w.pos + nb) (write_u64_le w.buf w.pos w.bits))
      ≡ from_le_bytes (take w.pos w.buf) + 2 ^ (8 * w.pos) * (w.bits % 2 ^ (8 * nb))
  stored_value =
      let few : nb ≤ 8 = omega (arith, h.used_lt) in
      let low : from_le_bytes (take nb (to_le_bytes 8 w.bits)) ≡ w.bits % 2 ^ (8 * nb) =
        from_le_bytes-take nb (to_le_bytes 8 w.bits) (to_le_bytes-IsBytes 8 w.bits)
        ∙ ap (λ (t : ℕ). t % 2 ^ (8 * nb))
            (from_le_bytes-to_le_bytes 8 w.bits (omega (arith, bits_small))) in
      ap from_le_bytes ((write_u64_le_lem w h nb w.bits few).2)
      ∙ from_le_bytes-append (take w.pos w.buf) (take nb (to_le_bytes 8 w.bits))
      ∙ ap₂ (λ (m t : ℕ). from_le_bytes (take w.pos w.buf) + 2 ^ (8 * m) * t)
          (let e : length (take w.pos w.buf) ≡ w.pos =
              omega (arith, length-take w.pos w.buf, h.pos_le) in
            e)
          low

  shift_eq : nb <<< 3 ≡ 8 * nb
  shift_eq = omega arith

  left_eq : bit_and w.bits_used 7 ≡ w.bits_used % 8
  left_eq = bit_and_mask 3 w.bits_used

  store_bytes-IsValid : IsValid (store_bytes grow w)
  unfolding store_bytes
  store_bytes-IsValid =
      let (len, bytes, front) = write_u64_le_lem w h 0 w.bits (omega arith) in
      let fits : w.bits / 2 ^ (8 * nb) < 2 ^ (w.bits_used % 8) =
        (div-lt_iff_lt-mul {k = 2 ^ (8 * nb)} {x = w.bits} {y = 2 ^ (w.bits_used % 8)}
            (pow_pos (8 * nb))).1
          (omega (
            arith,
            h.bits_fit,
            pow-add (w.bits_used % 8) (8 * nb),
            ap (λ (t : ℕ). 2 ^ t)
                (let e : w.bits_used ≡ w.bits_used % 8 + 8 * nb = omega arith in e),
          )) in
      record {
        used_lt = omega (arith, left_eq);
        bits_fit = rw (left_eq, shift_eq) fits;
        pos_le = omega (arith, len, h.used_lt);
        slack = omega (arith, len);
        bytes = bytes;
      }

  store_bytes-keeps :
      (bit_len (store_bytes grow w) ≡ bit_len w) × (value (store_bytes grow w) ≡ value w)
  unfolding store_bytes
  store_bytes-keeps = (
    omega (arith, left_eq),
    omega (
      arith,
      stored_value,
      ap (λ (t : ℕ). w.bits / 2 ^ t * 2 ^ (8 * (w.pos + nb))) shift_eq,
      ap (λ (t : ℕ). w.bits / 2 ^ (8 * nb) * t)
          (ap (λ (t : ℕ). 2 ^ t) (let e : 8 * (w.pos + nb) ≡ 8 * w.pos + 8 * nb = omega arith in e)
            ∙ pow-add (8 * w.pos) (8 * nb)),
      ap (λ (t : ℕ). 2 ^ (8 * w.pos) * t) (div-add-mod w.bits (2 ^ (8 * nb))),
    ),
  )

module _ (grow : ℕ → ℕ → ℕ) where
  -- Spilling keeps the number.
  spill_lem :
      (w : BitWriter)
      → IsReady 57 w
      → IsValid (spill grow w)
        × (bit_len (spill grow w) ≡ bit_len w)
        × (value (spill grow w) ≡ value w)
  unfolding spill
  spill_lem w h =
      let w1 = ensure_capacity grow w in
      let (r, front, bits, used, pos) = ensure_capacity_lem grow w h in
      let (len, val) = store_bytes-keeps grow w1 r in
      (
        store_bytes-IsValid grow w1 r,
        omega (arith, len, used, pos),
        val
            ∙ ap₂ (λ (p b : ℕ). from_le_bytes (take p w1.buf) + b * 2 ^ (8 * p)) pos bits
            ∙ ap (λ t. from_le_bytes t + w.bits * 2 ^ (8 * w.pos)) front,
      )

  -- What `write_bits` leaves once its assertions hold.
  abbrev written : BitWriter → ℕ → ℕ → BitWriter
  written w v n = let w' = put_field w v n in if leb 32 w'.bits_used then spill grow w' else w'

  written-Extends :
      (w : BitWriter) (v n : ℕ)
      → IsValid w
      → n ≤ 25
      → v < 2 ^ n
      → IsValid (written w v n) × Extends w v n (written w v n)
  written-Extends w v n h hn hv =
      let w' = put_field w v n in
      let r = put_field-IsReady w v n h hn hv in
      let (len, val) = put_field-Extends w v n h hn hv in
      elim (Bool-cases (leb 32 w'.bits_used)) [
        | inl full ↦ let (valid, l, x) = spill_lem w' r in rw full (valid, (l ∙ len, x ∙ val))
        | inr room ↦ rw room (
          record {
            used_lt = leb→gt 32 w'.bits_used room;
            bits_fit = r.bits_fit;
            pos_le = r.pos_le;
            slack = r.slack;
            bytes = r.bytes;
          },
          (len, val),
        )
      ]

  write_bits-eq-written :
      (w : BitWriter) (v n : ℕ)
      → n ≢ 0
      → n ≤ 25
      → v < 2 ^ n
      → write_bits grow w v n ≡ some (written w v n)
  unfolding write_bits
  write_bits-eq-written w v n pos hn hv = ground arith

  write_bits-zero : (w : BitWriter) (v : ℕ) → write_bits grow w v 0 ≡ some w
  unfolding write_bits
  write_bits-zero w v = refl

  -- `write_bits` panics exactly on a width above 25 and on a value too large for a nonzero width.
  pub write_bits-none_iff :
      (w : BitWriter) (v n : ℕ)
      → (write_bits grow w v n ≡ none) ↔ ((25 < n) ⊎ ((0 < n) × (2 ^ n ≤ v)))
  unfolding write_bits
  write_bits-none_iff w v n = ground arith

  -- A field of at most 25 bits whose value fits is written: the writer stays valid, has `n` bits
  -- more, and the field stands above the bits so far.
  pub write_bits-Extends :
      (w : BitWriter) (v n : ℕ)
      → IsValid w
      → n ≤ 25
      → v < 2 ^ n
      → (w' : BitWriter) × (write_bits grow w v n ≡ some w') × IsValid w' × Extends w v n w'
  write_bits-Extends w v zero h hn hv =
      (w, write_bits-zero w v, h, (omega arith, let e : v ≡ 0 = omega arith in rw e (omega arith)))
  write_bits-Extends w v (suc n) h hn hv =
      let (valid, e) = written-Extends w v (suc n) h hn hv in
      (written w v (suc n), write_bits-eq-written w v (suc n) (omega arith) hn hv, valid, e)

-- A fresh writer holds no bits.
empty_writer-IsValid :
    (cap : ℕ)
    → IsValid (empty_writer cap) × (bit_len (empty_writer cap) ≡ 0) × (value (empty_writer cap) ≡ 0)
unfolding empty_writer
empty_writer-IsValid cap = (
  record {
    used_lt = omega arith;
    bits_fit = omega arith;
    pos_le = omega arith;
    slack = omega arith;
    bytes = tt;
  },
  refl,
  refl,
)

pub new_lem :
    (grow : ℕ → ℕ → ℕ) → IsValid (new grow) × (bit_len (new grow) ≡ 0) × (value (new grow) ≡ 0)
unfolding new
new_lem grow = empty_writer-IsValid (reserved grow 0 64)
