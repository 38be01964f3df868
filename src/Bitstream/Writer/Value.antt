-- ===== src/Bitstream/Writer/Value.antt =====
-- What a `BitWriter` holds, as one number: the invariant, and what each operation does to it.
use zrip.Common.{ℕ, ◌+◌, ◌*◌, ◌^◌, ◌≤◌, ◌<◌, ◌≡◌, refl, ap, ◌∙◌}
use zrip.Common.{List, ◌++◌, length, take, arith, bit_or}
use zrip.Common.{ltb, if◌then◌else◌, Bool-cases, inl, inr, ltb→ge}
use zrip.Common.{resize, length-resize, take-resize, length-copy_from_slice}
use zrip.Common.{take-copy_from_slice_le, All-resize, All-copy_from_slice}
use zrip.Common.Bytes.{IsByte, IsBytes, from_le_bytes, to_le_bytes, length-to_le_bytes}
use zrip.Common.Bytes.{to_le_bytes-IsBytes}
use zrip.Common.Bits.{bit_or_low}
use zrip.Common.Powers.{pow-add, pow_mono, pow_pos}
use native.Mathlib.Nat.{mod-eq_of_lt}
use zrip.Bitstream.Writer.{BitWriter, write_u64_le, ensure_capacity, put_field}

-- Fewer than `room` bits wait, and the vector holds the bytes below `pos` and eight more at most.
pub record IsReady (room : ℕ) (w : BitWriter) : Type 0 where
  pub used_lt : w.bits_used < room
  pub bits_fit : w.bits < 2 ^ w.bits_used
  pub pos_le : w.pos ≤ length w.buf
  pub slack : length w.buf ≤ w.pos + 8
  pub bytes : IsBytes w.buf

-- Between calls fewer than 32 bits wait.
abbrev pub IsValid : BitWriter → Type 0
IsValid = IsReady 32

abbrev pub bit_len : BitWriter → ℕ
bit_len w = 8 * w.pos + w.bits_used

-- All bits written so far, the first one lowest.
abbrev pub value : BitWriter → ℕ
value w = from_le_bytes (take w.pos w.buf) + w.bits * 2 ^ (8 * w.pos)

-- `w'` is `w` with `n` more bits, those of `v`.
abbrev pub Extends : BitWriter → ℕ → ℕ → BitWriter → Type 0
Extends w v n w' = (bit_len w' ≡ bit_len w + n) × (value w' ≡ value w + v * 2 ^ bit_len w)

field_shift :
    (w : BitWriter) (v n : ℕ) → w.bits_used < 32 → n ≤ 25 → v < 2 ^ n → v * 2 ^ w.bits_used < 2 ^ 57
field_shift w v n hu hn hv =
    let small : 2 ^ n * 2 ^ w.bits_used ≤ 2 ^ 57 =
      omega (arith, pow-add n w.bits_used, pow_mono (n + w.bits_used) 57 (omega arith)) in
    grind (arith, pow_pos w.bits_used)

module _ (w : BitWriter) (v n : ℕ) (h : IsValid w) (hn : n ≤ 25) (hv : v < 2 ^ n) where
  put_field-bits : (put_field w v n).bits ≡ w.bits + v * 2 ^ w.bits_used
  unfolding put_field
  put_field-bits =
      let lt : v * 2 ^ w.bits_used < 2 ^ 57 = field_shift w v n h.used_lt hn hv in
      ap (bit_or w.bits) (mod-eq_of_lt {n = v * 2 ^ w.bits_used} {m = 2 ^ 64} (omega arith))
      ∙ bit_or_low w.bits_used w.bits v h.bits_fit

  put_field-used : (put_field w v n).bits_used ≡ w.bits_used + n
  unfolding put_field
  put_field-used = omega arith

  put_field-bits_fit : (put_field w v n).bits < 2 ^ (put_field w v n).bits_used
  put_field-bits_fit =
      let top : 2 ^ (put_field w v n).bits_used ≡ 2 ^ w.bits_used * 2 ^ n =
        ap (λ (t : ℕ). 2 ^ t) put_field-used ∙ pow-add w.bits_used n in
      let below : w.bits + v * 2 ^ w.bits_used < 2 ^ w.bits_used * 2 ^ n = grind arith in
      omega (arith, put_field-bits, top)

  pub put_field-IsReady : IsReady 57 (put_field w v n)
  unfolding put_field
  put_field-IsReady = record {
    used_lt = omega (arith, put_field-used);
    bits_fit = put_field-bits_fit;
    pos_le = h.pos_le;
    slack = h.slack;
    bytes = h.bytes;
  }

  pub put_field-Extends : Extends w v n (put_field w v n)
  unfolding put_field
  put_field-Extends = (
    omega (arith, put_field-used),
    omega (
      arith,
      ap (λ (t : ℕ). t * 2 ^ (8 * w.pos)) put_field-bits,
      ap (λ (t : ℕ). v * t) (pow-add (8 * w.pos) w.bits_used),
    ),
  )

module _ (grow : ℕ → ℕ → ℕ) where
  -- Making room drops only bytes past `pos`.
  pub ensure_capacity_lem :
      (w : BitWriter) {room : ℕ}
      → IsReady room w
      → IsReady room (ensure_capacity grow w)
        × (take w.pos (ensure_capacity grow w).buf ≡ take w.pos w.buf)
        × ((ensure_capacity grow w).bits ≡ w.bits)
        × ((ensure_capacity grow w).bits_used ≡ w.bits_used)
        × ((ensure_capacity grow w).pos ≡ w.pos)
  unfolding ensure_capacity
  ensure_capacity_lem w h = elim (Bool-cases (ltb w.capacity (w.pos + 8))) [
    | inr e ↦ rw e (h, refl, refl, refl, refl)
    | inl e ↦ rw e (
      record {
        used_lt = h.used_lt;
        bits_fit = h.bits_fit;
        pos_le = omega (arith, length-resize w.buf w.pos 0);
        slack = omega (arith, length-resize w.buf w.pos 0);
        bytes = All-resize IsByte w.buf w.pos 0 (omega arith) h.bytes;
      },
      take-resize w.buf w.pos w.pos 0 (omega arith) h.pos_le,
      refl,
      refl,
      refl,
    )
  ]

-- The eight bytes written at `pos`.
module _ (w : BitWriter) {room : ℕ} (h : IsReady room w) where
  abbrev grown : List ℕ
  grown = if ltb (length w.buf) (w.pos + 8) then resize w.buf (w.pos + 8) 0 else w.buf

  grown_lem : (length grown ≡ w.pos + 8) × (take w.pos grown ≡ take w.pos w.buf) × IsBytes grown
  grown_lem = elim (Bool-cases (ltb (length w.buf) (w.pos + 8))) [
    | inl e ↦ rw e (
      length-resize w.buf (w.pos + 8) 0,
      take-resize w.buf w.pos (w.pos + 8) 0 (omega arith) h.pos_le,
      All-resize IsByte w.buf (w.pos + 8) 0 (omega arith) h.bytes,
    )
    | inr e ↦ rw e (omega (arith, h.slack, ltb→ge (length w.buf) (w.pos + 8) e), refl, h.bytes)
  ]

  pub write_u64_le_lem :
      (k val : ℕ)
      → k ≤ 8
      → (length (write_u64_le w.buf w.pos val) ≡ w.pos + 8)
        × IsBytes (write_u64_le w.buf w.pos val)
        × (take (w.pos + k) (write_u64_le w.buf w.pos val)
            ≡ take w.pos w.buf ++ take k (to_le_bytes 8 val))
  unfolding write_u64_le
  write_u64_le_lem k val hk = (
    length-copy_from_slice grown w.pos (to_le_bytes 8 val)
          (omega (arith, grown_lem.0, length-to_le_bytes 8 val))
        ∙ grown_lem.0,
    All-copy_from_slice IsByte grown w.pos (to_le_bytes 8 val) grown_lem.2
        (to_le_bytes-IsBytes 8 val),
    take-copy_from_slice_le grown w.pos k (to_le_bytes 8 val)
          (omega (arith, length-to_le_bytes 8 val)) (omega (arith, grown_lem.0))
        ∙ ap (λ t. t ++ take k (to_le_bytes 8 val)) grown_lem.1,
  )
