-- ===== src/Literals/Fields.antt =====
-- The parts of a header of the literals section as sums.
use zrip.Common.{ℕ, ◌+◌, ◌-◌, ◌*◌, ◌/◌, ◌%◌, ◌^◌, ◌≤◌, ◌<◌, ◌≡◌, ap, ap₂, ◌∙◌, arith}
use zrip.Common.{bit_and, bit_or, List, ◌∷◌, length, ge→ltb, Result}
use zrip.Common.Words.{u8}
use zrip.Common.Bits.{bit_and_mask, bit_or_low}
use zrip.Common.Powers.{add-mul_pow_fields}
use zrip.Literals.{need, both2, both3, both4, both5, lead, low_nibble, split_sizes}

pub need-ok :
    {A : Type 0} (xs : List ℕ) (n : ℕ) (next : Result A) → n ≤ length xs → need xs n next ≡ next
unfolding need
need-ok xs n next h = let long = ge→ltb (length xs) n h in rw long

module _ (v : ℕ) where
  -- The bytes that follow the first hold `v` from bit 4 on.
  abbrev pub Nibble : ℕ → Type 0
  Nibble b0 = b0 / 2 ^ 4 ≡ v % 16

  pub both2_lem : (b0 : ℕ) (xs : List ℕ) → Nibble b0 → both2 (b0 ∷ u8 (v / 2 ^ 4) ∷ xs) ≡ v % 2 ^ 12
  unfolding both2
  both2_lem b0 xs e =
      bit_or_low 4 (b0 / 2 ^ 4) (u8 (v / 2 ^ 4)) (omega (arith, e)) ∙ omega (arith, e)

  pub both3_lem :
      (b0 : ℕ) (xs : List ℕ)
      → Nibble b0
      → both3 (b0 ∷ u8 (v / 2 ^ 4) ∷ u8 (v / 2 ^ 12) ∷ xs) ≡ v % 2 ^ 20
  unfolding both3
  both3_lem b0 xs e =
      ap (λ (t : ℕ). bit_or t (u8 (v / 2 ^ 12) * 2 ^ 12)) (both2_lem b0 (u8 (v / 2 ^ 12) ∷ xs) e)
      ∙ bit_or_low 12 (v % 2 ^ 12) (u8 (v / 2 ^ 12)) (omega arith)
      ∙ omega arith

  pub both4_lem :
      (b0 : ℕ) (xs : List ℕ)
      → Nibble b0
      → both4 (b0 ∷ u8 (v / 2 ^ 4) ∷ u8 (v / 2 ^ 12) ∷ u8 (v / 2 ^ 20) ∷ xs) ≡ v % 2 ^ 28
  unfolding both4
  both4_lem b0 xs e =
      ap (λ (t : ℕ). bit_or t (u8 (v / 2 ^ 20) * 2 ^ 20)) (both3_lem b0 (u8 (v / 2 ^ 20) ∷ xs) e)
      ∙ bit_or_low 20 (v % 2 ^ 20) (u8 (v / 2 ^ 20)) (omega arith)
      ∙ omega arith

  pub both5_lem :
      (b0 : ℕ) (xs : List ℕ)
      → Nibble b0
      → both5 (b0 ∷ u8 (v / 2 ^ 4) ∷ u8 (v / 2 ^ 12) ∷ u8 (v / 2 ^ 20) ∷ u8 (v / 2 ^ 28) ∷ xs)
        ≡ v % 2 ^ 36
  unfolding both5
  both5_lem b0 xs e =
      ap (λ (t : ℕ). bit_or t (u8 (v / 2 ^ 28) * 2 ^ 28)) (both4_lem b0 (u8 (v / 2 ^ 28) ∷ xs) e)
      ∙ bit_or_low 28 (v % 2 ^ 28) (u8 (v / 2 ^ 28)) (omega arith)
      ∙ omega arith

  -- The first byte: the block type, the size format and the low four bits of `v`.
  pub lead_lem : (t f : ℕ) → t < 4 → f < 4 → lead t f v ≡ t + f * 4 + v % 16 * 16
  unfolding lead
  lead_lem t f ht hf =
      let low : bit_and v 0x0F ≡ v % 16 = bit_and_mask 4 v in
      let nib : u8 (u8 (v % 16) * 2 ^ 4) ≡ v % 16 * 2 ^ 4 = omega arith in
      ap (λ (k : ℕ). bit_or (bit_or t (f * 2 ^ 2)) (u8 (u8 k * 2 ^ 4))) low
      ∙ ap₂ bit_or (bit_or_low 2 t f ht) nib
      ∙ bit_or_low 4 (t + f * 2 ^ 2) (v % 16) (omega arith)
      ∙ omega arith

  pub low_nibble_lem : low_nibble v ≡ v % 16 * 2 ^ 4
  unfolding low_nibble
  low_nibble_lem = ap (λ (k : ℕ). u8 (k * 2 ^ 4)) (bit_and_mask 4 (u8 v)) ∙ omega arith

-- Two sizes in one number come apart.
pub split_sizes_lem :
    (regen comp streams header bits : ℕ)
    → regen < 2 ^ bits
    → split_sizes (regen + comp * 2 ^ bits) bits streams header
      ≡ record { regen_size = regen; comp_size = comp; streams = streams; header_size = header }
unfolding split_sizes
split_sizes_lem regen comp streams header bits h =
    let (hi, lo) = add-mul_pow_fields bits regen comp h in
    let mask : bit_and (regen + comp * 2 ^ bits) (1 * 2 ^ bits - 1) ≡ regen =
      ap (λ (t : ℕ). bit_and (regen + comp * 2 ^ bits) (t - 1))
        (let e : 1 * 2 ^ bits ≡ 2 ^ bits = omega arith in e)
      ∙ bit_and_mask bits (regen + comp * 2 ^ bits)
      ∙ lo in
    ap₂
      (λ (a b : ℕ). record {
        regen_size = a;
        comp_size = b;
        streams = streams;
        header_size = header;
      })
      mask hi
