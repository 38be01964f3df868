-- ===== src/Bitstream/Reader/Fields.antt =====
-- What `BitReader` returns, by the number that its bytes spell.
use zrip.Common.{ℕ, zero, suc, ◌+◌, ◌-◌, ◌*◌, ◌/◌, ◌%◌, ◌^◌, ◌≤◌, ◌<◌, ◌≡◌, refl, sym, ap, ◌∙◌}
use zrip.Common.{List, length, drop, replicate, arith, bit_and, copy_from_slice}
use zrip.Common.{Bool-cases, inl, inr, leb, leb→gt, length-drop, All-drop}
use zrip.Common.{ok, err, input_exhausted, ◌==◌, ==→eq, ge→ltb}
use zrip.Common.Bytes.{IsByte, IsBytes, from_le_bytes, from_le_bytes-append, from_le_bytes-take}
use zrip.Common.Bytes.{from_le_bytes-drop, from_le_bytes-lt_pow}
use zrip.Common.Words.{u32}
use zrip.Common.Bits.{bit_and_mask}
use zrip.Common.Powers.{pow_mono, mod-div-mod_pow, div-div_pow, pow_pos}
use native.Mathlib.Nat.{mod-eq_of_lt, mod-lt, mod-one}
use zrip.Bitstream.Reader.{BitReader, bits_consumed, bits_remaining, load_u64, window_at, read_bits}

pub record IsValid (r : BitReader) : Type 0 where
  pub bytes : IsBytes r.source
  pub bit_pos_lt : r.bit_pos < 8
  pub inside : bits_consumed r ≤ 8 * length r.source

-- The data as one number.
abbrev pub number : BitReader → ℕ
number r = from_le_bytes r.source

from_le_bytes-zeros : (n : ℕ) → from_le_bytes (replicate n 0) ≡ 0
from_le_bytes-zeros zero = refl
from_le_bytes-zeros (suc n) = omega (arith, from_le_bytes-zeros n)

drop-replicate : (n m : ℕ) → drop {A = ℕ} m (replicate n 0) ≡ replicate (n - m) 0
drop-replicate n zero = ap (λ (k : ℕ). replicate k 0) (let e : n ≡ n - 0 = omega arith in e)
drop-replicate zero (suc m) =
    ap (λ (k : ℕ). replicate k 0) (let e : 0 ≡ 0 - suc m = omega arith in e)
drop-replicate (suc n) (suc m) =
    drop-replicate n m
    ∙ ap (λ (k : ℕ). replicate k 0) (let e : n - m ≡ suc n - suc m = omega arith in e)

-- A short tail in a zeroed buffer spells the tail.
padded_value :
    (xs : List ℕ) → from_le_bytes (copy_from_slice (replicate 8 0) 0 xs) ≡ from_le_bytes xs
unfolding copy_from_slice
padded_value xs = omega (
  arith,
  from_le_bytes-append xs (drop (0 + length xs) (replicate 8 0)),
  ap (λ (t : List ℕ). 2 ^ (8 * length xs) * from_le_bytes t) (drop-replicate 8 (0 + length xs)),
  ap (λ (t : ℕ). 2 ^ (8 * length xs) * t) (from_le_bytes-zeros (8 - (0 + length xs))),
)

load_u64_lem :
    (r : BitReader) (byte : ℕ)
    → IsBytes r.source
    → load_u64 r byte ≡ number r / 2 ^ (8 * byte) % 2 ^ 64
unfolding load_u64
load_u64_lem r byte h =
    let tail : List ℕ = drop byte r.source in
    let bytes : IsBytes tail = All-drop IsByte byte r.source h in
    elim (Bool-cases (leb (byte + 8) (length r.source))) [
      | inl e ↦ rw e (
          from_le_bytes-take 8 tail bytes
          ∙ ap (λ (t : ℕ). t % 2 ^ 64) (from_le_bytes-drop byte r.source h))
      | inr e ↦
          let short : length tail ≤ 7 =
            omega (arith, length-drop byte r.source, leb→gt (byte + 8) (length r.source) e) in
          let fits : from_le_bytes tail < 2 ^ 64 =
            omega (
              arith,
              from_le_bytes-lt_pow tail bytes,
              pow_mono (8 * length tail) 56 (omega arith),
            ) in
          rw e (
            padded_value tail
            ∙ sym (mod-eq_of_lt fits)
            ∙ ap (λ (t : ℕ). t % 2 ^ 64) (from_le_bytes-drop byte r.source h))
    ]

-- `window_at bit`: up to 57 bits of the data from `bit` on.
pub window_at_lem :
    (r : BitReader) (bit n : ℕ)
    → IsBytes r.source
    → n ≤ 57
    → window_at r bit % 2 ^ n ≡ number r / 2 ^ bit % 2 ^ n
unfolding window_at
window_at_lem r bit n h hn =
    ap (λ (t : ℕ). t / 2 ^ (bit % 8) % 2 ^ n) (load_u64_lem r (bit / 8) h)
    ∙ mod-div-mod_pow 64 (bit % 8) n (number r / 2 ^ (8 * (bit / 8))) (omega arith)
    ∙ ap (λ (t : ℕ). t % 2 ^ n) (div-div_pow (8 * (bit / 8)) (bit % 8) (number r))
    ∙ ap (λ (t : ℕ). number r / 2 ^ t % 2 ^ n)
        (let e : 8 * (bit / 8) + bit % 8 ≡ bit = omega arith in e)

module _ (r : BitReader) (n : ℕ) (h : IsValid r) (hn : n ≤ 25) where
  field_eq :
      u32 (bit_and (load_u64 r r.pos / 2 ^ r.bit_pos) (1 * 2 ^ n - 1))
      ≡ number r / 2 ^ bits_consumed r % 2 ^ n
  field_eq =
      let start : ℕ = bits_consumed r in
      let field : bit_and (load_u64 r r.pos / 2 ^ r.bit_pos) (1 * 2 ^ n - 1)
          ≡ number r / 2 ^ start % 2 ^ n =
        ap (λ (t : ℕ). bit_and (load_u64 r r.pos / 2 ^ r.bit_pos) (t - 1))
          (let e : 1 * 2 ^ n ≡ 2 ^ n = omega arith in e)
        ∙ bit_and_mask n (load_u64 r r.pos / 2 ^ r.bit_pos)
        ∙ ap (λ (t : ℕ). t / 2 ^ r.bit_pos % 2 ^ n) (load_u64_lem r r.pos h.bytes)
        ∙ mod-div-mod_pow 64 r.bit_pos n (number r / 2 ^ (8 * r.pos)) (omega (arith, h.bit_pos_lt))
        ∙ ap (λ (t : ℕ). t % 2 ^ n) (div-div_pow (8 * r.pos) r.bit_pos (number r))
        ∙ ap (λ (t : ℕ). number r / 2 ^ t % 2 ^ n)
            (let e : 8 * r.pos + r.bit_pos ≡ start = omega arith in e) in
      let small : number r / 2 ^ start % 2 ^ n < 2 ^ 32 =
        omega (arith, mod-lt (number r / 2 ^ start) (pow_pos n), pow_mono n 25 hn) in
      ap u32 field ∙ mod-eq_of_lt small

  abbrev after : BitReader
  after = record r { pos = r.pos + (r.bit_pos + n) / 8; bit_pos = (r.bit_pos + n) % 8 % 2 ^ 8 }

  after-IsValid :
      bits_consumed r + n ≤ 8 * length r.source
      → (bits_consumed after ≡ bits_consumed r + n) × IsValid after
  after-IsValid room =
      (omega arith, record { bytes = h.bytes; bit_pos_lt = omega arith; inside = omega arith })

  -- Where `n` bits are left, they are returned and the position moves past them.
  pub read_bits-ok :
      bits_consumed r + n ≤ 8 * length r.source
      → (r' : BitReader) × (read_bits r n ≡ ok (number r / 2 ^ bits_consumed r % 2 ^ n, r'))
        × (r'.source ≡ r.source)
        × (bits_consumed r' ≡ bits_consumed r + n)
        × IsValid r'
  unfolding read_bits
  read_bits-ok room = elim (Bool-cases (n == 0)) [
    | inl e ↦
        let z : n ≡ 0 = ==→eq n 0 e in
        (
          r,
          rw e (
              ap (λ (t : ℕ). ok (t, r))
                (sym (
                  ap (λ (k : ℕ). number r / 2 ^ bits_consumed r % 2 ^ k) z
                  ∙ mod-one (number r / 2 ^ bits_consumed r)))),
          refl,
          omega (arith, z),
          h,
        )
    | inr e ↦
        let enough = ge→ltb (bits_remaining r) n (omega arith) in
        let (moved, valid) = after-IsValid room in
        (after, rw (e, enough) (ap (λ (t : ℕ). ok (t, after)) field_eq), refl, moved, valid)
  ]

  -- Otherwise the reader says so.
  pub read_bits-exhausted :
      8 * length r.source < bits_consumed r + n → read_bits r n ≡ err input_exhausted
  unfolding read_bits
  read_bits-exhausted short = ground (arith, h.inside)
