-- ===== src/Common/Powers.antt =====
-- Powers of two: fields of bits as quotients and remainders.
use Prim.Native.Nat.{ℕ, zero, suc, ◌+◌, ◌-◌, ◌*◌, ◌/◌, ◌%◌, ◌^◌, ◌≤◌, ◌<◌}
use mathlib.Core.Path.{◌≡◌, refl, sym, ap, ◌∙◌}
use mathlib.Core.Logic.{inl, inr}
use native.Mathlib.Omega.{arith}
use native.Mathlib.Decide.{dec_lt}
use zrip.Common.Tests.{leb, Bool-cases, leb→le, leb→gt}
use zrip.Common.Words.{leading_zeros}
use native.Mathlib.Nat.{pow-suc, one-le-pow, mod-lt, mod-eq_of_lt}
use native.Mathlib.Nat.{div-add-mod, mul-add-mod_self_left, div-div-eq-div-mul, mul-add-div}
use native.Mathlib.Nat.{div-eq_of_lt}

pub pow_pos : (k : ℕ) → 0 < 2 ^ k
pow_pos k = one-le-pow k 2 (omega arith)

pub pow_cong : (a b : ℕ) → a ≡ b → 2 ^ a ≡ 2 ^ b
pow_cong a b e = ap (λ (t : ℕ). 2 ^ t) e

pub pow-add : (a b : ℕ) → 2 ^ (a + b) ≡ 2 ^ a * 2 ^ b
pow-add a zero = ap (λ (t : ℕ). 2 ^ t) (let e : a + 0 ≡ a = omega arith in e) ∙ omega arith
pow-add a (suc b) = omega (
  arith,
  ap (λ (t : ℕ). 2 ^ t) (let e : a + suc b ≡ suc (a + b) = omega arith in e),
  pow-suc 2 (a + b),
  pow-suc 2 b,
  pow-add a b,
  ap (λ (t : ℕ). 2 ^ a * t) (pow-suc 2 b),
)

pub pow_mono : (a b : ℕ) → a ≤ b → 2 ^ a ≤ 2 ^ b
pow_mono a b h =
    let e : 2 ^ b ≡ 2 ^ a * 2 ^ (b - a) =
      ap (λ (t : ℕ). 2 ^ t) (let f : b ≡ a + (b - a) = omega arith in f) ∙ pow-add a (b - a) in
    grind (arith, pow_pos (b - a))

pub pow_256 : (k : ℕ) → 256 ^ k ≡ 2 ^ (8 * k)
pow_256 zero = refl
pow_256 (suc k) = omega (
  arith,
  pow-suc 256 k,
  pow_256 k,
  ap (λ (t : ℕ). 2 ^ t) (let e : 8 * suc k ≡ 8 * k + 8 = omega arith in e),
  pow-add (8 * k) 8,
)

-- A quotient and a remainder, named by their equation.
pub div_mod_unique : (m q r x : ℕ) → r < m → x ≡ m * q + r → (x / m ≡ q) × (x % m ≡ r)
div_mod_unique m q r x h e = (
  ap (λ (t : ℕ). t / m) e ∙ mul-add-div (omega arith) q r ∙ omega (arith, div-eq_of_lt h),
  ap (λ (t : ℕ). t % m) e ∙ mul-add-mod_self_left m q r ∙ mod-eq_of_lt h,
)

-- The field of `x` above the lowest part, inside a larger remainder.
pub mod-mul_fields :
    (a b x : ℕ) → 0 < a → 0 < b → (x % (a * b) / a ≡ x / a % b) × (x % (a * b) % a ≡ x % a)
mod-mul_fields a b x pa pb =
    let low : ℕ = x % a in
    let mid : ℕ = x / a % b in
    let high : ℕ = x / a / b in
    let bound : a * mid + low < a * b = grind (arith, mod-lt x pa, mod-lt (x / a) pb) in
    let split : x ≡ a * b * high + (a * mid + low) =
      omega (arith, div-add-mod x a, ap (λ (t : ℕ). a * t) (div-add-mod (x / a) b)) in
    let rem : x % (a * b) ≡ a * mid + low =
      (div_mod_unique (a * b) high (a * mid + low) x bound split).1 in
    div_mod_unique a mid low (x % (a * b)) (mod-lt x pa) rem

-- Bits `b..b + n` of a word that keeps the lowest `w` bits of `x`.
pub mod-div-mod_pow : (w b n x : ℕ) → b + n ≤ w → x % 2 ^ w / 2 ^ b % 2 ^ n ≡ x / 2 ^ b % 2 ^ n
mod-div-mod_pow w b n x h =
    let c : ℕ = w - b - n in
    let e : 2 ^ w ≡ 2 ^ b * (2 ^ n * 2 ^ c) =
      ap (λ (t : ℕ). 2 ^ t) (let f : w ≡ b + (n + c) = omega arith in f)
      ∙ pow-add b (n + c)
      ∙ ap (λ (t : ℕ). 2 ^ b * t) (pow-add n c) in
    ap (λ (t : ℕ). x % t / 2 ^ b % 2 ^ n) e
    ∙ ap (λ (t : ℕ). t % 2 ^ n)
        (mod-mul_fields (2 ^ b) (2 ^ n * 2 ^ c) x (pow_pos b)
          (grind (arith, pow_pos n, pow_pos c))).0
    ∙ (mod-mul_fields (2 ^ n) (2 ^ c) (x / 2 ^ b) (pow_pos n) (pow_pos c)).1

pub div-div_pow : (a b x : ℕ) → x / 2 ^ a / 2 ^ b ≡ x / 2 ^ (a + b)
div-div_pow a b x = div-div-eq-div-mul x (2 ^ a) (2 ^ b) ∙ ap (λ (t : ℕ). x / t) (sym (pow-add a b))

-- A field written above the lowest `k` bits.
pub add-mul_pow_fields :
    (k low high : ℕ)
    → low < 2 ^ k
    → ((low + high * 2 ^ k) / 2 ^ k ≡ high) × ((low + high * 2 ^ k) % 2 ^ k ≡ low)
add-mul_pow_fields k low high h =
    div_mod_unique (2 ^ k) high low (low + high * 2 ^ k) h (omega arith)

-- `leading_zeros` gives the highest set bit of a word.
pub leading_zeros_lem :
    (width x : ℕ)
    → 0 < x
    → x < 2 ^ width
    → (leading_zeros width x < width)
      × (2 ^ (width - 1 - leading_zeros width x) ≤ x)
      × (x < 2 ^ (width - leading_zeros width x))
unfolding leading_zeros
leading_zeros_lem zero x p h = absurd (omega arith)
leading_zeros_lem (suc width) x p h = elim (Bool-cases (leb (2 ^ width) x)) [
  | inl e ↦ rw e (
    omega arith,
    omega (arith, leb→le (2 ^ width) x e, pow_cong (suc width - 1 - 0) width (omega arith)),
    omega (arith, h, pow_cong (suc width - 0) (suc width) (omega arith)),
  )
  | inr e ↦
      let (a, b, c) = leading_zeros_lem width x p (leb→gt (2 ^ width) x e) in
      let z : ℕ = leading_zeros width x in
      rw e (
        omega (arith, a),
        omega (arith, b, pow_cong (suc width - 1 - suc z) (width - 1 - z) (omega arith)),
        omega (arith, c, pow_cong (suc width - suc z) (width - z) (omega arith)),
      )
]

-- The highest set bit is unique.
pub top_bit_unique : (a b x : ℕ) → 2 ^ a ≤ x → x < 2 ^ suc a → 2 ^ b ≤ x → x < 2 ^ suc b → a ≡ b
top_bit_unique a b x la ua lb ub = elim (dec_lt a b) [
  | yes p ↦ absurd (omega (arith, pow_mono (suc a) b p))
  | no p ↦ elim (dec_lt b a) [
    | yes q ↦ absurd (omega (arith, pow_mono (suc b) a q))
    | no q ↦ omega arith
  ]
]
