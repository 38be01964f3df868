-- ===== src/Fse/Table/Cycle.antt =====
-- The walk over the cells of a table: an odd step visits every cell of a table of `2 ^ n` cells.
use zrip.Common.{ℕ, zero, suc, ◌+◌, ◌-◌, ◌*◌, ◌/◌, ◌%◌, ◌^◌, ◌<◌, ◌≤◌, ◌≡◌, sym, ap, ◌∙◌}
use zrip.Common.{arith, bit_and, Bool-cases, inl, inr, ◌⊎◌, ◌==◌, ==→eq}
use zrip.Common.Bits.{bit_and_mask}
use zrip.Common.Powers.{pow_pos, div_mod_unique}
use native.Mathlib.Nat.{pow-suc, div-add-mod, mod-lt}

parity : (k : ℕ) → (k % 2 ≡ 0) ⊎ (k % 2 ≡ 1)
parity k = elim (Bool-cases (k % 2 == 0)) [
  | inl e ↦ inl (==→eq (k % 2) 0 e)
  | inr e ↦ inr (ground arith)
]

-- From any place, some number of steps below `2 ^ n` leads to a multiple of `2 ^ n`.
pub steps_to_multiple :
    (n s p : ℕ) → s % 2 ≡ 1 → (k : ℕ) × (q : ℕ) × (k < 2 ^ n) × (p + k * s ≡ 2 ^ n * q)
steps_to_multiple zero s p odd = (0, p, omega arith, omega arith)
steps_to_multiple (suc n) s p odd =
    let (k, q, small, e) = steps_to_multiple n s p odd in
    elim (parity q) [
      | inl even ↦ (
        k,
        q / 2,
        omega (arith, pow-suc 2 n, small),
        omega (
          arith,
          e,
          ap (λ (t : ℕ). t * (q / 2)) (pow-suc 2 n),
          ap (λ (t : ℕ). 2 ^ n * t) (let f : q ≡ 2 * (q / 2) = omega arith in f),
        ),
      )
      | inr uneven ↦ (
        k + 2 ^ n,
        (q + s) / 2,
        omega (arith, pow-suc 2 n, small),
        omega (
          arith,
          e,
          ap (λ (t : ℕ). t * ((q + s) / 2)) (pow-suc 2 n),
          ap (λ (t : ℕ). 2 ^ n * t) (let f : q + s ≡ 2 * ((q + s) / 2) = omega arith in f),
        ),
      )
    ]

even_factor : (k s m : ℕ) → s % 2 ≡ 1 → k * s ≡ 2 * m → (k ≡ 2 * (k / 2)) × (k / 2 * s ≡ m)
even_factor k s m odd e =
    let split : k * s ≡ 2 * (k / 2 * s) + k % 2 * s =
      ap (λ (t : ℕ). t * s) (let f : k ≡ 2 * (k / 2) + k % 2 = omega arith in f) ∙ omega arith in
    elim (parity k) [
      | inl even ↦ (omega (arith, even), omega (arith, e, split, ap (λ (t : ℕ). t * s) even))
      | inr uneven ↦ absurd (omega (arith, e, split, odd, ap (λ (t : ℕ). t * s) uneven))
    ]

-- A multiple of `2 ^ n` is reached after a multiple of `2 ^ n` steps only.
pub steps_of_multiple : (n s k q : ℕ) → s % 2 ≡ 1 → k * s ≡ 2 ^ n * q → (r : ℕ) × (k ≡ 2 ^ n * r)
steps_of_multiple zero s k q odd e = (k, omega arith)
steps_of_multiple (suc n) s k q odd e =
    let (even, half) =
      even_factor k s (2 ^ n * q) odd (omega (arith, e, ap (λ (t : ℕ). t * q) (pow-suc 2 n))) in
    let (r, f) = steps_of_multiple n s (k / 2) q odd half in
    (r, omega (arith, even, f, ap (λ (t : ℕ). t * r) (pow-suc 2 n)))

-- The cell after `k` steps, and the step from it in the code.
abbrev pub cell_at : ℕ → ℕ → ℕ → ℕ
cell_at n s k = k * s % 2 ^ n

pub cell_at-lt : (n s k : ℕ) → cell_at n s k < 2 ^ n
cell_at-lt n s k = mod-lt (k * s) (pow_pos n)

pub cell_at-suc : (n s k : ℕ) → bit_and (cell_at n s k + s) (2 ^ n - 1) ≡ cell_at n s (suc k)
cell_at-suc n s k =
    bit_and_mask n (cell_at n s k + s)
    ∙ sym
        (div_mod_unique (2 ^ n) (k * s / 2 ^ n + (k * s % 2 ^ n + s) / 2 ^ n) _ (suc k * s)
          (mod-lt (k * s % 2 ^ n + s) (pow_pos n))
          (omega (arith, div-add-mod (k * s) (2 ^ n), div-add-mod (k * s % 2 ^ n + s) (2 ^ n)))).1

-- Every cell is that of some number of steps below `2 ^ n`.
pub cell_at-onto : (n s c : ℕ) → s % 2 ≡ 1 → c < 2 ^ n → (k : ℕ) × (k < 2 ^ n) × (cell_at n s k ≡ c)
cell_at-onto n s c odd h =
    let (k, q, small, e) = steps_to_multiple n s (2 ^ n - c) odd in
    let below : 0 < q = elim (Bool-cases (q == 0)) [
      | inl z ↦ absurd (omega (arith, e, ap (λ (t : ℕ). 2 ^ n * t) (==→eq q 0 z)))
      | inr z ↦ ground arith
    ] in
    let f : k * s ≡ 2 ^ n * (q - 1) + c =
      omega (arith, e, ap (λ (t : ℕ). 2 ^ n * t) (let g : q ≡ q - 1 + 1 = omega arith in g)) in
    (k, small, (div_mod_unique (2 ^ n) (q - 1) c (k * s) h f).1)

-- Back at cell 0 after some steps, every number below `2 ^ n` was passed.
pub cell_at-zero : (n s k : ℕ) → s % 2 ≡ 1 → 0 < k → cell_at n s k ≡ 0 → 2 ^ n ≤ k
cell_at-zero n s k odd p e =
    let (r, f) =
      steps_of_multiple n s k (k * s / 2 ^ n) odd (omega (arith, div-add-mod (k * s) (2 ^ n), e)) in
    elim (Bool-cases (r == 0)) [
      | inl z ↦ absurd (omega (arith, f, ap (λ (t : ℕ). 2 ^ n * t) (==→eq r 0 z)))
      | inr z ↦
          let g : r ≡ r - 1 + 1 = ground arith in omega (arith, f, ap (λ (t : ℕ). 2 ^ n * t) g)
    ]
