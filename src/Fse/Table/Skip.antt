-- ===== src/Fse/Table/Skip.antt =====
-- The loop that skips the cells of the rare symbols, followed along the walk over the cells.
use zrip.Common.{ℕ, zero, suc, ◌+◌, ◌-◌, ◌*◌, ◌%◌, ◌^◌, ◌<◌, ◌≤◌, ◌≡◌, refl, ap, ◌∙◌}
use zrip.Common.{
  arith, bit_and, true, false, Bool-cases, inl, inr, ◌==◌, ==→eq, ltb, ltb→lt, ltb→ge,
}
use zrip.Common.Powers.{pow_pos, div_mod_unique}
use zrip.Fse.Table.{skip_high}
use zrip.Fse.Table.Cycle.{cell_at, cell_at-suc, cell_at-onto}
use zrip.Fse.Table.Cycle.{steps_to_multiple}

pub skip_high-stop :
    (fuel mask step high position : ℕ)
    → ltb high position ≡ false
    → skip_high (suc fuel) mask step high position ≡ position
unfolding skip_high
skip_high-stop fuel mask step high position e = rw (e, skip_high) refl

skip_high-go :
    (fuel mask step high position : ℕ)
    → ltb high position ≡ true
    → skip_high (suc fuel) mask step high position
      ≡ skip_high fuel mask step high (bit_and (position + step) mask)
unfolding skip_high
skip_high-go fuel mask step high position e = rw (e, skip_high) refl

module _ (n step high : ℕ) (odd : step % 2 ≡ 1) where
  -- The cell `position` is that of the first low step from the `k`-th on.
  pub record First (k position : ℕ) : Type 0 where
    pub steps : ℕ
    pub later : k ≤ steps
    pub at : position ≡ cell_at n step steps
    pub low : cell_at n step steps ≤ high
    pub before : (j : ℕ) → k ≤ j → j < steps → high < cell_at n step j

  later-First :
      (k position : ℕ) → high < cell_at n step k → First (suc k) position → First k position
  later-First k position h f = record {
    steps = f.steps;
    later = omega (arith, f.later);
    at = f.at;
    low = f.low;
    before = λ j a b. elim (Bool-cases (j == k)) [
      | inl e ↦ omega (arith, h, ap (cell_at n step) (==→eq j k e))
      | inr e ↦ f.before j (ground arith) b
    ];
  }

  skip_high-First :
      (fuel k i : ℕ)
      → i < fuel
      → cell_at n step (k + i) ≤ high
      → First k (skip_high fuel (2 ^ n - 1) step high (cell_at n step k))
  skip_high-First zero k i h low = absurd (omega arith)
  skip_high-First (suc fuel) k i h low = elim (Bool-cases (ltb high (cell_at n step k))) [
    | inr e ↦ record {
      steps = k;
      later = omega arith;
      at = skip_high-stop fuel (2 ^ n - 1) step high (cell_at n step k) e;
      low = ltb→ge high (cell_at n step k) e;
      before = λ j a b. absurd (omega arith);
    }
    | inl e ↦
        let past = ltb→lt high (cell_at n step k) e in
        let there : k + i ≡ suc k + (i - 1) = elim (Bool-cases (i == 0)) [
          | inl z ↦ absurd (
              omega (
                arith,
                low,
                past,
                ap (cell_at n step) (let f : k + i ≡ k = omega (arith, ==→eq i 0 z) in f),
              ))
          | inr z ↦ ground arith
        ] in
        rw
          (skip_high-go fuel (2 ^ n - 1) step high (cell_at n step k) e
            ∙ ap (skip_high fuel (2 ^ n - 1) step high) (cell_at-suc n step k))
          (later-First k _ past (
            skip_high-First fuel (suc k) (i - 1) (omega (arith, there, h))
              (omega (arith, low, ap (cell_at n step) there))))
  ]

  -- As much fuel as there are cells is enough.
  pub skip_high-enough :
      (k : ℕ) → First k (skip_high (2 ^ n) (2 ^ n - 1) step high (cell_at n step k))
  skip_high-enough k =
      let (i, q, small, e) = steps_to_multiple n step (k * step) odd in
      let zero_cell : cell_at n step (k + i) ≡ 0 =
        (div_mod_unique (2 ^ n) q 0 ((k + i) * step) (pow_pos n) (omega (arith, e))).1 in
      skip_high-First (2 ^ n) k i small (omega (arith, zero_cell))

  -- The loop ends at a cell that is not above `high`.
  pub skip_high-low :
      (position : ℕ) → position < 2 ^ n → skip_high (2 ^ n) (2 ^ n - 1) step high position ≤ high
  skip_high-low position h =
      let (k, small, e) = cell_at-onto n step position odd h in
      let f = skip_high-enough k in
      omega (arith, f.at, f.low, ap (skip_high (2 ^ n) (2 ^ n - 1) step high) e)
