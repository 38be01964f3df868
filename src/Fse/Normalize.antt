-- ===== src/Fse/Normalize.antt =====
-- The cells that the distribution of `normalize_counts` takes.
use zrip.Common.{ℕ, zero, suc, ◌+◌, ◌-◌, ◌*◌, ◌/◌, ◌^◌, ◌≤◌, ◌<◌, ◌≡◌, refl, ap, ◌∙◌, arith, ◌||◌}
use zrip.Common.{
  get_or, List, [], ◌∷◌, length, set, replicate, length-set, length-replicate, Bool-cases, inl, inr,
}
use zrip.Common.{Bool, true, false, not, ◌&&◌, leb, ltb, ◌==◌, leb→gt}
use zrip.Common.Powers.{pow_pos}
use zrip.Common.Integers.{ℤ, pos, negsuc}
use zrip.Fse.{total, largest_from, share, give, normalize_counts}

-- The cells that a probability takes: its size.
abbrev pub cells_of : ℤ → ℕ
cells_of (pos n) = n
cells_of (negsuc n) = n + 1

abbrev pub cells : List ℤ → ℕ
cells [] = 0
cells (p ∷ ps) = cells_of p + cells ps

cells-zeros : (n : ℕ) → cells (replicate n (pos 0)) ≡ 0
cells-zeros zero = refl
cells-zeros (suc n) = omega (arith, cells-zeros n)

get_zeros : (n i : ℕ) → get_or (replicate n (pos 0)) i (pos 0) ≡ pos 0
get_zeros zero i = refl
get_zeros (suc n) zero = refl
get_zeros (suc n) (suc i) = get_zeros n i

cells-set :
    (ps : List ℤ) (i : ℕ) (v : ℕ)
    → i < length ps
    → get_or ps i (pos 0) ≡ pos 0
    → cells (set ps i (pos v)) ≡ cells ps + v
cells-set [] i v h z = absurd (omega arith)
cells-set (p ∷ ps) zero v h z = omega (arith, ap cells_of z)
cells-set (p ∷ ps) (suc i) v h z = omega (arith, cells-set ps i v (omega arith) z)

module _ (table_size sum largest : ℕ) where
  -- What the loop returns from symbol `i` with `d` cells gone: as many probabilities as counts, for
  -- all the cells given out since, and within the budget.
  record Shared (i d : ℕ) (fs : List ℕ) (out : List ℤ × ℕ) : Type 0 where
    long : length out.0 ≡ length fs
    spent : cells out.0 + d ≡ out.1
    within : out.1 ≤ table_size - 1
    hole : (j : ℕ) → i + j ≡ largest → get_or out.0 j (pos 0) ≡ pos 0

  cons-Shared :
      (i d d' f : ℕ) (fs : List ℕ) (p : ℤ) (out : List ℤ × ℕ)
      → d' ≡ d + cells_of p
      → (i ≡ largest → p ≡ pos 0)
      → Shared (i + 1) d' fs out
      → Shared i d (f ∷ fs) (p ∷ out.0, out.1)
  cons-Shared i d d' f fs p out e z s = record {
    long = ap suc s.long;
    spent = omega (arith, s.spent, e);
    within = s.within;
    hole = hole_at i d' fs p out z s;
  }
    where
      hole_at :
          (i d' : ℕ) (fs : List ℕ) (p : ℤ) (out : List ℤ × ℕ)
          → (i ≡ largest → p ≡ pos 0)
          → Shared (i + 1) d' fs out
          → (j : ℕ) → i + j ≡ largest
          → get_or (p ∷ out.0) j (pos 0) ≡ pos 0
      hole_at i d' fs p out z s zero q = z (omega (arith, q))
      hole_at i d' fs p out z s (suc j) q = s.hole j (omega (arith, q))

  -- A symbol takes what its probability says, within the budget, and the largest one nothing.
  give-cells :
      (skip : Bool) (prob d : ℕ)
      → d ≤ table_size - 1
      → (not skip && leb (table_size - 1) d) ≡ false
      → ((give (table_size - 1) skip prob d).1 ≡ d + cells_of (give (table_size - 1) skip prob d).0)
        × ((give (table_size - 1) skip prob d).1 ≤ table_size - 1)
        × (skip ≡ true → (give (table_size - 1) skip prob d).0 ≡ pos 0)
  unfolding give
  give-cells true prob d h e = (omega arith, h, λ q. refl)
  give-cells false prob d h e = elim (Bool-cases (ltb prob 1)) [
    | inl t ↦ rw t (omega arith, omega (arith, leb→gt _ _ e), λ q. absurd (ground (arith, q)))
    | inr t ↦ rw t (omega arith, omega (arith, h), λ q. absurd (ground (arith, q)))
  ]

  share-Shared :
      (i d : ℕ) (fs : List ℕ)
      → d ≤ table_size - 1
      → Shared i d fs (share table_size sum largest i d fs)
  unfolding share
  share-Shared i d [] h = record {
    long = refl;
    spent = omega arith;
    within = h;
    hole = λ j q. refl;
  }
  share-Shared i d (f ∷ fs) h =
      let skip : Bool = f == 0 || i == largest in
      let prob : ℕ = f * table_size / sum in
      elim (Bool-cases (not skip && leb (table_size - 1) d)) [
        | inl e ↦ rw e (record {
          long = length-replicate (suc (length fs)) (pos 0);
          spent = omega (arith, cells-zeros (suc (length fs)));
          within = h;
          hole = λ j q. get_zeros (suc (length fs)) j;
        })
        | inr e ↦
            let (taken, within, none_) = give-cells skip prob d h e in
            rw e (
              cons-Shared i d (give (table_size - 1) skip prob d).1 f fs
                (give (table_size - 1) skip prob d).0 _ taken (λ q. none_ (ground arith))
                (share-Shared (i + 1) (give (table_size - 1) skip prob d).1 fs within))
      ]

-- The largest count has an index of the list.
largest_from-lt :
    (i best best_freq n : ℕ) (fs : List ℕ)
    → best < n
    → i + length fs ≤ n
    → largest_from i best best_freq fs < n
unfolding largest_from
largest_from-lt i best best_freq n [] h e = h
largest_from-lt i best best_freq n (f ∷ fs) h e =
    largest_from-lt (i + 1) _ _ n fs
      (elim (Bool-cases (ltb best_freq f)) [ inl t ↦ rw t (omega (arith, e)) | inr t ↦ rw t h ])
      (omega (arith, e))

total-pos : (fs : List ℕ) → 0 < total fs → 0 < length fs
unfolding total
total-pos [] h = h
total-pos (f ∷ fs) h = omega arith

-- Where some symbol has a count, and up to an accuracy log of 14, the distribution has as many probabilities as there are counts,
-- and they fill the 2^accuracy_log cells of the table exactly, a probability of -1 taking one.
pub cells-normalize_counts :
    (freqs : List ℕ) (accuracy_log : ℕ)
    → 0 < total freqs
    → accuracy_log ≤ 14
    → (cells (normalize_counts freqs accuracy_log) ≡ 2 ^ accuracy_log)
      × (length (normalize_counts freqs accuracy_log) ≡ length freqs)
unfolding normalize_counts
cells-normalize_counts freqs accuracy_log h small =
    let n : ℕ = 2 ^ accuracy_log in
    let largest : ℕ = largest_from 0 0 0 freqs in
    let out : List ℤ × ℕ = share n (total freqs) largest 0 0 freqs in
    let s = share-Shared n (total freqs) largest 0 0 freqs (omega arith) in
    let inside = largest_from-lt 0 0 0 (length freqs) freqs (total-pos freqs h) (omega arith) in
    let some_count : (total freqs == 0) ≡ false = ground arith in
    rw some_count (
      cells-set out.0 largest (n - out.1) (omega (arith, s.long, inside))
            (s.hole largest (omega arith))
          ∙ omega (arith, s.spent, s.within, pow_pos accuracy_log),
      length-set out.0 largest (pos (n - out.1)) ∙ s.long,
    )
