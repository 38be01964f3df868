-- ===== src/Fse.antt =====
-- crates/core/src/fse/table_builder.rs: `normalize_counts`, which turns symbol counts into a
-- distribution over the cells of a table. A probability is an `ℤ`, "less than one" being -1. The casts to `i32` and `i16` lose nothing up to an accuracy log of 14;
-- the largest in the format is 12.
pub mod Normalize
pub mod Table
pub mod Description
pub mod State
mod Tests
use zrip.Common.{
  ℕ, ◌+◌, ◌-◌, ◌*◌, ◌/◌, ◌^◌, min, Bool, not, ◌&&◌, ◌||◌, List, [], ◌∷◌, length, set, replicate,
}
use zrip.Common.{leb, ltb, ◌==◌, if◌then◌else◌}
use zrip.Common.Integers.{ℤ, pos, negsuc}

-- `freqs.iter().sum()`
pub total : List ℕ → ℕ
total [] = 0
total (f ∷ fs) = f + total fs

-- The index of the first largest count from `i` on, given the best one before.
pub largest_from : ℕ → ℕ → ℕ → List ℕ → ℕ
largest_from i best_idx best_freq [] = best_idx
largest_from i best_idx best_freq (f ∷ fs) =
    let larger = ltb best_freq f in
    largest_from (i + 1) (if larger then i else best_idx) (if larger then f else best_freq) fs

-- One symbol's probability, and how much is distributed behind it; a symbol without a count, or
-- with the largest, is passed over.
pub give : ℕ → Bool → ℕ → ℕ → ℤ × ℕ
give budget skip prob distributed =
    let capped = min prob (budget - distributed) in
    if skip
    then (pos 0, distributed)
    else if ltb prob 1
    then (negsuc 0, distributed + 1)
    else (pos capped, distributed + capped)

-- The second loop, from symbol `i` on: the probabilities and how much is distributed.
pub share : ℕ → ℕ → ℕ → ℕ → ℕ → List ℕ → List ℤ × ℕ
share table_size sum largest i distributed [] = ([], distributed)
share table_size sum largest i distributed (f ∷ fs) =
    let budget = table_size - 1 in
    let skip = f == 0 || i == largest in
    let given = give budget skip (f * table_size / sum) distributed in
    let rest = share table_size sum largest (i + 1) given.1 fs in
    if not skip && leb budget distributed
    then (replicate (length (f ∷ fs)) (pos 0), distributed)
    else (given.0 ∷ rest.0, rest.1)

pub normalize_counts : List ℕ → ℕ → List ℤ
normalize_counts freqs accuracy_log =
    let table_size = 2 ^ accuracy_log in
    let sum = total freqs in
    let largest = largest_from 0 0 0 freqs in
    let (dist, distributed) = share table_size sum largest 0 0 freqs in
    if sum == 0
    then replicate (length freqs) (pos 0)
    else set dist largest (pos (table_size - distributed))
