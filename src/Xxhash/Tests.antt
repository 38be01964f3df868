-- ===== src/Xxhash/Tests.antt =====
-- The hash at known vectors, and a stream cut into pieces.
use mathlib.Core.List
use zrip.Common.{◌≡◌, refl, [], ◌∷◌}
use zrip.Xxhash.{xxh64}
use zrip.Xxhash.{hash_tail, tail_eights, tail_fours, tail_ones, avalanche}
use zrip.Xxhash.{one_step, finish, new}
use zrip.Xxhash.Finish.{update_all, finish-update_all}

empty_vector : xxh64 [] 0 ≡ 0xEF46DB3751D8E999
unfolding xxh64 hash_tail tail_eights tail_fours tail_ones avalanche
empty_vector = refl

abc_vector : xxh64 (97 ∷ 98 ∷ 99 ∷ []) 0 ≡ 0x44BC2CF5AD770999
unfolding xxh64 hash_tail tail_eights tail_fours tail_ones avalanche one_step
abc_vector = refl

-- Three pieces, one of them empty.
finish-update_all_example :
    finish (update_all (new 7) ((1 ∷ 2 ∷ []) ∷ [] ∷ (3 ∷ []) ∷ [])) ≡ xxh64 (1 ∷ 2 ∷ 3 ∷ []) 7
unfolding mathlib.Core.List.flatten
finish-update_all_example = finish-update_all 7 ((1 ∷ 2 ∷ []) ∷ [] ∷ (3 ∷ []) ∷ [])
