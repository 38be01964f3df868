-- ===== src/Rebase/Tests.antt =====
-- A block that ends just past the span.
use zrip.Common.{ℕ, ◌+◌, ◌-◌, ◌^◌, ◌≤◌, ◌≡◌, ◌⊎◌, arith, [], ◌∷◌, map}
use zrip.Rebase.{PositionBase, advance, max_span, reduce_hash_table}
use zrip.Rebase.Span.{shift_of, advance-span, reduce_hash_table-place}

abbrev start : PositionBase
start = record { base = 0; window = 2 ^ 19 }

advance-span_example :
    (2 ^ 32 - (advance start (2 ^ 32 - 1000) (2 ^ 32)).1.base ≤ max_span)
    × ((advance start (2 ^ 32 - 1000) (2 ^ 32)).1.base ≤ 2 ^ 32 - 1000)
    × ((2 ^ 19 ≤ 2 ^ 32 - 1000 - (advance start (2 ^ 32 - 1000) (2 ^ 32)).1.base)
        ⊎ ((advance start (2 ^ 32 - 1000) (2 ^ 32)).1.base ≡ 0))
    × ((advance start (2 ^ 32 - 1000) (2 ^ 32)).1.base
        ≡ 0 + shift_of (advance start (2 ^ 32 - 1000) (2 ^ 32)).0)
    × ((advance start (2 ^ 32 - 1000) (2 ^ 32)).1.window ≡ 2 ^ 19)
advance-span_example =
    advance-span start (2 ^ 32 - 1000) (2 ^ 32) (omega arith) (omega arith) (omega arith)
      (omega arith) (omega arith)

reduce_hash_table-place_example :
    map (λ (e : ℕ). 100 + 5 + e) (reduce_hash_table (7 ∷ 3 ∷ 9 ∷ []) 5) ≡ 107 ∷ 105 ∷ 109 ∷ []
reduce_hash_table-place_example = reduce_hash_table-place (7 ∷ 3 ∷ 9 ∷ []) 5 100
