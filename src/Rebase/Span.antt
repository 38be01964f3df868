-- ===== src/Rebase/Span.antt =====
-- What `advance` keeps from block to block.
use zrip.Common.{
  ℕ, ◌+◌, ◌-◌, ◌^◌, ◌≤◌, ◌<◌, ◌≡◌, ◌⊎◌, refl, arith, Option, none, some, Bool-cases, inl, inr,
}
use zrip.Common.{List, [], ◌∷◌, map, ap₂, false, leb→le, leb→gt, ==→eq, ltb→lt, ltb→ge, leb, ltb}
use zrip.Common.{max, ◌==◌}
use zrip.Rebase.{PositionBase, advance, max_span, max_block_size, reduce_entry, reduce_hash_table}

-- The shift that a call asked for, none being zero.
abbrev pub shift_of : Option ℕ → ℕ
shift_of none = 0
shift_of (some s) = s

positive : (n : ℕ) → (n == 0) ≡ false → 0 < n
positive n e = ground arith

-- For a window of at most 2^27, and a block of at most 128 KiB whose start is at most 2^32 - 1
-- behind the base: after `advance` the whole block is within 2^32 - 1 of the base, the base is not
-- past the block, at least one window or everything before the block stays behind it, and the shift
-- is exactly how far the base moved, so the cut to 32 bits loses nothing.
pub advance-span :
    (p : PositionBase) (block_start block_end : ℕ)
    → p.window ≤ 2 ^ 27
    → p.base ≤ block_start
    → block_start - p.base ≤ max_span
    → block_start ≤ block_end
    → block_end - block_start ≤ max_block_size
    → (block_end - (advance p block_start block_end).1.base ≤ max_span)
      × ((advance p block_start block_end).1.base ≤ block_start)
      × ((p.window ≤ block_start - (advance p block_start block_end).1.base)
          ⊎ ((advance p block_start block_end).1.base ≡ p.base))
      × ((advance p block_start block_end).1.base
          ≡ p.base + shift_of (advance p block_start block_end).0)
      × ((advance p block_start block_end).1.window ≡ p.window)
unfolding advance
advance-span p block_start block_end w b near o small =
    elim (Bool-cases (leb (block_end - p.base) max_span)) [
      | inl e ↦ rw e (omega (arith, leb→le _ _ e), b, inr refl, omega arith, refl)
      | inr e ↦ elim (Bool-cases (block_start - p.base - p.window == 0)) [
        | inl f ↦
            rw (e, f) (omega (arith, leb→gt _ _ e, ==→eq _ _ f), b, inr refl, omega arith, refl)
        | inr f ↦
            rw (e, f)
              (
                omega (arith, leb→gt _ _ e, positive _ f),
                omega (arith, positive _ f),
                inl (omega (arith, positive _ f)),
                omega (arith, near),
                refl,
              )
      ]
    ]

reduce_entry-place :
    (e shift base : ℕ) → base + shift + reduce_entry shift e ≡ max (base + shift) (base + e)
unfolding reduce_entry
reduce_entry-place e shift base = elim (Bool-cases (ltb e shift)) [
  | inl low ↦ rw low (omega (arith, ltb→lt e shift low))
  | inr high ↦ rw high (omega (arith, ltb→ge e shift high))
]

-- Counted from the moved base, the reduced table holds, in order, each entry's place in the input,
-- and the moved base itself for every entry that was before it.
pub reduce_hash_table-place :
    (table : List ℕ) (shift base : ℕ)
    → map (λ (e : ℕ). base + shift + e) (reduce_hash_table table shift)
      ≡ map (λ (e : ℕ). max (base + shift) (base + e)) table
unfolding reduce_hash_table
reduce_hash_table-place [] shift base = refl
reduce_hash_table-place (e ∷ es) shift base =
    ap₂ (λ (x : ℕ) (xs : List ℕ). x ∷ xs) (reduce_entry-place e shift base)
      (reduce_hash_table-place es shift base)
