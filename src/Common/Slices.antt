-- ===== src/Common/Slices.antt =====
-- `Vec::resize` and `copy_from_slice`, and predicates on the items of a slice.
use Prim.Native.Nat.{ℕ, zero, suc, ◌+◌, ◌-◌, ◌≤◌}
use mathlib.Core.Path.{◌≡◌, refl, sym, ap, ◌∙◌}
use mathlib.Core.List.{List, [], ◌∷◌, ◌++◌, append_assoc}
use mathlib.Core.Logic.{inl, inr}
use native.Mathlib.Omega.{arith}
use zrip.Common.Tests.{leb, if◌then◌else◌, Bool-cases, leb→le, leb→gt}
use zrip.Common.Lists.{length, take, drop, replicate, All, length-append, length-take, length-drop}
use zrip.Common.Lists.{length-replicate, take-append, take-append_le}

module _ {ℓ} {A : Type ℓ} where
  -- `vec.resize(n, v)`
  unfoldable pub resize : List A → ℕ → A → List A
  resize xs n v = if leb n (length xs) then take n xs else xs ++ replicate (n - length xs) v

  -- `xs[at..at + ys.len()].copy_from_slice(ys)`, where that fits.
  unfoldable pub copy_from_slice : List A → ℕ → List A → List A
  copy_from_slice xs at ys = take at xs ++ (ys ++ drop (at + length ys) xs)

  pub length-resize : (xs : List A) (n : ℕ) (v : A) → length (resize xs n v) ≡ n
  unfolding resize
  length-resize xs n v = elim (Bool-cases (leb n (length xs))) [
    | inl e ↦ rw e (omega (arith, length-take n xs, leb→le n (length xs) e))
    | inr e ↦ rw e (
        omega (
          arith,
          length-append xs (replicate (n - length xs) v),
          length-replicate (n - length xs) v,
          leb→gt n (length xs) e,
        ))
  ]

  take-take : (m n : ℕ) (xs : List A) → m ≤ n → take m (take n xs) ≡ take m xs
  take-take zero n xs h = refl
  take-take (suc m) zero xs h = absurd (omega arith)
  take-take (suc m) (suc n) [] h = refl
  take-take (suc m) (suc n) (x ∷ xs) h = ap (λ t. x ∷ t) (take-take m n xs (omega arith))

  -- What both lengths cover stays.
  pub take-resize :
      (xs : List A) (m n : ℕ) (v : A) → m ≤ n → m ≤ length xs → take m (resize xs n v) ≡ take m xs
  unfolding resize
  take-resize xs m n v h k = elim (Bool-cases (leb n (length xs))) [
    | inl e ↦ rw e (take-take m n xs h)
    | inr e ↦ rw e (take-append_le m xs (replicate (n - length xs) v) k)
  ]

  pub length-copy_from_slice :
      (xs : List A) (at : ℕ) (ys : List A)
      → at + length ys ≤ length xs
      → length (copy_from_slice xs at ys) ≡ length xs
  unfolding copy_from_slice
  length-copy_from_slice xs at ys h = omega (
    arith,
    length-append (take at xs) (ys ++ drop (at + length ys) xs),
    length-append ys (drop (at + length ys) xs),
    length-take at xs,
    length-drop (at + length ys) xs,
  )

  pub take-copy_from_slice :
      (xs : List A) (at : ℕ) (ys : List A)
      → at + length ys ≤ length xs
      → take (at + length ys) (copy_from_slice xs at ys) ≡ take at xs ++ ys
  unfolding copy_from_slice
  take-copy_from_slice xs at ys h =
      ap (take (at + length ys)) (sym (append_assoc (take at xs) ys (drop (at + length ys) xs)))
      ∙ take-append (at + length ys) (take at xs ++ ys) (drop (at + length ys) xs)
          (omega (arith, length-append (take at xs) ys, length-take at xs))

  take-append_add :
      (n k m : ℕ) (xs ys : List A) → n ≡ length xs → n + k ≡ m → take m (xs ++ ys) ≡ xs ++ take k ys
  take-append_add n k m [] ys e f = ap (λ (j : ℕ). take j ys) (omega arith)
  take-append_add zero k m (x ∷ xs) ys e f = absurd (omega arith)
  take-append_add (suc n) k zero (x ∷ xs) ys e f = absurd (omega arith)
  take-append_add (suc n) k (suc m) (x ∷ xs) ys e f =
      ap (λ t. x ∷ t) (take-append_add n k m xs ys (omega arith) (omega arith))

  -- The written bytes, as far as `k` of them.
  pub take-copy_from_slice_le :
      (xs : List A) (at k : ℕ) (ys : List A)
      → k ≤ length ys
      → at ≤ length xs
      → take (at + k) (copy_from_slice xs at ys) ≡ take at xs ++ take k ys
  unfolding copy_from_slice
  take-copy_from_slice_le xs at k ys h g =
      take-append_add at k (at + k) (take at xs) (ys ++ drop (at + length ys) xs)
        (omega (arith, length-take at xs)) refl
      ∙ ap (λ t. take at xs ++ t) (take-append_le k ys (drop (at + length ys) xs) h)

module _ {ℓ κ} {A : Type ℓ} (P : A → Type κ) where
  pub All-append : (xs ys : List A) → All P xs → All P ys → All P (xs ++ ys)
  All-append [] ys h g = g
  All-append (x ∷ xs) ys (p, h) g = (p, All-append xs ys h g)

  pub All-take : (n : ℕ) (xs : List A) → All P xs → All P (take n xs)
  All-take zero xs h = tt
  All-take (suc n) [] h = tt
  All-take (suc n) (x ∷ xs) (p, h) = (p, All-take n xs h)

  pub All-drop : (n : ℕ) (xs : List A) → All P xs → All P (drop n xs)
  All-drop zero xs h = h
  All-drop (suc n) [] h = tt
  All-drop (suc n) (x ∷ xs) (p, h) = All-drop n xs h

  pub All-replicate : (n : ℕ) (v : A) → P v → All P (replicate n v)
  All-replicate zero v p = tt
  All-replicate (suc n) v p = (p, All-replicate n v p)

  pub All-resize : (xs : List A) (n : ℕ) (v : A) → P v → All P xs → All P (resize xs n v)
  unfolding resize
  All-resize xs n v p h = elim (Bool-cases (leb n (length xs))) [
    | inl e ↦ rw e (All-take n xs h)
    | inr e ↦
        rw e (All-append xs (replicate (n - length xs) v) h (All-replicate (n - length xs) v p))
  ]

  pub All-copy_from_slice :
      (xs : List A) (at : ℕ) (ys : List A) → All P xs → All P ys → All P (copy_from_slice xs at ys)
  unfolding copy_from_slice
  All-copy_from_slice xs at ys h g =
      All-append (take at xs) (ys ++ drop (at + length ys) xs) (All-take at xs h)
        (All-append ys (drop (at + length ys) xs) g (All-drop (at + length ys) xs h))
