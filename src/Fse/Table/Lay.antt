-- ===== src/Fse/Table/Lay.antt =====
-- The symbols laid down eight bytes at a time: the buffer holds them in order.
use zrip.Common.{ℕ, zero, suc, ◌+◌, ◌-◌, ◌*◌, ◌≤◌, min, ◌≡◌, refl, sym, ap, ap₂, ◌∙◌, arith}
use zrip.Common.{Bool-cases, inl, inr, ltb, ltb→lt, ltb→ge}
use zrip.Common.{List, [], ◌∷◌, ◌++◌, append_assoc, append-nil, length, take, replicate}
use zrip.Common.{take-copy_from_slice_le, length-copy_from_slice, length-replicate, copy_from_slice}
use zrip.Common.Words.{u8}
use zrip.Common.Integers.{ℤ}
use zrip.Fse.Table.{positive, lay_chunks, lay_down}
use zrip.Fse.Table.Spread.{positive_sum}
use zrip.Fse.Table.Fast.{flat}

module _ {ℓ} {A : Type ℓ} where
  take-replicate : (k n : ℕ) (v : A) → k ≤ n → take k (replicate n v) ≡ replicate k v
  take-replicate zero n v h = refl
  take-replicate (suc k) zero v h = absurd (omega arith)
  take-replicate (suc k) (suc n) v h = ap (λ t. v ∷ t) (take-replicate k n v (omega arith))

  replicate-add : (a b c : ℕ) (v : A) → a + b ≡ c → replicate a v ++ replicate b v ≡ replicate c v
  replicate-add zero b c v e = ap (λ (t : ℕ). replicate t v) (omega (arith, e))
  replicate-add (suc a) b zero v e = absurd (omega arith)
  replicate-add (suc a) b (suc c) v e = ap (λ t. v ∷ t) (replicate-add a b c v (omega arith))

  -- Eight more copies, of which the first `k` count.
  copy-run :
      (pre xs : List A) (at i k : ℕ) (v : A)
      → k ≤ 8
      → at + i ≤ length xs
      → take (at + i) xs ≡ pre ++ replicate i v
      → take (at + i + k) (copy_from_slice xs (at + i) (replicate 8 v)) ≡ pre ++ replicate (i + k) v
  copy-run pre xs at i k v h room e =
      take-copy_from_slice_le xs (at + i) k (replicate 8 v) (omega (arith, length-replicate 8 v))
        room
      ∙ ap₂ (λ t u. t ++ u) e (take-replicate k 8 v h)
      ∙ append_assoc pre (replicate i v) (replicate k v)
      ∙ ap (λ t. pre ++ t) (replicate-add i k (i + k) v refl)

chunks_to :
    (fuel i n at s : ℕ) (pre spread : List ℕ)
    → n ≤ i + 8 * fuel
    → at + n + 8 ≤ length spread
    → take (at + min i n) spread ≡ pre ++ replicate (min i n) (u8 s)
    → (take (at + n) (lay_chunks fuel i n at s spread) ≡ pre ++ replicate n (u8 s))
      × (length (lay_chunks fuel i n at s spread) ≡ length spread)
unfolding lay_chunks
chunks_to zero i n at s pre spread enough room e = (
  (let f : min i n ≡ n = omega arith in
      ap (λ (t : ℕ). take (at + t) spread) (sym f)
      ∙ e
      ∙ ap (λ (t : ℕ). pre ++ replicate t (u8 s)) f),
  refl,
)
chunks_to (suc fuel) i n at s pre spread enough room e = elim (Bool-cases (ltb i n)) [
  | inr past ↦
      let f : min i n ≡ n = omega (arith, ltb→ge i n past) in
      rw (past, lay_chunks)
        (
          ap (λ (t : ℕ). take (at + t) spread) (sym f)
              ∙ e
              ∙ ap (λ (t : ℕ). pre ++ replicate t (u8 s)) f,
          refl,
        )
  | inl more ↦
      let below = ltb→lt i n more in
      let k : ℕ = min 8 (n - i) in
      let f : min i n ≡ i = omega (arith, below) in
      let g : i + k ≡ min (i + 8) n = omega (arith, below) in
      let so_far =
        ap (λ (t : ℕ). take (at + t) spread) (sym f)
        ∙ e
        ∙ ap (λ (t : ℕ). pre ++ replicate t (u8 s)) f in
      let written = copy-run pre spread at i k (u8 s) (omega arith) (omega (arith, below)) so_far in
      let kept =
        length-copy_from_slice spread (at + i) (replicate 8 (u8 s))
          (omega (arith, below, length-replicate 8 (u8 s))) in
      let (a, b) =
        chunks_to fuel (i + 8) n at s pre (copy_from_slice spread (at + i) (replicate 8 (u8 s)))
          (omega arith) (omega (arith, kept))
          (ap (λ (t : ℕ). take t (copy_from_slice spread (at + i) (replicate 8 (u8 s))))
              (let q : at + min (i + 8) n ≡ at + i + k = omega (arith, g) in q)
            ∙ written
            ∙ ap (λ (t : ℕ). pre ++ replicate t (u8 s)) g) in
      rw (more, lay_chunks) (a, b ∙ kept)
]

pub take-lay_down :
    (probs : List ℤ) (s at : ℕ) (spread : List ℕ)
    → at + positive_sum probs + 8 ≤ length spread
    → take (at + positive_sum probs) (lay_down s at probs spread) ≡ take at spread ++ flat s probs
unfolding lay_down
take-lay_down [] s at spread h =
    ap (λ (t : ℕ). take t spread) (let e : at + 0 ≡ at = omega arith in e)
    ∙ sym (append-nil (take at spread))
take-lay_down (prob ∷ probs) s at spread h =
    let n : ℕ = positive prob in
    let start : List ℕ = copy_from_slice spread at (replicate 8 (u8 s)) in
    let k : ℕ = min 8 n in
    let kept =
      length-copy_from_slice spread at (replicate 8 (u8 s))
        (omega (arith, length-replicate 8 (u8 s))) in
    let zero_at : at + 0 ≡ at = omega arith in
    let first =
      take-copy_from_slice_le spread at k (replicate 8 (u8 s))
        (omega (arith, length-replicate 8 (u8 s))) (omega arith)
      ∙ ap (λ t. take at spread ++ t) (take-replicate k 8 (u8 s) (omega arith)) in
    let (a, b) =
      chunks_to n 8 n at s (take at spread) start (omega arith) (omega (arith, kept)) first in
    ap (λ (t : ℕ). take t (lay_down (s + 1) (at + n) probs (lay_chunks n 8 n at s start)))
      (let e : at + (n + positive_sum probs) ≡ at + n + positive_sum probs = omega arith in e)
    ∙ take-lay_down probs (s + 1) (at + n) (lay_chunks n 8 n at s start) (omega (arith, h, b, kept))
    ∙ ap (λ t. t ++ flat (s + 1) probs) a
    ∙ append_assoc (take at spread) (replicate n (u8 s)) (flat (s + 1) probs)
