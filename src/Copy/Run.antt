-- ===== src/Copy/Run.antt =====
-- The copy of literals in whole chunks.
use zrip.Common.{ℕ, zero, suc, ◌+◌, ◌-◌, ◌<◌, ◌≤◌, ◌≡◌, refl, ◌∙◌, arith}
use zrip.Common.{List, length, get_or, take, drop, copy_from_slice, length-take, length-drop}
use zrip.Common.{length-copy_from_slice, Bool-cases, inl, inr, ltb, ltb→lt, ltb→ge}
use mathlib.Core.Path.{subst}
use zrip.Copy.{literal_chunks, wild_literals}
use zrip.Copy.Chunk.{copy-before, copy-inside, get_or-take, get_or-drop}

-- The literals `lits[lp..lp + n]` at `at..at + n` in `out`, over what was before it.
pub record Laid (lits : List ℕ) (lp at n : ℕ) (before out : List ℕ) : Type 0 where
  pub long : length out ≡ length before
  pub below : (j : ℕ) → j < at → get_or out j 0 ≡ get_or before j 0
  pub laid : (k : ℕ) → k < n → get_or out (at + k) 0 ≡ get_or lits (lp + k) 0

-- A slice of `n` literals written at `at + i`.
pub put-Laid :
    (lits : List ℕ) (lp at i n : ℕ) (before out : List ℕ)
    → lp + i + n ≤ length lits
    → at + i + n ≤ length out
    → Laid lits lp at i before out
    → Laid lits lp at (i + n) before (copy_from_slice out (at + i) (take n (drop (lp + i) lits)))
put-Laid lits lp at i n before out has room l =
    let ys : List ℕ = take n (drop (lp + i) lits) in
    let size : length ys ≡ n =
      length-take n (drop (lp + i) lits) ∙ omega (arith, length-drop (lp + i) lits, has) in
    let outside =
      λ (j : ℕ) (h : j < at + i). copy-before 0 out (at + i) ys j (omega (arith, room)) h in
    record {
      long = length-copy_from_slice out (at + i) ys (omega (arith, size, room)) ∙ l.long;
      below = λ j h. outside j (omega (arith, h)) ∙ l.below j h;
      laid = λ k h. elim (Bool-cases (ltb k i)) [
        | inl f ↦ outside (at + k) (omega (arith, ltb→lt k i f)) ∙ l.laid k (ltb→lt k i f)
        | inr f ↦
            let past = ltb→ge k i f in
            copy-inside 0 out (at + i) ys (at + k) (k - i) (omega (arith, room))
              (omega (arith, past)) (omega (arith, size, h, past))
            ∙ get_or-take 0 n (k - i) (drop (lp + i) lits) (omega (arith, h, past))
            ∙ get_or-drop 0 (lp + i) (k - i) (lp + k) lits (omega (arith, past))
      ];
    }

pub nothing-Laid : (lits : List ℕ) (lp at : ℕ) (out : List ℕ) → Laid lits lp at 0 out out
nothing-Laid lits lp at out = record {
  long = refl;
  below = λ j h. refl;
  laid = λ k h. absurd (omega (arith, h));
}

shorten-Laid :
    (lits : List ℕ) (lp at n n' : ℕ) (before out : List ℕ)
    → n' ≤ n
    → Laid lits lp at n before out
    → Laid lits lp at n' before out
shorten-Laid lits lp at n n' before out h l = record {
  long = l.long;
  below = l.below;
  laid = λ k q. l.laid k (omega (arith, q, h));
}

chunks-Laid :
    (lits : List ℕ) (lp at len : ℕ) (before : List ℕ) (fuel i : ℕ) (out : List ℕ)
    → lp + len + 32 ≤ length lits
    → at + len + 64 ≤ length before
    → len ≤ i + fuel
    → Laid lits lp at i before out
    → Laid lits lp at len before (literal_chunks fuel i len at lits lp out)
unfolding literal_chunks
chunks-Laid lits lp at len before zero i out has room enough l =
    shorten-Laid lits lp at i len before out (omega (arith, enough)) l
chunks-Laid lits lp at len before (suc fuel) i out has room enough l =
    elim (Bool-cases (ltb i len)) [
      | inr f ↦ rw (f, literal_chunks) (shorten-Laid lits lp at i len before out (ltb→ge i len f) l)
      | inl f ↦
          let more = ltb→lt i len f in
          rw (f, literal_chunks)
            (chunks-Laid lits lp at len before fuel (i + 32) _ has room (omega (arith, enough)) (
              put-Laid lits lp at i 32 before out (omega (arith, has, more))
                (omega (arith, room, more, l.long)) l))
    ]

pub wild_literals-Laid :
    (lits : List ℕ) (lp at len : ℕ) (out : List ℕ)
    → lp + len + 32 ≤ length lits
    → at + len + 64 ≤ length out
    → Laid lits lp at len out (wild_literals out at lits lp len)
unfolding wild_literals
wild_literals-Laid lits lp at len out has room =
    let ys : ℕ → ℕ → List ℕ = λ a p. copy_from_slice out a (take 32 (drop p lits)) in
    let first =
      subst (λ (t : ℕ). Laid lits lp at 32 out (ys t (lp + 0)))
        (let e : at + 0 ≡ at = omega arith in e)
        (put-Laid lits lp at 0 32 out out (omega (arith, has)) (omega (arith, room))
          (nothing-Laid lits lp at out)) in
    chunks-Laid lits lp at len out len 32 (ys at lp) has room (omega arith) (
      subst (λ (t : ℕ). Laid lits lp at 32 out (ys at t)) (let e : lp + 0 ≡ lp = omega arith in e)
        first)
