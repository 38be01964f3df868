-- ===== src/Copy/Join.antt =====
-- What a sequence leaves in the output, joined from its copies.
use zrip.Common.{ℕ, ◌+◌, ◌-◌, ◌<◌, ◌≤◌, ◌≡◌, sym, ap, ◌∙◌, arith}
use zrip.Common.{true, false, Bool-cases, inl, inr, if◌then◌else◌, ◌==◌}
use zrip.Common.{List, length, get_or, take, drop, copy_from_slice, Option, none, some}
use zrip.Common.{ltb, ltb→lt, ltb→ge, lt→ltb, ge→ltb}
use zrip.Common.{DecompressError, corrupt_sequences, corrupt_literals, invalid_offset}
use zrip.Copy.{Literals, SeqOut, as_slice, wild_match}
use zrip.Copy.Chunk.{Copied, nothing-Copied, get_or-take}
use zrip.Copy.Match.{wild_match-Copied}
use zrip.Copy.Run.{Laid, put-Laid, nothing-Laid}
use mathlib.Core.Path.{subst}

-- The byte that a match with `offset` copies to `j`: `offset` bytes back in the output, or in the
-- history that stands before the output.
abbrev pub source_byte : List ℕ → List ℕ → ℕ → ℕ → ℕ
source_byte history out offset j =
    if ltb j offset
    then get_or history (length history + j - offset) 0
    else get_or out (j - offset) 0

-- The output after a sequence: what was there, `ll` literals, and `ml` bytes of the match.
pub record Executed (before : List ℕ) (slice : List ℕ) (op lp ll ml offset : ℕ)
    (history out : List ℕ) : Type 0 where
  pub long : length out ≡ length before
  pub below : (j : ℕ) → j < op → get_or out j 0 ≡ get_or before j 0
  pub literals : (k : ℕ) → k < ll → get_or out (op + k) 0 ≡ get_or slice (lp + k) 0
  pub match :
      (j : ℕ) → op + ll ≤ j → j < op + ll + ml → get_or out j 0 ≡ source_byte history out offset j

-- What is wrong with a sequence, in the order of the checks.
abbrev pub fault : SeqOut → Literals → ℕ → ℕ → ℕ → ℕ → List ℕ → Option DecompressError
fault out lits lp ll ml offset history =
    if ltb (length out.buf) (out.op + ll + ml + 64)
    then some corrupt_sequences
    else if ltb lits.len (lp + ll)
    then some corrupt_literals
    else if offset == 0
    then some invalid_offset
    else if ltb (out.op + ll + length history) offset
    then some invalid_offset
    else none

-- The literals with at most 32 bytes of slack, as `new` makes them.
pub record IsLiterals (lits : Literals) : Type 0 where
  pub all : lits.len ≤ length lits.fast
  pub slack : length lits.fast ≤ lits.len + 32

pub join-Executed :
    (slice history before mid1 mid2 out : List ℕ) (op lp ll ml offset start done : ℕ)
    → done ≤ ml
    → (0 < done → (op + ll + done ≤ offset) × (start + offset ≡ length history + (op + ll)))
    → (done < ml → offset ≤ op + ll + done)
    → Laid slice lp op ll before mid1
    → Laid history start (op + ll) done mid1 mid2
    → Copied offset (op + ll + done) (op + ll + done + (ml - done)) mid2 out
    → Executed before slice op lp ll ml offset history out
join-Executed slice history before mid1 mid2 out op lp ll ml offset start done less old new l1 l2
      c =
    let outside = λ (j : ℕ) (h : j < op + ll). c.below j (omega (arith, h)) ∙ l2.below j h in
    record {
      long = c.long ∙ l2.long ∙ l1.long;
      below = λ j h. outside j (omega (arith, h)) ∙ l1.below j h;
      literals = λ k h. outside (op + k) (omega (arith, h)) ∙ l1.laid k h;
      match = λ j a b. elim (Bool-cases (ltb j (op + ll + done))) [
        | inl f ↦
            let under = ltb→lt j (op + ll + done) f in
            let (far, place) = old (omega (arith, under, a)) in
            let test : ltb j offset ≡ true = lt→ltb j offset (omega (arith, under, far)) in
            let at : op + ll + (j - (op + ll)) ≡ j = omega (arith, a) in
            rw test (
              sym (ap (λ (t : ℕ). get_or out t 0) at)
              ∙ c.below (op + ll + (j - (op + ll))) (omega (arith, at, under))
              ∙ l2.laid (j - (op + ll)) (omega (arith, under, a))
              ∙ ap (λ (t : ℕ). get_or history t 0)
                  (let q : start + (j - (op + ll)) ≡ length history + j - offset =
                      omega (arith, place, a) in
                    q))
        | inr f ↦
            let past = ltb→ge j (op + ll + done) f in
            let test : ltb j offset ≡ false =
              ge→ltb j offset (omega (arith, new (omega (arith, past, b)), past)) in
            rw test (c.back j past (omega (arith, b, less)))
      ];
    }

-- The literals are the same with the slack cut off.
pub slice-Laid :
    (lits : Literals) (lp op ll : ℕ) (before out : List ℕ)
    → lp + ll ≤ lits.len
    → Laid lits.fast lp op ll before out
    → Laid (as_slice lits) lp op ll before out
slice-Laid lits lp op ll before out h l = record {
  long = l.long;
  below = l.below;
  laid = λ k q. l.laid k q ∙ sym (get_or-take 0 lits.len (lp + k) lits.fast (omega (arith, q, h)));
}

pub put-first :
    (lits : List ℕ) (lp at n : ℕ) (out : List ℕ)
    → lp + n ≤ length lits
    → at + n ≤ length out
    → Laid lits lp at n out (copy_from_slice out at (take n (drop lp lits)))
put-first lits lp at n out has room =
    let e1 : at + 0 ≡ at = omega arith in
    let e2 : lp + 0 ≡ lp = omega arith in
    let e3 : 0 + n ≡ n = omega arith in
    let first =
      put-Laid lits lp at 0 n out out (omega (arith, has)) (omega (arith, room))
        (nothing-Laid lits lp at out) in
    subst (λ (t : ℕ). Laid lits lp at t out (copy_from_slice out at (take n (drop lp lits)))) e3
      (subst
        (λ (t : ℕ). Laid lits lp at (0 + n) out (copy_from_slice out at (take n (drop t lits)))) e2
        (subst
          (λ (t : ℕ).
            Laid lits lp at (0 + n) out (copy_from_slice out t (take n (drop (lp + 0) lits))))
          e1 first))

-- The rest of a match, if there is any.
pub rest-Copied :
    (offset at ml done : ℕ) (out : List ℕ)
    → 0 < offset
    → (done < ml → offset ≤ at)
    → at + (ml - done) + 64 ≤ length out
    → Copied offset at
        (at + (ml - done))
        out
        (if ltb done ml then wild_match out at (at - offset) offset (ml - done) else out)
rest-Copied offset at ml done out p far room = elim (Bool-cases (ltb done ml)) [
  | inl e ↦ rw e (wild_match-Copied offset at (ml - done) out p (far (ltb→lt done ml e)) room)
  | inr e ↦ rw e (
      subst (λ (t : ℕ). Copied offset at t out out)
        (let q : at ≡ at + (ml - done) = omega (arith, ltb→ge done ml e) in q)
        (nothing-Copied offset at out))
]
