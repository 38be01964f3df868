-- ===== src/Copy/Execute.antt =====
-- One sequence executed: the bytes it leaves, and its errors.
use zrip.Common.{ℕ, ◌+◌, ◌-◌, ◌^◌, ◌<◌, ◌≤◌, min, ◌≡◌, refl, sym, ap, ◌∙◌, arith}
use zrip.Common.{Bool, true, false, not, ◌&&◌, ◌||◌, Bool-cases, inl, inr, if◌then◌else◌, ◌==◌}
use zrip.Common.{List, length, take, drop, copy_from_slice, length-take, Option, none, some}
use zrip.Common.{leb, ltb, ltb→lt, ltb→ge, ge→ltb, Result, ok, err}
use zrip.Common.{DecompressError}
use zrip.Common.Bits.{bit_and_mask}
use zrip.Copy.{Literals, SeqOut, as_slice, ix, from_history, execute_exact, execute, wild_match}
use zrip.Copy.{wild_literals}
use zrip.Copy.Chunk.{Copied}
use zrip.Copy.Match.{wild_match-Copied}
use zrip.Copy.Run.{Laid, nothing-Laid, wild_literals-Laid}
use mathlib.Core.Path.{subst}
use native.Mathlib.Nat.{mod-eq_of_lt}
use zrip.Copy.Join.{Executed, fault, IsLiterals, join-Executed, slice-Laid, put-first, rest-Copied}

from_history-Laid :
    (dst history : List ℕ) (lit_end ml offset : ℕ)
    → offset ≤ lit_end + length history
    → lit_end + ml ≤ length dst
    → (let (out, done) = from_history dst lit_end ml offset history in
        (done ≤ ml)
        × (0 < done
            → (lit_end + done ≤ offset)
              × (length history - (offset - lit_end) + offset ≡ length history + lit_end))
        × (done < ml → offset ≤ lit_end + done)
        × Laid history (length history - (offset - lit_end)) lit_end done dst out)
unfolding from_history
from_history-Laid dst history lit_end ml offset reach room =
    elim (Bool-cases (ltb lit_end offset)) [
      | inl e ↦
          let far = ltb→lt lit_end offset e in
          rw e (
            omega arith,
            λ q. (omega (arith, far), omega (arith, far, reach)),
            λ q. omega (arith, q, far),
            put-first history (length history - (offset - lit_end)) lit_end
                (min (offset - lit_end) ml) dst (omega (arith, far, reach)) (omega (arith, room)),
          )
      | inr e ↦ rw e (
        omega arith,
        λ q. absurd (omega (arith, q)),
        λ q. omega (arith, ltb→ge lit_end offset e),
        nothing-Laid history (length history - (offset - lit_end)) lit_end dst,
      )
    ]

exact-Executed :
    (dst slice history : List ℕ) (op lp ll ml offset : ℕ)
    → op + ll + ml + 64 ≤ length dst
    → lp + ll ≤ length slice
    → 0 < offset
    → offset ≤ op + ll + length history
    → (out : List ℕ) × (execute_exact dst op ll ml slice lp offset history ≡ ok (out, op + ll + ml))
      × Executed dst slice op lp ll ml offset history out
unfolding execute_exact
exact-Executed dst slice history op lp ll ml offset room has p reach =
    let mid = copy_from_slice dst op (take ll (drop lp slice)) in
    let l1 = put-first slice lp op ll dst has (omega (arith, room)) in
    let st = from_history mid (op + ll) ml offset history in
    let (less, old, new, l2) =
      from_history-Laid mid history (op + ll) ml offset reach (omega (arith, room, l1.long)) in
    let c =
      rest-Copied offset (op + ll + st.1) ml st.1 st.0 p new
        (omega (arith, room, l1.long, l2.long, less)) in
    let f1 : (ltb (length slice) lp || ltb (length slice - lp) ll) ≡ false = ground (arith, has) in
    let f2 : (offset == 0) ≡ false = ground (arith, p) in
    let f3 : (ltb (op + ll) offset && ltb (length history) (offset - (op + ll))) ≡ false =
      ground (arith, reach) in
    (
      (if ltb st.1 ml
          then wild_match st.0 (op + ll + st.1) (op + ll + st.1 - offset) offset (ml - st.1)
          else st.0),
      rw (f1, f2, f3) refl,
      join-Executed slice history dst mid st.0 _ op lp ll ml offset
          (length history - (offset - (op + ll))) st.1 less old new l1 l2 c,
    )

-- What `fault` says when it finds nothing.
pub record Fits (out : SeqOut) (lits : Literals) (lp ll ml offset : ℕ) (history : List ℕ)
    : Type 0 where
  pub room : out.op + ll + ml + 64 ≤ length out.buf
  pub has : lp + ll ≤ lits.len
  pub positive : 0 < offset
  pub reach : offset ≤ out.op + ll + length history

pub fault-Fits :
    (out : SeqOut) (lits : Literals) (lp ll ml offset : ℕ) (history : List ℕ)
    → fault out lits lp ll ml offset history ≡ none
    → Fits out lits lp ll ml offset history
fault-Fits out lits lp ll ml offset history e = record {
  room = ground (arith, e);
  has = ground (arith, e);
  positive = ground (arith, e);
  reach = ground (arith, e);
}

-- A position below 4 GiB is its own mask.
ix-id : (narrow : Bool) (i : ℕ) → (narrow ≡ true → i < 2 ^ 32) → ix narrow i ≡ i
unfolding ix
ix-id true i h = bit_and_mask 32 i ∙ mod-eq_of_lt (h refl)
ix-id false i h = refl

fast-Executed :
    (out : SeqOut) (lits : Literals) (lp ll ml offset : ℕ) (history : List ℕ)
    → Fits out lits lp ll ml offset history
    → offset ≤ out.op + ll
    → lp + ll + 32 ≤ length lits.fast
    → Executed out.buf (as_slice lits) out.op lp ll ml offset history (
        wild_match
          (wild_literals out.buf out.op lits.fast lp ll)
          (out.op + ll)
          (out.op + ll - offset)
          offset
          ml)
fast-Executed out lits lp ll ml offset history f near slack =
    let mid = wild_literals out.buf out.op lits.fast lp ll in
    let l1 =
      slice-Laid lits lp out.op ll out.buf mid f.has
        (wild_literals-Laid lits.fast lp out.op ll out.buf slack (omega (arith, f.room))) in
    let at : out.op + ll + 0 ≡ out.op + ll = omega arith in
    let c =
      wild_match-Copied offset (out.op + ll) ml mid f.positive near
        (omega (arith, f.room, l1.long)) in
    join-Executed (as_slice lits) history out.buf mid mid _ out.op lp ll ml offset 0 0 (omega arith)
      (λ q. absurd (omega (arith, q))) (λ q. omega (arith, near)) l1
      (nothing-Laid history 0 (out.op + ll) mid)
      (subst
        (λ (t : ℕ).
          Copied offset (out.op + ll + 0) t mid
            (wild_match mid (out.op + ll) (out.op + ll - offset) offset ml))
        (let q : out.op + ll + ml ≡ out.op + ll + 0 + (ml - 0) = omega arith in q)
        (subst
          (λ (t : ℕ).
            Copied offset t (out.op + ll + ml) mid
              (wild_match mid (out.op + ll) (out.op + ll - offset) offset ml))
          (sym at) c))

-- A sequence that has no fault, with positions below 4 GiB where they are masked, is executed: the
-- position moves behind its literals and its match, what was in the output stays, the literals follow,
-- and every byte of the match is the one `offset` before it, in the output or, past its start, in the
-- history. The copies in whole chunks and the exact path both give this.
pub execute-Executed :
    (narrow : Bool) (out : SeqOut) (lits : Literals) (lp ll ml offset : ℕ) (history : List ℕ)
    → (narrow ≡ true → out.op < 2 ^ 32)
    → (narrow ≡ true → lp < 2 ^ 32)
    → lits.len ≤ length lits.fast
    → fault out lits lp ll ml offset history ≡ none
    → (out' : SeqOut) × (execute narrow out lits lp ll ml offset history ≡ ok out')
      × (out'.op ≡ out.op + ll + ml)
      × Executed out.buf (as_slice lits) out.op lp ll ml offset history out'.buf
unfolding execute
execute-Executed narrow out lits lp ll ml offset history small_op small_lp all e =
    let f = fault-Fits out lits lp ll ml offset history e in
    let room : ltb (length out.buf) (out.op + ll + ml + 64) ≡ false = ge→ltb _ _ f.room in
    let fast =
      leb offset (out.op + ll) && (leb (lp + ll + 32) (length lits.fast) && not (offset == 0)) in
    rw (ix-id narrow out.op small_op, ix-id narrow lp small_lp, room)
      (elim (Bool-cases fast) [
        | inl t ↦ rw t (
          record {
            buf =
                wild_match (wild_literals out.buf out.op lits.fast lp ll) (out.op + ll)
                  (out.op + ll - offset) offset ml;
            op = out.op + ll + ml;
          },
          refl,
          refl,
          fast-Executed out lits lp ll ml offset history f (ground (arith, t)) (ground (arith, t)),
        )
        | inr t ↦
            let long = length-take lits.len lits.fast in
            let (buf, ran, done) =
              exact-Executed out.buf (as_slice lits) history out.op lp ll ml offset f.room
                (omega (arith, f.has, long, all)) f.positive f.reach in
            rw (t, ran) (record { buf = buf; op = out.op + ll + ml }, refl, refl, done)
      ])

-- A sequence that has a fault fails with it, whichever path takes it, with literals and slack as they
-- are made and positions below 4 GiB where they are masked. The first fault in this order is the one
-- reported: no room, not enough literals, a zero offset, an offset past the history.
pub execute-error :
    (narrow : Bool) (out : SeqOut) (lits : Literals) (lp ll ml offset : ℕ) (history : List ℕ)
    (fault_found : DecompressError)
    → (narrow ≡ true → out.op < 2 ^ 32)
    → (narrow ≡ true → lp < 2 ^ 32)
    → IsLiterals lits
    → fault out lits lp ll ml offset history ≡ some fault_found
    → execute narrow out lits lp ll ml offset history ≡ err fault_found
unfolding execute execute_exact
execute-error narrow out lits lp ll ml offset history fault_found small_op small_lp lit e =
    let long = length-take lits.len lits.fast in
    let fast =
      leb offset (out.op + ll) && (leb (lp + ll + 32) (length lits.fast) && not (offset == 0)) in
    let short = ltb (length (as_slice lits)) lp || ltb (length (as_slice lits) - lp) ll in
    let out_of = λ (o : Option DecompressError). elim o as (λ x. Result SeqOut) [
      | some x ↦ err x
      | none ↦ ok out
    ] in
    rw (ix-id narrow out.op small_op, ix-id narrow lp small_lp)
      (elim (Bool-cases (ltb (length out.buf) (out.op + ll + ml + 64))) [
        | inl full ↦ rw full (ap out_of (rw full at e))
        | inr room ↦ elim (Bool-cases (ltb lits.len (lp + ll))) [
          | inl few ↦
              let slow : fast ≡ false = ground (arith, few, lit.slack) in
              let found : short ≡ true = ground (arith, few, long, lit.all) in
              rw (room, slow, found) (ap out_of (rw (room, few) at e))
          | inr has ↦
              let enough : short ≡ false = ground (arith, has, long, lit.all) in
              elim (Bool-cases (offset == 0)) [
                | inl zero_offset ↦
                    let slow : fast ≡ false = ground (arith, zero_offset) in
                    rw (room, slow, enough, zero_offset)
                      (ap out_of (rw (room, has, zero_offset) at e))
                | inr some_offset ↦ elim (Bool-cases (ltb (out.op + ll + length history) offset)) [
                  | inl far ↦
                      let slow : fast ≡ false = ground (arith, far) in
                      let past : (ltb (out.op + ll) offset
                            && ltb (length history) (offset - (out.op + ll)))
                          ≡ true =
                        ground (arith, far) in
                      rw (room, slow, enough, some_offset, past)
                        (ap out_of (rw (room, has, some_offset, far) at e))
                  | inr near ↦ absurd (ground (arith, rw (room, has, some_offset, near) at e))
                ]
              ]
        ]
      ])
