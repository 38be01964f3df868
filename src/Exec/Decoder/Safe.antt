-- ===== src/Exec/Decoder/Safe.antt =====
-- The sequence loop stays within its block, whatever the stream holds.
use zrip.Common.{
  ℕ, zero, suc, ◌+◌, ◌-◌, ◌^◌, ◌<◌, ◌≤◌, ◌≡◌, refl, sym, ap, ◌∙◌, arith, Bool, true, false, ◌||◌,
}
use zrip.Common.{Bool-cases, Option-cases, inl, inr, List, length, get_or, take, drop, length-take}
use zrip.Common.{length-copy_from_slice, ltb}
use zrip.Common.{ok, >>=-ok, ok-injective, err-absurd, corrupt_sequences, corrupt_literals}
use mathlib.Core.Path.{subst}
use zrip.Sequences.{Reps}
use zrip.Tables.{SequenceDecodeTables}
use zrip.Copy.{Literals, SeqOut, as_slice, execute, extend_literals}
use zrip.Copy.Chunk.{copy-before}
use zrip.Copy.Join.{fault, IsLiterals}
use zrip.Copy.Execute.{execute-Executed, execute-error, fault-Fits}
use zrip.Exec.{SeqBits, is_exhausted}
use zrip.Exec.Decoder.{Run, decode, open_states, run_one, run_loop}
use zrip.Exec.Decoder.{run_rest, run_sequences}

-- The output grew, within the buffer and its 64 bytes of room, and what was there stays.
pub record Grown (before out : SeqOut) : Type 0 where
  pub long : length out.buf ≡ length before.buf
  pub more : before.op ≤ out.op
  pub room : out.op + 64 ≤ length before.buf
  pub kept : (j : ℕ) → j < before.op → get_or out.buf j 0 ≡ get_or before.buf j 0

trans-Grown : (a b c : SeqOut) → Grown a b → Grown b c → Grown a c
trans-Grown a b c g h = record {
  long = h.long ∙ g.long;
  more = omega (arith, g.more, h.more);
  room = omega (arith, h.room, g.long);
  kept = λ j q. h.kept j (omega (arith, q, g.more)) ∙ g.kept j q;
}

execute-Grown :
    (narrow : Bool) (out out' : SeqOut) (lits : Literals) (lp ll ml offset : ℕ) (history : List ℕ)
    → (narrow ≡ true → out.op < 2 ^ 32)
    → (narrow ≡ true → lp < 2 ^ 32)
    → IsLiterals lits
    → execute narrow out lits lp ll ml offset history ≡ ok out'
    → Grown out out' × (lp + ll ≤ lits.len)
execute-Grown narrow out out' lits lp ll ml offset history small_op small_lp lit e =
    elim (Option-cases (fault out lits lp ll ml offset history)) [
      | inr (x, f) ↦ err-absurd x out' (
          sym (execute-error narrow out lits lp ll ml offset history x small_op small_lp lit f) ∙ e)
      | inl f ↦
          let (o, ran, op, done) =
            execute-Executed narrow out lits lp ll ml offset history small_op small_lp lit.all f in
          let fit = fault-Fits out lits lp ll ml offset history f in
          let is = ok-injective o out' (sym ran ∙ e) in
          (
            subst (Grown out) is (record {
              long = done.long;
              more = omega (arith, op);
              room = omega (arith, op, fit.room);
              kept = done.below;
            }),
            fit.has,
          )
    ]

extend_literals-Grown :
    (out out' : SeqOut) (lits : Literals) (lp len : ℕ)
    → out.op + 64 ≤ length out.buf
    → extend_literals out lits lp len ≡ ok out'
    → Grown out out'
unfolding extend_literals
extend_literals-Grown out out' lits lp len room e =
    let slice : List ℕ = as_slice lits in
    elim (Bool-cases (ltb (length slice) lp || ltb (length slice - lp) len)) [
      | inl few ↦ err-absurd corrupt_literals out' (rw few at e)
      | inr has ↦ elim (Bool-cases (ltb (length out.buf - 64 - out.op) len)) [
        | inl full ↦ err-absurd corrupt_sequences out' (rw (has, full) at e)
        | inr fits ↦
            let ys : List ℕ = take len (drop lp slice) in
            let size : length ys ≤ len = omega (arith, length-take len (drop lp slice)) in
            let inside : out.op + len + 64 ≤ length out.buf = ground (arith, fits, room) in
            subst (Grown out) (ok-injective _ out' (rw (has, fits) at e)) (record {
              long = length-copy_from_slice out.buf out.op ys (omega (arith, size, inside));
              more = omega arith;
              room = inside;
              kept = λ j h. copy-before 0 out.buf out.op ys j (omega (arith, inside)) h;
            })
      ]
    ]

module _ (narrow : Bool) (source : List ℕ) (tables : SequenceDecodeTables) (literals : Literals)
    (history : List ℕ) (lit : IsLiterals literals)
    (few : narrow ≡ true → literals.len < 2 ^ 32) where
  -- What the loop keeps, from `start` on.
  record Going (start : SeqOut) (r : Run) : Type 0 where
    grown : Grown start r.out
    read : r.lp ≤ literals.len

  run_one-Going :
      (start : SeqOut) (update : Bool) (r r' : Run)
      → (narrow ≡ true → length start.buf < 2 ^ 32)
      → Going start r
      → run_one narrow source tables literals history update r ≡ ok r'
      → Going start r'
  unfolding run_one
  run_one-Going start update r r' small g e =
      let d = (decode update r.dec r.b source tables).0 in
      let (out, ran, made) =
        >>=-ok (execute narrow r.out literals r.lp d.literal_length d.match_length d.offset history)
          _ r' e in
      let (grown, lp) =
        execute-Grown narrow r.out out literals r.lp d.literal_length d.match_length d.offset
          history (λ q. omega (arith, g.grown.room, small q)) (λ q. omega (arith, g.read, few q))
          lit ran in
      subst (Going start) (ok-injective _ r' made)
        (record { grown = trans-Grown start r.out out g.grown grown; read = lp })

  run_loop-Going :
      (start : SeqOut) (left : ℕ) (r r' : Run)
      → (narrow ≡ true → length start.buf < 2 ^ 32)
      → Going start r
      → run_loop narrow source tables literals history left r ≡ ok r'
      → Going start r'
  unfolding run_loop
  run_loop-Going start zero r r' small g e = subst (Going start) (ok-injective r r' e) g
  run_loop-Going start (suc left) r r' small g e =
      let (r1, one, rest) =
        >>=-ok (run_one narrow source tables literals history true r)
          (λ t. run_loop narrow source tables literals history left t) r' e in
      run_loop-Going start left r1 r' small (run_one-Going start true r r1 small g one) rest

  run_rest-Grown :
      (start : SeqOut) (r : Run) (out : SeqOut)
      → Going start r
      → run_rest narrow source tables literals history r ≡ ok out
      → Grown start out
  unfolding run_rest
  run_rest-Grown start r out g e = elim (Bool-cases (is_exhausted r.b)) [
    | inr f ↦ err-absurd corrupt_sequences out (rw f at e)
    | inl f ↦ elim (Bool-cases (ltb r.lp literals.len)) [
      | inl more ↦ trans-Grown start r.out out g.grown (
          extend_literals-Grown r.out out literals r.lp (literals.len - r.lp)
            (omega (arith, g.grown.room, g.grown.long)) (rw (f, more) at e))
      | inr done ↦ subst (Grown start) (ok-injective r.out out (rw (f, done) at e)) g.grown
    ]
  ]

  -- Whatever the stream, the tables and the history hold, with the literals as they are made and
  -- buffer and literals below 4 GiB where positions are masked: a block's sequences that are executed
  -- leave the output before it as it was, and the new position at or behind the old one and at most 64
  -- bytes, the room for the copies past the end, before the end of the buffer.
  pub run_sequences-Grown :
      (start : SeqBits) (num_sequences : ℕ) (offsets offsets' : Reps) (out out' : SeqOut)
      → (narrow ≡ true → length out.buf < 2 ^ 32)
      → out.op + 64 ≤ length out.buf
      → run_sequences narrow source tables literals history start num_sequences offsets out
        ≡ ok (out', offsets')
      → Grown out out'
  unfolding run_sequences
  run_sequences-Grown start num_sequences offsets offsets' out out' small room e =
      elim (Bool-cases (ltb (length source) 8)) [
        | inl short ↦ err-absurd corrupt_sequences (out', offsets') (rw short at e)
        | inr enough ↦
            let st = open_states start source tables offsets in
            let r0 : Run = record { out = out; b = st.1; dec = st.0; lp = 0 } in
            let g0 : Going out r0 = record {
              grown = record { long = refl; more = omega arith; room = room; kept = λ j h. refl };
              read = omega arith;
            } in
            let (r1, looped, rest1) =
              >>=-ok (run_loop narrow source tables literals history (num_sequences - 1) r0) _
                (out', offsets') (rw enough at e) in
            let g1 = run_loop-Going out (num_sequences - 1) r0 r1 small g0 looped in
            let (r2, last, rest2) =
              >>=-ok (run_one narrow source tables literals history false r1) _ (out', offsets')
                rest1 in
            let g2 = run_one-Going out false r1 r2 small g1 last in
            let (o, ended, made) =
              >>=-ok (run_rest narrow source tables literals history r2) _ (out', offsets') rest2 in
            subst (Grown out) (ap (λ t. t.0) (ok-injective _ (out', offsets') made))
              (run_rest-Grown out r2 o g2 ended)
      ]
