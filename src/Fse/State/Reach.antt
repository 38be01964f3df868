-- ===== src/Fse/State/Reach.antt =====
-- The states that a decoder reaches.
use zrip.Common.{ℕ, zero, suc, ◌+◌, ◌-◌, ◌*◌, ◌/◌, ◌^◌, ◌<◌, ◌≤◌, ◌≡◌, sym, ap, ◌∙◌, arith}
use zrip.Common.{Bool-cases, inl, inr, List, [], ◌∷◌, length, get_or, All, ltb, ◌==◌}
use zrip.Common.{ok, input_exhausted, err-absurd, ok-injective, >>=-ok}
use zrip.Common.Powers.{pow_pos, pow-add, pow_cong}
use zrip.Common.Words.{u64, ◌<<<◌}
use zrip.Bitstream.Reverse.{ReverseBitReader, read_bits, top_field, refill}
use zrip.Fse.Table.{FseDecodeEntry, zero_entry}
use zrip.Fse.Table.Entries.{InTable}
use zrip.Fse.State.{FseState, new, entry, update_state}
use native.Mathlib.Nat.{mod-lt, mod-le, div-lt_iff_lt-mul}
use mathlib.Core.Path.{subst}

top_field-lt : (r : ReverseBitReader) (n : ℕ) → n ≤ 64 → top_field r n < 2 ^ n
unfolding top_field
top_field-lt r n h =
    let x : ℕ = u64 (r.container <<< r.bits_consumed) in
    let whole : 2 ^ 64 ≡ 2 ^ n * 2 ^ (64 - n) =
      pow_cong 64 (n + (64 - n)) (omega (arith, h)) ∙ pow-add n (64 - n) in
    let below : x < 2 ^ n * 2 ^ (64 - n) =
      omega (arith, mod-lt (r.container <<< r.bits_consumed) (pow_pos 64), whole) in
    let (back, forth) = div-lt_iff_lt-mul (pow_pos (64 - n)) in
    omega (arith, forth below, mod-le (x / 2 ^ (64 - n)) (2 ^ 32))

-- A field that is read fits its width.
read_bits-lt : (r r' : ReverseBitReader) (n v : ℕ) → n ≤ 64 → read_bits r n ≡ ok (v, r') → v < 2 ^ n
unfolding read_bits
read_bits-lt r r' n v h e = elim (Bool-cases (n == 0)) [
  | inl z ↦ omega (arith, ap (λ t. t.0) (ok-injective (0, r) (v, r') (rw z at e)), pow_pos n)
  | inr z ↦ elim (Bool-cases (ltb (64 - (refill r).bits_consumed) n)) [
    | inl f ↦ err-absurd input_exhausted (v, r') (rw (z, f) at e)
    | inr f ↦ omega (
      arith,
      ap (λ t. t.0) (ok-injective _ (v, r') (rw (z, f) at e)),
      top_field-lt (refill r) n h,
    )
  ]
]

All-get :
    (n : ℕ) (es : List FseDecodeEntry) (i : ℕ)
    → All (InTable n) es
    → i < length es
    → InTable n (get_or es i zero_entry)
All-get n [] i h q = absurd (omega arith)
All-get n (e ∷ es) zero (p, h) q = p
All-get n (e ∷ es) (suc i) (p, h) q = All-get n es i h (omega arith)

-- The states reached from the first one, by any number of updates.
pub data Reached (table : List FseDecodeEntry) (n : ℕ) : FseState → ReverseBitReader → Type 0 where
  first :
      (reader reader' : ReverseBitReader) (st : FseState)
      → new table n reader ≡ ok (st, reader')
      → Reached table n st reader'
  next :
      (st st' : FseState) (reader reader' : ReverseBitReader)
      → Reached table n st reader
      → update_state st reader ≡ ok (st', reader')
      → Reached table n st' reader'

new-inside :
    (table : List FseDecodeEntry) (n : ℕ) (reader reader' : ReverseBitReader) (st : FseState)
    → n ≤ 64
    → new table n reader ≡ ok (st, reader')
    → (st.table ≡ table) × (st.state < 2 ^ n)
unfolding new
new-inside table n reader reader' st h e =
    let ((v, r), read, made) = >>=-ok (read_bits reader n) _ (st, reader') e in
    let is = ap (λ t. t.0) (ok-injective _ (st, reader') made) in
    (
      sym (ap (λ t. t.table) is),
      omega (arith, ap (λ t. t.state) is, read_bits-lt reader r n v h read),
    )

update_state-inside :
    (n : ℕ) (st st' : FseState) (reader reader' : ReverseBitReader)
    → n ≤ 64
    → length st.table ≡ 2 ^ n
    → All (InTable n) st.table
    → st.state < 2 ^ n
    → update_state st reader ≡ ok (st', reader')
    → (st'.table ≡ st.table) × (st'.state < 2 ^ n)
unfolding update_state
update_state-inside n st st' reader reader' h long all below e =
    let here = entry st in
    let fits = All-get n st.table st.state all (omega (arith, long, below)) in
    let ((v, r), read, made) = >>=-ok (read_bits reader here.num_bits) _ (st', reader') e in
    let is = ap (λ t. t.0) (ok-injective _ (st', reader') made) in
    (
      sym (ap (λ t. t.table) is),
      omega (
        arith,
        ap (λ t. t.state) is,
        read_bits-lt reader r here.num_bits v (omega (arith, fits.few_bits, h)) read,
        fits.inside,
      ),
    )

-- With a table of 2^n entries of which each stays in the table, every state reached from the first
-- one by updates, whatever bits are read, is an index of that same table.
pub Reached-inside :
    (table : List FseDecodeEntry) (n : ℕ) (st : FseState) (reader : ReverseBitReader)
    → n ≤ 64
    → length table ≡ 2 ^ n
    → All (InTable n) table
    → Reached table n st reader
    → (st.table ≡ table) × (st.state < length st.table)
Reached-inside table n st reader h long all (first r0 _ _ e) =
    let (same, below) = new-inside table n r0 reader st h e in
    (same, omega (arith, long, below, ap length same))
Reached-inside table n st reader h long all (next st0 _ r0 _ before e) =
    let (same0, below0) = Reached-inside table n st0 r0 h long all before in
    let long0 : length st0.table ≡ 2 ^ n = ap length same0 ∙ long in
    let (same, below) =
      update_state-inside n st0 st r0 reader h long0 (subst (All (InTable n)) (sym same0) all)
        (omega (arith, below0, long0)) e in
    (same ∙ same0, omega (arith, below, long0, ap length same))
