-- ===== src/SeqTable/Fill.antt =====
-- The rows made from the entries of an FSE table.
use zrip.Common.{ℕ, zero, suc, ◌+◌, ◌^◌, ◌<◌, ◌≤◌, min, ◌≡◌, refl, sym, ap, ◌∙◌, arith}
use zrip.Common.{List, [], ◌∷◌, length, get_or, set, take, All, length-set, get_or-set, take_all}
use zrip.Common.{get_or-set_cases, inl, inr, passes_below_lem, ltb, ltb→lt}
use zrip.Common.Bits.{bit_and_mask}
use zrip.Common.Powers.{pow_mono, pow_cong}
use zrip.Sequences.Codes.{ll_bits_table, ml_bits_table}
use zrip.Fse.Table.{FseDecodeEntry, zero_entry}
use zrip.Fse.Table.Entries.{InTable}
use zrip.SeqTable.{
  SeqEntry, SeqTable, bit_count, new, fill_from, fill, ll_extra, ml_extra, of_extra,
}
use zrip.SeqTable.{zero_row, get}
use mathlib.Core.Path.{subst}
use native.Mathlib.Nat.{mod-eq_of_lt}

bit_count-id : (n : ℕ) → n < 32 → bit_count n ≡ n
unfolding bit_count
bit_count-id n h = bit_and_mask 5 n ∙ mod-eq_of_lt h

-- A row whose next state, whatever its bits are, is below `2 ^ log`, and whose bit counts are below 32.
pub record InRows (log : ℕ) (row : SeqEntry) : Type 0 where
  pub few_bits : row.num_bits ≤ log
  pub inside : row.base_line + 2 ^ row.num_bits ≤ 2 ^ log
  pub few_extra : row.extra_bits < 32

-- A table for `log` bits of state.
pub record IsTable (log : ℕ) (t : SeqTable) : Type 0 where
  pub sized : length t.rows ≡ 512
  pub initialized : t.initialized ≡ 2 ^ log
  pub fits : 2 ^ log ≤ 512
  pub rows : (i : ℕ) → i < 2 ^ log → InRows log (get t i)

module _ (extra : ℕ → ℕ × ℕ) where
  length-fill_from :
      (i : ℕ) (es : List FseDecodeEntry) (rows : List SeqEntry)
      → length (fill_from i extra es rows) ≡ length rows
  unfolding fill_from
  length-fill_from i [] rows = refl
  length-fill_from i (e ∷ es) rows = length-fill_from (i + 1) es _ ∙ length-set rows i _

  before-fill_from :
      (i : ℕ) (es : List FseDecodeEntry) (rows : List SeqEntry) (j : ℕ)
      → j < i
      → get_or (fill_from i extra es rows) j zero_row ≡ get_or rows j zero_row
  unfolding fill_from
  before-fill_from i [] rows j h = refl
  before-fill_from i (e ∷ es) rows j h =
      let row = new e.base_line e.num_bits (extra e.symbol).0 (extra e.symbol).1 in
      before-fill_from (i + 1) es (set rows i row) j (omega (arith, h))
      ∙ elim (get_or-set_cases rows i row j zero_row) [
        | inl (q, f) ↦ absurd (omega (arith, q, h))
        | inr f ↦ f
      ]

  pub get-fill_from :
      (i : ℕ) (es : List FseDecodeEntry) (rows : List SeqEntry) (j : ℕ)
      → i + length es ≤ length rows
      → j < length es
      → get_or (fill_from i extra es rows) (i + j) zero_row ≡ (
          let e = get_or es j zero_entry in
          new e.base_line e.num_bits (extra e.symbol).0 (extra e.symbol).1)
  unfolding fill_from
  get-fill_from i [] rows j room h = absurd (omega (arith, h))
  get-fill_from i (e ∷ es) rows zero room h =
      let row = new e.base_line e.num_bits (extra e.symbol).0 (extra e.symbol).1 in
      ap (λ (t : ℕ). get_or (fill_from (i + 1) extra es (set rows i row)) t zero_row)
        (let q : i + 0 ≡ i = omega arith in q)
      ∙ before-fill_from (i + 1) es (set rows i row) i (omega arith)
      ∙ get_or-set rows i row zero_row (omega (arith, room))
  get-fill_from i (e ∷ es) rows (suc j) room h =
      let row = new e.base_line e.num_bits (extra e.symbol).0 (extra e.symbol).1 in
      ap (λ (t : ℕ). get_or (fill_from (i + 1) extra es (set rows i row)) t zero_row)
        (let q : i + suc j ≡ i + 1 + j = omega arith in q)
      ∙ get-fill_from (i + 1) es (set rows i row) j (omega (arith, room, length-set rows i row))
          (omega (arith, h))

All-get {ℓ} :
    (P : FseDecodeEntry → Type ℓ) (es : List FseDecodeEntry) (i : ℕ)
    → All P es
    → i < length es
    → P (get_or es i zero_entry)
All-get P [] i h q = absurd (omega arith)
All-get P (e ∷ es) zero (p, h) q = p
All-get P (e ∷ es) (suc i) (p, h) q = All-get P es i h (omega arith)

new-InRows :
    (log : ℕ) (e : FseDecodeEntry) (extra_bits baseline_value : ℕ)
    → log ≤ 9
    → InTable log e
    → extra_bits < 32
    → InRows log (new e.base_line e.num_bits extra_bits baseline_value)
unfolding new
new-InRows log e extra_bits baseline_value small h few =
    let same = bit_count-id e.num_bits (omega (arith, h.few_bits, small)) in
    record {
      few_bits = omega (arith, same, h.few_bits);
      inside = omega (arith, h.inside, pow_cong (bit_count e.num_bits) e.num_bits same);
      few_extra = omega (arith, few, bit_count-id extra_bits few);
    }

-- The row of an entry, whose counts stand for themselves.
pub row_of : (ℕ → ℕ × ℕ) → FseDecodeEntry → SeqEntry
row_of extra e = record {
  base_line = e.base_line;
  num_bits = e.num_bits;
  extra_bits = (extra e.symbol).0;
  baseline_value = (extra e.symbol).1;
}

new-row_of :
    (extra : ℕ → ℕ × ℕ) (e : FseDecodeEntry)
    → e.num_bits < 32
    → (extra e.symbol).0 < 32
    → new e.base_line e.num_bits (extra e.symbol).0 (extra e.symbol).1 ≡ row_of extra e
unfolding new row_of
new-row_of extra e few few_extra =
    rw (bit_count-id e.num_bits few, bit_count-id (extra e.symbol).0 few_extra) refl

get-fill :
    (extra : ℕ → ℕ × ℕ) (t : SeqTable) (fse : List FseDecodeEntry) (i : ℕ)
    → length t.rows ≡ 512
    → length fse ≤ 512
    → i < length fse
    → get (fill t fse extra) i ≡ (
        let e = get_or fse i zero_entry in
        new e.base_line e.num_bits (extra e.symbol).0 (extra e.symbol).1)
unfolding fill
get-fill extra t fse i sized fits h =
    let n : ℕ = min (length fse) 512 in
    let whole : take n fse ≡ fse = take_all n fse (omega (arith, fits)) in
    ap (λ es. get_or (fill_from 0 extra es t.rows) i zero_row) whole
    ∙ ap (λ (j : ℕ). get_or (fill_from 0 extra fse t.rows) j zero_row)
        (let q : i ≡ 0 + i = omega arith in q)
    ∙ get-fill_from extra 0 fse t.rows i (omega (arith, fits, sized)) h

pub fill-IsTable :
    (log m : ℕ) (extra : ℕ → ℕ × ℕ) (t : SeqTable) (fse : List FseDecodeEntry)
    → log ≤ 9
    → length t.rows ≡ 512
    → length fse ≡ 2 ^ log
    → ((s : ℕ) → s < m → (extra s).0 < 32)
    → All (InTable log) fse
    → All (λ e. e.symbol < m) fse
    → IsTable log (fill t fse extra)
unfolding fill
fill-IsTable log m extra t fse small sized long few inside symbols =
    let bound = pow_mono log 9 small in
    record {
      sized = length-fill_from extra 0 (take (min (length fse) 512) fse) t.rows ∙ sized;
      initialized = omega (arith, long, bound);
      fits = omega (arith, bound);
      rows = λ i h.
          let e = get_or fse i zero_entry in
          let row =
            get-fill extra t fse i sized (omega (arith, long, bound)) (omega (arith, h, long)) in
          subst (InRows log) (sym row) (
            new-InRows log e (extra e.symbol).0 (extra e.symbol).1 small
              (All-get (InTable log) fse i inside (omega (arith, h, long)))
              (few e.symbol (All-get (λ e. e.symbol < m) fse i symbols (omega (arith, h, long)))));
    }

-- A table of 2^log entries of an FSE table, at most 512, that each stay in their table, and whose
-- symbols have less than 32 extra bits: the table made of them has 2^log rows, each leads to a row
-- again, and each is its entry's own: base line, bit counts and baseline value, none of them masked.
pub fill-rows :
    (log m : ℕ) (extra : ℕ → ℕ × ℕ) (t : SeqTable) (fse : List FseDecodeEntry)
    → log ≤ 9
    → length t.rows ≡ 512
    → length fse ≡ 2 ^ log
    → ((s : ℕ) → s < m → (extra s).0 < 32)
    → All (InTable log) fse
    → All (λ e. e.symbol < m) fse
    → IsTable log (fill t fse extra)
      × ((i : ℕ) → i < 2 ^ log → get (fill t fse extra) i ≡ row_of extra (get_or fse i zero_entry))
fill-rows log m extra t fse small sized long few inside symbols = (
  fill-IsTable log m extra t fse small sized long few inside symbols,
  λ i h.
      let e = get_or fse i zero_entry in
      let below : i < length fse = omega (arith, h, long) in
      let entry = All-get (InTable log) fse i inside below in
      get-fill extra t fse i sized (omega (arith, long, pow_mono log 9 small)) below
      ∙ new-row_of extra e (omega (arith, small, entry.few_bits))
          (few e.symbol (All-get (λ e. e.symbol < m) fse i symbols below)),
)

pub ll_extra-lt : (s : ℕ) → s < 36 → (ll_extra s).0 < 32
unfolding ll_extra
ll_extra-lt s h =
    ltb→lt _ 32 (passes_below_lem (λ s. ltb (get_or ll_bits_table s 0) 32) 36 s refl h)

pub ml_extra-lt : (s : ℕ) → s < 53 → (ml_extra s).0 < 32
unfolding ml_extra
ml_extra-lt s h =
    ltb→lt _ 32 (passes_below_lem (λ s. ltb (get_or ml_bits_table s 0) 32) 53 s refl h)

pub of_extra-lt : (s : ℕ) → s < 32 → (of_extra s).0 < 32
unfolding of_extra
of_extra-lt s h = h
