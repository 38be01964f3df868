-- ===== src/Fse/Table/Bounds.antt =====
-- Every entry of a built table stays in the table.
use zrip.Common.{ℕ, zero, suc, ◌+◌, ◌-◌, ◌*◌, ◌%◌, ◌^◌, ◌<◌, ◌≤◌, ◌≡◌, refl, sym, ap, ◌∙◌}
use zrip.Common.{arith, Bool-cases, inl, inr, ltb, ◌==◌, ==→eq}
use zrip.Common.{List, [], ◌∷◌, length, get_or, replicate, All, length-replicate}
use zrip.Common.{if◌then◌else◌, Result, ok, err, err-absurd, ok-injective, >>=-ok, ◌>>=◌, ltb→ge}
use zrip.Common.{bad_fse_table}
use zrip.Common.Powers.{pow_pos, pow_cong, pow-add}
use zrip.Common.Words.{u8}
use zrip.Common.Integers.{ℤ, pos}
use zrip.Fse.Table.{FseDecodeEntry, zero_entry, Counted, positive, count_symbols, spread_symbols}
use zrip.Fse.Table.{spread_skipping, fill_entries, build_decode_table_into}
use zrip.Fse.Table.Cycle.{cell_at}
use zrip.Fse.Table.Spread.{symbol_at, Walked, Walked-full, spread_skipping-Walked}
use zrip.Fse.Table.Entries.{InTable, Counts, fill_entries-InTable, length-fill_entries}
use zrip.Fse.Table.Entries.{symbols-fill_entries}
use zrip.Fse.Table.Count.{taken, Count, Counting, count_symbols-Counting}
use mathlib.Core.Path.{subst, transport}
use native.Mathlib.Nat.{mod-eq_of_lt, zero-mod}
use zrip.Fse.Table.Agree.{step_of, spread_symbols-spread_skipping}

-- The state before the counting loop.
abbrev initial : ℕ → List FseDecodeEntry → Counted
initial n table = record {
  next = replicate 256 0;
  high_threshold = 2 ^ n - 1;
  total = 0;
  table = if length table == 2 ^ n then table else replicate (2 ^ n) zero_entry;
}

get_zero : (k j : ℕ) → get_or {A = ℕ} (replicate k 0) j 0 ≡ 0
get_zero zero j = refl
get_zero (suc k) zero = refl
get_zero (suc k) (suc j) = get_zero k j

initial-Count : (n : ℕ) (table : List FseDecodeEntry) → Count n 0 (initial n table)
initial-Count n table = record {
  long = elim (Bool-cases (length table == 2 ^ n)) [
    | inl e ↦ rw e (==→eq (length table) (2 ^ n) e)
    | inr e ↦ rw e (length-replicate (2 ^ n) zero_entry)
  ];
  wide = length-replicate {A = ℕ} 256 0;
  small = λ j. omega (arith, get_zero 256 j);
  high = omega (arith, pow_pos n);
  marked = λ i a b. absurd (omega (arith, a, b));
}

has_index : (probs : List ℤ) (i : ℕ) → 0 < positive (get_or probs i (pos 0)) → i < length probs
has_index [] i h = absurd (omega arith)
has_index (prob ∷ probs) zero h = omega arith
has_index (prob ∷ probs) (suc i) h = omega (arith, has_index probs i h)

All-at {ℓ} :
    (P : ℕ → Type ℓ) (es : List FseDecodeEntry)
    → ((i : ℕ) → i < length es → P (symbol_at es i))
    → All (λ e. P e.symbol) es
All-at P [] h = tt
All-at P (e ∷ es) h = (h 0 (omega arith), All-at P es (λ i q. h (suc i) (omega arith)))

All-unzip {ℓ κ} :
    {A : Type ℓ} (P Q : A → Type κ) (xs : List A) → All (λ x. P x × Q x) xs → All P xs × All Q xs
All-unzip P Q [] h = (tt, tt)
All-unzip P Q (x ∷ xs) ((p, q), h) = let (ps, qs) = All-unzip P Q xs h in ((p, ps), (q, qs))

pub step-odd : (n : ℕ) → 5 ≤ n → step_of (2 ^ n) % 2 ≡ 1
step-odd n h =
    let m : ℕ = n - 5 in
    let e : 2 ^ n ≡ 2 ^ m * 32 = pow_cong n (m + 5) (omega (arith, h)) ∙ pow-add m 5 in
    omega (arith, e)

-- The spread of what was counted, back at cell 0: every symbol is one of the distribution's, with
-- its counter set.
spread-owned :
    (n : ℕ) (distribution : List ℤ) (c c' : Counted)
    → 5 ≤ n
    → length distribution ≤ 256
    → taken distribution ≡ 2 ^ n
    → c.total ≡ 0
    → c.high_threshold ≡ 2 ^ n - 1
    → Counting n 0 distribution c c'
    → (spread_symbols (2 ^ n) distribution c').0 ≡ 0
    → (length (spread_symbols (2 ^ n) distribution c').1 ≡ 2 ^ n)
      × All
          (λ e. (e.symbol < length distribution) × Counts c'.next e)
          (spread_symbols (2 ^ n) distribution c').1
spread-owned n distribution c c' big fits full total high r zero_end =
    let step : ℕ = step_of (2 ^ n) in
    let P : ℕ → Type 0 = λ x. (x < length distribution) × (0 < get_or c'.next x 0) in
    let same = spread_symbols-spread_skipping n distribution c' (omega (arith, r.totals, total)) in
    let first : cell_at n step 0 ≡ 0 =
      ap (λ (t : ℕ). t % 2 ^ n) (let e : 0 * step ≡ 0 = omega arith in e) ∙ zero-mod (2 ^ n) in
    let start : Walked P n step c'.high_threshold (step-odd n big) 0 0 c'.table = record {
      at = sym first;
      low = omega (arith, first);
      long = r.count.long;
      done = λ j a b. absurd (omega arith);
      rest = λ i a b. let (x, y) = r.count.marked i a b in (omega (arith, x), y);
    } in
    let owned = λ (i : ℕ) (q : 0 < positive (get_or distribution i (pos 0))).
      let inside = has_index distribution i q in
      transport
        (ap P (let e : 0 + i ≡ u8 (0 + i) = sym (mod-eq_of_lt (omega (arith, inside))) in e))
        (omega (arith, inside), r.owned i q) in
    let (k, far, w) =
      spread_skipping-Walked P n step c'.high_threshold (step-odd n big) distribution 0 0
        (0, c'.table) owned start in
    let moved : 0 < k = omega (arith, far, r.spent, full, high, pow_pos n) in
    let every =
      Walked-full P n step c'.high_threshold (step-odd n big) k
        (spread_skipping (2 ^ n - 1) step c'.high_threshold 0 distribution (0, c'.table)) moved w
        (ap (λ st. st.0) (sym same) ∙ zero_end) in
    subst
      (λ st.
        (length st.1 ≡ 2 ^ n) × All (λ e. (e.symbol < length distribution) × Counts c'.next e) st.1)
      (sym same) (w.long, All-at P _ (λ i q. every i (omega (arith, q, w.long))))

abbrev finish : ℕ → List ℤ → Counted → Result (List FseDecodeEntry)
finish n distribution c =
    let (position, spread) = spread_symbols (2 ^ n) distribution c in
    if position == 0 then ok (fill_entries n c.next spread) else err bad_fse_table

built :
    (n : ℕ) (distribution : List ℤ) (table entries : List FseDecodeEntry)
    → 5 ≤ n
    → n ≤ 14
    → taken distribution ≡ 2 ^ n
    → length distribution ≤ 256
    → count_symbols (2 ^ n - 1) 0 distribution (initial n table) >>= finish n distribution
      ≡ ok entries
    → (length entries ≡ 2 ^ n)
      × All (InTable n) entries
      × All (λ e. e.symbol < length distribution) entries
built n distribution table entries big narrow full fits e =
    let (c', counted, finished) =
      >>=-ok (count_symbols (2 ^ n - 1) 0 distribution (initial n table)) (finish n distribution)
        entries e in
    let r =
      count_symbols-Counting n 0 distribution (initial n table) c' narrow (omega (arith, fits))
        (omega (arith, full)) (initial-Count n table) counted in
    elim (Bool-cases ((spread_symbols (2 ^ n) distribution c').0 == 0)) [
      | inr f ↦ err-absurd bad_fse_table entries (rw f at finished)
      | inl f ↦
          let (long, owned) =
            spread-owned n distribution (initial n table) c' big fits full refl refl r
              (==→eq _ 0 f) in
          let spread = (spread_symbols (2 ^ n) distribution c').1 in
          let (symbols, counts) =
            All-unzip (λ e. e.symbol < length distribution) (Counts c'.next) spread owned in
          let is : fill_entries n c'.next spread ≡ entries =
            ok-injective (fill_entries n c'.next spread) entries (rw f at finished) in
          subst
            (λ t.
              (length t ≡ 2 ^ n) × All (InTable n) t × All (λ e. e.symbol < length distribution) t)
            is
            (
              length-fill_entries n spread c'.next ∙ long,
              fill_entries-InTable n (2 ^ n) c'.next spread narrow r.count.small
                  (omega (arith, long)) counts,
              symbols-fill_entries n (length distribution) spread c'.next symbols,
            )
    ]

-- For an accuracy log of 5 to 14 and a distribution that takes all the cells of the table, a table
-- that is built has 2^accuracy_log entries; every entry's symbol is one of the distribution's, and
-- whatever bits its number of bits reads, the next state is again an entry of the table.
pub build_decode_table_into-InTable :
    (n : ℕ) (distribution : List ℤ) (table entries : List FseDecodeEntry)
    → 5 ≤ n
    → n ≤ 14
    → taken distribution ≡ 2 ^ n
    → build_decode_table_into distribution n table ≡ ok entries
    → (length entries ≡ 2 ^ n)
      × All (InTable n) entries
      × All (λ e. e.symbol < length distribution) entries
unfolding build_decode_table_into
build_decode_table_into-InTable n distribution table entries big narrow full e =
    elim (Bool-cases (ltb 256 (length distribution))) [
      | inl f ↦ err-absurd bad_fse_table entries (rw f at e)
      | inr f ↦
          built n distribution table entries big narrow full (ltb→ge 256 (length distribution) f)
            (rw f at e)
    ]
