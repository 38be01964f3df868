-- ===== src/Tables/Sound.antt =====
-- The tables that the header of the sequences leaves.
use zrip.Common.{ℕ, zero, suc, ◌+◌, ◌^◌, ◌<◌, ◌≤◌, ◌≡◌, refl, sym, ap, ◌∙◌, arith}
use zrip.Common.{Bool-cases, inl, inr, List, length, get_or, take, length-take}
use zrip.Common.{length-copy_from_slice, set, get_or-set, length-set}
use zrip.Common.{ltb, ltb→ge, ◌==◌, ok, >>=-ok, ok-injective, err-absurd, bad_fse_table}
use zrip.Common.{corrupt_sequences}
use zrip.Common.Powers.{pow_pos}
use zrip.Bitstream.Reader.{BitReader, read_bits}
use zrip.Copy.Chunk.{copy-inside, get_or-take}
use zrip.Fse.Table.{FseDecodeEntry, build_decode_table_into}
use zrip.Fse.Description.{parse_fse_table_description_into}
use zrip.Fse.Description.Accept.{built-InTable}
use zrip.SeqTable.{SeqEntry, SeqTable, set_single, clone_from, new, zero_row, bit_count}
use zrip.SeqTable.Fill.{InRows, IsTable, fill-IsTable}
use zrip.Tables.{
  Slot, Section, SequenceTableKind, predefined, other, predefined_table, predefined_mode,
}
use zrip.Tables.{single_mode, described_mode, parse_mode}
use zrip.Common.Bits.{bit_and_mask}
use native.Mathlib.Nat.{mod-lt}
use mathlib.Core.Path.{subst}

-- A section whose predefined table is sound, and whose symbols have less than 32 extra bits.
pub record IsSection (s : Section) : Type 0 where
  pub default_table : IsTable s.default_accuracy (predefined_table s)
  pub symbols : s.max_symbol ≤ 255
  pub logs : s.max_accuracy_log ≤ 9
  pub few : (x : ℕ) → x < s.max_symbol + 1 → (let f = s.extra in (f x).0) < 32

-- A slot whose table has as many sound rows as its accuracy says, and the predefined ones if it says so.
pub record IsSlot (s : Section) (slot : Slot) : Type 0 where
  pub sound : IsTable slot.accuracy slot.table
  pub default_sound : slot.kind ≡ predefined → IsTable s.default_accuracy slot.table

pub clone-IsTable :
    (log old : ℕ) (t source : SeqTable)
    → IsTable old t
    → IsTable log source
    → IsTable log (clone_from t source)
unfolding clone_from
clone-IsTable log old t source h g =
    let some_rows : List SeqEntry = take source.initialized source.rows in
    let long : length some_rows ≡ 2 ^ log =
      length-take source.initialized source.rows ∙ omega (arith, g.initialized, g.sized, g.fits) in
    record {
      sized =
          length-copy_from_slice t.rows 0 some_rows (omega (arith, long, g.fits, h.sized))
          ∙ h.sized;
      initialized = g.initialized;
      fits = g.fits;
      rows = λ i q.
          subst (InRows log)
            (sym (
              copy-inside zero_row t.rows 0 some_rows i i (omega arith) (omega arith)
                (omega (arith, long, q))
              ∙ get_or-take zero_row source.initialized i source.rows
                  (omega (arith, q, g.initialized))))
            (g.rows i q);
    }

pub predefined_mode-IsSlot :
    (s : Section) (prev : Slot) → IsSection s → IsSlot s prev → IsSlot s (predefined_mode s prev)
unfolding predefined_mode
predefined_mode-IsSlot s prev k h = record { sound = at; default_sound = λ q. at }
  where
    at : IsTable s.default_accuracy (let p = predefined_mode s prev in p.table)
    at = kinds prev.kind refl
      where
        kinds :
            (kind : SequenceTableKind)
            → prev.kind ≡ kind
            → IsTable s.default_accuracy (elim kind [
              | predefined ↦ prev.table
              | other ↦ clone_from prev.table (predefined_table s)
            ])
        kinds predefined e = h.default_sound e
        kinds other e =
            clone-IsTable s.default_accuracy prev.accuracy prev.table (predefined_table s) h.sound
              k.default_table

pub other-absurd : {A : Type 0} → other ≡ predefined → A
other-absurd e = absurd (ground (arith, e))

described_mode-IsSlot :
    (s : Section) (prev : Slot) (reader : BitReader) (build_buf : List FseDecodeEntry)
    (out : Slot × BitReader × List FseDecodeEntry)
    → IsSection s
    → IsSlot s prev
    → described_mode s prev reader build_buf ≡ ok out
    → IsSlot s out.0
unfolding described_mode
described_mode-IsSlot s prev reader build_buf out k h e =
    let (p, parsed, rest) = >>=-ok (parse_fse_table_description_into reader s.max_symbol) _ out e in
    elim (Bool-cases (ltb s.max_accuracy_log p.1)) [
      | inl large ↦ err-absurd bad_fse_table out (rw large at rest)
      | inr fits ↦
          let small = ltb→ge s.max_accuracy_log p.1 fits in
          let (entries, made, returned) =
            >>=-ok (build_decode_table_into p.0 p.1 build_buf) _ out (rw fits at rest) in
          let (long, inside, symbols) =
            built-InTable reader p.2 s.max_symbol p.0 p.1 build_buf entries k.symbols parsed made in
          let sound =
            fill-IsTable p.1 (s.max_symbol + 1) s.extra prev.table entries
              (omega (arith, small, k.logs)) (let g = h.sound in g.sized) long k.few inside
              symbols in
          subst (IsSlot s) (ap (λ t. t.0) (ok-injective _ out returned))
            (record { sound = sound; default_sound = λ q. other-absurd q })
    ]

single_mode-IsSlot :
    (s : Section) (prev : Slot) (reader : BitReader) (out : Slot × BitReader)
    → IsSlot s prev
    → single_mode s prev reader ≡ ok out
    → IsSlot s out.0
unfolding single_mode set_single new bit_count
single_mode-IsSlot s prev reader out h e =
    let (p, parsed, rest) = >>=-ok (read_bits reader 8) _ out e in
    let f = s.extra in
    let g = h.sound in
    let old = (let t = prev.table in t.rows) in
    let row = new 0 0 (f p.0).0 (f p.0).1 in
    let sound : IsTable 0 (record { initialized = 1; rows = set old 0 row }) = record {
      sized = length-set old 0 row ∙ g.sized;
      initialized = refl;
      fits = omega arith;
      rows = λ i q. first old row g.sized (few_extra (f p.0).0 (f p.0).1) i q;
    } in
    elim (Bool-cases (ltb s.max_symbol p.0)) [
      | inl large ↦ err-absurd corrupt_sequences out (rw large at rest)
      | inr fits ↦
          subst (IsSlot s) (ap (λ t. t.0) (ok-injective _ out (rw fits at rest)))
            (record { sound = sound; default_sound = λ q. other-absurd q })
    ]
  where
    few_extra : (eb bv : ℕ) → InRows 0 (new 0 0 eb bv)
    few_extra eb bv = record {
      few_bits = omega arith;
      inside = omega arith;
      few_extra = omega (arith, bit_and_mask 5 eb, mod-lt eb (pow_pos 5));
    }

    first :
        (rows : List SeqEntry) (row : SeqEntry)
        → length rows ≡ 512
        → InRows 0 row
        → (i : ℕ) → i < 2 ^ 0
        → InRows 0 (get_or (set rows 0 row) i zero_row)
    first rows row long h zero q =
        subst (InRows 0) (sym (get_or-set rows 0 row zero_row (omega (arith, long)))) h
    first rows row long h (suc i) q = absurd (omega (arith, q))

pub parse_mode-IsSlot :
    (s : Section) (mode : ℕ) (prev : Slot) (reader : BitReader) (build_buf : List FseDecodeEntry)
    (out : Slot × BitReader × List FseDecodeEntry)
    → IsSection s
    → IsSlot s prev
    → parse_mode s mode prev reader build_buf ≡ ok out
    → IsSlot s out.0
unfolding parse_mode
parse_mode-IsSlot s mode prev reader build_buf out k h e = elim (Bool-cases (mode == 0)) [
  | inl e0 ↦
      subst (IsSlot s)
        (ap (λ t. t.0) (ok-injective (predefined_mode s prev, reader, build_buf) out (rw e0 at e)))
        (predefined_mode-IsSlot s prev k h)
  | inr n0 ↦ elim (Bool-cases (mode == 1)) [
    | inl e1 ↦
        let (p, ran, made) = >>=-ok (single_mode s prev reader) _ out (rw (n0, e1) at e) in
        subst (IsSlot s) (ap (λ t. t.0) (ok-injective (p.0, p.1, build_buf) out made))
          (single_mode-IsSlot s prev reader p h ran)
    | inr n1 ↦ elim (Bool-cases (mode == 2)) [
      | inl e2 ↦ described_mode-IsSlot s prev reader build_buf out k h (rw (n0, n1, e2) at e)
      | inr n2 ↦ elim (Bool-cases prev.is_set) [
        | inr f ↦ err-absurd corrupt_sequences out (rw (n0, n1, n2, f) at e)
        | inl f ↦
            subst (IsSlot s) (ap (λ t. t.0) (ok-injective _ out (rw (n0, n1, n2, f) at e)))
              (record { sound = h.sound; default_sound = h.default_sound })
      ]
    ]
  ]
]
