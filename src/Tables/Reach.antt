-- ===== src/Tables/Reach.antt =====
-- crates/decode/src: the tables and the cache of a workspace, from frame to frame.
use zrip.Common.{ℕ, ◌+◌, ◌≡◌, ap, arith, Bool-cases}
use zrip.Common.{inl, inr, List, [], length, get_or, bit_and, ltb, ltb→ge, ◌==◌, ◌&&◌}
use zrip.Common.{Option, none, some, Option-cases, Result, ok, err, >>=-ok, ok-injective}
use zrip.Common.{err-absurd, length-replicate, invalid_dictionary, corrupt_sequences}
use zrip.Bitstream.Reader.{BitReader}
use zrip.Fse.Table.{FseDecodeEntry, build_decode_table_into}
use zrip.Fse.Description.{parse_fse_table_description_into}
use zrip.Fse.Description.Accept.{built-InTable}
use zrip.SeqTable.{promote, empty, new}
use zrip.SeqTable.Fill.{fill-IsTable}
use zrip.Tables.{
  Section, Slot, SequenceDecodeTables, ll_section, of_section, ml_section, new_default,
}
use zrip.Tables.{reset_default, parse_tables}
use zrip.Tables.Sound.{IsSection, IsSlot, other-absurd}
use zrip.Tables.Header.{AreTables, ll-IsSection, of-IsSection, ml-IsSection, parse_tables-AreTables}
use zrip.Tables.Header.{
  new_default-AreTables, reset_default-AreTables, clear_repeat_flags-AreTables,
}
use zrip.Tables.Cache.{SeqTableCache, no_cache, cached_tables}
use zrip.Tables.Cache.{cacheable, starts_with, seq_tables_replaced, parse_sequence_tables_ws}
use zrip.Tables.Dict.{
  DictTable, Dictionary, parse_dict_fse_checked, as_invalid, load_table, load_dict, cache_dict,
}
use zrip.Tables.Dict.{initial_sequence_state}
use mathlib.Core.Path.{subst}
use zrip.Tables.Reuse.{IsCached, clone_tables-AreTables, reuse-AreTables, remember-IsCached}

-- Tables in use, and a cache, that are all sound.
pub record AreBoth (t : SequenceDecodeTables) (c : SeqTableCache) : Type 0 where
  pub tables : AreTables t
  pub cached : IsCached c.tables

-- The tables of a dictionary for a section are those that the dictionary's parser accepts somewhere.
pub record IsParsed (s : Section) (t : Option DictTable) : Type 0 where
  pub bytes : List ℕ
  pub used : ℕ
  pub parsed : parse_dict_fse_checked bytes s.max_symbol s.max_accuracy_log ≡ ok (t, used)

pub record IsDictionary (d : Dictionary) : Type 0 where
  pub of : IsParsed of_section d.of_table
  pub ml : IsParsed ml_section d.ml_table
  pub ll : IsParsed ll_section d.ll_table

as_invalid-ok {ℓ} : {A : Type ℓ} (r : Result A) (x : A) → as_invalid r ≡ ok x → r ≡ ok x
unfolding as_invalid
as_invalid-ok (ok y) x e = e
as_invalid-ok (err y) x e = err-absurd invalid_dictionary x e

-- A table that the dictionary's parser accepts, once it is made into rows.
load-IsSlot :
    (s : Section) (slot : Slot) (t : Option DictTable) (bytes : List ℕ) (used : ℕ)
    → IsSection s
    → IsSlot s slot
    → parse_dict_fse_checked bytes s.max_symbol s.max_accuracy_log ≡ ok (t, used)
    → IsSlot s (load_table s t slot)
unfolding parse_dict_fse_checked load_table promote empty
load-IsSlot s slot t bytes used k h e = elim (Bool-cases (length bytes == 0)) [
  | inl z ↦ err-absurd invalid_dictionary (t, used) (rw z at e)
  | inr some_bytes ↦
      let reader : BitReader = record { source = bytes; pos = 0; bit_pos = 0 } in
      let (p, parsed, rest) =
        >>=-ok (parse_fse_table_description_into reader s.max_symbol) _ (t, used)
          (rw some_bytes at e) in
      elim (Bool-cases (ltb s.max_accuracy_log p.1)) [
        | inl large ↦ err-absurd invalid_dictionary (t, used) (rw large at rest)
        | inr fits ↦
            let (entries, made, returned) =
              >>=-ok (as_invalid (build_decode_table_into p.0 p.1 [])) _ (t, used)
                (rw fits at rest) in
            let (long, inside, symbols) =
              built-InTable reader p.2 s.max_symbol p.0 p.1 [] entries k.symbols parsed
                (as_invalid-ok _ entries made) in
            let sound =
              fill-IsTable p.1 (s.max_symbol + 1) s.extra (empty 0) entries
                (omega (arith, ltb→ge s.max_accuracy_log p.1 fits, k.logs))
                (length-replicate 512 (new 0 0 0 0)) long k.few inside symbols in
            subst (λ o. IsSlot s (load_table s o slot))
              (ap (λ q. q.0) (ok-injective _ (t, used) returned))
              (record { sound = sound; default_sound = λ q. other-absurd q })
      ]
]

load_dict-AreTables :
    (t : SequenceDecodeTables) (d : Dictionary)
    → IsDictionary d
    → AreTables t
    → AreTables (load_dict t d)
unfolding load_dict
load_dict-AreTables t d g h =
    let ll = g.ll in
    let of = g.of in
    let ml = g.ml in
    record {
      ll = load-IsSlot ll_section t.ll d.ll_table ll.bytes ll.used ll-IsSection h.ll ll.parsed;
      of = load-IsSlot of_section t.of d.of_table of.bytes of.used of-IsSection h.of of.parsed;
      ml = load-IsSlot ml_section t.ml d.ml_table ml.bytes ml.used ml-IsSection h.ml ml.parsed;
    }

cached_tables-AreTables :
    (xs : List ℕ) (c : SeqTableCache) (cached : SequenceDecodeTables)
    → IsCached c.tables
    → cached_tables xs c ≡ some cached
    → AreTables cached
unfolding cached_tables
cached_tables-AreTables xs c cached h e =
    elim (Bool-cases (cacheable (get_or xs 0 0) && starts_with xs c.header)) [
      | inl hit ↦ subst IsCached (let q : c.tables ≡ some cached = rw hit at e in q) h
      | inr miss ↦ absurd (let q : none ≡ some cached = rw miss at e in ground (arith, q))
    ]

-- Whatever the bytes of the header are, it keeps the tables and the cache sound where it is accepted.
parse_sequence_tables_ws-AreBoth :
    (xs : List ℕ) (t t' : SequenceDecodeTables) (c c' : SeqTableCache)
    (build_buf : List FseDecodeEntry) (used : ℕ)
    → AreBoth t c
    → parse_sequence_tables_ws xs t c build_buf ≡ ok (t', used, c')
    → AreBoth t' c'
unfolding parse_sequence_tables_ws
parse_sequence_tables_ws-AreBoth xs t t' c c' build_buf used h e =
    elim (Bool-cases (length xs == 0)) [
      | inl z ↦ err-absurd corrupt_sequences (t', used, c') (rw z at e)
      | inr some_bytes ↦ elim (Bool-cases (bit_and (get_or xs 0 0) 3 == 0)) [
        | inr reserved ↦
            err-absurd corrupt_sequences (t', used, c') (rw (some_bytes, reserved) at e)
        | inl clear ↦ elim (Option-cases (cached_tables xs c)) [
          | inr (cached, hit) ↦
              let same = ok-injective _ (t', used, c') (rw (some_bytes, clear, hit) at e) in
              let reused =
                reuse-AreTables c.current t cached h.tables
                  (cached_tables-AreTables xs c cached h.cached hit) in
              subst (λ q. AreBoth q.0 q.2) same (record { tables = reused; cached = h.cached })
          | inl miss ↦
              let (p, parsed, made) =
                >>=-ok (parse_tables xs t build_buf) _ (t', used, c')
                  (rw (some_bytes, clear, miss) at e) in
              let fresh = parse_tables-AreTables xs t p.0 build_buf p.1 h.tables parsed in
              subst (λ q. AreBoth q.0 q.2) (ok-injective _ (t', used, c') made)
                (record { tables = fresh; cached = remember-IsCached xs p.0 p.1 c h.cached fresh })
        ]
      ]
    ]

-- A dictionary that a decoder was given, if it was.
pub data Given : Option Dictionary → Type 0 where
  nothing : Given none
  given : (d : Dictionary) → IsDictionary d → Given (some d)

-- What a context keeps of its dictionary.
abbrev pub cached_of : Option Dictionary → Option (SequenceDecodeTables × (ℕ × ℕ × ℕ))
cached_of none = none
cached_of (some d) = some (cache_dict d)

frame-AreBoth :
    (t : SequenceDecodeTables) (c : SeqTableCache) (kept dict : Option Dictionary)
    → AreBoth t c
    → Given kept
    → Given dict
    → AreBoth
        (initial_sequence_state t c (cached_of kept) dict).0
        (initial_sequence_state t c (cached_of kept) dict).1
unfolding initial_sequence_state cache_dict seq_tables_replaced
frame-AreBoth t c (some k) dict h (given _ g) d = record {
  tables =
      clone_tables-AreTables t (load_dict new_default k) h.tables
        (load_dict-AreTables new_default k g new_default-AreTables);
  cached = h.cached;
}
frame-AreBoth t c none (some x) h k (given _ g) = record {
  tables = load_dict-AreTables (reset_default t) x g (reset_default-AreTables t h.tables);
  cached = h.cached;
}
frame-AreBoth t c none none h k d = record {
  tables = clear_repeat_flags-AreTables t h.tables;
  cached = h.cached;
}

-- The tables and the cache of a workspace: those it starts with, those after a frame that failed and
-- so dropped its tables, those that a frame starts with, and those after an accepted header.
pub data Reachable : SequenceDecodeTables → SeqTableCache → Type 0 where
  start : Reachable new_default no_cache
  dropped :
      (t : SequenceDecodeTables) (c : SeqTableCache)
      → Reachable t c
      → Reachable new_default (seq_tables_replaced c)
  frame :
      (t : SequenceDecodeTables) (c : SeqTableCache) (kept dict : Option Dictionary)
      → Given kept
      → Given dict
      → Reachable t c
      → Reachable
          (initial_sequence_state t c (cached_of kept) dict).0
          (initial_sequence_state t c (cached_of kept) dict).1
  parse :
      (xs : List ℕ) (t t' : SequenceDecodeTables) (c c' : SeqTableCache)
      (build_buf : List FseDecodeEntry) (used : ℕ)
      → Reachable t c
      → parse_sequence_tables_ws xs t c build_buf ≡ ok (t', used, c')
      → Reachable t' c'

Reachable-AreBoth : (t : SequenceDecodeTables) (c : SeqTableCache) → Reachable t c → AreBoth t c
unfolding seq_tables_replaced
Reachable-AreBoth _ _ start = record { tables = new_default-AreTables; cached = tt }
Reachable-AreBoth _ _ (dropped t c r) =
    let h = Reachable-AreBoth t c r in record { tables = new_default-AreTables; cached = h.cached }
Reachable-AreBoth _ _ (frame t c kept dict k d r) =
    frame-AreBoth t c kept dict (Reachable-AreBoth t c r) k d
Reachable-AreBoth t' c' (parse xs t _ c _ build_buf used r e) =
    parse_sequence_tables_ws-AreBoth xs t t' c c' build_buf used (Reachable-AreBoth t c r) e

-- All the tables that a workspace has, from its first ones on, in any order of frames with or without
-- a dictionary that its parser accepted, of frames that failed, and of accepted headers, read or found
-- in the cache, whatever their bytes are, are sound: each has as many rows as its accuracy says, each
-- row's next state is again a row for all bits that it reads, and its bit counts are below 32.
pub Reachable-AreTables :
    (t : SequenceDecodeTables) (c : SeqTableCache) → Reachable t c → AreTables t
Reachable-AreTables t c r = let h = Reachable-AreBoth t c r in h.tables
