-- ===== src/Tables/Dict.antt =====
-- crates/core/src/dict/mod.rs and crates/decode: the sequence tables of a dictionary, how they are
-- parsed and installed, and the tables and repeat offsets that a frame starts with.
use zrip.Common.{ℕ, true, List, [], length, ltb, ◌==◌, if◌then◌else◌, Option, none, some}
use zrip.Common.{Result, ok, err, ◌>>=◌, invalid_dictionary}
use zrip.Bitstream.Reader.{BitReader, bytes_consumed}
use zrip.Fse.Table.{FseDecodeEntry, build_decode_table_into}
use zrip.Fse.Description.{parse_fse_table_description}
use zrip.SeqTable.{promote}
use zrip.Tables.{Section, Slot, SequenceDecodeTables, other, ll_section, of_section, ml_section}
use zrip.Tables.{new_default, reset_default, clear_repeat_flags}
use zrip.Tables.Cache.{SeqTableCache, clone_tables, seq_tables_replaced}

-- Entries of an FSE table and their accuracy log.
abbrev pub DictTable : Type 0
DictTable = List FseDecodeEntry × ℕ

-- `map_err`
unfoldable pub as_invalid {ℓ} : {A : Type ℓ} → Result A → Result A
as_invalid (ok x) = ok x
as_invalid (err e) = err invalid_dictionary

unfoldable pub parse_dict_fse_checked : List ℕ → ℕ → ℕ → Result (Option DictTable × ℕ)
parse_dict_fse_checked xs max_symbol max_accuracy_log =
    let reader : BitReader = record { source = xs; pos = 0; bit_pos = 0 } in
    if length xs == 0
    then err invalid_dictionary
    else parse_fse_table_description reader max_symbol >>= λ p.
        (if ltb max_accuracy_log p.1
          then err invalid_dictionary
          else as_invalid (build_decode_table_into p.0 p.1 []) >>= λ table.
              ok (some (table, p.1), bytes_consumed p.2))

-- What a dictionary has for the sequences.
pub record Dictionary : Type 0 where
  pub of_table : Option DictTable
  pub ml_table : Option DictTable
  pub ll_table : Option DictTable
  pub rep_offsets : ℕ × ℕ × ℕ

unfoldable pub load_table : Section → Option DictTable → Slot → Slot
load_table s none slot = slot
load_table s (some (t, l)) slot = record {
  table = promote t s.extra;
  accuracy = l;
  kind = other;
  is_set = true;
}

unfoldable pub load_dict : SequenceDecodeTables → Dictionary → SequenceDecodeTables
load_dict t d = record {
  ll = load_table ll_section d.ll_table t.ll;
  of = load_table of_section d.of_table t.of;
  ml = load_table ml_section d.ml_table t.ml;
}

-- The fields `cached_dict_tables` and `cached_dict_rep`.
unfoldable pub cache_dict : Dictionary → SequenceDecodeTables × (ℕ × ℕ × ℕ)
cache_dict d = (load_dict new_default d, d.rep_offsets)

-- The tables, the cache and the repeat offsets that a frame starts with.
unfoldable pub initial_sequence_state :
    SequenceDecodeTables
    → SeqTableCache
    → Option (SequenceDecodeTables × (ℕ × ℕ × ℕ))
    → Option Dictionary
    → SequenceDecodeTables × SeqTableCache × (ℕ × ℕ × ℕ)
initial_sequence_state t c (some (cached, rep)) dict =
    (clone_tables t cached, seq_tables_replaced c, rep)
initial_sequence_state t c none (some d) =
    (load_dict (reset_default t) d, seq_tables_replaced c, d.rep_offsets)
initial_sequence_state t c none none = (clear_repeat_flags t, c, (1, 4, 8))
