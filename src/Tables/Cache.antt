-- ===== src/Tables/Cache.antt =====
-- crates/decode/src/sequences.rs: `parse_sequence_tables_ws` with the cache of the last header that
-- named no table of before, and the copies of the tables that it makes.
use zrip.Common.{ℕ, Bool, true, false, not, ◌&&◌, List, [], ◌∷◌, length, take, get_or, bit_and}
use zrip.Common.{◌==◌, if◌then◌else◌, Option, none, some, Result, ok, err, ◌>>=◌, corrupt_sequences}
use zrip.Common.Words.{◌>>>◌}
use zrip.Fse.Table.{FseDecodeEntry}
use zrip.SeqTable.{clone_from}
use zrip.Tables.{Slot, SequenceDecodeTables, parse_tables}

unfoldable pub clone_slot : Slot → Slot → Slot
clone_slot slot source = record source { table = clone_from slot.table source.table }

-- `clone_from` of the three tables.
unfoldable pub clone_tables : SequenceDecodeTables → SequenceDecodeTables → SequenceDecodeTables
clone_tables t source = record {
  ll = clone_slot t.ll source.ll;
  of = clone_slot t.of source.of;
  ml = clone_slot t.ml source.ml;
}

unfoldable pub copy_flag : Slot → Slot → Slot
copy_flag slot source = record slot { is_set = source.is_set }

unfoldable pub copy_flags : SequenceDecodeTables → SequenceDecodeTables → SequenceDecodeTables
copy_flags t source = record {
  ll = copy_flag t.ll source.ll;
  of = copy_flag t.of source.of;
  ml = copy_flag t.ml source.ml;
}

-- The fields `seq_table_cache`, `seq_table_header` and `seq_table_cache_tables_current` of the
-- workspace.
pub record SeqTableCache : Type 0 where
  pub tables : Option SequenceDecodeTables
  pub header : List ℕ
  pub current : Bool

-- Those of a new workspace.
abbrev pub no_cache : SeqTableCache
no_cache = record { tables = none; header = []; current = false }

unfoldable pub seq_tables_replaced : SeqTableCache → SeqTableCache
seq_tables_replaced c = record c { current = false }

-- Whether no table is one of before.
unfoldable pub cacheable : ℕ → Bool
cacheable mode_byte =
    not (bit_and (mode_byte >>> 6) 3 == 3)
    && not (bit_and (mode_byte >>> 4) 3 == 3)
    && not (bit_and (mode_byte >>> 2) 3 == 3)

-- Whether the bytes are long enough and start with the header.
unfoldable pub starts_with : List ℕ → List ℕ → Bool
starts_with xs [] = true
starts_with [] (h ∷ header) = false
starts_with (x ∷ xs) (h ∷ header) = (x == h) && starts_with xs header

-- The tables of the cache, for a header that it has.
unfoldable pub cached_tables : List ℕ → SeqTableCache → Option SequenceDecodeTables
cached_tables xs c = if cacheable (get_or xs 0 0) && starts_with xs c.header then c.tables else none

-- The tables after a hit.
unfoldable pub reuse : Bool → SequenceDecodeTables → SequenceDecodeTables → SequenceDecodeTables
reuse true prev cached = copy_flags prev cached
reuse false prev cached = clone_tables prev cached

unfoldable pub store : Option SequenceDecodeTables → SequenceDecodeTables → SequenceDecodeTables
store none tables = tables
store (some old) tables = clone_tables old tables

-- The cache after a miss.
unfoldable pub remember : List ℕ → SequenceDecodeTables → ℕ → SeqTableCache → SeqTableCache
remember xs tables consumed c =
    if cacheable (get_or xs 0 0)
    then record { tables = some (store c.tables tables); header = take consumed xs; current = true }
    else seq_tables_replaced c

-- The tables, how many bytes the header takes, and the cache.
unfoldable pub parse_sequence_tables_ws :
    List ℕ
    → SequenceDecodeTables
    → SeqTableCache
    → List FseDecodeEntry
    → Result (SequenceDecodeTables × ℕ × SeqTableCache)
parse_sequence_tables_ws xs prev c build_buf =
    if length xs == 0
    then err corrupt_sequences
    else if not (bit_and (get_or xs 0 0) 3 == 0)
    then err corrupt_sequences
    else elim (cached_tables xs c) [
      | some cached ↦ ok (reuse c.current prev cached, length c.header, record c { current = true })
      | none ↦ parse_tables xs prev build_buf >>= λ p. ok (p.0, p.1, remember xs p.0 p.1 c)
    ]
