-- ===== src/Tables.antt =====
-- crates/decode/src/sequences.rs: `SequenceDecodeTables` and the modes of `parse_sequence_tables_ws`;
-- its cache is in Tables/Cache, the tables of a dictionary in Tables/Dict. The literal lengths, offsets and match lengths each have a mode; what differs
-- between the three sections is in `Section`. Tables that an error leaves half changed are not
-- returned: the frame fails with it.
pub mod Distributions
pub mod Sound
pub mod Header
pub mod Cache
pub mod Dict
pub mod Reuse
pub mod Reach
mod Tests
use zrip.Common.{
  ℕ, ◌+◌, ◌-◌, ◌/◌, ◌%◌, ◌^◌, Bool, true, false, not, List, [], ◌∷◌, length, drop, get_or, bit_and,
}
use zrip.Common.{
  leb, ltb, ◌==◌, if◌then◌else◌, Result, ok, err, ◌>>=◌, bad_fse_table, corrupt_sequences,
}
use zrip.Common.Words.{◌>>>◌}
use zrip.Common.Integers.{ℤ, pos, negsuc}
use zrip.Bitstream.Reader.{BitReader, read_bits, bytes_consumed}
use zrip.Fse.Table.{FseDecodeEntry, build_decode_table_into}
use zrip.Fse.Description.{parse_fse_table_description_into}
use zrip.Tables.Distributions.{ll_default_dist, of_default_dist, ml_default_dist}
use zrip.SeqTable.{SeqTable, set_single, fill, promote, clone_from, ll_extra, ml_extra, of_extra}

pub data SequenceTableKind : Type 0 where
  predefined other : SequenceTableKind

-- The four fields of `SequenceDecodeTables` for one of the three.
pub record Slot : Type 0 where
  pub table : SeqTable
  pub accuracy : ℕ
  pub kind : SequenceTableKind
  pub is_set : Bool

pub record SequenceDecodeTables : Type 0 where
  pub ll : Slot
  pub of : Slot
  pub ml : Slot

abbrev pub ll_table : SequenceDecodeTables → SeqTable
ll_table t = let slot = t.ll in slot.table

abbrev pub ll_accuracy : SequenceDecodeTables → ℕ
ll_accuracy t = let slot = t.ll in slot.accuracy

abbrev pub of_table : SequenceDecodeTables → SeqTable
of_table t = let slot = t.of in slot.table

abbrev pub of_accuracy : SequenceDecodeTables → ℕ
of_accuracy t = let slot = t.of in slot.accuracy

abbrev pub ml_table : SequenceDecodeTables → SeqTable
ml_table t = let slot = t.ml in slot.table

abbrev pub ml_accuracy : SequenceDecodeTables → ℕ
ml_accuracy t = let slot = t.ml in slot.accuracy

-- What a section has of its own: its default distribution and accuracy, the largest symbol, the
-- largest accuracy log, and the extra bits and baselines of its symbols.
pub record Section : Type 0 where
  pub default_dist : List ℤ
  pub default_accuracy : ℕ
  pub max_symbol : ℕ
  pub max_accuracy_log : ℕ
  pub extra : ℕ → ℕ × ℕ

-- `build_decode_table_from_default`, which a valid distribution never fails.
unfoldable pub build_decode_table_from_default : List ℤ → ℕ → List FseDecodeEntry
build_decode_table_from_default default_dist accuracy_log =
    elim (build_decode_table_into default_dist accuracy_log []) [
      | ok entries ↦ entries
      | err e ↦ []
    ]

-- `LL_PREDEFINED`, `OF_PREDEFINED` and `ML_PREDEFINED`
abbrev pub predefined_table : Section → SeqTable
predefined_table s =
    promote (build_decode_table_from_default s.default_dist s.default_accuracy) s.extra

-- Predefined_Mode
unfoldable pub predefined_mode : Section → Slot → Slot
predefined_mode s prev = record {
  table = elim prev.kind [
    | predefined ↦ prev.table
    | other ↦ clone_from prev.table (predefined_table s)
  ];
  accuracy = s.default_accuracy;
  kind = predefined;
  is_set = true;
}

-- RLE_Mode
unfoldable pub single_mode : Section → Slot → BitReader → Result (Slot × BitReader)
single_mode s prev reader = read_bits reader 8 >>= λ p.
    (let f = s.extra in
      if ltb s.max_symbol p.0
      then err corrupt_sequences
      else ok (
        record {
          table = set_single prev.table (record {
            base_line = 0;
            num_bits = 0;
            extra_bits = (f p.0).0;
            baseline_value = (f p.0).1;
          });
          accuracy = 0;
          kind = other;
          is_set = true;
        },
        p.1,
      ))

-- FSE_Compressed_Mode
unfoldable pub described_mode :
    Section
    → Slot
    → BitReader
    → List FseDecodeEntry
    → Result (Slot × BitReader × List FseDecodeEntry)
described_mode s prev reader build_buf =
    parse_fse_table_description_into reader s.max_symbol >>= λ p.
    (if ltb s.max_accuracy_log p.1
      then err bad_fse_table
      else build_decode_table_into p.0 p.1 build_buf >>= λ entries. ok (
        record {
          table = fill prev.table entries s.extra;
          accuracy = p.1;
          kind = other;
          is_set = true;
        },
        p.2,
        entries,
      ))

-- One section: the slot, the reader, and the buffer that tables are built in.
unfoldable pub parse_mode :
    Section
    → ℕ
    → Slot
    → BitReader
    → List FseDecodeEntry
    → Result (Slot × BitReader × List FseDecodeEntry)
parse_mode s mode prev reader build_buf =
    if mode == 0
    then ok (predefined_mode s prev, reader, build_buf)
    else if mode == 1
    then (single_mode s prev reader >>= λ p. ok (p.0, p.1, build_buf))
    else if mode == 2
    then described_mode s prev reader build_buf
    else if not prev.is_set
    then err corrupt_sequences
    else ok (prev, reader, build_buf)

abbrev pub ll_section : Section
ll_section = record {
  default_dist = ll_default_dist;
  default_accuracy = 6;
  max_symbol = 35;
  max_accuracy_log = 9;
  extra = ll_extra;
}

abbrev pub of_section : Section
of_section = record {
  default_dist = of_default_dist;
  default_accuracy = 5;
  max_symbol = 31;
  max_accuracy_log = 8;
  extra = of_extra;
}

abbrev pub ml_section : Section
ml_section = record {
  default_dist = ml_default_dist;
  default_accuracy = 6;
  max_symbol = 52;
  max_accuracy_log = 9;
  extra = ml_extra;
}

-- A header that the cache does not have: the tables, and how many bytes it takes.
unfoldable pub parse_tables :
    List ℕ → SequenceDecodeTables → List FseDecodeEntry → Result (SequenceDecodeTables × ℕ)
parse_tables xs prev build_buf =
    let mode_byte = get_or xs 0 0 in
    let ll_mode = bit_and (mode_byte >>> 6) 3 in
    let of_mode = bit_and (mode_byte >>> 4) 3 in
    let ml_mode = bit_and (mode_byte >>> 2) 3 in
    let start : BitReader = record { source = drop 1 xs; pos = 0; bit_pos = 0 } in
    parse_mode ll_section ll_mode prev.ll start build_buf >>= λ p.
    (parse_mode of_section of_mode prev.of p.1 p.2 >>= λ q.
    (parse_mode ml_section ml_mode prev.ml q.1 q.2 >>= λ r.
    ok (record { ll = p.0; of = q.0; ml = r.0 }, 1 + bytes_consumed r.1)))

-- A slot with its predefined table.
abbrev pub default_slot : Section → Slot
default_slot s = record {
  table = predefined_table s;
  accuracy = s.default_accuracy;
  kind = predefined;
  is_set = false;
}

unfoldable pub new_default : SequenceDecodeTables
new_default = record {
  ll = default_slot ll_section;
  of = default_slot of_section;
  ml = default_slot ml_section;
}

abbrev pub clear_flag : Slot → Slot
clear_flag slot = record slot { is_set = false }

-- For a frame: the predefined tables again, none of them to be repeated.
unfoldable pub reset_default : SequenceDecodeTables → SequenceDecodeTables
reset_default t = record {
  ll = clear_flag (predefined_mode ll_section t.ll);
  of = clear_flag (predefined_mode of_section t.of);
  ml = clear_flag (predefined_mode ml_section t.ml);
}

unfoldable pub clear_repeat_flags : SequenceDecodeTables → SequenceDecodeTables
clear_repeat_flags t = record { ll = clear_flag t.ll; of = clear_flag t.of; ml = clear_flag t.ml }
