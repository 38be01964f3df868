-- ===== src/SeqTable.antt =====
-- crates/decode/src/seq_table.rs: the rows that the sequence loop decodes with, made from the entries
-- of an FSE table. A `BitCount` is the number it stands for.
pub mod Fill
mod Tests
use zrip.Common.{
  ℕ, zero, suc, ◌+◌, ◌*◌, ◌^◌, min, bit_and, List, [], ◌∷◌, length, get_or, set, take, replicate,
}
use zrip.Common.{copy_from_slice}
use zrip.Common.Words.{◌<<<◌}
use zrip.Fse.Table.{FseDecodeEntry}
use zrip.Sequences.Codes.{ll_bits_table, ll_baseline_table, ml_bits_table, ml_baseline_table}

abbrev pub fse_seq_table_capacity : ℕ
fse_seq_table_capacity = 512

-- `BitCount::new(count)`, whose table has 32 counts.
unfoldable pub bit_count : ℕ → ℕ
bit_count count = bit_and count 31

pub record SeqEntry : Type 0 where
  pub base_line : ℕ
  pub num_bits : ℕ
  pub extra_bits : ℕ
  pub baseline_value : ℕ

unfoldable pub new : ℕ → ℕ → ℕ → ℕ → SeqEntry
new base_line num_bits extra_bits baseline_value = record {
  base_line = base_line;
  num_bits = bit_count num_bits;
  extra_bits = bit_count extra_bits;
  baseline_value = baseline_value;
}

-- `rows` is the field `data`.
pub record SeqTable : Type 0 where
  pub initialized : ℕ
  pub rows : List SeqEntry

unfoldable pub empty : ℕ → SeqTable
empty initialized = record {
  initialized = initialized;
  rows = replicate fse_seq_table_capacity (new 0 0 0 0);
}

-- `set_single`, of an entry with base line 0 and no state bits.
unfoldable pub set_single : SeqTable → SeqEntry → SeqTable
set_single t val = record {
  initialized = 1;
  rows = set t.rows 0 (new val.base_line val.num_bits val.extra_bits val.baseline_value);
}

abbrev pub zero_row : SeqEntry
zero_row = record { base_line = 0; num_bits = 0; extra_bits = 0; baseline_value = 0 }

-- The row for `idx`, which the caller masks below the capacity.
abbrev pub get : SeqTable → ℕ → SeqEntry
get t idx = get_or t.rows idx zero_row

unfoldable pub fill_from : ℕ → (ℕ → ℕ × ℕ) → List FseDecodeEntry → List SeqEntry → List SeqEntry
fill_from i extra [] rows = rows
fill_from i extra (e ∷ es) rows =
    let (extra_bits, baseline_value) = extra e.symbol in
    fill_from (i + 1) extra es (set rows i (new e.base_line e.num_bits extra_bits baseline_value))

unfoldable pub fill : SeqTable → List FseDecodeEntry → (ℕ → ℕ × ℕ) → SeqTable
fill t fse extra =
    let n = min (length fse) fse_seq_table_capacity in
    record { initialized = n; rows = fill_from 0 extra (take n fse) t.rows }

unfoldable pub ll_extra : ℕ → ℕ × ℕ
ll_extra symbol = (get_or ll_bits_table symbol 0, get_or ll_baseline_table symbol 0)

unfoldable pub ml_extra : ℕ → ℕ × ℕ
ml_extra symbol = (get_or ml_bits_table symbol 0, get_or ml_baseline_table symbol 0)

unfoldable pub of_extra : ℕ → ℕ × ℕ
of_extra symbol = (symbol, 1 <<< symbol)

abbrev pub fill_ll : SeqTable → List FseDecodeEntry → SeqTable
fill_ll t fse = fill t fse ll_extra

abbrev pub fill_ml : SeqTable → List FseDecodeEntry → SeqTable
fill_ml t fse = fill t fse ml_extra

abbrev pub fill_of : SeqTable → List FseDecodeEntry → SeqTable
fill_of t fse = fill t fse of_extra

unfoldable pub promote : List FseDecodeEntry → (ℕ → ℕ × ℕ) → SeqTable
promote fse extra = fill (empty 0) fse extra

-- `clone_from`: the initialized rows only.
unfoldable pub clone_from : SeqTable → SeqTable → SeqTable
clone_from t source = record {
  initialized = source.initialized;
  rows = copy_from_slice t.rows 0 (take source.initialized source.rows);
}
