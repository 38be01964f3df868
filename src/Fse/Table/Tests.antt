-- ===== src/Fse/Table/Tests.antt =====
-- Four symbols in a table of 32 cells, and five with a rare one.
use zrip.Common.{
  ℕ, ◌-◌, ◌^◌, ◌<◌, ◌≤◌, ◌≡◌, refl, arith, List, [], ◌∷◌, length, All, Result, ok, err, replicate,
}
use zrip.Common.Integers.{ℤ, pos, negsuc}
use zrip.Fse.Table.{FseDecodeEntry, zero_entry, Counted, build_decode_table_into, count_symbol}
use zrip.Fse.Table.{count_symbols, spread_symbols, spread_skipping}
use zrip.Fse.Table.{place_skipping, skip_high, fill_entries, high_bit}
use zrip.Fse.Table.Entries.{InTable}
use zrip.Fse.Table.Agree.{step_of, spread_symbols-spread_skipping}
use zrip.Fse.Table.Bounds.{build_decode_table_into-InTable}
use zrip.Fse.Table.Ends.{skip_high-ends}

abbrev rare_distribution : List ℤ
rare_distribution = negsuc 0 ∷ pos 15 ∷ pos 8 ∷ pos 4 ∷ pos 4 ∷ []

abbrev entries_of : Result (List FseDecodeEntry) → List FseDecodeEntry
entries_of (ok entries) = entries
entries_of (err e) = []

abbrev entries : List FseDecodeEntry
entries = entries_of (build_decode_table_into rare_distribution 5 [])

build_decode_table_into-InTable_example :
    (length entries ≡ 32) × All (InTable 5) entries × All (λ e. e.symbol < 5) entries
unfolding build_decode_table_into count_symbols count_symbol spread_symbols spread_skipping
    place_skipping skip_high fill_entries high_bit zrip.Common.Words.leading_zeros
build_decode_table_into-InTable_example =
    build_decode_table_into-InTable 5 rare_distribution [] entries (omega arith) (omega arith) refl
      refl

abbrev even_distribution : List ℤ
even_distribution = pos 8 ∷ pos 8 ∷ pos 8 ∷ pos 8 ∷ []

abbrev counted : Counted
counted = record {
  next = replicate 256 0;
  high_threshold = 31;
  total = 32;
  table = replicate 32 zero_entry;
}

spread_symbols-spread_skipping_example :
    spread_symbols 32 even_distribution counted
    ≡ spread_skipping 31 (step_of 32) 31 0 even_distribution (0, replicate 32 zero_entry)
spread_symbols-spread_skipping_example =
    spread_symbols-spread_skipping 5 even_distribution counted refl

skip_high-ends_example : skip_high 32 31 (step_of 32) 28 30 ≤ 28
skip_high-ends_example = skip_high-ends 5 28 30 (omega arith) (omega arith)
