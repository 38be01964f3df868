-- ===== src/Fse/Description/Tests.antt =====
-- A description of five symbols in a table of 32 cells.
use zrip.Common.{
  ℕ, ◌+◌, ◌/◌, ◌^◌, ◌≤◌, ◌<◌, ◌≡◌, refl, arith, List, [], ◌∷◌, length, All, Result, ok, err, some,
}
use zrip.Common.{copy_from_slice}
use zrip.Common.Integers.{ℤ, pos}
use zrip.Bitstream.Reader.{BitReader, window_at, load_u64, seek, align_to_byte}
use zrip.Fse.Description.{parse_fse_table_description_into, parse_probs, parse_prob, read_count}
use zrip.Fse.Description.{narrow, put_prob, skip_zeros, repeat_zeros}
use zrip.Fse.Description.Accept.{parse_fse_table_description_into-taken, built-InTable}
use zrip.Fse.Description.Fuel.{repeat_zeros-ends}
use zrip.Fse.Table.{FseDecodeEntry, build_decode_table_into, count_symbol}
use zrip.Fse.Table.{count_symbols, spread_symbols}
use zrip.Fse.Table.{lay_down, lay_chunks, scatter, fill_entries, high_bit}
use zrip.Fse.Table.Count.{taken}
use zrip.Fse.Table.Entries.{InTable}

abbrev reader : BitReader
reader = record { source = 208 ∷ 165 ∷ 3 ∷ []; pos = 0; bit_pos = 0 }

abbrev reader_behind : BitReader
reader_behind = record { source = 208 ∷ 165 ∷ 3 ∷ []; pos = 3; bit_pos = 0 }

abbrev distribution : List ℤ
distribution = pos 28 ∷ pos 1 ∷ pos 1 ∷ pos 1 ∷ pos 1 ∷ []

abbrev entries_of : Result (List FseDecodeEntry) → List FseDecodeEntry
entries_of (ok entries) = entries
entries_of (err e) = []

abbrev entries : List FseDecodeEntry
entries = entries_of (build_decode_table_into distribution 5 [])

parsed : parse_fse_table_description_into reader 4 ≡ ok (distribution, 5, reader_behind)
unfolding parse_fse_table_description_into parse_probs parse_prob read_count narrow put_prob
    skip_zeros window_at load_u64 seek align_to_byte copy_from_slice zrip.Common.Words.leading_zeros
parsed = refl

parse_fse_table_description_into-taken_example :
    (5 ≤ 5) × (5 ≤ 12) × (length distribution ≡ 4 + 1) × (taken distribution ≡ 2 ^ 5)
parse_fse_table_description_into-taken_example =
    parse_fse_table_description_into-taken reader reader_behind 4 distribution 5 (omega arith)
      parsed

built : build_decode_table_into distribution 5 [] ≡ ok entries
unfolding build_decode_table_into count_symbols count_symbol spread_symbols lay_down lay_chunks
    scatter copy_from_slice fill_entries high_bit zrip.Common.Words.leading_zeros
built = refl

built-InTable_example :
    (length entries ≡ 2 ^ 5) × All (InTable 5) entries × All (λ e. e.symbol < 4 + 1) entries
built-InTable_example =
    built-InTable reader reader_behind 4 distribution 5 [] entries (omega arith) parsed built

repeat_zeros-ends_example :
    (r : Result (ℕ × ℕ)) × ((fuel : ℕ)
      → 24 / 32 + 1 ≤ fuel
      → repeat_zeros reader 24 20 fuel 18446744073709551615 4 1 ≡ some r)
repeat_zeros-ends_example = repeat_zeros-ends reader 24 20 18446744073709551615 4 1
