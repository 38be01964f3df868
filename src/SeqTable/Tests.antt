-- ===== src/SeqTable/Tests.antt =====
-- Four entries made into rows.
use zrip.Common.{ℕ, get_or, ◌<◌, ◌≡◌, refl, arith, List, [], ◌∷◌, length, All, length-replicate}
use zrip.Fse.Table.{FseDecodeEntry, zero_entry}
use zrip.Fse.Table.Entries.{InTable}
use zrip.SeqTable.{empty, new, fill, get, of_extra}
use zrip.SeqTable.Fill.{IsTable, row_of, fill-rows, of_extra-lt}

abbrev fse : List FseDecodeEntry
fse =
    record { base_line = 0; num_bits = 1; symbol = 0 }
    ∷ record { base_line = 2; num_bits = 1; symbol = 1 }
    ∷ record { base_line = 0; num_bits = 2; symbol = 2 }
    ∷ record { base_line = 0; num_bits = 1; symbol = 31 }
    ∷ []

in_table : All (InTable 2) fse
in_table = (
  record { few_bits = omega arith; inside = omega arith },
  (
    record { few_bits = omega arith; inside = omega arith },
    (
      record { few_bits = omega arith; inside = omega arith },
      (record { few_bits = omega arith; inside = omega arith }, tt),
    ),
  ),
)

symbols : All (λ e. e.symbol < 32) fse
symbols = (omega arith, (omega arith, (omega arith, (omega arith, tt))))

empty_rows : (let t = empty 0 in length t.rows) ≡ 512
unfolding empty
empty_rows = length-replicate 512 (new 0 0 0 0)

fill-rows_example :
    IsTable 2 (fill (empty 0) fse of_extra)
    × ((i : ℕ)
        → i < 4
        → get (fill (empty 0) fse of_extra) i ≡ row_of of_extra (get_or fse i zero_entry))
fill-rows_example =
    fill-rows 2 32 of_extra (empty 0) fse (omega arith) empty_rows refl of_extra-lt in_table symbols
