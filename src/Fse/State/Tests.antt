-- ===== src/Fse/State/Tests.antt =====
-- A state read from two bytes, and updated once, in a table of four entries.
use zrip.Common.{ℕ, ◌<◌, ◌≡◌, refl, arith, List, [], ◌∷◌, All, ok}
use zrip.Bitstream.Reverse.{ReverseBitReader, refill, read_bits, top_field}
use zrip.Fse.Table.{FseDecodeEntry}
use zrip.Fse.Table.Entries.{InTable}
use zrip.Fse.State.{FseState, new, update_state}
use zrip.Fse.State.Reach.{Reached-inside, first, next}

abbrev small_table : List FseDecodeEntry
small_table =
    record { base_line = 0; num_bits = 1; symbol = 0 }
    ∷ record { base_line = 2; num_bits = 1; symbol = 1 }
    ∷ record { base_line = 0; num_bits = 2; symbol = 2 }
    ∷ record { base_line = 0; num_bits = 1; symbol = 0 }
    ∷ []

-- The bits below the marker: 11, then 0.
abbrev reader_at : ℕ → ReverseBitReader
reader_at consumed = record {
  source = 181 ∷ 29 ∷ [];
  container = 7605;
  bits_consumed = consumed;
  ptr = 0;
  limit_ptr = 0;
}

abbrev state_at : ℕ → FseState
state_at i = record { table = small_table; state = i }

opened_state : new small_table 2 (reader_at 52) ≡ ok (state_at 3, reader_at 54)
unfolding new read_bits top_field refill
opened_state = refl

updated_state : update_state (state_at 3) (reader_at 54) ≡ ok (state_at 0, reader_at 55)
unfolding update_state read_bits top_field refill
updated_state = refl

in_table : All (InTable 2) small_table
in_table = (
  record { few_bits = omega arith; inside = omega arith },
  (
    record { few_bits = omega arith; inside = omega arith },
    (
      record { few_bits = omega arith; inside = omega arith },
      (record { few_bits = omega arith; inside = omega arith }, tt),
    ),
  ),
)

Reached-inside_example : (small_table ≡ small_table) × (0 < 4)
Reached-inside_example =
    Reached-inside small_table 2 (state_at 0) (reader_at 55) (omega arith) refl in_table (
      next (state_at 3) (state_at 0) (reader_at 54) (reader_at 55)
        (first (reader_at 52) (reader_at 54) (state_at 3) opened_state) updated_state)
