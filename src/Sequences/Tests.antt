-- ===== src/Sequences/Tests.antt =====
-- Concrete counts, lengths and offsets.
use zrip.Common.{List, ◌≡◌, arith, [], ◌∷◌, ◌++◌, length, ok, ◌==◌}
use zrip.Sequences.{
  parse_sequence_count, write_seq_count, compute_offset, pick_offset_value, shift_reps, Reps,
}
use zrip.Sequences.{ll_split, ml_split}
use zrip.Sequences.Codes.{ll_bits_table, ll_baseline_table, ml_bits_table, ml_baseline_table}
use zrip.Sequences.Count.{parse_sequence_count-write_seq_count}
use zrip.Sequences.Offsets.{compute_offset-pick_offset_value}
use zrip.Sequences.{Sequence, pack_sequences}
use zrip.Sequences.Pack.{unpack_sequences, unpack_sequences-pack_sequences}
use zrip.Sequences.Split.{IsSplit, ll_split-IsSplit, ml_split-IsSplit}

parse_sequence_count-write_seq_count_example :
    parse_sequence_count (write_seq_count 40000 ++ (1 ∷ []))
    ≡ ok (40000, length (write_seq_count 40000))
parse_sequence_count-write_seq_count_example =
    parse_sequence_count-write_seq_count 40000 (1 ∷ []) (omega arith)

abbrev first_reps : Reps
first_reps = record { rep0 = 1; rep1 = 4; rep2 = 8 }

compute_offset-pick_offset_value_example :
    compute_offset (pick_offset_value first_reps (0 == 0) 4) 0 first_reps
    ≡ (4, shift_reps first_reps (0 == 0) (pick_offset_value first_reps (0 == 0) 4) 4)
compute_offset-pick_offset_value_example =
    compute_offset-pick_offset_value first_reps 0 4 (omega arith) (omega arith) (omega arith)
      (omega arith)

ll_split-IsSplit_example : IsSplit ll_bits_table ll_baseline_table 36 70000 (ll_split 70000)
ll_split-IsSplit_example = ll_split-IsSplit 70000 (omega arith)

ml_split-IsSplit_example : IsSplit ml_bits_table ml_baseline_table 53 50 (ml_split 50)
ml_split-IsSplit_example = ml_split-IsSplit 50 (omega arith) (omega arith)

abbrev two_sequences : List Sequence
two_sequences =
    record { literal_length = 5; offset = 100; match_length = 40 }
    ∷ record { literal_length = 0; offset = 100; match_length = 3 }
    ∷ []

-- A new offset, then the same one again.
unpack_sequences-pack_sequences_example :
    unpack_sequences first_reps (pack_sequences first_reps two_sequences).0
    ≡ (two_sequences, (pack_sequences first_reps two_sequences).1)
unpack_sequences-pack_sequences_example =
    unpack_sequences-pack_sequences first_reps two_sequences (omega arith) (omega arith) (
      record {
        ll_lt = omega arith;
        ml_ge = omega arith;
        ml_lt = omega arith;
        offset_pos = omega arith;
        offset_lt = omega arith;
      },
      (
        record {
          ll_lt = omega arith;
          ml_ge = omega arith;
          ml_lt = omega arith;
          offset_pos = omega arith;
          offset_lt = omega arith;
        },
        tt,
      ),
    )
