-- ===== src/Exec/Decoder/Tests.antt =====
-- One sequence from tables with a single row each: two literals, and five bytes one back.
use zrip.Common.{ℕ, zero, suc, ◌^◌, ◌<◌, ◌≡◌, refl, arith, true, List, [], ◌∷◌, replicate}
use zrip.Common.{Result, ok, err, copy_from_slice}
use zrip.Sequences.{Reps}
use zrip.SeqTable.{SeqTable, SeqEntry, zero_row}
use zrip.SeqTable.Fill.{IsTable, InRows}
use zrip.Tables.{SequenceDecodeTables, Slot, Section, other, ll_section, of_section, ml_section}
use zrip.Tables.Sound.{IsSlot}
use zrip.Tables.Header.{AreTables}
use zrip.Copy.{
  Literals, SeqOut, execute, ix, wild_match, wild_literals, chunk, chunks, copy_byte, copy_four,
}
use zrip.Copy.{spread_match, literal_chunks, execute_exact, from_history}
use zrip.Exec.{SeqBits, word, read, bits, is_exhausted}
use zrip.Exec.Decoder.{run_sequences, run_loop, run_one, run_rest}
use zrip.Exec.Decoder.{open_states, decode, next_offset}
use zrip.Exec.Decoder.States.{Inside, open_states-Inside, decode-Inside}
use zrip.Exec.Decoder.Safe.{Grown, run_sequences-Grown}

abbrev single : ℕ → SeqTable
single value = record {
  initialized = 1;
  rows =
      record { base_line = 0; num_bits = 0; extra_bits = 0; baseline_value = value }
      ∷ replicate 511 zero_row;
}

abbrev slot : ℕ → Slot
slot value = record { table = single value; accuracy = 0; kind = other; is_set = true }

abbrev tables : SequenceDecodeTables
tables = record { ll = slot 2; of = slot 4; ml = slot 5 }

abbrev reps : Reps
reps = record { rep0 = 1; rep1 = 4; rep2 = 8 }

abbrev stream : List ℕ
stream = 1 ∷ replicate 7 0

abbrev start : SeqBits
start = record { left = 0 }

abbrev output : SeqOut
output = record { buf = 1 ∷ 2 ∷ 3 ∷ 4 ∷ replicate 80 0; op = 4 }

abbrev two_literals : Literals
two_literals = record { fast = 9 ∷ 8 ∷ replicate 32 0; len = 2 }

single-IsTable : (value : ℕ) → IsTable 0 (single value)
single-IsTable value = record {
  sized = refl;
  initialized = refl;
  fits = omega arith;
  rows = λ i h. row i h;
}
  where
    row : (i : ℕ) → i < 2 ^ 0 → InRows 0 (zrip.SeqTable.get (single value) i)
    row zero h = record { few_bits = omega arith; inside = omega arith; few_extra = omega arith }
    row (suc i) h = absurd (omega arith)

slot-IsSlot : (s : Section) (value : ℕ) → IsSlot s (slot value)
slot-IsSlot s value = record {
  sound = single-IsTable value;
  default_sound = λ e. absurd (ground (arith, e));
}

sound : AreTables tables
sound = record {
  ll = slot-IsSlot ll_section 2;
  of = slot-IsSlot of_section 4;
  ml = slot-IsSlot ml_section 5;
}

open_states-Inside_example : Inside tables (open_states start stream tables reps).0
open_states-Inside_example = open_states-Inside start stream tables reps sound

decode-Inside_example :
    Inside tables (decode true (open_states start stream tables reps).0 start stream tables).2
decode-Inside_example =
    decode-Inside true (open_states start stream tables reps).0 start stream tables sound
      open_states-Inside_example

abbrev ran : Result (SeqOut × Reps)
ran = run_sequences true stream tables two_literals [] start 1 reps output

abbrev output_of : Result (SeqOut × Reps) → SeqOut
output_of (ok (out, r)) = out
output_of (err e) = output

abbrev after : SeqOut
after = record {
  buf = 1 ∷ 2 ∷ 3 ∷ 4 ∷ 9 ∷ 8 ∷ 8 ∷ 8 ∷ 8 ∷ 8 ∷ 8 ∷ 8 ∷ 8 ∷ 8 ∷ replicate 70 0;
  op = 11;
}

ran_ok : ran ≡ ok (after, record { rep0 = 1; rep1 = 1; rep2 = 4 })
unfolding run_sequences run_loop run_one run_rest open_states decode next_offset execute
    execute_exact from_history ix word read bits is_exhausted wild_match wild_literals
    literal_chunks chunk chunks copy_byte copy_four spread_match copy_from_slice
ran_ok = refl

run_sequences-Grown_example : Grown output after
run_sequences-Grown_example =
    run_sequences-Grown true stream tables two_literals []
      (record { all = omega arith; slack = omega arith }) (λ e. omega arith) start 1 reps
      (record { rep0 = 1; rep1 = 1; rep2 = 4 }) output after (λ e. omega arith) (omega arith) ran_ok
