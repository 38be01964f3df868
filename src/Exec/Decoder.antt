-- ===== src/Exec/Decoder.antt =====
-- crates/decode/src/exec.rs: `SeqDecoder` and `run_sequences`, the sequence loop, over the tables of
-- crates/decode/src/sequences.rs.
pub mod States
pub mod Safe
mod Tests
use zrip.Common.{ℕ, zero, suc, ◌+◌, ◌-◌, ◌^◌, bit_and, Bool, true, false, not, List, length}
use zrip.Common.{leb, ltb, ◌==◌, if◌then◌else◌, Result, ok, err, ◌>>=◌, corrupt_sequences}
use zrip.Common.Words.{u32}
use zrip.Sequences.{Reps}
use zrip.SeqTable.{SeqEntry, SeqTable, get}
use zrip.Tables.{
  SequenceDecodeTables, ll_table, ll_accuracy, of_table, of_accuracy, ml_table, ml_accuracy,
}
use zrip.Copy.{Literals, SeqOut, execute, extend_literals}
use zrip.Exec.{SeqBits, Word, word, read, bits, is_exhausted}

-- `FSE_SEQ_TABLE_MASK`
abbrev pub fse_seq_table_mask : ℕ
fse_seq_table_mask = 511

abbrev pub mid_reload_threshold : ℕ
mid_reload_threshold = 64 - 7 - (9 + 9 + 8)

abbrev pub table_entry : SeqTable → ℕ → SeqEntry
table_entry table state = get table (bit_and state fse_seq_table_mask)

pub record SeqDecoder : Type 0 where
  pub ll_state : ℕ
  pub of_state : ℕ
  pub ml_state : ℕ
  pub rep : Reps

-- The offset of a sequence, and the offsets for the next one. The sums of 32 bits, here and in
-- `decode`, wrap around as without overflow checks.
unfoldable pub next_offset : ℕ → ℕ → Reps → ℕ × Reps
next_offset offset_value literal_length r =
    let ll0 = if literal_length == 0 then 1 else 0 in
    let rep_idx = u32 (offset_value + (2 ^ 32 - 1) + ll0) in
    let offset =
      if rep_idx == 0
      then r.rep0
      else if rep_idx == 1
      then r.rep1
      else if rep_idx == 2
      then r.rep2
      else u32 (r.rep0 + (2 ^ 32 - 1)) in
    if ltb 3 offset_value
    then (offset_value - 3, record { rep0 = offset_value - 3; rep1 = r.rep0; rep2 = r.rep1 })
    else (
      offset,
      record {
        rep0 = offset;
        rep1 = if leb 1 rep_idx then r.rep0 else r.rep1;
        rep2 = if leb 2 rep_idx then r.rep1 else r.rep2;
      },
    )

-- The lengths and the offset of a sequence.
pub record Decoded : Type 0 where
  pub literal_length : ℕ
  pub match_length : ℕ
  pub offset : ℕ

-- One sequence: with `update` the states advance.
unfoldable pub decode :
    Bool → SeqDecoder → SeqBits → List ℕ → SequenceDecodeTables → Decoded × SeqBits × SeqDecoder
decode update dec b source tables =
    let of_e = table_entry (of_table tables) dec.of_state in
    let ml_e = table_entry (ml_table tables) dec.ml_state in
    let ll_e = table_entry (ll_table tables) dec.ll_state in
    let (of_value, w1) = read (word b source) of_e.extra_bits in
    let offset_value = u32 (of_e.baseline_value + of_value) in
    let (ml_value, w2) = read w1 ml_e.extra_bits in
    let again = ltb mid_reload_threshold (ll_e.extra_bits + ml_e.extra_bits + of_e.extra_bits) in
    let (ll_value, w3) = read (if again then word (bits w2) source else w2) ll_e.extra_bits in
    let literal_length = u32 (ll_e.baseline_value + ll_value) in
    let (offset, rep) = next_offset offset_value literal_length dec.rep in
    let (ll_bits, w4) = read w3 ll_e.num_bits in
    let (ml_bits, w5) = read w4 ml_e.num_bits in
    let (of_bits, w6) = read w5 of_e.num_bits in
    (
      record {
        literal_length = literal_length;
        match_length = u32 (ml_e.baseline_value + ml_value);
        offset = offset;
      },
      bits (if update then w6 else w3),
      record {
        ll_state = if update then ll_e.base_line + ll_bits else dec.ll_state;
        of_state = if update then of_e.base_line + of_bits else dec.of_state;
        ml_state = if update then ml_e.base_line + ml_bits else dec.ml_state;
        rep = rep;
      },
    )

-- The variables of the loop.
pub record Run : Type 0 where
  pub out : SeqOut
  pub b : SeqBits
  pub dec : SeqDecoder
  pub lp : ℕ

-- The first states, read from the head of the stream.
unfoldable pub open_states : SeqBits → List ℕ → SequenceDecodeTables → Reps → SeqDecoder × SeqBits
open_states start source tables offsets =
    let (ll_state, w1) = read (word start source) (ll_accuracy tables) in
    let (of_state, w2) = read w1 (of_accuracy tables) in
    let (ml_state, w3) = read w2 (ml_accuracy tables) in
    (
      record { ll_state = ll_state; of_state = of_state; ml_state = ml_state; rep = offsets },
      bits w3,
    )

module _ (narrow : Bool) (source : List ℕ) (tables : SequenceDecodeTables) (literals : Literals)
    (history : List ℕ) where
  -- One sequence decoded and executed.
  unfoldable pub run_one : Bool → Run → Result Run
  run_one update r =
      let (d, b, dec) = decode update r.dec r.b source tables in
      execute narrow r.out literals r.lp d.literal_length d.match_length d.offset history >>= λ out.
      ok (record { out = out; b = b; dec = dec; lp = r.lp + d.literal_length })

  -- `while left != 0`
  unfoldable pub run_loop : ℕ → Run → Result Run
  run_loop zero r = ok r
  run_loop (suc left) r = run_one true r >>= λ r'. run_loop left r'

  -- The literals behind the last sequence.
  unfoldable pub run_rest : Run → Result SeqOut
  run_rest r =
      if not (is_exhausted r.b)
      then err corrupt_sequences
      else if ltb r.lp literals.len
      then extend_literals r.out literals r.lp (literals.len - r.lp)
      else ok r.out

  -- The output and the repeat offsets for the next block.
  unfoldable pub run_sequences : SeqBits → ℕ → Reps → SeqOut → Result (SeqOut × Reps)
  run_sequences start num_sequences offsets out =
      let (dec, b) = open_states start source tables offsets in
      if ltb (length source) 8
      then err corrupt_sequences
      else run_loop (num_sequences - 1) (record { out = out; b = b; dec = dec; lp = 0 }) >>= λ r.
          (run_one false r >>= λ r'. (run_rest r' >>= λ out'. ok (out', (let d = r'.dec in d.rep))))
