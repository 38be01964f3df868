-- ===== src/Sequences.antt =====
-- Sequences of a block: crates/core/src/sequence.rs, the code tables of crates/core/src/fse/mod.rs,
-- the packing of crates/encode/src/block_encoder.rs, and the offsets and counts of
-- crates/decode/src/sequences.rs.
pub mod Codes
pub mod Split
pub mod Count
pub mod Offsets
pub mod Pack
mod Tests
use zrip.Common.{ℕ, zero, suc, ◌+◌, ◌-◌, ◌*◌, ◌/◌, ◌%◌, ◌^◌, bit_and, bit_or, Bool, not, ◌&&◌, ◌||◌}
use zrip.Common.{List, [], ◌∷◌, ◌++◌, length, get_or, leb, ltb, ◌==◌, if◌then◌else◌}
use zrip.Common.{Result, ok, err, corrupt_sequences}
use zrip.Common.Words.{u8, u32, u64, ◌<<<◌, ◌>>>◌, leading_zeros}
use zrip.Sequences.Codes.{ll_rows, ml_rows, ll_baseline_table, ml_baseline_table}

pub record Sequence : Type 0 where
  pub literal_length : ℕ
  pub offset : ℕ
  pub match_length : ℕ

-- The bytes that `write_seq_count` appends.
pub write_seq_count : ℕ → List ℕ
write_seq_count num_seq =
    let adj = num_seq - 0x7F00 in
    if ltb num_seq 128
    then u8 num_seq ∷ []
    else if ltb num_seq 0x7F00
    then u8 ((num_seq >>> 8) + 128) ∷ u8 num_seq ∷ []
    else 0xFF ∷ u8 adj ∷ u8 (adj >>> 8) ∷ []

-- The count and the number of bytes it takes.
pub parse_sequence_count : List ℕ → Result (ℕ × ℕ)
parse_sequence_count xs =
    let byte0 = get_or xs 0 0 in
    let byte1 = get_or xs 1 0 in
    let byte2 = get_or xs 2 0 in
    if length xs == 0
    then err corrupt_sequences
    else if ltb byte0 128
    then ok (byte0, 1)
    else if ltb byte0 255
    then (if ltb (length xs) 2
        then err corrupt_sequences
        else ok (((byte0 - 128) <<< 8) + byte1, 2))
    else if ltb (length xs) 3
    then err corrupt_sequences
    else ok (byte1 + (byte2 <<< 8) + 0x7F00, 3)

-- The three repeat offsets.
pub record Reps : Type 0 where
  pub rep0 : ℕ
  pub rep1 : ℕ
  pub rep2 : ℕ

-- `match rep_idx`, with `o0.wrapping_sub(1)` past the three.
unfoldable pub rep_at : Reps → ℕ → ℕ
rep_at r rep_idx =
    if rep_idx == 0
    then r.rep0
    else if rep_idx == 1
    then r.rep1
    else if rep_idx == 2
    then r.rep2
    else u32 (r.rep0 + (2 ^ 32 - 1))

-- The offset, and the offsets for the next sequence.
unfoldable pub compute_offset : ℕ → ℕ → Reps → ℕ × Reps
compute_offset offset_value literal_length r =
    let rep_idx = offset_value - 1 + (if literal_length == 0 then 1 else 0) in
    let offset = rep_at r rep_idx in
    if ltb 3 offset_value
    then (offset_value - 3, record { rep0 = offset_value - 3; rep1 = r.rep0; rep2 = r.rep1 })
    else (
      offset,
      record {
        rep0 = offset;
        rep1 = if leb 1 rep_idx then r.rep0 else r.rep1;
        rep2 = if leb 2 rep_idx then r.rep1 else r.rep2;
      },
    )

-- The part of `pack_sequences_and_literals_impl` that picks the offset value.
pub pick_offset_value : Reps → Bool → ℕ → ℕ
pick_offset_value r no_lits off =
    let code1 = if no_lits then r.rep1 else r.rep0 in
    let code2 = if no_lits then r.rep2 else r.rep1 in
    let code3 = if no_lits then r.rep0 - 1 else r.rep2 in
    if off == code1 then 1 else if off == code2 then 2 else if off == code3 then 3 else off + 3

-- The repeat offsets behind a sequence, as the packing keeps them.
pub shift_reps : Reps → Bool → ℕ → ℕ → Reps
shift_reps r no_lits ov off =
    let keep = not no_lits && ov == 1 in
    let swap = ov == 2 - (if no_lits then 1 else 0) in
    record {
      rep0 = off;
      rep1 = if keep then r.rep1 else r.rep0;
      rep2 = if keep || swap then r.rep2 else r.rep1;
    }

-- A code, a number of extra bits and the extra bits.
pub record CodeSplit : Type 0 where
  pub code : ℕ
  pub nb : ℕ
  pub extra : ℕ

-- A row of a code table, `code | extra_bits << 8 | baseline << 16`, at a value.
pub split_row : ℕ → ℕ → CodeSplit
split_row row v = record { code = u8 row; nb = bit_and (row >>> 8) 0xFF; extra = v - (row >>> 16) }

pub split_high : ℕ → ℕ → CodeSplit
split_high v code_base =
    let high_bit = 31 - leading_zeros 32 v in
    record { code = u8 (high_bit + code_base); nb = high_bit; extra = v - (1 <<< high_bit) }

pub ll_split : ℕ → CodeSplit
ll_split ll = if ltb ll 64 then split_row (get_or ll_rows ll 0) ll else split_high ll 19

pub ml_split : ℕ → CodeSplit
ml_split ml =
    let ml_base = ml - 3 in
    if ltb ml_base 128 then split_row (get_or ml_rows ml_base 0) ml_base else split_high ml_base 36

pub of_code : ℕ → ℕ
of_code offset_value = u8 (31 - leading_zeros 32 offset_value)

pub record PackedSeq : Type 0 where
  pub extra_bits : ℕ
  pub ll_code : ℕ
  pub ml_code : ℕ
  pub of_code_ : ℕ
  pub extra_nbits : ℕ

-- One round of the loop of `pack_sequences_and_literals_impl`, without the literals and the counts.
pub pack_sequence : Reps → Sequence → PackedSeq × Reps
pack_sequence r s =
    let no_lits = s.literal_length == 0 in
    let ov = pick_offset_value r no_lits s.offset in
    let ll = ll_split s.literal_length in
    let ml = ml_split s.match_length in
    let of_c = of_code ov in
    let of_extra = ov - (1 <<< of_c) in
    (
      record {
        extra_bits =
            bit_or (bit_or ll.extra (u64 (ml.extra <<< ll.nb)))
              (u64 (of_extra <<< (ll.nb + ml.nb)));
        ll_code = ll.code;
        ml_code = ml.code;
        of_code_ = of_c;
        extra_nbits = u8 (u8 (ll.nb + ml.nb) + of_c);
      },
      shift_reps r no_lits ov s.offset,
    )

pub pack_sequences : Reps → List Sequence → List PackedSeq × Reps
pack_sequences r [] = ([], r)
pack_sequences r (s ∷ ss) =
    let (p, r1) = pack_sequence r s in let (ps, r2) = pack_sequences r1 ss in (p ∷ ps, r2)
