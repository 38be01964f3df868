-- ===== src/Exec/Decoder/States.antt =====
-- The states of the sequence loop stay rows of their tables, and its offsets are those of
-- `compute_offset`.
use zrip.Common.Words.{u32}
use zrip.Common.{if◌then◌else◌}
use zrip.Common.{ℕ, ◌+◌, ◌-◌, ◌^◌, ◌<◌, ◌≤◌, ◌==◌, ◌≡◌, refl, ap, ◌∙◌, arith}
use zrip.Common.{Bool, true, false, bit_and, List}
use zrip.Common.Bits.{bit_and_mask}
use zrip.Common.Powers.{pow_pos}
use zrip.Common.Words.{◌>>>◌, ◌<<<◌, wrapping_sub}
use zrip.Sequences.{Reps, compute_offset, rep_at}
use zrip.SeqTable.{SeqTable}
use zrip.SeqTable.Fill.{IsTable}
use zrip.Tables.{
  SequenceDecodeTables, ll_table, ll_accuracy, of_table, of_accuracy, ml_table, ml_accuracy,
}
use zrip.Tables.Header.{AreTables}
use zrip.Exec.{SeqBits, Word, word, read}
use zrip.Exec.Decoder.{
  SequenceDecodeTables, SeqDecoder, decode, open_states, next_offset, table_entry,
}
use native.Mathlib.Nat.{mod-lt, mod-le, mod-eq_of_lt}

read-lt : (w : Word) (count : ℕ) → (read w count).0 < 2 ^ count
unfolding read
read-lt w count =
    let x : ℕ = w.container >>> bit_and (wrapping_sub w.avail count) 63 in
    let mask : 1 <<< count - 1 ≡ 2 ^ count - 1 = omega arith in
    omega (
      arith,
      mod-le (bit_and x (1 <<< count - 1)) (2 ^ 32),
      ap (λ (t : ℕ). bit_and x t) mask,
      bit_and_mask count x,
      mod-lt x (pow_pos count),
    )

-- Every state is the number of an initialized row, which the mask does not change.
pub record Inside (tables : SequenceDecodeTables) (dec : SeqDecoder) : Type 0 where
  pub ll :
      (dec.ll_state < (let t = (ll_table tables) in t.initialized))
      × (bit_and dec.ll_state 511 ≡ dec.ll_state)
  pub of :
      (dec.of_state < (let t = (of_table tables) in t.initialized))
      × (bit_and dec.of_state 511 ≡ dec.of_state)
  pub ml :
      (dec.ml_state < (let t = (ml_table tables) in t.initialized))
      × (bit_and dec.ml_state 511 ≡ dec.ml_state)

state_in :
    (log state : ℕ) (t : SeqTable)
    → IsTable log t
    → state < 2 ^ log
    → (state < t.initialized) × (bit_and state 511 ≡ state)
state_in log state t h below = (
  omega (arith, h.initialized, below),
  bit_and_mask 9 state ∙ mod-eq_of_lt (omega (arith, below, h.fits)),
)

next_in :
    (log state : ℕ) (t : SeqTable) (w : Word)
    → IsTable log t
    → (state < t.initialized) × (bit_and state 511 ≡ state)
    → (let e = table_entry t state in
        let next : ℕ = e.base_line + (read w e.num_bits).0 in
        (next < t.initialized) × (bit_and next 511 ≡ next))
next_in log state t w h (below, same) =
    let e = table_entry t state in
    let row = h.rows (bit_and state 511) (omega (arith, below, same, h.initialized)) in
    state_in log (e.base_line + (read w e.num_bits).0) t h
      (omega (arith, row.inside, read-lt w e.num_bits))

-- With tables that the header parser leaves sound, the first states, whatever bits they are read from, are
-- initialized rows of their tables.
pub open_states-Inside :
    (start : SeqBits) (source : List ℕ) (tables : SequenceDecodeTables) (offsets : Reps)
    → AreTables tables
    → Inside tables (open_states start source tables offsets).0
unfolding open_states
open_states-Inside start source tables offsets s =
    let w0 = word start source in
    let w1 = (read w0 (ll_accuracy tables)).1 in
    let w2 = (read w1 (of_accuracy tables)).1 in
    record {
      ll =
          state_in (ll_accuracy tables) _ (ll_table tables) (let g = s.ll in g.sound)
            (read-lt w0 (ll_accuracy tables));
      of =
          state_in (of_accuracy tables) _ (of_table tables) (let g = s.of in g.sound)
            (read-lt w1 (of_accuracy tables));
      ml =
          state_in (ml_accuracy tables) _ (ml_table tables) (let g = s.ml in g.sound)
            (read-lt w2 (ml_accuracy tables));
    }

-- With tables that the header parser leaves sound, a sequence decoded from states that are initialized rows
-- of their tables, whatever the stream holds, leaves states that are.
pub decode-Inside :
    (update : Bool) (dec : SeqDecoder) (b : SeqBits) (source : List ℕ)
    (tables : SequenceDecodeTables)
    → AreTables tables
    → Inside tables dec
    → Inside tables (decode update dec b source tables).2
unfolding decode
decode-Inside false dec b source tables s i = record { ll = i.ll; of = i.of; ml = i.ml }
decode-Inside true dec b source tables s i = record {
  ll = next_in (ll_accuracy tables) dec.ll_state (ll_table tables) _ (let g = s.ll in g.sound) i.ll;
  of = next_in (of_accuracy tables) dec.of_state (of_table tables) _ (let g = s.of in g.sound) i.of;
  ml = next_in (ml_accuracy tables) dec.ml_state (ml_table tables) _ (let g = s.ml in g.sound) i.ml;
}

-- The offset and the repeat offsets of the sequence loop are those of `compute_offset`, for all offset
-- values of 32 bits but zero.
pub next_offset-compute_offset :
    (offset_value literal_length : ℕ) (r : Reps)
    → 1 ≤ offset_value
    → offset_value < 2 ^ 32
    → next_offset offset_value literal_length r ≡ compute_offset offset_value literal_length r
unfolding next_offset compute_offset rep_at
next_offset-compute_offset offset_value literal_length r low high =
    let ll0 : ℕ = if literal_length == 0 then 1 else 0 in
    let idx : u32 (offset_value + (2 ^ 32 - 1) + ll0) ≡ offset_value - 1 + ll0 =
      ground (arith, low, high) in
    rw idx refl
