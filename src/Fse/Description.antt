-- ===== src/Fse/Description.antt =====
-- crates/core/src/fse/table_builder.rs: `parse_fse_table_description_into`. The loop over the
-- probabilities has as much fuel as there are symbols, the loop over the repeat codes as much as the
-- input has windows of 32 bits, and one more; where that does not end, it has no result.
pub mod Parse
pub mod Accept
pub mod Fuel
mod Tests
use zrip.Common.{
  ℕ, zero, suc, ◌+◌, ◌-◌, ◌*◌, ◌/◌, ◌%◌, ◌^◌, min, bit_and, Bool, true, false, not, ◌&&◌,
}
use zrip.Common.{List, [], ◌∷◌, length, set, get_or, take, replicate, leb, ltb, ◌==◌, if◌then◌else◌}
use zrip.Common.{Option, none, some, Result, ok, err, ◌>>=◌, bad_fse_table, input_exhausted}
use zrip.Common.Words.{u32, u64, ◌<<<◌, ◌>>>◌, leading_zeros}
use zrip.Common.Integers.{ℤ, pos, negsuc}
use zrip.Bitstream.Reader.{BitReader, bits_consumed, bits_remaining, window_at, seek, align_to_byte}

abbrev pub max_table_log : ℕ
max_table_log = 12

-- `(!run).trailing_zeros()`: the ones at the bottom of a `width`-bit word.
unfoldable pub trailing_ones : ℕ → ℕ → ℕ
trailing_ones zero x = 0
trailing_ones (suc width) x =
    let rest = trailing_ones width (x / 2) in if x % 2 == 1 then suc rest else 0

-- The repeat codes after a probability of zero: the bit behind them and the next symbol, or none while
-- the loop still runs.
unfoldable pub repeat_zeros : BitReader → ℕ → ℕ → ℕ → ℕ → ℕ → ℕ → Option (Result (ℕ × ℕ))
repeat_zeros reader end max_len zero run bit n = none
repeat_zeros reader end max_len (suc fuel) run bit n =
    let threes = trailing_ones 64 run / 2 in
    let last = bit_and (run >>> (2 * threes)) 3 in
    elim (ltb threes 16) [
      | true ↦ some (
          if ltb end (bit + 2 * threes + 2)
          then err input_exhausted
          else ok (bit + 2 * threes + 2, min (n + 3 * threes + last) max_len))
      | false ↦ elim (ltb end (bit + 32)) [
        | true ↦ some (err input_exhausted)
        | false ↦
            repeat_zeros reader end max_len fuel (window_at reader (bit + 32)) (bit + 32)
              (min (n + 48) max_len)
      ]
    ]

-- The variables of the loop over the probabilities.
pub record Probs : Type 0 where
  pub bit : ℕ
  pub remaining : ℕ
  pub threshold : ℕ
  pub nb_bits : ℕ
  pub out : List ℤ
  pub n : ℕ

-- `count - 1`
abbrev pub prob_of : ℕ → ℤ
prob_of count = if count == 0 then negsuc 0 else pos (count - 1)

-- `prob.abs()`
abbrev pub size_of : ℕ → ℕ
size_of count = if count == 0 then 1 else count - 1

-- Whether a count takes the longer form, and its value.
unfoldable pub read_count : ℕ → ℕ → ℕ → Bool × ℕ
read_count window threshold remaining =
    let max_val = (2 * threshold - 1) - remaining in
    let lower = bit_and window (threshold - 1) in
    let full = bit_and window (2 * threshold - 1) in
    let long = leb max_val lower in
    (long, if not long then lower else if leb threshold full then full - max_val else full)

-- The last lines of a round: the width of the next count.
unfoldable pub narrow : Probs → Probs
narrow st =
    let high = 31 - leading_zeros 32 st.remaining in
    if ltb st.remaining st.threshold && ltb 1 st.remaining
    then record st { nb_bits = high + 1; threshold = 1 <<< high }
    else st

-- The result of a loop that has ended.
unfoldable pub finished {ℓ} : {A : Type ℓ} → Option (Result A) → Result A
finished none = err input_exhausted
finished (some r) = r

-- `if prob == 0`: the bit behind the count and its repeat codes, and the next symbol.
unfoldable pub skip_zeros : BitReader → ℕ → ℕ → ℕ → ℕ → ℕ → ℕ → Result (ℕ × ℕ)
skip_zeros reader end max_len count run bit n =
    if count == 1
    then finished (repeat_zeros reader end max_len (end / 32 + 1) run bit n)
    else ok (bit, n)

-- The probability of a count written down, what remains behind it, and where the next one is.
unfoldable pub put_prob : Probs → ℕ → ℕ × ℕ → Probs
put_prob st count (bit, n) = record st {
  bit = bit;
  remaining = st.remaining - size_of count;
  out = set st.out (bit_and st.n 255) (prob_of count);
  n = n;
}

-- One round.
unfoldable pub parse_prob : BitReader → ℕ → ℕ → Probs → Result Probs
parse_prob reader end max_len st =
    let window = window_at reader st.bit in
    let (long, count) = read_count window st.threshold st.remaining in
    let used = st.nb_bits - 1 + (if long then 1 else 0) in
    let bit = st.bit + used in
    if ltb end bit
    then err input_exhausted
    else if ltb st.remaining (size_of count)
    then err bad_fse_table
    else skip_zeros reader end max_len count (u64 window >>> used) bit (st.n + 1) >>= λ p.
        ok (narrow (put_prob st count p))

-- `while remaining > 1 && n < max_len`
unfoldable pub parse_probs : BitReader → ℕ → ℕ → ℕ → Probs → Result Probs
parse_probs reader end max_len zero st = ok st
parse_probs reader end max_len (suc fuel) st = elim (ltb 1 st.remaining && ltb st.n max_len) [
  | true ↦ parse_prob reader end max_len st >>= λ st'. parse_probs reader end max_len fuel st'
  | false ↦ ok st
]

-- The state before the loop.
abbrev pub start_of : ℕ → ℕ → Probs
start_of bit accuracy_log = record {
  bit = bit;
  remaining = 2 ^ accuracy_log + 1;
  threshold = 2 ^ accuracy_log;
  nb_bits = accuracy_log + 1;
  out = replicate 256 (pos 0);
  n = 0;
}

-- The distribution, the accuracy log and the reader behind the description.
unfoldable pub parse_fse_table_description_into : BitReader → ℕ → Result (List ℤ × ℕ × BitReader)
parse_fse_table_description_into reader max_symbol =
    let end = bits_consumed reader + bits_remaining reader in
    let bit = bits_consumed reader in
    let accuracy_log = bit_and (window_at reader bit) 15 + 5 in
    let max_len = max_symbol + 1 in
    if ltb end (bit + 4)
    then err input_exhausted
    else if ltb max_table_log accuracy_log
    then err bad_fse_table
    else parse_probs reader end max_len max_len (start_of (bit + 4) accuracy_log) >>= λ st.
        (if not (st.remaining == 1)
          then err bad_fse_table
          else ok (take max_len st.out, accuracy_log, align_to_byte (seek reader st.bit)))

abbrev pub parse_fse_table_description : BitReader → ℕ → Result (List ℤ × ℕ × BitReader)
parse_fse_table_description = parse_fse_table_description_into
