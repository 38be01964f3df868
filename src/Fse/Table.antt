-- ===== src/Fse/Table.antt =====
-- crates/core/src/fse/table_builder.rs: `build_decode_table_into`, which spreads the symbols of a
-- distribution over the cells of a table and gives every cell its bits and its base line. The loop
-- that skips the cells of the rare symbols takes as much fuel as the table has cells.
pub mod Cycle
pub mod Skip
pub mod Spread
pub mod Lay
pub mod Fast
pub mod Entries
pub mod Count
pub mod Agree
pub mod Bounds
pub mod Ends
mod Tests
use zrip.Common.{ℕ, zero, suc, ◌+◌, ◌-◌, ◌*◌, ◌^◌, bit_and, Bool, true, false, ◌&&◌, List, [], ◌∷◌}
use zrip.Common.{length, set, get_or, take, replicate, copy_from_slice, leb, ltb, ◌==◌}
use zrip.Common.{if◌then◌else◌, Result, ok, err, ◌>>=◌, bad_fse_table}
use zrip.Common.Words.{u8, u16, u32, ◌<<<◌, ◌>>>◌, leading_zeros}
use zrip.Common.Integers.{ℤ, pos, negsuc}

pub record FseDecodeEntry : Type 0 where
  pub base_line : ℕ
  pub num_bits : ℕ
  pub symbol : ℕ

abbrev pub zero_entry : FseDecodeEntry
zero_entry = record { base_line = 0; num_bits = 0; symbol = 0 }

-- `table[i].symbol = s`
abbrev pub set_symbol : List FseDecodeEntry → ℕ → ℕ → List FseDecodeEntry
set_symbol [] i s = []
set_symbol (e ∷ es) zero s = record e { symbol = s } ∷ es
set_symbol (e ∷ es) (suc i) s = e ∷ set_symbol es i s

-- `prob.max(0)`
abbrev pub positive : ℤ → ℕ
positive (pos n) = n
positive (negsuc n) = 0

-- `prob == -1`
abbrev pub is_rare : ℤ → Bool
is_rare (pos n) = false
is_rare (negsuc n) = n == 0

-- The variables of the counting loop.
pub record Counted : Type 0 where
  pub next : List ℕ
  pub high_threshold : ℕ
  pub total : ℕ
  pub table : List FseDecodeEntry

unfoldable pub count_symbol : ℕ → ℕ → ℤ → Counted → Result Counted
count_symbol mask s prob c =
    let rare = is_rare prob in
    let next = set c.next (bit_and s 255) (u16 (positive prob) + (if rare then 1 else 0)) in
    let high = c.high_threshold in
    if rare && high == 0
    then err bad_fse_table
    else ok (record {
      next = next;
      high_threshold = if rare then high - 1 else high;
      total = c.total + positive prob;
      table = if rare then set_symbol c.table (bit_and high mask) (u8 s) else c.table;
    })

unfoldable pub count_symbols : ℕ → ℕ → List ℤ → Counted → Result Counted
count_symbols mask s [] c = ok c
count_symbols mask s (prob ∷ probs) c =
    count_symbol mask s prob c >>= λ c'. count_symbols mask (s + 1) probs c'

-- `while position > high_threshold`
unfoldable pub skip_high : ℕ → ℕ → ℕ → ℕ → ℕ → ℕ
skip_high zero mask step high position = position
skip_high (suc fuel) mask step high position = elim (ltb high position) [
  | true ↦ skip_high fuel mask step high (bit_and (position + step) mask)
  | false ↦ position
]

-- One symbol's cells, in a table with rare symbols.
unfoldable pub place_skipping :
    ℕ → ℕ → ℕ → ℕ → ℕ → ℕ × List FseDecodeEntry → ℕ × List FseDecodeEntry
place_skipping mask step high s zero st = st
place_skipping mask step high s (suc n) (position, table) = place_skipping mask step high s n (
  skip_high (mask + 1) mask step high (bit_and (position + step) mask),
  set_symbol table position (u8 s),
)

unfoldable pub spread_skipping :
    ℕ → ℕ → ℕ → ℕ → List ℤ → ℕ × List FseDecodeEntry → ℕ × List FseDecodeEntry
spread_skipping mask step high s [] st = st
spread_skipping mask step high s (prob ∷ probs) st =
    spread_skipping mask step high (s + 1) probs
      (place_skipping mask step high s (positive prob) st)

-- One symbol's cells, in a table without rare symbols.
unfoldable pub place_plain : ℕ → ℕ → ℕ → ℕ → ℕ × List FseDecodeEntry → ℕ × List FseDecodeEntry
place_plain mask step s zero st = st
place_plain mask step s (suc n) (position, table) =
    place_plain mask step s n (bit_and (position + step) mask, set_symbol table position (u8 s))

unfoldable pub spread_plain : ℕ → ℕ → ℕ → List ℤ → ℕ × List FseDecodeEntry → ℕ × List FseDecodeEntry
spread_plain mask step s [] st = st
spread_plain mask step s (prob ∷ probs) st =
    spread_plain mask step (s + 1) probs (place_plain mask step s (positive prob) st)

abbrev pub spread_max : ℕ
spread_max = 512

-- `while i < n`, eight bytes per write.
unfoldable pub lay_chunks : ℕ → ℕ → ℕ → ℕ → ℕ → List ℕ → List ℕ
lay_chunks zero i n at s spread = spread
lay_chunks (suc fuel) i n at s spread = elim (ltb i n) [
  | true ↦ lay_chunks fuel (i + 8) n at s (copy_from_slice spread (at + i) (replicate 8 (u8 s)))
  | false ↦ spread
]

-- The symbols in order, from index `at` of the buffer on.
unfoldable pub lay_down : ℕ → ℕ → List ℤ → List ℕ → List ℕ
lay_down s at [] spread = spread
lay_down s at (prob ∷ probs) spread =
    let n = positive prob in
    lay_down (s + 1) (at + n) probs
      (lay_chunks n 8 n at s (copy_from_slice spread at (replicate 8 (u8 s))))

-- The laid down symbols scattered, two per step.
unfoldable pub scatter : ℕ → ℕ → List ℕ → ℕ × List FseDecodeEntry → ℕ × List FseDecodeEntry
scatter mask step [] st = st
scatter mask step (a ∷ []) st = st
scatter mask step (a ∷ b ∷ symbols) (position, table) = scatter mask step symbols (
  bit_and (position + 2 * step) mask,
  set_symbol (set_symbol table (bit_and position mask) a) (bit_and (position + step) mask) b,
)

-- The three ways to spread.
unfoldable pub spread_symbols : ℕ → List ℤ → Counted → ℕ × List FseDecodeEntry
spread_symbols table_size distribution c =
    let mask = table_size - 1 in
    let step = (table_size >>> 1) + (table_size >>> 3) + 3 in
    let plain = c.high_threshold == mask in
    if plain && (leb 32 table_size && leb table_size spread_max) && c.total == table_size
    then scatter mask step
        (take table_size (lay_down 0 0 distribution (replicate (spread_max + 8) 0))) (0, c.table)
    else if plain
    then spread_plain mask step 0 distribution (0, c.table)
    else spread_skipping mask step c.high_threshold 0 distribution (0, c.table)

-- `31 - val.leading_zeros()`
unfoldable pub high_bit : ℕ → ℕ
high_bit val = 31 - leading_zeros 32 val

-- The last loop: the bits and the base line of every cell.
unfoldable pub fill_entries : ℕ → List ℕ → List FseDecodeEntry → List FseDecodeEntry
fill_entries accuracy_log next [] = []
fill_entries accuracy_log next (e ∷ es) =
    let next_state = get_or next e.symbol 0 in
    let nb = accuracy_log - high_bit next_state in
    let new_state = (next_state <<< nb) - 2 ^ accuracy_log in
    record e { base_line = u16 new_state; num_bits = u8 nb }
    ∷ fill_entries accuracy_log (set next e.symbol (u16 (next_state + 1))) es

unfoldable pub build_decode_table_into :
    List ℤ → ℕ → List FseDecodeEntry → Result (List FseDecodeEntry)
build_decode_table_into distribution accuracy_log table =
    let table_size = 2 ^ accuracy_log in
    let sized = if length table == table_size then table else replicate table_size zero_entry in
    if ltb 256 (length distribution)
    then err bad_fse_table
    else count_symbols (table_size - 1) 0 distribution (record {
      next = replicate 256 0;
      high_threshold = table_size - 1;
      total = 0;
      table = sized;
    })
      >>= λ c.
          (let (position, spread) = spread_symbols table_size distribution c in
            if position == 0
            then ok (fill_entries accuracy_log c.next spread)
            else err bad_fse_table)
