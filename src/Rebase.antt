-- ===== src/Rebase.antt =====
-- crates/encode/src/rebase.rs: `PositionBase`, which keeps the match finders' 32-bit table positions
-- in range, and the move of the table entries.
pub mod Span
mod Tests
use zrip.Common.{
  ℕ, ◌+◌, ◌-◌, ◌*◌, ◌%◌, ◌^◌, List, [], ◌∷◌, leb, ltb, ◌==◌, if◌then◌else◌, Option, none, some,
}
use zrip.Common.Words.{u32, ◌<<<◌}

abbrev pub max_span : ℕ
max_span = 2 ^ 32 - 1

abbrev pub max_block_size : ℕ
max_block_size = 128 * 1024

pub record PositionBase : Type 0 where
  pub base : ℕ
  pub window : ℕ

pub new : ℕ → PositionBase
new window_log = record { base = 0; window = 1 <<< window_log }

-- The shift of the table entries, if any, and the moved base.
pub advance : PositionBase → ℕ → ℕ → Option ℕ × PositionBase
advance p block_start block_end =
    let shift = block_start - p.base - p.window in
    if leb (block_end - p.base) max_span
    then (none, p)
    else if shift == 0
    then (none, p)
    else (some (u32 shift), record p { base = p.base + shift })

pub reduce_entry : ℕ → ℕ → ℕ
reduce_entry shift entry = if ltb entry shift then 0 else entry - shift

pub reduce_hash_table : List ℕ → ℕ → List ℕ
reduce_hash_table [] shift = []
reduce_hash_table (e ∷ es) shift = reduce_entry shift e ∷ reduce_hash_table es shift
