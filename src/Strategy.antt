-- ===== src/Strategy.antt =====
-- crates/encode/src/strategy.rs: the compression levels' parameters.
pub mod Levels
pub mod Bounds
mod Tests
use zrip.Common.{
  ℕ, zero, suc, ◌+◌, ◌-◌, ◌*◌, ◌/◌, ◌%◌, ◌^◌, min, max, Bool, true, false, not, ◌&&◌, ◌||◌,
}
use zrip.Common.{leb, ltb, ◌==◌, if◌then◌else◌, Option, none, some}
use zrip.Common.Words.{◌<<<◌, leading_zeros}
use zrip.Common.Integers.{ℤ, pos, negsuc}
use zrip.Strategy.Levels.{Strategy, fast, dfast, LevelParams, LdmParams, level_params_inner}

abbrev pub hash_log_min : ℕ
hash_log_min = 6

abbrev pub hash_log_max : ℕ
hash_log_max = 30

abbrev pub window_log_min : ℕ
window_log_min = 10

abbrev pub window_log_max : ℕ
window_log_max = 27

-- `usize::MAX` of a 64-bit target.
abbrev pub usize_max : ℕ
usize_max = 2 ^ 64 - 1

pub default_for_window_log : ℕ → LdmParams
default_for_window_log window_log =
    let hash_log = min 20 (window_log - 1) in
    record {
      hash_log = hash_log;
      bucket_size_log = 4;
      min_match_length = 64;
      hash_rate_log = max (window_log - hash_log) 7;
    }

pub with_window_log : LevelParams → ℕ → LevelParams
with_window_log p window_log = record p { window_log = window_log }

pub with_ldm : LevelParams → LdmParams → LevelParams
with_ldm p params = record p { ldm_params = some params }

pub clamp : ℕ → ℕ → ℕ → ℕ
clamp low high n = min (max n low) high

pub short_input_search_strength : ℤ → ℕ → Option ℕ
short_input_search_strength (negsuc n) input_len = none
short_input_search_strength (pos n) input_len =
    if ltb (256 * 1024) input_len
    then none
    else if n == 3
    then some 4
    else if n == 4
    then some 6
    else none

-- `raw_literals_limit`, where `rank` is `-level - 1`.
pub raw_literals_limit : ℤ → Option ℕ
raw_literals_limit (pos n) = none
raw_literals_limit (negsuc rank) =
    let base = 2048 <<< (rank / 2) in
    if ltb 5 rank then none else some (if rank % 2 == 1 then base + base / 2 else base)

-- A target length, a least match and a search strength.
pub record Search : Type 0 where
  pub target_length : ℕ
  pub min_match : ℕ
  pub search_strength : ℕ

pub small_input_search : ℤ → Option Search
small_input_search (pos n) = none
small_input_search (negsuc n) =
    if n == 5
    then some (record { target_length = 4; min_match = 5; search_strength = 6 })
    else if n == 4
    then some (record { target_length = 3; min_match = 5; search_strength = 6 })
    else if n == 3
    then some (record { target_length = 2; min_match = 5; search_strength = 6 })
    else if n == 2 || n == 1
    then some (record { target_length = 2; min_match = 5; search_strength = 7 })
    else if n == 0
    then some (record { target_length = 1; min_match = 5; search_strength = 7 })
    else none

pub apply_search : Option Search → LevelParams → LevelParams
apply_search none p = p
apply_search (some s) p = record p {
  target_length = s.target_length;
  min_match = s.min_match;
  search_strength = s.search_strength;
}

-- The bits that address `src_len` bytes.
pub src_log : ℕ → ℕ
src_log src_len = 64 - leading_zeros 64 (src_len - 1)

pub set_strength : Option ℕ → LevelParams → LevelParams
set_strength none p = p
set_strength (some s) p = record p { search_strength = s }

pub clamp_logs : LevelParams → LevelParams
clamp_logs p = record p {
  hash_log = clamp hash_log_min hash_log_max p.hash_log;
  chain_log = clamp hash_log_min hash_log_max p.chain_log;
  window_log = clamp window_log_min window_log_max p.window_log;
}

-- The part under `(2..usize::MAX).contains(&src_len)`.
pub fit_logs : ℕ → LevelParams → LevelParams
fit_logs src_len p =
    let log = src_log src_len in
    if leb 2 src_len && ltb src_len usize_max
    then record p {
      hash_log = max (min p.hash_log log) hash_log_min;
      chain_log = max (min p.chain_log log) hash_log_min;
      window_log = min p.window_log log;
    }
    else p

-- The part under `raw_literals_limit(level).is_some_and(..)`.
pub small_input : ℤ → Option ℕ → ℕ → LevelParams → LevelParams
small_input level none src_len p = p
small_input level (some limit) src_len p =
    if leb src_len limit
    then apply_search (small_input_search level) (record p { force_raw_literals = true })
    else p

pub tuned : ℤ → ℕ → LevelParams → LevelParams
tuned level src_len p =
    small_input level (raw_literals_limit level) src_len
      (fit_logs src_len (clamp_logs (set_strength (short_input_search_strength level src_len) p)))

pub level_params_for_size : ℤ → ℕ → Option LevelParams
level_params_for_size level src_len = elim (level_params_inner level) [
  | none ↦ none
  | some p ↦ some (tuned level src_len p)
]

pub level_params : ℤ → Option LevelParams
level_params level = level_params_for_size level usize_max

-- `level_params_with_prefix`, with the sum of the lengths saturating.
pub level_params_with_prefix : ℤ → ℕ → ℕ → Option LevelParams
level_params_with_prefix level prefix_len input_len =
    elim (level_params_for_size level (min (prefix_len + input_len) usize_max)) [
      | none ↦ none
      | some p ↦ some (set_strength (short_input_search_strength level input_len) p)
    ]

pub max_hash_log : ℤ → Option ℕ
max_hash_log level = elim (level_params_inner level) [
  | none ↦ none
  | some p ↦ some (max p.hash_log p.chain_log)
]

pub keeps_raw_literals : LevelParams → ℕ → Bool
keeps_raw_literals p input_len = p.force_raw_literals

pub use_custom_sequence_tables : LevelParams → ℕ → Bool
use_custom_sequence_tables p input_len = not (keeps_raw_literals p input_len)

pub record BlockPolicy : Type 0 where
  pub custom_tables : Bool
  pub max_literal_entropy_fp8 : ℕ

pub is_fast : Strategy → Bool
is_fast fast = true
is_fast dfast = false

-- `u32::MAX` disables the entropy check.
pub block_policy : LevelParams → ℕ → BlockPolicy
block_policy p input_len = record {
  custom_tables = use_custom_sequence_tables p input_len;
  max_literal_entropy_fp8 =
      if is_fast p.strategy && (leb 5 p.min_match && ltb 1 p.target_length)
      then 6 * 256 + 64
      else 2 ^ 32 - 1;
}

pub record Options : Type 0 where
  pub window_log : Option ℕ
  pub ldm : Bool

abbrev pub ldm_default_window_log : ℕ
ldm_default_window_log = 27

pub set_window : Option ℕ → LevelParams → LevelParams
set_window none p = p
set_window (some wl) p = record p { window_log = clamp window_log_min window_log_max wl }

pub set_ldm : Option ℕ → LevelParams → LevelParams
set_ldm none p = record p {
  window_log = ldm_default_window_log;
  ldm_params = some (default_for_window_log ldm_default_window_log);
}
set_ldm (some wl) p = record p { ldm_params = some (default_for_window_log p.window_log) }

pub apply_options : LevelParams → Options → LevelParams
apply_options p opts =
    let p1 = set_window opts.window_log p in if opts.ldm then set_ldm opts.window_log p1 else p1
