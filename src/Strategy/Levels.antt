-- ===== src/Strategy/Levels.antt =====
-- The parameters of each level, as `level_params_inner` lists them.
use zrip.Common.{ℕ, Bool, true, false, Option, none, some, ◌==◌, if◌then◌else◌}
use zrip.Common.Integers.{ℤ, pos, negsuc}

pub data Strategy : Type 0 where
  fast dfast : Strategy

pub record LdmParams : Type 0 where
  pub hash_log : ℕ
  pub bucket_size_log : ℕ
  pub min_match_length : ℕ
  pub hash_rate_log : ℕ

pub record LevelParams : Type 0 where
  pub strategy : Strategy
  pub window_log : ℕ
  pub hash_log : ℕ
  pub chain_log : ℕ
  pub search_log : ℕ
  pub min_match : ℕ
  pub target_length : ℕ
  pub search_strength : ℕ
  pub force_raw_literals : Bool
  pub ldm_params : Option LdmParams

abbrev pub level_minus_7 : LevelParams
level_minus_7 = record {
  strategy = fast;
  window_log = 19;
  hash_log = 13;
  chain_log = 13;
  search_log = 0;
  min_match = 8;
  target_length = 2;
  search_strength = 4;
  force_raw_literals = true;
  ldm_params = none;
}

abbrev pub level_minus_6 : LevelParams
level_minus_6 = record {
  strategy = fast;
  window_log = 19;
  hash_log = 13;
  chain_log = 13;
  search_log = 0;
  min_match = 8;
  target_length = 9;
  search_strength = 5;
  force_raw_literals = false;
  ldm_params = none;
}

abbrev pub level_minus_5 : LevelParams
level_minus_5 = record {
  strategy = fast;
  window_log = 19;
  hash_log = 13;
  chain_log = 13;
  search_log = 0;
  min_match = 8;
  target_length = 5;
  search_strength = 6;
  force_raw_literals = false;
  ldm_params = none;
}

abbrev pub level_minus_4 : LevelParams
level_minus_4 = record {
  strategy = fast;
  window_log = 19;
  hash_log = 13;
  chain_log = 13;
  search_log = 0;
  min_match = 7;
  target_length = 4;
  search_strength = 5;
  force_raw_literals = false;
  ldm_params = none;
}

abbrev pub level_minus_3 : LevelParams
level_minus_3 = record {
  strategy = fast;
  window_log = 19;
  hash_log = 14;
  chain_log = 14;
  search_log = 0;
  min_match = 6;
  target_length = 4;
  search_strength = 5;
  force_raw_literals = false;
  ldm_params = none;
}

abbrev pub level_minus_2 : LevelParams
level_minus_2 = record {
  strategy = fast;
  window_log = 19;
  hash_log = 14;
  chain_log = 14;
  search_log = 0;
  min_match = 6;
  target_length = 3;
  search_strength = 5;
  force_raw_literals = false;
  ldm_params = none;
}

abbrev pub level_minus_1 : LevelParams
level_minus_1 = record {
  strategy = fast;
  window_log = 19;
  hash_log = 14;
  chain_log = 14;
  search_log = 0;
  min_match = 6;
  target_length = 2;
  search_strength = 5;
  force_raw_literals = false;
  ldm_params = none;
}

abbrev pub level_1 : LevelParams
level_1 = record {
  strategy = fast;
  window_log = 19;
  hash_log = 15;
  chain_log = 15;
  search_log = 0;
  min_match = 7;
  target_length = 1;
  search_strength = 4;
  force_raw_literals = false;
  ldm_params = none;
}

abbrev pub level_2 : LevelParams
level_2 = record {
  strategy = fast;
  window_log = 20;
  hash_log = 16;
  chain_log = 16;
  search_log = 0;
  min_match = 7;
  target_length = 1;
  search_strength = 4;
  force_raw_literals = false;
  ldm_params = none;
}

abbrev pub level_3 : LevelParams
level_3 = record {
  strategy = dfast;
  window_log = 21;
  hash_log = 17;
  chain_log = 16;
  search_log = 1;
  min_match = 5;
  target_length = 1;
  search_strength = 0;
  force_raw_literals = false;
  ldm_params = none;
}

abbrev pub level_4 : LevelParams
level_4 = record {
  strategy = dfast;
  window_log = 24;
  hash_log = 18;
  chain_log = 18;
  search_log = 0;
  min_match = 5;
  target_length = 1;
  search_strength = 3;
  force_raw_literals = false;
  ldm_params = none;
}

-- Level 0 is the default level, 1.
unfoldable pub level_params_inner : ℤ → Option LevelParams
level_params_inner (pos n) =
    if n == 0
    then some level_1
    else if n == 1
    then some level_1
    else if n == 2
    then some level_2
    else if n == 3
    then some level_3
    else if n == 4
    then some level_4
    else none
level_params_inner (negsuc n) =
    if n == 7
    then some level_minus_7
    else if n == 6
    then some level_minus_7
    else if n == 5
    then some level_minus_6
    else if n == 4
    then some level_minus_5
    else if n == 3
    then some level_minus_4
    else if n == 2
    then some level_minus_3
    else if n == 1
    then some level_minus_2
    else if n == 0
    then some level_minus_1
    else none
