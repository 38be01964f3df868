-- ===== src/Sequences/Codes.antt =====
-- The code tables: `LL_CODE_TABLE` and `ML_CODE_TABLE` of crates/encode/src/block_encoder.rs with
-- `code_rows`, and the baselines and bit counts of crates/core/src/fse/mod.rs.
use zrip.Common.{ℕ, zero, suc, ◌+◌, ◌-◌, ◌/◌, ◌%◌, bit_or, List, [], ◌∷◌, length, get_or}
use zrip.Common.{ltb, ◌==◌, ◌&&◌, if◌then◌else◌}
use zrip.Common.Words.{◌<<<◌}

abbrev pub ll_code_table : List ℕ
ll_code_table =
    0 ∷ 1 ∷ 2 ∷ 3 ∷ 4 ∷ 5 ∷ 6 ∷ 7 ∷ 8 ∷ 9 ∷ 10 ∷ 11 ∷ 12 ∷ 13 ∷ 14 ∷ 15 ∷ 16 ∷ 16 ∷ 17 ∷ 17 ∷ 18
    ∷ 18 ∷ 19 ∷ 19 ∷ 20 ∷ 20 ∷ 20 ∷ 20 ∷ 21 ∷ 21 ∷ 21 ∷ 21 ∷ 22 ∷ 22 ∷ 22 ∷ 22 ∷ 22 ∷ 22 ∷ 22 ∷ 22
    ∷ 23 ∷ 23 ∷ 23 ∷ 23 ∷ 23 ∷ 23 ∷ 23 ∷ 23 ∷ 24 ∷ 24 ∷ 24 ∷ 24 ∷ 24 ∷ 24 ∷ 24 ∷ 24 ∷ 24 ∷ 24 ∷ 24
    ∷ 24 ∷ 24 ∷ 24 ∷ 24 ∷ 24 ∷ []

abbrev pub ml_code_table : List ℕ
ml_code_table =
    0 ∷ 1 ∷ 2 ∷ 3 ∷ 4 ∷ 5 ∷ 6 ∷ 7 ∷ 8 ∷ 9 ∷ 10 ∷ 11 ∷ 12 ∷ 13 ∷ 14 ∷ 15 ∷ 16 ∷ 17 ∷ 18 ∷ 19 ∷ 20
    ∷ 21 ∷ 22 ∷ 23 ∷ 24 ∷ 25 ∷ 26 ∷ 27 ∷ 28 ∷ 29 ∷ 30 ∷ 31 ∷ 32 ∷ 32 ∷ 33 ∷ 33 ∷ 34 ∷ 34 ∷ 35 ∷ 35
    ∷ 36 ∷ 36 ∷ 36 ∷ 36 ∷ 37 ∷ 37 ∷ 37 ∷ 37 ∷ 38 ∷ 38 ∷ 38 ∷ 38 ∷ 38 ∷ 38 ∷ 38 ∷ 38 ∷ 39 ∷ 39 ∷ 39
    ∷ 39 ∷ 39 ∷ 39 ∷ 39 ∷ 39 ∷ 40 ∷ 40 ∷ 40 ∷ 40 ∷ 40 ∷ 40 ∷ 40 ∷ 40 ∷ 40 ∷ 40 ∷ 40 ∷ 40 ∷ 40 ∷ 40
    ∷ 40 ∷ 40 ∷ 41 ∷ 41 ∷ 41 ∷ 41 ∷ 41 ∷ 41 ∷ 41 ∷ 41 ∷ 41 ∷ 41 ∷ 41 ∷ 41 ∷ 41 ∷ 41 ∷ 41 ∷ 41 ∷ 42
    ∷ 42 ∷ 42 ∷ 42 ∷ 42 ∷ 42 ∷ 42 ∷ 42 ∷ 42 ∷ 42 ∷ 42 ∷ 42 ∷ 42 ∷ 42 ∷ 42 ∷ 42 ∷ 42 ∷ 42 ∷ 42 ∷ 42
    ∷ 42 ∷ 42 ∷ 42 ∷ 42 ∷ 42 ∷ 42 ∷ 42 ∷ 42 ∷ 42 ∷ 42 ∷ 42 ∷ 42 ∷ []

abbrev pub ll_bits_table : List ℕ
ll_bits_table =
    0 ∷ 0 ∷ 0 ∷ 0 ∷ 0 ∷ 0 ∷ 0 ∷ 0 ∷ 0 ∷ 0 ∷ 0 ∷ 0 ∷ 0 ∷ 0 ∷ 0 ∷ 0 ∷ 1 ∷ 1 ∷ 1 ∷ 1 ∷ 2 ∷ 2 ∷ 3 ∷ 3
    ∷ 4 ∷ 6 ∷ 7 ∷ 8 ∷ 9 ∷ 10 ∷ 11 ∷ 12 ∷ 13 ∷ 14 ∷ 15 ∷ 16 ∷ []

abbrev pub ll_baseline_table : List ℕ
ll_baseline_table =
    0 ∷ 1 ∷ 2 ∷ 3 ∷ 4 ∷ 5 ∷ 6 ∷ 7 ∷ 8 ∷ 9 ∷ 10 ∷ 11 ∷ 12 ∷ 13 ∷ 14 ∷ 15 ∷ 16 ∷ 18 ∷ 20 ∷ 22 ∷ 24
    ∷ 28 ∷ 32 ∷ 40 ∷ 48 ∷ 64 ∷ 128 ∷ 256 ∷ 512 ∷ 1024 ∷ 2048 ∷ 4096 ∷ 8192 ∷ 16384 ∷ 32768 ∷ 65536
    ∷ []

abbrev pub ml_bits_table : List ℕ
ml_bits_table =
    0 ∷ 0 ∷ 0 ∷ 0 ∷ 0 ∷ 0 ∷ 0 ∷ 0 ∷ 0 ∷ 0 ∷ 0 ∷ 0 ∷ 0 ∷ 0 ∷ 0 ∷ 0 ∷ 0 ∷ 0 ∷ 0 ∷ 0 ∷ 0 ∷ 0 ∷ 0 ∷ 0
    ∷ 0 ∷ 0 ∷ 0 ∷ 0 ∷ 0 ∷ 0 ∷ 0 ∷ 0 ∷ 1 ∷ 1 ∷ 1 ∷ 1 ∷ 2 ∷ 2 ∷ 3 ∷ 3 ∷ 4 ∷ 4 ∷ 5 ∷ 7 ∷ 8 ∷ 9 ∷ 10
    ∷ 11 ∷ 12 ∷ 13 ∷ 14 ∷ 15 ∷ 16 ∷ []

abbrev pub ml_baseline_table : List ℕ
ml_baseline_table =
    3 ∷ 4 ∷ 5 ∷ 6 ∷ 7 ∷ 8 ∷ 9 ∷ 10 ∷ 11 ∷ 12 ∷ 13 ∷ 14 ∷ 15 ∷ 16 ∷ 17 ∷ 18 ∷ 19 ∷ 20 ∷ 21 ∷ 22 ∷ 23
    ∷ 24 ∷ 25 ∷ 26 ∷ 27 ∷ 28 ∷ 29 ∷ 30 ∷ 31 ∷ 32 ∷ 33 ∷ 34 ∷ 35 ∷ 37 ∷ 39 ∷ 41 ∷ 43 ∷ 47 ∷ 51 ∷ 59
    ∷ 67 ∷ 83 ∷ 99 ∷ 131 ∷ 259 ∷ 515 ∷ 1027 ∷ 2051 ∷ 4099 ∷ 8195 ∷ 16387 ∷ 32771 ∷ 65539 ∷ []

-- `first`: down from `i` while the code before is the same.
abbrev pub run_first : List ℕ → ℕ → ℕ → ℕ
run_first codes code zero = zero
run_first codes code (suc i) =
    let first = run_first codes code i in if get_or codes i 0 == code then first else suc i

-- `end`: up from `i` while the code is the same; the length of the table is fuel enough.
abbrev pub run_end : ℕ → List ℕ → ℕ → ℕ → ℕ
run_end zero codes code i = i
run_end (suc fuel) codes code i =
    let end = run_end fuel codes code (i + 1) in
    if ltb i (length codes) && get_or codes i 0 == code then end else i

-- `trailing_zeros` of a 32-bit number, counted with at most `fuel` halvings.
abbrev pub trailing_zeros : ℕ → ℕ → ℕ
trailing_zeros zero v = zero
trailing_zeros (suc fuel) v =
    let rest = trailing_zeros fuel (v / 2) in if v % 2 == 0 then suc rest else 0

abbrev pub code_row : List ℕ → ℕ → ℕ
code_row codes i =
    let code = get_or codes i 0 in
    let first = run_first codes code i in
    let end = run_end (length codes) codes code i in
    bit_or (bit_or code (trailing_zeros 32 (end - first) <<< 8)) (first <<< 16)

-- Row `i` and those after it, `n` in all.
abbrev pub code_rows_from : List ℕ → ℕ → ℕ → List ℕ
code_rows_from codes i zero = []
code_rows_from codes i (suc n) = code_row codes i ∷ code_rows_from codes (i + 1) n

abbrev pub code_rows : List ℕ → List ℕ
code_rows codes = code_rows_from codes 0 (length codes)

abbrev pub ll_rows : List ℕ
ll_rows = code_rows ll_code_table

abbrev pub ml_rows : List ℕ
ml_rows = code_rows ml_code_table
