-- ===== src/Hash.antt =====
-- crates/core/src/hash.rs: the match finders' hashes.
pub mod Range
mod Tests
use zrip.Common.{ℕ, ◌-◌, ◌+◌, ◌*◌, ◌/◌, ◌%◌, ◌^◌}
use zrip.Common.Words.{u32, u64, wrapping_mul, ◌<<<◌, ◌>>>◌}

abbrev pub prime32_1 : ℕ
prime32_1 = 0x9E3779B1

abbrev pub prime64_1 : ℕ
prime64_1 = 0x9E3779B185EBCA87

-- `w - hash_log`, which wraps around in 32 bits, and of which a shift of a `w`-bit word takes the lowest
-- bits, as without overflow checks; with them both panic for logarithms outside 1..=w.
unfoldable pub shift_amount : ℕ → ℕ → ℕ
shift_amount w hash_log = u32 (w + 2 ^ 32 - hash_log) % w

pub hash4 : ℕ → ℕ → ℕ
hash4 value hash_log = u32 (value * prime32_1) >>> shift_amount 32 hash_log

pub hash5 : ℕ → ℕ → ℕ
hash5 value hash_log =
    u32 (wrapping_mul (u64 (value <<< 24)) prime64_1 >>> shift_amount 64 hash_log)

pub hash6 : ℕ → ℕ → ℕ
hash6 value hash_log =
    u32 (wrapping_mul (u64 (value <<< 16)) prime64_1 >>> shift_amount 64 hash_log)

pub hash7 : ℕ → ℕ → ℕ
hash7 value hash_log = u32 (wrapping_mul (u64 (value <<< 8)) prime64_1 >>> shift_amount 64 hash_log)

pub hash8 : ℕ → ℕ → ℕ
hash8 value hash_log = u32 (wrapping_mul value prime64_1 >>> shift_amount 64 hash_log)
