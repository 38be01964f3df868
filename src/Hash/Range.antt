-- ===== src/Hash/Range.antt =====
-- The range of the hashes.
use zrip.Common.{ℕ, ◌+◌, ◌-◌, ◌*◌, ◌/◌, ◌%◌, ◌^◌, ◌≤◌, ◌<◌, ◌≡◌, ap, ◌∙◌, arith}
use zrip.Common.Words.{u32, u64}
use zrip.Common.Powers.{pow_cong, pow-add, pow_pos, pow_mono, mod-mul_fields}
use native.Mathlib.Nat.{mod-lt, mod-eq_of_lt}
use zrip.Hash.{shift_amount, hash4, hash5, hash6, hash7, hash8, prime64_1, prime32_1}

-- The highest `n` bits of a `w`-bit word.
top_bits : (w n x : ℕ) → n ≤ w → x % 2 ^ w / 2 ^ (w - n) < 2 ^ n
top_bits w n x h =
    let e : 2 ^ w ≡ 2 ^ (w - n) * 2 ^ n =
      pow_cong w (w - n + n) (omega arith) ∙ pow-add (w - n) n in
    omega (
      arith,
      ap (λ (t : ℕ). x % t / 2 ^ (w - n)) e,
      (mod-mul_fields (2 ^ (w - n)) (2 ^ n) x (pow_pos (w - n)) (pow_pos n)).0,
      mod-lt (x / 2 ^ (w - n)) (pow_pos n),
    )

top_bits_64 : (n x : ℕ) → n ≤ 32 → u32 (u64 x / 2 ^ (64 - n)) < 2 ^ n
top_bits_64 n x h =
    let t = top_bits 64 n x (omega arith) in
    omega (
      arith,
      t,
      mod-eq_of_lt {n = u64 x / 2 ^ (64 - n)} {m = 2 ^ 32} (omega (arith, t, pow_mono n 32 h)),
    )

shift_amount_32 : (n : ℕ) → 1 ≤ n → n ≤ 32 → shift_amount 32 n ≡ 32 - n
unfolding shift_amount
shift_amount_32 n low high = omega (arith, low, high)

shift_amount_64 : (n : ℕ) → 1 ≤ n → n ≤ 32 → shift_amount 64 n ≡ 64 - n
unfolding shift_amount
shift_amount_64 n low high = omega (arith, low, high)

-- For a table of 2 to 2^32 entries, each hash is below the table's size.
pub hash_range :
    (value hash_log : ℕ)
    → 1 ≤ hash_log
    → hash_log ≤ 32
    → (hash4 value hash_log < 2 ^ hash_log)
      × (hash5 value hash_log < 2 ^ hash_log)
      × (hash6 value hash_log < 2 ^ hash_log)
      × (hash7 value hash_log < 2 ^ hash_log)
      × (hash8 value hash_log < 2 ^ hash_log)
unfolding hash4 hash5 hash6 hash7 hash8
hash_range value hash_log low h =
    rw (shift_amount_32 hash_log low h, shift_amount_64 hash_log low h)
      (
        top_bits 32 hash_log (value * prime32_1) h,
        top_bits_64 hash_log (u64 (value * 2 ^ 24) * prime64_1) h,
        top_bits_64 hash_log (u64 (value * 2 ^ 16) * prime64_1) h,
        top_bits_64 hash_log (u64 (value * 2 ^ 8) * prime64_1) h,
        top_bits_64 hash_log (value * prime64_1) h,
      )
