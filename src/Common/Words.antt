-- ===== src/Common/Words.antt =====
-- Machine words as native numbers: the wrapping operations of `u64` and `u32`, and shifts.
use Prim.Native.Nat.{ℕ, zero, suc, ◌+◌, ◌-◌, ◌*◌, ◌/◌, ◌%◌, ◌^◌, bit_or}
use zrip.Common.Tests.{leb, if◌then◌else◌}

abbrev pub u8 : ℕ → ℕ
u8 n = n % 2 ^ 8

abbrev pub u16 : ℕ → ℕ
u16 n = n % 2 ^ 16

abbrev pub u32 : ℕ → ℕ
u32 n = n % 2 ^ 32

abbrev pub u64 : ℕ → ℕ
u64 n = n % 2 ^ 64

-- `x << k` before it is cut to its width, and `x >> k`.
infixl 75 ◌<<<◌ ◌>>>◌
abbrev pub ◌<<<◌ : ℕ → ℕ → ℕ
x <<< k = x * 2 ^ k

abbrev pub ◌>>>◌ : ℕ → ℕ → ℕ
x >>> k = x / 2 ^ k

-- `wrapping_add`, `wrapping_sub`, `wrapping_mul` and `rotate_left` of `u64`.
abbrev pub wrapping_add : ℕ → ℕ → ℕ
wrapping_add a b = u64 (a + b)

abbrev pub wrapping_sub : ℕ → ℕ → ℕ
wrapping_sub a b = u64 (a + 2 ^ 64 - b)

abbrev pub wrapping_mul : ℕ → ℕ → ℕ
wrapping_mul a b = u64 (a * b)

abbrev pub rotate_left : ℕ → ℕ → ℕ
rotate_left a k = bit_or (u64 (a <<< k)) (a >>> (64 - k))

-- `leading_zeros` of a `width`-bit word.
unfoldable pub leading_zeros : ℕ → ℕ → ℕ
leading_zeros zero x = 0
leading_zeros (suc width) x = if leb (2 ^ width) x then 0 else suc (leading_zeros width x)
