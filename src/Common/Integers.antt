-- ===== src/Common/Integers.antt =====
-- Signed integers over the native numbers: `negsuc n` is `-(n + 1)`.
use Prim.Native.Nat.{ℕ}

pub data ℤ : Type 0 where
  pos negsuc : ℕ → ℤ
