-- ===== src/Bitstream/Reader.antt =====
-- crates/core/src/bitstream/reader.rs: `BitReader`, which reads fields of bits from the lowest bit
-- of the first byte up.
pub mod Fields
use zrip.Common.{
  ℕ, ◌+◌, ◌-◌, ◌*◌, ◌/◌, ◌%◌, ◌^◌, bit_and, Bool, List, length, take, drop, replicate,
}
use zrip.Common.{leb, ltb, ◌==◌, if◌then◌else◌, copy_from_slice, Result, ok, err, input_exhausted}
use zrip.Common.{◌>>=◌}
use zrip.Common.Words.{u8, u16, u32, ◌<<<◌, ◌>>>◌}
use zrip.Common.Bytes.{from_le_bytes}

-- `source` is the field `data`.
pub record BitReader : Type 0 where
  pub source : List ℕ
  pub pos : ℕ
  pub bit_pos : ℕ

unfoldable pub new : List ℕ → BitReader
new source = record { source = source; pos = 0; bit_pos = 0 }

abbrev pub bits_consumed : BitReader → ℕ
bits_consumed r = r.pos * 8 + r.bit_pos

-- The subtraction does not underflow while the position lies in the data.
abbrev pub bits_remaining : BitReader → ℕ
bits_remaining r = length r.source * 8 - bits_consumed r

pub is_empty : BitReader → Bool
is_empty r = bits_remaining r == 0

unfoldable pub bytes_consumed : BitReader → ℕ
bytes_consumed r = if r.bit_pos == 0 then r.pos else r.pos + 1

-- Eight bytes from `byte` on; those past the end read as zero.
unfoldable pub load_u64 : BitReader → ℕ → ℕ
load_u64 r byte =
    if leb (byte + 8) (length r.source)
    then from_le_bytes (take 8 (drop byte r.source))
    else from_le_bytes (copy_from_slice (replicate 8 0) 0 (drop byte r.source))

unfoldable pub window_at : BitReader → ℕ → ℕ
window_at r bit = load_u64 r (bit / 8) >>> (bit % 8)

unfoldable pub seek : BitReader → ℕ → BitReader
seek r bit = record r { pos = bit / 8; bit_pos = u8 (bit % 8) }

-- `read_bits`, whose contract is `n <= 25`: the field and the reader behind it. Below 64 the shift
-- of the mask loses nothing.
unfoldable pub read_bits : BitReader → ℕ → Result (ℕ × BitReader)
read_bits r n =
    let word = load_u64 r r.pos in
    let result = u32 (bit_and (word >>> r.bit_pos) (1 <<< n - 1)) in
    let total = r.bit_pos + n in
    if n == 0
    then ok (0, r)
    else if ltb (bits_remaining r) n
    then err input_exhausted
    else ok (result, record r { pos = r.pos + total / 8; bit_pos = u8 (total % 8) })

pub read_bits_u16 : BitReader → ℕ → Result (ℕ × BitReader)
read_bits_u16 r n = do (v, r') ← read_bits r n; ok (u16 v, r')

-- The copy that `peek_bits` reads from is dropped.
pub peek_bits : BitReader → ℕ → Result ℕ
peek_bits r n = do (v, r') ← read_bits r n; ok v

unfoldable pub align_to_byte : BitReader → BitReader
align_to_byte r = if r.bit_pos == 0 then r else record r { bit_pos = 0; pos = r.pos + 1 }

pub remaining_bytes : BitReader → List ℕ
remaining_bytes r = if r.bit_pos == 0 then drop r.pos r.source else drop (r.pos + 1) r.source
