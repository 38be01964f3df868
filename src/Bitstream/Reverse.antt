-- ===== src/Bitstream/Reverse.antt =====
-- crates/core/src/bitstream/reader_reverse.rs: `ReverseBitReader`, which reads fields of bits from
-- the marker bit in the last byte down. `bits_consumed` counts from the top of a 64-bit container
-- that holds the bytes `ptr..ptr + 8`.
pub mod Fields
pub mod Open
use zrip.Common.{
  ℕ, ◌+◌, ◌-◌, ◌*◌, ◌/◌, ◌%◌, ◌^◌, min, bit_and, bit_or, Bool, true, false, ◌&&◌, ◌||◌,
}
use zrip.Common.{List, [], ◌∷◌, length, take, drop, get_or, leb, ltb, ◌==◌, if◌then◌else◌}
use zrip.Common.{Result, ok, err, input_exhausted, corrupt_sequences}
use zrip.Common.Words.{u32, u64, ◌<<<◌, ◌>>>◌, leading_zeros}
use zrip.Common.Bytes.{from_le_bytes}

-- `source` is the field `data`.
pub record ReverseBitReader : Type 0 where
  pub source : List ℕ
  pub container : ℕ
  pub bits_consumed : ℕ
  pub ptr : ℕ
  pub limit_ptr : ℕ

-- `read_u64_le_unaligned`
pub read_u64_le : List ℕ → ℕ → ℕ
read_u64_le xs offset = from_le_bytes (take 8 (drop offset xs))

-- `val |= (b as u64) << (i * 8)` over the bytes, from index `i` on.
pub or_bytes : ℕ → ℕ → List ℕ → ℕ
or_bytes i val [] = val
or_bytes i val (b ∷ bs) = or_bytes (i + 1) (bit_or val (u64 (b <<< (i * 8)))) bs

-- The reader that `new` makes of an input with a marker bit.
pub opened : List ℕ → ReverseBitReader
opened source =
    let len = length source in
    let initial_consumed = leading_zeros 8 (get_or source (len - 1) 0) + 1 in
    let long = leb 8 len in
    let ptr = if long then len - 8 else 0 in
    record {
      source = source;
      container = if long then read_u64_le source ptr else or_bytes 0 0 source;
      bits_consumed = if long then initial_consumed else 64 - len * 8 + initial_consumed;
      ptr = ptr;
      limit_ptr = if long then 8 else 0;
    }

pub new : List ℕ → Result ReverseBitReader
new source =
    if length source == 0
    then err input_exhausted
    else if get_or source (length source - 1) 0 == 0
    then err corrupt_sequences
    else ok (opened source)

-- The container loaded again at `ptr`, as in `refill`.
pub reload : List ℕ → ℕ → ℕ
reload source ptr =
    if leb (ptr + 8) (length source) then read_u64_le source ptr else or_bytes 0 0 (drop ptr source)

unfoldable pub refill : ReverseBitReader → ReverseBitReader
refill r =
    let actual_shift = min (r.bits_consumed >>> 3) r.ptr in
    if leb r.bits_consumed 7 || r.ptr == 0 then r else record r {
      ptr = r.ptr - actual_shift;
      bits_consumed = r.bits_consumed - actual_shift * 8;
      container = reload r.source (r.ptr - actual_shift);
    }

-- `(container << bits_consumed) >> (64 - n)`
unfoldable pub top_field : ReverseBitReader → ℕ → ℕ
top_field r n = u32 (u64 (r.container <<< r.bits_consumed) >>> (64 - n))

-- `read_bits`, whose contract is `n <= 32`.
unfoldable pub read_bits : ReverseBitReader → ℕ → Result (ℕ × ReverseBitReader)
read_bits r0 n =
    let r = refill r0 in
    let avail = 64 - r.bits_consumed in
    if n == 0
    then ok (0, r0)
    else if ltb avail n
    then err input_exhausted
    else ok (top_field r n, record r { bits_consumed = r.bits_consumed + n })

pub consume_bits : ReverseBitReader → ℕ → ReverseBitReader
consume_bits r n = refill (record r { bits_consumed = r.bits_consumed + n })

-- `((container << (bits_consumed & 63)) >> 1 >> (63 - n)) as u32`
pub read_bits_branchless : ReverseBitReader → ℕ → ℕ × ReverseBitReader
read_bits_branchless r n = (
  u32 (u64 (r.container <<< bit_and r.bits_consumed 63) >>> 1 >>> (63 - n)),
  record r { bits_consumed = r.bits_consumed + n },
)

pub try_refill_fast : ReverseBitReader → ReverseBitReader × Bool
try_refill_fast r =
    let byte_shift = r.bits_consumed >>> 3 in
    if leb byte_shift r.ptr && leb 8 (length r.source)
    then (
      record r {
        ptr = r.ptr - byte_shift;
        bits_consumed = r.bits_consumed - byte_shift * 8;
        container = read_u64_le r.source (r.ptr - byte_shift);
      },
      true,
    )
    else (r, false)

pub refill_fast_or_regular : ReverseBitReader → ReverseBitReader
refill_fast_or_regular r = let (r', fast) = try_refill_fast r in if fast then r' else refill r'

pub peek_bits : ReverseBitReader → ℕ → ℕ
peek_bits r n = if n == 0 then 0 else top_field r n

abbrev pub bits_remaining : ReverseBitReader → ℕ
bits_remaining r = 64 - r.bits_consumed + r.ptr * 8

unfoldable pub is_exhausted : ReverseBitReader → Bool
is_exhausted r = r.ptr == 0 && r.bits_consumed == 64

pub is_empty : ReverseBitReader → Bool
is_empty r = leb 64 r.bits_consumed && r.ptr == 0
