-- ===== src/Xxhash.antt =====
-- crates/core/src/xxhash/mod.rs and primitives.rs: XXH64, the frame content checksum, in its
-- one-shot form (`xxh64`) and its streaming form (`Xxh64State`). A byte slice is a list of
-- numbers, the lanes `v1..v4` are a record, and every `wrapping_*` is cut to 64 bits.
pub mod Chunks
pub mod Stream
pub mod Finish
mod Tests
use zrip.Common.{ℕ, zero, suc, ◌+◌, ◌-◌, ◌*◌, ◌/◌, ◌%◌, bit_xor, Bool, true, false, ◌||◌}
use zrip.Common.{List, [], ◌∷◌, ◌++◌, length, take, drop, replicate, get_or, leb, ltb, ◌==◌}
use zrip.Common.{if◌then◌else◌, copy_from_slice}
use zrip.Common.Words.{u64, wrapping_add, wrapping_sub, wrapping_mul, rotate_left, ◌>>>◌}
use zrip.Common.Bytes.{from_le_bytes}

abbrev pub prime64_1 : ℕ
prime64_1 = 0x9E3779B185EBCA87

abbrev pub prime64_2 : ℕ
prime64_2 = 0xC2B2AE3D27D4EB4F

abbrev pub prime64_3 : ℕ
prime64_3 = 0x165667B19E3779F9

abbrev pub prime64_4 : ℕ
prime64_4 = 0x85EBCA77C2B2AE63

abbrev pub prime64_5 : ℕ
prime64_5 = 0x27D4EB2F165667C5

-- `read_u32_le` and `read_u64_le`, at offsets that have so many bytes behind them.
unfoldable pub read_u32_le : List ℕ → ℕ → ℕ
read_u32_le xs offset = from_le_bytes (take 4 (drop offset xs))

pub read_u64_le : List ℕ → ℕ → ℕ
read_u64_le xs offset = from_le_bytes (take 8 (drop offset xs))

pub xxh64_round : ℕ → ℕ → ℕ
xxh64_round acc input =
    let acc' = wrapping_add acc (wrapping_mul input prime64_2) in
    wrapping_mul (rotate_left acc' 31) prime64_1

pub xxh64_merge_round : ℕ → ℕ → ℕ
xxh64_merge_round acc val =
    let val' = xxh64_round 0 val in
    wrapping_add (wrapping_mul (bit_xor acc val') prime64_1) prime64_4

pub record Lanes : Type 0 where
  pub v1 : ℕ
  pub v2 : ℕ
  pub v3 : ℕ
  pub v4 : ℕ

-- One 32-byte stripe, a round in each lane.
pub stripe : Lanes → List ℕ → Lanes
stripe acc s = record {
  v1 = xxh64_round acc.v1 (read_u64_le s 0);
  v2 = xxh64_round acc.v2 (read_u64_le s 8);
  v3 = xxh64_round acc.v3 (read_u64_le s 16);
  v4 = xxh64_round acc.v4 (read_u64_le s 24);
}

-- The whole chunks of `as_chunks::<n>` and the bytes behind them: `k` is the number of chunks.
pub chunks_of : ℕ → ℕ → List ℕ → List (List ℕ)
chunks_of n zero xs = []
chunks_of n (suc k) xs = take n xs ∷ chunks_of n k (drop n xs)

pub as_chunks : ℕ → List ℕ → List (List ℕ) × List ℕ
as_chunks n xs = (chunks_of n (length xs / n) xs, drop (n * (length xs / n)) xs)

pub stripes : Lanes → List (List ℕ) → Lanes
stripes acc [] = acc
stripes acc (s ∷ ss) = stripes (stripe acc s) ss

pub blocks : Lanes → List (List ℕ) → Lanes
blocks acc [] = acc
blocks acc (b ∷ bs) = blocks (stripes acc (as_chunks 32 b).0) bs

-- 128-byte blocks first, each of four stripes, then the stripes of what is left.
pub bulk_rounds : List ℕ → Lanes → Lanes
bulk_rounds xs acc =
    let (bs, rest) = as_chunks 128 xs in stripes (blocks acc bs) (as_chunks 32 rest).0

pub init_lanes : ℕ → Lanes
init_lanes seed = record {
  v1 = wrapping_add (wrapping_add seed prime64_1) prime64_2;
  v2 = wrapping_add seed prime64_2;
  v3 = seed;
  v4 = wrapping_sub seed prime64_1;
}

-- The four lanes merged into one word.
pub converge : Lanes → ℕ
converge v =
    let h0 =
      wrapping_add
        (wrapping_add (wrapping_add (rotate_left v.v1 1) (rotate_left v.v2 7))
          (rotate_left v.v3 12))
        (rotate_left v.v4 18) in
    xxh64_merge_round (xxh64_merge_round (xxh64_merge_round (xxh64_merge_round h0 v.v1) v.v2) v.v3)
      v.v4

-- One round of each of the three loops over the last bytes.
pub eight_step : ℕ → ℕ → ℕ
eight_step h64 word =
    wrapping_add (wrapping_mul (rotate_left (bit_xor h64 (xxh64_round 0 word)) 27) prime64_1)
      prime64_4

unfoldable pub four_step : ℕ → ℕ → ℕ
four_step h64 word =
    wrapping_add
      (wrapping_mul (rotate_left (bit_xor h64 (wrapping_mul word prime64_1)) 23) prime64_2)
      prime64_3

unfoldable pub one_step : ℕ → ℕ → ℕ
one_step h64 b = wrapping_mul (rotate_left (bit_xor h64 (wrapping_mul b prime64_5)) 11) prime64_1

unfoldable pub avalanche : ℕ → ℕ
avalanche h64 =
    let h1 = wrapping_mul (bit_xor h64 (h64 >>> 33)) prime64_2 in
    let h2 = wrapping_mul (bit_xor h1 (h1 >>> 29)) prime64_3 in bit_xor h2 (h2 >>> 32)

-- `while remaining.len() >= 8` and `>= 4`. A round takes a byte at least, so the length of the tail
-- is fuel enough for each loop (`tail_eights_exits` and `tail_fours_exits` of Xxhash/Finish.antt).
pub tail_eights : ℕ → ℕ → List ℕ → ℕ × List ℕ
tail_eights zero h64 remaining = (h64, remaining)
tail_eights (suc fuel) h64 remaining =
    let more = tail_eights fuel (eight_step h64 (read_u64_le remaining 0)) (drop 8 remaining) in
    if leb 8 (length remaining) then more else (h64, remaining)

pub tail_fours : ℕ → ℕ → List ℕ → ℕ × List ℕ
tail_fours zero h64 remaining = (h64, remaining)
tail_fours (suc fuel) h64 remaining =
    let more = tail_fours fuel (four_step h64 (read_u32_le remaining 0)) (drop 4 remaining) in
    if leb 4 (length remaining) then more else (h64, remaining)

pub tail_ones : ℕ → List ℕ → ℕ
tail_ones h64 [] = h64
tail_ones h64 (b ∷ bs) = tail_ones (one_step h64 b) bs

pub hash_tail : ℕ → List ℕ → ℕ
hash_tail h64 tail =
    let (h8, r8) = tail_eights (length tail) h64 tail in
    let (h4, r4) = tail_fours (length tail) h8 r8 in avalanche (tail_ones h4 r4)

-- `len & !31`
abbrev pub whole_stripes : ℕ → ℕ
whole_stripes len = 32 * (len / 32)

pub xxh64 : List ℕ → ℕ → ℕ
xxh64 xs seed =
    let len = length xs in
    let h64 =
      if leb 32 len
      then converge (bulk_rounds xs (init_lanes seed))
      else wrapping_add seed prime64_5 in
    hash_tail (wrapping_add h64 (u64 len)) (drop (whole_stripes len) xs)

-- `Xxh64State`, the lanes together.
pub record Xxh64State : Type 0 where
  pub lanes : Lanes
  pub total_len : ℕ
  pub buf : List ℕ
  pub buf_used : ℕ
  pub large : Bool
  pub seed : ℕ

unfoldable pub new : ℕ → Xxh64State
new seed = record {
  lanes = init_lanes seed;
  total_len = 0;
  buf = replicate 32 0;
  buf_used = 0;
  large = false;
  seed = seed;
}

-- The buffered part of a stripe, filled up from the input: `if self.buf_used > 0`.
pub fill_buffer : Xxh64State → List ℕ → Xxh64State × List ℕ
fill_buffer st xs =
    let fill = 32 - st.buf_used in
    let buf' = copy_from_slice st.buf st.buf_used (take fill xs) in
    if ltb 0 st.buf_used
    then (
      record st { lanes = stripe st.lanes buf'; buf = buf'; buf_used = 0; large = true },
      drop fill xs,
    )
    else (st, xs)

-- `if data.len() >= 32`
pub bulk_update : Xxh64State → List ℕ → Xxh64State × List ℕ
bulk_update st xs =
    if leb 32 (length xs)
    then (
      record st { lanes = bulk_rounds xs st.lanes; large = true },
      drop (whole_stripes (length xs)) xs,
    )
    else (st, xs)

-- `if !data.is_empty()`
unfoldable pub keep_rest : Xxh64State → List ℕ → Xxh64State
keep_rest st xs =
    if length xs == 0
    then st
    else record st { buf = copy_from_slice st.buf 0 xs; buf_used = length xs }

-- What `update` does when the buffer and the input make up a stripe at least.
unfoldable pub absorb : Xxh64State → List ℕ → Xxh64State
absorb st xs =
    let (st1, xs1) = fill_buffer st xs in let (st2, xs2) = bulk_update st1 xs1 in keep_rest st2 xs2

unfoldable pub update : Xxh64State → List ℕ → Xxh64State
update st0 xs =
    let st = record st0 { total_len = u64 (st0.total_len + length xs) } in
    if ltb (st.buf_used + length xs) 32
    then record st {
      buf = copy_from_slice st.buf st.buf_used xs;
      buf_used = st.buf_used + length xs;
    }
    else absorb st xs

-- The loops of `finish` go by an offset into the buffer.
unfoldable pub finish_eights : ℕ → ℕ → List ℕ → ℕ → ℕ × ℕ
finish_eights zero h64 xs offset = (h64, offset)
finish_eights (suc fuel) h64 xs offset =
    let more = finish_eights fuel (eight_step h64 (read_u64_le xs offset)) xs (offset + 8) in
    if leb (offset + 8) (length xs) then more else (h64, offset)

unfoldable pub finish_fours : ℕ → ℕ → List ℕ → ℕ → ℕ × ℕ
finish_fours zero h64 xs offset = (h64, offset)
finish_fours (suc fuel) h64 xs offset =
    let more = finish_fours fuel (four_step h64 (read_u32_le xs offset)) xs (offset + 4) in
    if leb (offset + 4) (length xs) then more else (h64, offset)

unfoldable pub finish_ones : ℕ → ℕ → List ℕ → ℕ → ℕ
finish_ones zero h64 xs offset = h64
finish_ones (suc fuel) h64 xs offset =
    let more = finish_ones fuel (one_step h64 (get_or xs offset 0)) xs (offset + 1) in
    if ltb offset (length xs) then more else h64

unfoldable pub finish : Xxh64State → ℕ
finish st =
    let h64 = if st.large then converge st.lanes else wrapping_add st.seed prime64_5 in
    let xs = take st.buf_used st.buf in
    let (h8, o8) = finish_eights (length xs) (wrapping_add h64 st.total_len) xs 0 in
    let (h4, o4) = finish_fours (length xs) h8 xs o8 in avalanche (finish_ones (length xs) h4 xs o4)
