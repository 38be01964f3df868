-- ===== src/Literals.antt =====
-- The literals section's headers: crates/decode/src/literals.rs for reading,
-- crates/encode/src/block_encoder.rs for writing. Sizes are `usize` of 64 bits.
mod Fields
pub mod RoundTrip
mod Tests
use zrip.Common.{
  ℕ, ◌+◌, ◌-◌, ◌*◌, ◌/◌, ◌%◌, ◌^◌, bit_and, bit_or, Bool, List, [], ◌∷◌, ◌++◌, length, get_or,
}
use zrip.Common.{leb, ltb, ◌==◌, ◌&&◌, if◌then◌else◌, Result, ok, err, corrupt_literals}
use zrip.Common.Words.{u8, u32, u64, ◌<<<◌, ◌>>>◌}

pub data LiteralsBlockType : Type 0 where
  raw rle compressed treeless : LiteralsBlockType

-- The `match data[0] & 0x03` of `decode_literals_ws`.
pub block_type_of : ℕ → LiteralsBlockType
block_type_of header_byte =
    let bits = bit_and header_byte 3 in
    if bits == 0 then raw else if bits == 1 then rle else if bits == 2 then compressed else treeless

-- `data[i]`, inside the bounds that the callers check.
abbrev pub at : List ℕ → ℕ → ℕ
at xs i = get_or xs i 0

-- `if data.len() < n { return Err(CorruptLiterals) }`
pub need : {A : Type 0} → List ℕ → ℕ → Result A → Result A
need xs n next = if ltb (length xs) n then err corrupt_literals else next

-- The bytes above the low four bits of the first, put together.
pub both2 : List ℕ → ℕ
both2 xs = bit_or (at xs 0 >>> 4) (at xs 1 <<< 4)

pub both3 : List ℕ → ℕ
both3 xs = bit_or (both2 xs) (at xs 2 <<< 12)

pub both4 : List ℕ → ℕ
both4 xs = bit_or (both3 xs) (at xs 3 <<< 20)

pub both5 : List ℕ → ℕ
both5 xs = bit_or (both4 xs) (at xs 4 <<< 28)

-- The regenerated size and the length of the header.
pub parse_raw_rle_header : List ℕ → Result (ℕ × ℕ)
parse_raw_rle_header xs =
    let size_format = bit_and (at xs 0 >>> 2) 3 in
    if size_format == 1
    then need xs 2 (ok (both2 xs, 2))
    else if size_format == 3
    then need xs 3 (ok (both3 xs, 3))
    else ok (at xs 0 >>> 3, 1)

-- What a header of a Huffman-coded section says.
pub record Sizes : Type 0 where
  pub regen_size : ℕ
  pub comp_size : ℕ
  pub streams : ℕ
  pub header_size : ℕ

pub split_sizes : ℕ → ℕ → ℕ → ℕ → Sizes
split_sizes both bits streams header_size = record {
  regen_size = bit_and both (1 <<< bits - 1);
  comp_size = both >>> bits;
  streams = streams;
  header_size = header_size;
}

pub parse_compressed_header : List ℕ → Result Sizes
parse_compressed_header xs =
    let size_format = bit_and (at xs 0 >>> 2) 3 in
    if size_format == 0
    then need xs 3 (ok (split_sizes (both3 xs) 10 1 3))
    else if size_format == 1
    then need xs 3 (ok (split_sizes (both3 xs) 10 4 3))
    else if size_format == 2
    then need xs 4 (ok (split_sizes (both4 xs) 14 4 4))
    else need xs 5 (ok (split_sizes (both5 xs) 18 4 5))

-- `block_type | (size_format << 2) | (((both & 0x0F) as u8) << 4)`
pub lead : ℕ → ℕ → ℕ → ℕ
lead block_type size_format both =
    bit_or (bit_or block_type (size_format <<< 2)) (u8 (u8 (bit_and both 0x0F) <<< 4))

pub encode_huf_literals_header : ℕ → ℕ → ℕ → Bool → List ℕ
encode_huf_literals_header block_type regen_size comp_size four_streams =
    if leb regen_size 1023 && leb comp_size 1023
    then (let both = bit_or (u32 regen_size) (u32 (u32 comp_size <<< 10)) in
        lead block_type (if four_streams then 1 else 0) both
        ∷ u8 (both >>> 4)
        ∷ u8 (both >>> 12)
        ∷ [])
    else if leb regen_size 16383 && leb comp_size 16383
    then (let both = bit_or (u32 regen_size) (u32 (u32 comp_size <<< 14)) in
        lead block_type 2 both ∷ u8 (both >>> 4) ∷ u8 (both >>> 12) ∷ u8 (both >>> 20) ∷ [])
    else (let both = bit_or (u64 regen_size) (u64 (u64 comp_size <<< 18)) in
        lead block_type 3 both
        ∷ u8 (both >>> 4)
        ∷ u8 (both >>> 12)
        ∷ u8 (both >>> 20)
        ∷ u8 (both >>> 28)
        ∷ [])

pub encode_compressed_literals_header : ℕ → ℕ → Bool → List ℕ
encode_compressed_literals_header = encode_huf_literals_header 2

pub encode_treeless_literals_header : ℕ → ℕ → Bool → List ℕ
encode_treeless_literals_header = encode_huf_literals_header 3

-- `(size as u8 & 0x0F) << 4`
pub low_nibble : ℕ → ℕ
low_nibble size = u8 (bit_and (u8 size) 0x0F <<< 4)

pub encode_raw_literals_header : ℕ → List ℕ
encode_raw_literals_header size =
    if leb size 31
    then u8 (u8 size <<< 3) ∷ []
    else if leb size 4095
    then bit_or 0x04 (low_nibble size) ∷ u8 (size >>> 4) ∷ []
    else bit_or 0x0C (low_nibble size) ∷ u8 (size >>> 4) ∷ u8 (size >>> 12) ∷ []
