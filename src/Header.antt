-- ===== src/Header.antt =====
-- The headers of frames and blocks: crates/core/src/frame/mod.rs, frame/header.rs and block/mod.rs
-- for reading, crates/encode/src/lib.rs and block_encoder.rs for writing. The vector that takes the
-- bytes is a list; a sink of fixed size is in Output.
mod Fields
pub mod Frame
pub mod Bounds
pub mod Block
mod Tests
use zrip.Common.{
  ℕ, ◌+◌, ◌-◌, ◌*◌, ◌/◌, ◌%◌, ◌^◌, min, max, bit_and, bit_or, Bool, true, false, not, ◌&&◌,
}
use zrip.Common.{List, [], ◌∷◌, ◌++◌, length, take, drop, get_or, leb, ltb, ◌==◌, if◌then◌else◌}
use zrip.Common.{Option, none, some, Result, ok, err, ◌>>=◌}
use zrip.Common.{input_exhausted, bad_magic, bad_frame_header, bad_block_type}
use zrip.Common.Words.{u8, u16, u32, u64, ◌<<<◌, ◌>>>◌}
use zrip.Common.Bytes.{from_le_bytes, to_le_bytes}

abbrev pub zstd_magic : ℕ
zstd_magic = 0xFD2FB528

abbrev pub max_window_size : ℕ
max_window_size = 2 ^ 27

abbrev pub window_log_min : ℕ
window_log_min = 10

abbrev pub window_log_max : ℕ
window_log_max = 27

pub record FrameHeader : Type 0 where
  pub window_size : ℕ
  pub frame_content_size : Option ℕ
  pub dict_id : Option ℕ
  pub content_checksum : Bool
  pub single_segment : Bool
  pub header_size : ℕ

-- The integer in the `n` bytes from `offset` on.
unfoldable pub le_at : List ℕ → ℕ → ℕ → ℕ
le_at xs offset n = from_le_bytes (take n (drop offset xs))

-- `if data.len() < end { return Err(BadFrameHeader) }`
pub need : {A : Type 0} → List ℕ → ℕ → Result A → Result A
need xs end next = if ltb (length xs) end then err bad_frame_header else next

-- The window size of a descriptor byte.
pub window_of : ℕ → ℕ
window_of window_desc =
    let window_base = 1 <<< (10 + (window_desc >>> 3)) in
    window_base + (window_base >>> 3) * bit_and window_desc 7

-- The window size that the header spells, with the offset behind it.
pub parse_window : List ℕ → Bool → Result (ℕ × ℕ)
parse_window xs single_segment =
    if single_segment then ok (0, 1) else need xs 2 (ok (window_of (get_or xs 1 0), 2))

pub dict_id_size : ℕ → ℕ
dict_id_size flag = if flag == 3 then 4 else flag

pub parse_dict_id : List ℕ → ℕ → ℕ → Result (Option ℕ × ℕ)
parse_dict_id xs flag offset =
    let size = dict_id_size flag in
    let id = le_at xs offset size in
    if size == 0
    then ok (none, offset)
    else need xs (offset + size) (ok (if id == 0 then none else some id, offset + size))

pub fcs_field_size : ℕ → Bool → ℕ
fcs_field_size flag single_segment =
    if flag == 0
    then (if single_segment then 1 else 0)
    else if flag == 1
    then 2
    else if flag == 2
    then 4
    else 8

pub parse_content_size : List ℕ → ℕ → ℕ → Result (Option ℕ × ℕ)
parse_content_size xs size offset =
    let fcs = le_at xs offset size in
    if size == 0
    then ok (none, offset)
    else need xs (offset + size) (ok (some (if size == 2 then fcs + 256 else fcs), offset + size))

-- `unwrap_or(0)`
pub unwrap_or_zero : Option ℕ → ℕ
unwrap_or_zero none = 0
unwrap_or_zero (some n) = n

pub parse_frame_header_after_magic : List ℕ → ℕ → Result FrameHeader
parse_frame_header_after_magic xs magic_size =
    let descriptor = get_or xs 0 0 in
    let single = not (bit_and descriptor 0x20 == 0) in
    if length xs == 0
    then err bad_frame_header
    else if not (bit_and descriptor 0x08 == 0)
    then err bad_frame_header
    else do
      (window, o1) ← parse_window xs single
      (id, o2) ← parse_dict_id xs (bit_and descriptor 3) o1
      (size, o3) ← parse_content_size xs (fcs_field_size (bit_and (descriptor >>> 6) 3) single) o2
      ok (record {
        window_size = if single then unwrap_or_zero size else window;
        frame_content_size = size;
        dict_id = id;
        content_checksum = not (bit_and descriptor 0x04 == 0);
        single_segment = single;
        header_size = o3 + magic_size;
      })

pub parse_frame_header : List ℕ → Result FrameHeader
parse_frame_header xs =
    if ltb (length xs) 4
    then err input_exhausted
    else if not (le_at xs 0 4 == zstd_magic)
    then err bad_magic
    else parse_frame_header_after_magic (drop 4 xs) 4

pub fits_single_segment : ℕ → Bool
fits_single_segment content_size = leb content_size max_window_size

pub frame_window_size : ℕ → ℕ → ℕ
frame_window_size content_size window_log =
    if fits_single_segment content_size then content_size else 1 <<< window_log

pub frame_content_size_field_size : ℕ → Bool → ℕ
frame_content_size_field_size size single_segment =
    if single_segment && leb size 255
    then 1
    else if leb 256 size && leb size 0x100FF
    then 2
    else if leb size 0xFFFFFFFF
    then 4
    else 8

-- `clamp`, then the exponent in the upper five bits.
pub window_descriptor_for_log : ℕ → ℕ
window_descriptor_for_log window_log =
    u8 (min (max window_log window_log_min) window_log_max - 10) <<< 3

pub fcs_flag : ℕ → ℕ
fcs_flag fcs_size =
    if leb fcs_size 1 then 0 else if fcs_size == 2 then 1 else if fcs_size == 4 then 2 else 3

pub dict_id_flag : Option ℕ → ℕ
dict_id_flag none = 0
dict_id_flag (some id) = if leb id 0xFF then 1 else if leb id 0xFFFF then 2 else 3

pub dict_id_bytes : Option ℕ → List ℕ
dict_id_bytes none = []
dict_id_bytes (some id) =
    if leb id 0xFF
    then u8 id ∷ []
    else if leb id 0xFFFF
    then to_le_bytes 2 (u16 id)
    else to_le_bytes 4 id

pub content_size_bytes : ℕ → ℕ → List ℕ
content_size_bytes fcs_size size =
    if fcs_size == 0
    then []
    else if fcs_size == 1
    then u8 size ∷ []
    else if fcs_size == 2
    then to_le_bytes 2 (u16 (size - 256))
    else if fcs_size == 4
    then to_le_bytes 4 (u32 size)
    else to_le_bytes 8 (u64 size)

-- `dict_id.is_none() && content_size.is_some_and(fits_single_segment)`
pub is_single_segment : Option ℕ → Option ℕ → Bool
is_single_segment none (some size) = fits_single_segment size
is_single_segment none none = false
is_single_segment (some id) size = false

-- `content_size.map_or(0, ..)`
pub fcs_size_of : Option ℕ → Bool → ℕ
fcs_size_of none single = 0
fcs_size_of (some size) single = frame_content_size_field_size size single

-- The bytes that `write_frame_header_inner` appends.
pub write_frame_header_inner : Option ℕ → Option ℕ → ℕ → Bool → List ℕ
write_frame_header_inner content_size dict_id window_log content_checksum =
    let single = is_single_segment dict_id content_size in
    let fcs_size = fcs_size_of content_size single in
    let descriptor =
      bit_or
        (bit_or (bit_or (if single then 0x20 else 0) (if content_checksum then 0x04 else 0))
          (fcs_flag fcs_size <<< 6))
        (dict_id_flag dict_id) in
    to_le_bytes 4 zstd_magic
    ++ (descriptor ∷ [])
    ++ (if single then [] else window_descriptor_for_log window_log ∷ [])
    ++ dict_id_bytes dict_id
    ++ content_size_bytes fcs_size (unwrap_or_zero content_size)

pub write_frame_header : ℕ → Option ℕ → ℕ → List ℕ
write_frame_header content_size dict_id window_log =
    write_frame_header_inner (some content_size) dict_id window_log true

pub write_frame_header_with_checksum : ℕ → Option ℕ → ℕ → Bool → List ℕ
write_frame_header_with_checksum content_size dict_id window_log content_checksum =
    write_frame_header_inner (some content_size) dict_id window_log content_checksum

pub write_frame_header_without_content_size : Option ℕ → ℕ → List ℕ
write_frame_header_without_content_size dict_id window_log =
    write_frame_header_inner none dict_id window_log true

pub data BlockType : Type 0 where
  raw rle compressed : BlockType

pub record BlockHeader : Type 0 where
  pub last_block : Bool
  pub block_type : BlockType
  pub block_size : ℕ

unfoldable pub block_type_of : ℕ → Option BlockType
block_type_of bits =
    if bits == 0
    then some raw
    else if bits == 1
    then some rle
    else if bits == 2
    then some compressed
    else none

unfoldable pub parse_block_header : List ℕ → Result BlockHeader
parse_block_header xs =
    let raw_bits = le_at xs 0 3 in
    if ltb (length xs) 3
    then err input_exhausted
    else elim (block_type_of (bit_and (raw_bits >>> 1) 3)) [
      | none ↦ err bad_block_type
      | some t ↦ ok (record {
        last_block = not (bit_and raw_bits 1 == 0);
        block_type = t;
        block_size = raw_bits >>> 3;
      })
    ]

-- The three bytes that the encoder pushes for a header.
pub push_header : ℕ → List ℕ
push_header header = u8 header ∷ u8 (header >>> 8) ∷ u8 (header >>> 16) ∷ []

-- The bytes that `encode_raw_block` appends.
pub encode_raw_block : List ℕ → Bool → List ℕ
encode_raw_block source last =
    let block_size = u32 (length source) in
    push_header (bit_or (u32 (block_size <<< 3)) (if last then 1 else 0)) ++ source
