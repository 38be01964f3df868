-- ===== src/Frame.antt =====
-- crates/decode/src/lib.rs: skippable frames, and the output limit, the raw and the RLE blocks, the
-- checksum and the declared size of `decompress_frame_with_header`. Its loop is the relation of
-- Frame/Run, for blocks of these two types.
pub mod Run
pub mod Checksum
mod Tests
use zrip.Common.{
  ℕ, zero, suc, ◌+◌, ◌-◌, ◌*◌, ◌%◌, ◌^◌, min, bit_and, Bool, true, false, not, ◌&&◌, ◌||◌,
}
use zrip.Common.{List, [], ◌∷◌, ◌++◌, length, get_or, take, drop, replicate, Option, none, some}
use zrip.Common.{leb, ltb, ◌==◌, if◌then◌else◌, Result, ok, err, ◌>>=◌, DecompressError}
use zrip.Common.{
  input_exhausted, block_too_large, output_too_small, frame_size_mismatch, dict_required,
}
use zrip.Common.{dict_mismatch, window_too_large, checksum_mismatch}
use zrip.Header.{FrameHeader, BlockType, BlockHeader, parse_block_header, le_at, max_window_size}
use zrip.Header.{raw, rle, compressed}
use zrip.Xxhash.{Xxh64State}
use zrip.Xxhash

abbrev pub max_block_size : ℕ
max_block_size = 131072

-- How long a skippable frame at the start of the input is.
unfoldable pub skip_skippable_frame : List ℕ → Option ℕ
skip_skippable_frame xs =
    let total = 8 + le_at xs 4 4 in
    if ltb (length xs) 8
    then none
    else if not (bit_and (le_at xs 0 4) 0xFFFFFFF0 == 0x184D2A50)
    then none
    else if ltb (length xs) total
    then none
    else some total

-- The output never shrinks, so that the first subtraction is exact.
unfoldable pub remaining_output_limit : ℕ → ℕ → ℕ → Result ℕ
remaining_output_limit output_len output_start max_output =
    let written = output_len - output_start in
    if ltb max_output written then err output_too_small else ok (max_output - written)

-- The output limit of a frame, and the error for output past it.
unfoldable pub frame_limit : Option ℕ → ℕ → Result (ℕ × DecompressError)
frame_limit none max_output = ok (max_output, output_too_small)
frame_limit (some fcs) max_output =
    if ltb max_output fcs then err output_too_small else ok (fcs, frame_size_mismatch)

-- Whether the dictionary is the one that the frame names.
unfoldable pub check_dict : Option ℕ → Option ℕ → Result Bool
check_dict none dict = ok true
check_dict (some frame_dict_id) none = err dict_required
check_dict (some frame_dict_id) (some id) =
    if id == frame_dict_id then ok true else err (dict_mismatch frame_dict_id id)

-- The variables of the block loop.
pub record Frame : Type 0 where
  pub offset : ℕ
  pub output : List ℕ
  pub hasher : Option Xxh64State

-- Those before it.
unfoldable pub open_frame : FrameHeader → List ℕ → Frame
open_frame header output = record {
  offset = header.header_size;
  output = output;
  hasher = if header.content_checksum then some (zrip.Xxhash.new 0) else none;
}

-- A raw block, behind its header: the offset behind the block, and the output.
unfoldable pub raw_block : List ℕ → ℕ → ℕ → DecompressError → ℕ → ℕ → List ℕ → Result (ℕ × List ℕ)
raw_block input output_start max_output overrun block_size offset output =
    if ltb max_block_size block_size
    then err block_too_large
    else if ltb (length input) (offset + block_size)
    then err input_exhausted
    else if ltb max_output (length output - output_start + block_size)
    then err overrun
    else ok (offset + block_size, output ++ take block_size (drop offset input))

-- An RLE block.
unfoldable pub rle_block : List ℕ → ℕ → ℕ → DecompressError → ℕ → ℕ → List ℕ → Result (ℕ × List ℕ)
rle_block input output_start max_output overrun block_size offset output =
    if ltb max_block_size block_size
    then err block_too_large
    else if leb (length input) offset
    then err input_exhausted
    else if ltb max_output (length output - output_start + block_size)
    then err overrun
    else ok (offset + 1, output ++ replicate block_size (get_or input offset 0))

-- The hasher after a block's output.
unfoldable pub hash_block : Option Xxh64State → List ℕ → Option Xxh64State
hash_block none xs = none
hash_block (some h) xs = some (zrip.Xxhash.update h xs)

-- The variables behind a block.
unfoldable pub behind_block : Frame → ℕ × List ℕ → Frame
behind_block f p = record {
  offset = p.0;
  output = p.1;
  hasher = hash_block f.hasher (drop (length f.output) p.1);
}

-- The content checksum behind the last block: the offset behind it.
unfoldable pub check_content : List ℕ → Frame → Result ℕ
check_content input f = elim f.hasher [
  | none ↦ ok f.offset
  | some h ↦
      (let expected = zrip.Xxhash.finish h % 2 ^ 32 in
        let stored = le_at input f.offset 4 in
        if ltb (length input) (f.offset + 4)
        then err input_exhausted
        else if not (expected == stored)
        then err (checksum_mismatch stored expected)
        else ok (f.offset + 4))
]

-- The declared content size against what was written.
unfoldable pub check_size : Option ℕ → ℕ → Result Bool
check_size none written = ok true
check_size (some fcs) written = if not (written == fcs) then err frame_size_mismatch else ok true
