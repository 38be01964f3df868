-- ===== src/Frame/Tests.antt =====
-- A frame of a raw and an RLE block with a checksum.
use zrip.Common.{
  ℕ, ◌+◌, ◌%◌, ◌^◌, ◌≤◌, ◌≡◌, refl, arith, true, false, List, [], ◌∷◌, ◌++◌, length, none,
}
use zrip.Common.{some, ok, frame_size_mismatch}
use zrip.Header.{FrameHeader, BlockHeader, raw, rle, parse_block_header, block_type_of, le_at}
use zrip.Frame.{Frame, open_frame, raw_block, rle_block, behind_block, hash_block, check_content}
use zrip.Frame.Run.{raw_decoded, rle_decoded, Reached, opened, block}
use zrip.Frame.Run.{Reached-bounded}
use zrip.Frame.Checksum.{check_content-xxh64}
use zrip.Xxhash.{xxh64}

abbrev header : FrameHeader
header = record {
  window_size = 7;
  frame_content_size = some 7;
  dict_id = none;
  content_checksum = true;
  single_segment = true;
  header_size = 6;
}

-- A raw block of 2 bytes, a last RLE block of 5, and the checksum.
abbrev frame : List ℕ
frame =
    40 ∷ 181 ∷ 47 ∷ 253 ∷ 36 ∷ 7 ∷ 16 ∷ 0 ∷ 0 ∷ 1 ∷ 2 ∷ 43 ∷ 0 ∷ 0 ∷ 7 ∷ 47 ∷ 214 ∷ 231 ∷ 219 ∷ []

abbrev first_header : BlockHeader
first_header = record { last_block = false; block_type = raw; block_size = 2 }

abbrev last_header : BlockHeader
last_header = record { last_block = true; block_type = rle; block_size = 5 }

abbrev first_end : ℕ × List ℕ
first_end = (11, 1 ∷ 2 ∷ [])

abbrev last_end : ℕ × List ℕ
last_end = (15, 1 ∷ 2 ∷ 7 ∷ 7 ∷ 7 ∷ 7 ∷ 7 ∷ [])

abbrev before : Frame
before = open_frame header []

abbrev between : Frame
between = behind_block before first_end

abbrev behind : Frame
behind = behind_block between last_end

first_reached : Reached frame [] header 7 frame_size_mismatch between false
unfolding open_frame parse_block_header block_type_of le_at raw_block
first_reached =
    block before first_header first_end opened (omega arith) refl
      (raw_decoded 2 9 [] first_end refl)

last_reached : Reached frame [] header 7 frame_size_mismatch behind true
unfolding open_frame behind_block parse_block_header block_type_of le_at rle_block
last_reached =
    block between last_header last_end first_reached (omega arith) refl
      (rle_decoded 5 14 (1 ∷ 2 ∷ []) last_end refl)

Reached-bounded_example :
    (written : List ℕ) × (behind.output ≡ [] ++ written)
    × (length written ≤ 7)
    × (behind.offset ≤ 19)
Reached-bounded_example =
    Reached-bounded frame [] header 7 frame_size_mismatch behind true (omega arith) last_reached

checked : check_content frame behind ≡ ok 19
unfolding check_content behind_block open_frame hash_block le_at zrip.Xxhash.new zrip.Xxhash.update
    zrip.Xxhash.absorb zrip.Xxhash.keep_rest zrip.Xxhash.finish zrip.Xxhash.finish_eights
    zrip.Xxhash.finish_fours zrip.Xxhash.finish_ones zrip.Xxhash.four_step zrip.Xxhash.one_step
    zrip.Xxhash.avalanche zrip.Xxhash.read_u32_le zrip.Common.copy_from_slice
checked = refl

check_content-xxh64_example :
    (written : List ℕ) × (behind.output ≡ [] ++ written)
    × (le_at frame behind.offset 4 ≡ xxh64 written 0 % 2 ^ 32)
    × (19 ≡ behind.offset + 4)
    × (19 ≤ 19)
check_content-xxh64_example =
    check_content-xxh64 frame [] header 7 frame_size_mismatch behind 19 (omega arith) refl
      last_reached checked
