-- ===== src/Header/Tests.antt =====
-- Headers of concrete frames and blocks.
use zrip.Common.{
  ◌+◌, ◌*◌, ◌≤◌, ◌≡◌, refl, arith, true, false, [], ◌∷◌, ◌++◌, length, drop, none, some, ok,
}
use zrip.Header.{
  FrameHeader, parse_frame_header, write_frame_header_inner, parse_block_header, encode_raw_block,
}
use zrip.Header.{raw, compressed, push_header, le_at, parse_frame_header_after_magic, parse_window}
use zrip.Header.{
  parse_dict_id, dict_id_size, fcs_field_size, parse_content_size, need, unwrap_or_zero,
}
use zrip.Header.Frame.{header_of, parse_frame_header-write_frame_header_inner}
use zrip.Header.Bounds.{parse_frame_header-le}
use zrip.Header.Block.{parse_block_header-push_header, parse_block_header-encode_raw_block}

-- A frame of 1000 bytes with a dictionary, and a byte behind its header.
parse_frame_header-write_frame_header_inner_example :
    parse_frame_header (write_frame_header_inner (some 1000) (some 77) 20 true ++ (9 ∷ []))
    ≡ ok (
        header_of
          (some 1000)
          (some 77)
          20
          true
          (length (write_frame_header_inner (some 1000) (some 77) 20 true)))
parse_frame_header-write_frame_header_inner_example =
    parse_frame_header-write_frame_header_inner (some 1000) (some 77) 20 true (9 ∷ []) (omega arith)
      (omega arith, omega arith)

abbrev small_header : FrameHeader
small_header = record {
  window_size = 0;
  frame_content_size = some 0;
  dict_id = none;
  content_checksum = false;
  single_segment = true;
  header_size = 6;
}

small_header_parsed :
    parse_frame_header (0x28 ∷ 0xB5 ∷ 0x2F ∷ 0xFD ∷ 0x20 ∷ 0 ∷ []) ≡ ok small_header
unfolding parse_frame_header parse_frame_header_after_magic le_at parse_window parse_dict_id
    dict_id_size fcs_field_size parse_content_size need unwrap_or_zero
small_header_parsed = refl

parse_frame_header-le_example : 6 ≤ 6
parse_frame_header-le_example =
    parse_frame_header-le (0x28 ∷ 0xB5 ∷ 0x2F ∷ 0xFD ∷ 0x20 ∷ 0 ∷ []) small_header
      small_header_parsed

parse_block_header-push_header_example :
    parse_block_header (push_header (5 * 8 + 2 * 2 + 1) ++ (7 ∷ []))
    ≡ ok (record { last_block = true; block_type = compressed; block_size = 5 })
parse_block_header-push_header_example =
    parse_block_header-push_header true compressed 5 (7 ∷ []) (omega arith)

parse_block_header-encode_raw_block_example :
    (parse_block_header (encode_raw_block (1 ∷ 2 ∷ []) false ++ [])
      ≡ ok (record { last_block = false; block_type = raw; block_size = 2 }))
    × (drop 3 (encode_raw_block (1 ∷ 2 ∷ []) false ++ []) ≡ 1 ∷ 2 ∷ [])
parse_block_header-encode_raw_block_example =
    parse_block_header-encode_raw_block (1 ∷ 2 ∷ []) [] false (omega arith)
