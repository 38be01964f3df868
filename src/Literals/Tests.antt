-- ===== src/Literals/Tests.antt =====
-- Headers of concrete literals sections.
use zrip.Common.{◌≡◌, arith, true, [], ◌∷◌, ◌++◌, length, ok}
use zrip.Literals.{parse_raw_rle_header, encode_raw_literals_header, block_type_of, at, raw}
use zrip.Literals.{parse_compressed_header, encode_huf_literals_header}
use zrip.Literals.RoundTrip.{parse_raw_rle_header-encode_raw_literals_header}
use zrip.Literals.RoundTrip.{parse_compressed_header-encode_huf_literals_header}

parse_raw_rle_header-encode_raw_literals_header_example :
    (parse_raw_rle_header (encode_raw_literals_header 5000 ++ (1 ∷ []))
      ≡ ok (5000, length (encode_raw_literals_header 5000)))
    × (block_type_of (at (encode_raw_literals_header 5000) 0) ≡ raw)
parse_raw_rle_header-encode_raw_literals_header_example =
    parse_raw_rle_header-encode_raw_literals_header 5000 (1 ∷ []) (omega arith)

parse_compressed_header-encode_huf_literals_header_example :
    parse_compressed_header (encode_huf_literals_header 2 2000 900 true ++ [])
    ≡ ok (record {
      regen_size = 2000;
      comp_size = 900;
      streams = 4;
      header_size = length (encode_huf_literals_header 2 2000 900 true);
    })
parse_compressed_header-encode_huf_literals_header_example =
    parse_compressed_header-encode_huf_literals_header 2 2000 900 true [] (omega arith)
      (omega arith) (omega arith)
