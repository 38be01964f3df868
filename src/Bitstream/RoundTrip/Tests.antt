-- ===== src/Bitstream/RoundTrip/Tests.antt =====
-- Two fields through both readers.
use zrip.Common.{ℕ, List, [], ◌∷◌, ◌≡◌, ok, some, true, arith}
use zrip.Bitstream.Writer
use zrip.Bitstream.Writer.{BitWriter}
use zrip.Bitstream.Reader
use zrip.Bitstream.Reader.{BitReader}
use zrip.Bitstream.Reverse
use zrip.Bitstream.Reverse.{ReverseBitReader}
use zrip.Bitstream.RoundTrip.{write_fields, read_fields, read_back}
use zrip.Bitstream.RoundTrip.Forward.{values, widths, read_fields-write_fields}
use zrip.Bitstream.RoundTrip.Backward.{backward, read_back-write_fields}

abbrev exact : ℕ → ℕ → ℕ
exact cap n = n

abbrev two_fields : List (ℕ × ℕ)
two_fields = (5, 3) ∷ (300, 20) ∷ []

read_fields-write_fields_example :
    (w : BitWriter) × (r : BitReader) × (write_fields exact (Writer.new exact) two_fields ≡ some w)
    × (read_fields (Reader.new (Writer.into_bytes exact w)) (widths two_fields)
        ≡ ok (values two_fields, r))
    × (Reader.bits_consumed r ≡ 23)
read_fields-write_fields_example =
    read_fields-write_fields exact two_fields
      ((omega arith, omega arith), ((omega arith, omega arith), tt))

read_back-write_fields_example :
    (w w' : BitWriter) × (r r' : ReverseBitReader) × (write_fields exact
        (Writer.new exact)
        (backward two_fields)
      ≡ some w)
    × (Writer.close_reverse_stream exact w ≡ some w')
    × (Reverse.new (Writer.into_bytes exact w') ≡ ok r)
    × (read_back r (widths two_fields) ≡ ok (values two_fields, r'))
    × (Reverse.is_exhausted r' ≡ true)
read_back-write_fields_example =
    read_back-write_fields exact two_fields
      ((omega arith, omega arith), ((omega arith, omega arith), tt))
