-- ===== src/Bitstream/RoundTrip.antt =====
-- `BitWriter` and the two readers, one after the other. A field is a value and its width.
mod Laws
use zrip.Common.{ℕ, List, [], ◌∷◌, Option, none, some, Result, ok, err, ◌>>=◌}
use zrip.Bitstream.Writer
use zrip.Bitstream.Writer.{BitWriter}
use zrip.Bitstream.Reader
use zrip.Bitstream.Reader.{BitReader}
use zrip.Bitstream.Reverse
use zrip.Bitstream.Reverse.{ReverseBitReader}
pub mod Forward
pub mod Backward
mod Tests

-- A sequence of calls of `write_bits`.
pub write_fields : (ℕ → ℕ → ℕ) → BitWriter → List (ℕ × ℕ) → Option BitWriter
write_fields grow w [] = some w
write_fields grow w ((v, n) ∷ fs) = elim (Writer.write_bits grow w v n) [
  | none ↦ none
  | some w' ↦ write_fields grow w' fs
]

-- A sequence of calls of `BitReader::read_bits` with the given widths.
pub read_fields : BitReader → List ℕ → Result (List ℕ × BitReader)
read_fields r [] = ok ([], r)
read_fields r (n ∷ ns) = do
  (v, r1) ← Reader.read_bits r n
  (vs, r2) ← read_fields r1 ns
  ok (v ∷ vs, r2)

-- A sequence of calls of `ReverseBitReader::read_bits`.
pub read_back : ReverseBitReader → List ℕ → Result (List ℕ × ReverseBitReader)
read_back r [] = ok ([], r)
read_back r (n ∷ ns) = do
  (v, r1) ← Reverse.read_bits r n
  (vs, r2) ← read_back r1 ns
  ok (v ∷ vs, r2)
