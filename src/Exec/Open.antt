-- ===== src/Exec/Open.antt =====
-- `SeqBits::new` and `ReverseBitReader::new` on the same input.
use zrip.Common.{ℕ, ◌+◌, ◌-◌, ◌*◌, ◌<◌, ◌≡◌, arith, List, length, some, ok}
use zrip.Common.Words.{leading_zeros}
use zrip.Common.Bytes.{IsBytes}
use zrip.Bitstream.Reverse
use zrip.Bitstream.Reverse.{ReverseBitReader, bits_remaining}
use zrip.Bitstream.Reverse.Open.{last_byte, new-Opened}
use zrip.Exec.{SeqBits, new}

-- On an input whose last byte is not zero both readers open, with the same number of unread bits.
pub new-same :
    (source : List ℕ)
    → IsBytes source
    → 0 < length source
    → 0 < last_byte source
    → (b : SeqBits) × (r : ReverseBitReader) × (new source ≡ some b)
      × (Reverse.new source ≡ ok r)
      × (b.left ≡ bits_remaining r)
unfolding new
new-same source h ne nz =
    let (r, e, o) = new-Opened source h ne nz in
    (
      record { left = length source * 8 - (leading_zeros 8 (last_byte source) + 1) },
      r,
      ground arith,
      e,
      omega (arith, o.marker_at),
    )
