-- ===== src/Bitstream/RoundTrip/Laws.antt =====
-- A sequence of fields as one number, and what writing it does to a writer.
use zrip.Common.{ℕ, ◌+◌, ◌*◌, ◌^◌, ◌≤◌, ◌<◌, ◌≡◌, refl, ap, arith}
use zrip.Common.{List, [], ◌∷◌, All, some}
use zrip.Common.Powers.{pow-add}
use zrip.Bitstream.Writer.{BitWriter}
use zrip.Bitstream.Writer.Value.{IsValid, bit_len, value}
use zrip.Bitstream.Writer.Write.{write_bits-Extends}
use zrip.Bitstream.RoundTrip.{write_fields}

-- At most 25 bits, and the value fits.
abbrev pub Fits : ℕ × ℕ → Type 0
Fits f = (f.1 ≤ 25) × (f.0 < 2 ^ f.1)

abbrev pub total_width : List (ℕ × ℕ) → ℕ
total_width [] = 0
total_width ((v, n) ∷ fs) = n + total_width fs

-- The first field lowest.
abbrev pub packed : List (ℕ × ℕ) → ℕ
packed [] = 0
packed ((v, n) ∷ fs) = v + packed fs * 2 ^ n

pub write_fields_lem :
    (grow : ℕ → ℕ → ℕ) (w : BitWriter) (fs : List (ℕ × ℕ))
    → IsValid w
    → All Fits fs
    → (w' : BitWriter) × (write_fields grow w fs ≡ some w')
      × IsValid w'
      × (bit_len w' ≡ bit_len w + total_width fs)
      × (value w' ≡ value w + packed fs * 2 ^ bit_len w)
unfolding write_fields
write_fields_lem grow w [] h fits = (w, refl, h, omega arith, omega arith)
write_fields_lem grow w ((v, n) ∷ fs) h ((hn, hv), fits) =
    let (w1, e1, v1, (l1, x1)) = write_bits-Extends grow w v n h hn hv in
    let (w2, e2, v2, l2, x2) = write_fields_lem grow w1 fs v1 fits in
    (
      w2,
      rw (e1, write_fields) e2,
      v2,
      omega (arith, l1, l2),
      omega (
        arith,
        x1,
        x2,
        ap (λ (t : ℕ). packed fs * 2 ^ t) l1,
        ap (λ (t : ℕ). packed fs * t) (pow-add (bit_len w) n),
      ),
    )
