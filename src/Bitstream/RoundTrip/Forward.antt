-- ===== src/Bitstream/RoundTrip/Forward.antt =====
-- `BitReader` after `BitWriter`.
use zrip.Common.{ℕ, ◌+◌, ◌*◌, ◌/◌, ◌%◌, ◌^◌, ◌≤◌, ◌≡◌, refl, sym, ap, ap₂, ◌∙◌, arith}
use zrip.Common.{List, [], ◌∷◌, length, All, some, ok}
use zrip.Common.Bytes.{from_le_bytes}
use zrip.Common.Powers.{add-mul_pow_fields, div-div_pow, pow-add}
use native.Mathlib.Nat.{div-one}
use zrip.Bitstream.Writer
use zrip.Bitstream.Writer.{BitWriter}
use zrip.Bitstream.Writer.Write.{new_lem}
use zrip.Bitstream.Writer.Flush.{into_bytes_lem}
use zrip.Bitstream.Reader
use zrip.Bitstream.Reader.{BitReader, bits_consumed, read_bits}
use zrip.Bitstream.Reader.Fields.{IsValid, number, read_bits-ok}
use zrip.Bitstream.RoundTrip.{write_fields, read_fields}
use zrip.Bitstream.RoundTrip.Laws.{Fits, total_width, packed, write_fields_lem}

abbrev pub values : List (ℕ × ℕ) → List ℕ
values [] = []
values ((v, n) ∷ fs) = v ∷ values fs

abbrev pub widths : List (ℕ × ℕ) → List ℕ
widths [] = []
widths ((v, n) ∷ fs) = n ∷ widths fs

-- Where the number shifted down to the position starts with the packed fields, they are read.
read_fields-packed :
    (r : BitReader) (fs : List (ℕ × ℕ)) (rest : ℕ)
    → IsValid r
    → All Fits fs
    → bits_consumed r + total_width fs ≤ 8 * length r.source
    → number r / 2 ^ bits_consumed r ≡ packed fs + rest * 2 ^ total_width fs
    → (r' : BitReader) × (read_fields r (widths fs) ≡ ok (values fs, r'))
      × (bits_consumed r' ≡ bits_consumed r + total_width fs)
unfolding read_fields
read_fields-packed r [] rest h fits room e = (r, refl, omega arith)
read_fields-packed r ((v, n) ∷ fs) rest h ((hn, hv), fits) room e =
    let (r1, e1, s1, c1, v1) = read_bits-ok r n h hn (omega arith) in
    let whole : number r / 2 ^ bits_consumed r
        ≡ v + (packed fs + rest * 2 ^ total_width fs) * 2 ^ n =
      omega (arith, e, ap (λ (t : ℕ). rest * t) (pow-add n (total_width fs))) in
    let (high, low) = add-mul_pow_fields n v (packed fs + rest * 2 ^ total_width fs) hv in
    let shifted : number r1 / 2 ^ bits_consumed r1 ≡ packed fs + rest * 2 ^ total_width fs =
      ap₂ (λ (s : List ℕ) (c : ℕ). from_le_bytes s / 2 ^ c) s1 c1
      ∙ sym (div-div_pow (bits_consumed r) n (number r))
      ∙ ap (λ (t : ℕ). t / 2 ^ n) whole
      ∙ high in
    let (r2, e2, c2) =
      read_fields-packed r1 fs rest v1 fits (omega (arith, c1, ap (λ (s : List ℕ). length s) s1))
        shifted in
    (r2, rw (e1, ap (λ (t : ℕ). t % 2 ^ n) whole ∙ low, e2, read_fields), omega (arith, c1, c2))

-- Every sequence of fields of at most 25 bits whose values fit is written without a panic, and
-- reading the bytes with the same widths gives back the values and stops right behind them.
pub read_fields-write_fields :
    (grow : ℕ → ℕ → ℕ) (fs : List (ℕ × ℕ))
    → All Fits fs
    → (w : BitWriter) × (r : BitReader) × (write_fields grow (Writer.new grow) fs ≡ some w)
      × (read_fields (Reader.new (Writer.into_bytes grow w)) (widths fs) ≡ ok (values fs, r))
      × (bits_consumed r ≡ total_width fs)
unfolding Reader.new
read_fields-write_fields grow fs fits =
    let (v0, l0, x0) = new_lem grow in
    let (w, e, v, l, x) = write_fields_lem grow (Writer.new grow) fs v0 fits in
    let (bytes, val, len) = into_bytes_lem grow w v in
    let source : List ℕ = Writer.into_bytes grow w in
    let whole : from_le_bytes source ≡ packed fs =
      omega (arith, val, x, x0, ap (λ (t : ℕ). packed fs * 2 ^ t) l0) in
    let (r, e', c) =
      read_fields-packed (Reader.new source) fs 0
        (record { bytes = bytes; bit_pos_lt = omega arith; inside = omega arith }) fits
        (omega (arith, len, l, l0)) (div-one (from_le_bytes source) ∙ omega (arith, whole)) in
    (w, r, e, e', omega (arith, c))
