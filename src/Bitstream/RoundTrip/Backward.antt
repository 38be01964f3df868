-- ===== src/Bitstream/RoundTrip/Backward.antt =====
-- `ReverseBitReader` after `BitWriter`.
use zrip.Common.{ℕ, suc, ◌+◌, ◌-◌, ◌*◌, ◌/◌, ◌%◌, ◌^◌, ◌≤◌, ◌<◌, ◌≡◌, refl, ap, ◌∙◌, arith}
use zrip.Common.{List, [], ◌∷◌, ◌++◌, length, All, some, ok, true, inl, inr}
use zrip.Common.{All-append, All-take, length-take, take, ltb, ltb→lt, ltb→ge, Bool-cases}
use mathlib.Core.Option
use zrip.Common.Bytes.{IsByte, IsBytes, from_le_bytes, from_le_bytes-lt_pow}
use zrip.Common.Powers.{pow_cong, add-mul_pow_fields, pow-add, pow_mono, pow_pos, top_bit_unique}
use zrip.Bitstream.Writer
use zrip.Bitstream.Writer.{BitWriter, write_bits, close_reverse_stream}
use zrip.Bitstream.Writer.Write.{new_lem, write_bits-Extends}
use zrip.Bitstream.Writer.Value.{bit_len}
use zrip.Bitstream.Writer.Flush.{into_bytes_lem, flush_remaining-IsValid}
use zrip.Bitstream.Reverse
use zrip.Bitstream.Reverse.{ReverseBitReader, read_bits, bits_remaining, is_exhausted}
use zrip.Bitstream.Reverse.Fields.{IsValid, number, read_bits-ok}
use zrip.Bitstream.Reverse.Open.{new-Opened, last_byte, last_byte_split}
use zrip.Bitstream.RoundTrip.{write_fields, read_back}
use zrip.Bitstream.RoundTrip.Laws.{Fits, total_width, packed, write_fields_lem}
use zrip.Bitstream.RoundTrip.Forward.{values, widths}

-- The fields in the opposite order.
abbrev pub backward : List (ℕ × ℕ) → List (ℕ × ℕ)
backward [] = []
backward (f ∷ fs) = backward fs ++ (f ∷ [])

-- The first field highest.
abbrev stacked : List (ℕ × ℕ) → ℕ
stacked [] = 0
stacked ((v, n) ∷ fs) = v * 2 ^ total_width fs + stacked fs

stacked-lt : (fs : List (ℕ × ℕ)) → All Fits fs → stacked fs < 2 ^ total_width fs
stacked-lt [] h = omega arith
stacked-lt ((v, n) ∷ fs) ((hn, hv), fits) =
    let ih = stacked-lt fs fits in
    let e = pow-add n (total_width fs) in
    let top : v * 2 ^ total_width fs + 2 ^ total_width fs ≤ 2 ^ n * 2 ^ total_width fs =
      grind (arith, pow_pos (total_width fs)) in
    omega arith

total_width-append :
    (fs gs : List (ℕ × ℕ)) → total_width (fs ++ gs) ≡ total_width fs + total_width gs
total_width-append [] gs = omega arith
total_width-append ((v, n) ∷ fs) gs = omega (arith, total_width-append fs gs)

packed-append :
    (fs gs : List (ℕ × ℕ)) → packed (fs ++ gs) ≡ packed fs + packed gs * 2 ^ total_width fs
packed-append [] gs = omega arith
packed-append ((v, n) ∷ fs) gs = omega (
  arith,
  ap (λ (t : ℕ). t * 2 ^ n) (packed-append fs gs),
  ap (λ (t : ℕ). packed gs * t) (pow-add n (total_width fs)),
)

packed-backward :
    (fs : List (ℕ × ℕ))
    → (packed (backward fs) ≡ stacked fs) × (total_width (backward fs) ≡ total_width fs)
packed-backward [] = (refl, refl)
packed-backward ((v, n) ∷ fs) =
    let (p, w) = packed-backward fs in
    (
      packed-append (backward fs) ((v, n) ∷ []) ∙ omega (arith, p, ap (λ (t : ℕ). v * 2 ^ t) w),
      total_width-append (backward fs) ((v, n) ∷ []) ∙ omega (arith, w),
    )

read_back-step :
    (r r1 r2 : ReverseBitReader) (v n : ℕ) (ns vs : List ℕ)
    → read_bits r n ≡ ok (v, r1)
    → read_back r1 ns ≡ ok (vs, r2)
    → read_back r (n ∷ ns) ≡ ok (v ∷ vs, r2)
unfolding read_back
read_back-step r r1 r2 v n ns vs e1 e2 = rw (e1, e2, read_back)

-- A reader whose remaining bits are the stacked fields, under some higher bits, reads them.
read_back-stacked :
    (r : ReverseBitReader) (fs : List (ℕ × ℕ)) (rest : ℕ)
    → IsValid r
    → All Fits fs
    → bits_remaining r ≡ total_width fs
    → number r ≡ rest * 2 ^ total_width fs + stacked fs
    → (r' : ReverseBitReader) × (read_back r (widths fs) ≡ ok (values fs, r'))
      × (bits_remaining r' ≡ 0)
      × IsValid r'
unfolding read_back
read_back-stacked r [] rest h fits left e = (r, refl, left, h)
read_back-stacked r ((v, n) ∷ fs) rest h ((hn, hv), fits) left e =
    let m : ℕ = total_width fs in
    let (r1, e1, s1, c1, v1) = read_bits-ok r n h (omega arith) (omega arith) in
    let (hi, lo) = add-mul_pow_fields m (stacked fs) (v + rest * 2 ^ n) (stacked-lt fs fits) in
    let (hi', lo') = add-mul_pow_fields n v rest hv in
    let split : number r ≡ stacked fs + (v + rest * 2 ^ n) * 2 ^ m =
      omega (arith, e, ap (λ (t : ℕ). rest * t) (pow-add n m)) in
    let field : number r / 2 ^ (bits_remaining r - n) % 2 ^ n ≡ v =
      ap (λ (t : ℕ). number r / t % 2 ^ n) (pow_cong (bits_remaining r - n) m (omega (arith, left)))
      ∙ ap (λ (t : ℕ). t / 2 ^ m % 2 ^ n) split
      ∙ ap (λ (t : ℕ). t % 2 ^ n) hi
      ∙ lo' in
    let (r2, e2, c2, v2) =
      read_back-stacked r1 fs (v + rest * 2 ^ n) v1 fits (omega (arith, c1, left))
        (ap from_le_bytes s1 ∙ omega (arith, split)) in
    let first : read_bits r n ≡ ok (v, r1) = e1 ∙ ap (λ (t : ℕ). ok (t, r1)) field in
    (r2, read_back-step r r1 r2 v n (widths fs) (values fs) first e2, c2, v2)

-- The bytes of a number that needs all of them do not end in zero.
last_byte-pos :
    (xs : List ℕ) (len : ℕ)
    → IsBytes xs
    → length xs ≡ (len + 1 + 7) / 8
    → 2 ^ len ≤ from_le_bytes xs
    → (0 < length xs) × (0 < last_byte xs)
last_byte-pos xs len h e ge =
    let n : ℕ = length xs - 1 in
    let (lt, split) = last_byte_split n xs (omega arith) h in
    let low : from_le_bytes (take n xs) < 2 ^ (8 * n) = omega (
      arith,
      from_le_bytes-lt_pow (take n xs) (All-take IsByte n xs h),
      pow_cong (8 * length (take n xs)) (8 * n) (omega (arith, length-take n xs)),
    ) in
    let fits : 2 ^ (8 * n) ≤ 2 ^ len = pow_mono (8 * n) len (omega arith) in
    let some_byte : 0 < 2 ^ (8 * n) * last_byte xs = omega (arith, split) in
    (
      omega arith,
      elim (Bool-cases (ltb 0 (last_byte xs))) [
        | inl t ↦ ltb→lt 0 (last_byte xs) t
        | inr f ↦ absurd (
            omega (
              arith,
              some_byte,
              ap (λ (t : ℕ). 2 ^ (8 * n) * t)
                  (let z : last_byte xs ≡ 0 = omega (arith, ltb→ge 0 (last_byte xs) f) in z),
            ))
      ],
    )

exhausted : (r : ReverseBitReader) → IsValid r → bits_remaining r ≡ 0 → is_exhausted r ≡ true
unfolding is_exhausted
exhausted r h z =
    let (a, b) =
      let q : (r.ptr ≡ 0) × (r.bits_consumed ≡ 64) = (omega arith, omega (arith, h.consumed_le)) in
      q in
    ground arith

backward-Fits : (fs : List (ℕ × ℕ)) → All Fits fs → All Fits (backward fs)
backward-Fits [] h = h
backward-Fits (f ∷ fs) (h, hs) =
    All-append Fits (backward fs) (f ∷ []) (backward-Fits fs hs) (h, tt)

-- Every sequence of fields of at most 25 bits whose values fit, written in the opposite order and
-- closed by `close_reverse_stream`, is written without a panic, and the bytes are opened by
-- `ReverseBitReader::new`: reading the widths in order gives back the values, and then the stream
-- is exhausted.
pub read_back-write_fields :
    (grow : ℕ → ℕ → ℕ) (fs : List (ℕ × ℕ))
    → All Fits fs
    → (w w' : BitWriter) × (r r' : ReverseBitReader) × (write_fields grow
          (Writer.new grow)
          (backward fs)
        ≡ some w)
      × (close_reverse_stream grow w ≡ some w')
      × (Reverse.new (Writer.into_bytes grow w') ≡ ok r)
      × (read_back r (widths fs) ≡ ok (values fs, r'))
      × (is_exhausted r' ≡ true)
unfolding close_reverse_stream
read_back-write_fields grow fs fits =
    let (v0, l0, x0) = new_lem grow in
    let (p, b) = packed-backward fs in
    let (w, e, v, l, x) =
      write_fields_lem grow (Writer.new grow) (backward fs) v0 (backward-Fits fs fits) in
    let (w1, e1, v1, (l1, x1)) = write_bits-Extends grow w 1 1 v (omega arith) (omega arith) in
    let (v2, x2, l2) = flush_remaining-IsValid grow w1 v1 in
    let w' : BitWriter = Writer.flush_remaining grow w1 in
    let (bytes, val, len) = into_bytes_lem grow w' v2 in
    let source : List ℕ = Writer.into_bytes grow w' in
    let m : ℕ = total_width fs in
    let whole : from_le_bytes source ≡ 1 * 2 ^ m + stacked fs = omega (
      arith,
      val,
      x2,
      x1,
      x,
      x0,
      p,
      ap (λ (t : ℕ). packed (backward fs) * 2 ^ t) l0,
      pow_cong (bit_len w) m (omega (arith, l, l0, b)),
    ) in
    let (ne, nz) =
      last_byte-pos source m bytes (omega (arith, len, l2, l1, l, l0, b)) (omega (arith, whole)) in
    let (r, e3, o) = new-Opened source bytes ne nz in
    let left : bits_remaining r ≡ m =
      top_bit_unique (bits_remaining r) m (from_le_bytes source) o.marker_le o.marker_gt
        (omega (arith, whole))
        (omega (
          arith,
          whole,
          stacked-lt fs fits,
          pow-add 1 m,
          pow_cong (suc m) (1 + m) (omega arith),
        )) in
    let (r', e4, z, v4) =
      read_back-stacked r fs 1 o.valid fits left (ap from_le_bytes o.same ∙ whole) in
    (w, w', r, r', e, ap (Option.map (Writer.flush_remaining grow)) e1, e3, e4, exhausted r' v4 z)
