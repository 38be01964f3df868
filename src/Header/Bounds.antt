-- ===== src/Header/Bounds.antt =====
-- How far the frame header parser reads.
use zrip.Common.{ℕ, ◌+◌, ◌≤◌, ◌<◌, ◌≡◌, ap, arith, Bool, true, false, not}
use zrip.Common.{List, length, drop, length-drop, Option, Result, ok, err, >>=-ok, ltb, ltb→ge}
use zrip.Common.{Bool-cases, inl, inr, ◌==◌, if◌then◌else◌, bit_and, get_or}
use zrip.Common.Words.{◌>>>◌}
use zrip.Header.{FrameHeader, need, parse_window, parse_dict_id, parse_content_size, fcs_field_size}
use zrip.Header.{parse_frame_header_after_magic, parse_frame_header, le_at, zstd_magic}

ok-inj : {A : Type 0} (f : A → ℕ) (a b : A) → ok a ≡ ok b → f a ≡ f b
ok-inj f a b e = ap (λ r. elim r [ ok x ↦ f x | err x ↦ 0 ]) e

need-inv :
    {A : Type 0} (xs : List ℕ) (end : ℕ) (next : Result A) (a : A)
    → need xs end next ≡ ok a
    → (end ≤ length xs) × (next ≡ ok a)
unfolding need
need-inv xs end next a e = ground arith

parse_window-le :
    (xs : List ℕ) (s : Bool) (w o : ℕ)
    → 0 < length xs
    → parse_window xs s ≡ ok (w, o)
    → o ≤ length xs
unfolding parse_window
parse_window-le xs true w o h e = omega (arith, ok-inj (λ (p : ℕ × ℕ). p.1) _ _ e)
parse_window-le xs false w o h e =
    let (room, q) = need-inv xs 2 _ (w, o) e in omega (arith, ok-inj (λ (p : ℕ × ℕ). p.1) _ _ q)

-- A field that is there or not.
field-le :
    (b : Bool) (xs : List ℕ) (o end o' : ℕ) (x y r : Option ℕ)
    → o ≤ length xs
    → if◌then◌else◌ {A = Result (Option ℕ × ℕ)} b (ok (x, o)) (need xs end (ok (y, end)))
      ≡ ok (r, o')
    → o' ≤ length xs
field-le true xs o end o' x y r h e = omega (arith, ok-inj (λ (p : Option ℕ × ℕ). p.1) _ _ e)
field-le false xs o end o' x y r h e =
    let (room, q) = need-inv xs end _ (r, o') e in
    omega (arith, ok-inj (λ (p : Option ℕ × ℕ). p.1) _ _ q)

parse_dict_id-le :
    (xs : List ℕ) (flag o o' : ℕ) (id : Option ℕ)
    → o ≤ length xs
    → parse_dict_id xs flag o ≡ ok (id, o')
    → o' ≤ length xs
unfolding parse_dict_id
parse_dict_id-le xs flag o o' id h e = field-le _ xs o _ o' _ _ id h e

parse_content_size-le :
    (xs : List ℕ) (size o o' : ℕ) (v : Option ℕ)
    → o ≤ length xs
    → parse_content_size xs size o ≡ ok (v, o')
    → o' ≤ length xs
unfolding parse_content_size
parse_content_size-le xs size o o' v h e = field-le _ xs o _ o' _ _ v h e

body-le :
    (xs : List ℕ) (m : ℕ) (h : FrameHeader)
    → parse_frame_header_after_magic xs m ≡ ok h
    → h.header_size ≤ length xs + m
unfolding parse_frame_header_after_magic
body-le xs m h e = elim (Bool-cases (length xs == 0)) [
  | inl z ↦ absurd (ground arith)
  | inr z ↦ elim (Bool-cases (not (bit_and (get_or xs 0 0) 0x08 == 0))) [
    | inl d ↦ absurd (ground arith)
    | inr d ↦
        let full : 0 < length xs = ground arith in
        let single : Bool = not (bit_and (get_or xs 0 0) 0x20 == 0) in
        let size_of : ℕ = fcs_field_size (bit_and (get_or xs 0 0 >>> 6) 3) single in
        let (a, e1, f1) = >>=-ok (parse_window xs single) _ h (rw (z, d) at e) in
        let (b, e2, f2) = >>=-ok (parse_dict_id xs (bit_and (get_or xs 0 0) 3) a.1) _ h f1 in
        let (c, e3, f3) = >>=-ok (parse_content_size xs size_of b.1) _ h f2 in
        omega (
          arith,
          ok-inj (λ (g : FrameHeader). g.header_size) _ _ f3,
          parse_content_size-le xs size_of b.1 c.1 c.0
              (parse_dict_id-le xs (bit_and (get_or xs 0 0) 3) a.1 b.1 b.0
                (parse_window-le xs single a.0 a.1 full e1) e2)
              e3,
        )
  ]
]

-- The header that the parser returns lies in the input: its size is at most the input's length.
pub parse_frame_header-le :
    (xs : List ℕ) (h : FrameHeader) → parse_frame_header xs ≡ ok h → h.header_size ≤ length xs
unfolding parse_frame_header
parse_frame_header-le xs h e = elim (Bool-cases (ltb (length xs) 4)) [
  | inl short ↦ absurd (ground (arith, rw short at e))
  | inr long ↦ elim (Bool-cases (not (le_at xs 0 4 == zstd_magic))) [
    | inl bad ↦ absurd (ground (arith, rw (long, bad) at e))
    | inr good ↦ omega (
      arith,
      body-le (drop 4 xs) 4 h (rw (long, good) at e),
      length-drop 4 xs,
      ltb→ge (length xs) 4 long,
    )
  ]
]
