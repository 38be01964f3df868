-- ===== src/Header/Block.antt =====
-- The block header parser after the raw block writer.
use zrip.Common.{ℕ, suc, ◌+◌, ◌*◌, ◌/◌, ◌^◌, ◌<◌, ◌≡◌, refl, ap, ap₂, ◌∙◌, arith}
use zrip.Common.{Bool, true, false, not, List, ◌++◌, length, drop, bit_and, bit_or, append_assoc}
use zrip.Common.{some, ok, ltb, ◌==◌, if◌then◌else◌, ge→ltb}
use zrip.Common.Words.{u32, ◌<<<◌, ◌>>>◌}
use zrip.Common.Bits.{bit_and_mask, bit_or_high}
use zrip.Header.{raw, rle, compressed, BlockType, block_type_of, parse_block_header, push_header}
use zrip.Header.{encode_raw_block, le_at}

-- The number of a block type in a header.
abbrev pub type_bits : BlockType → ℕ
type_bits raw = 0
type_bits rle = 1
type_bits compressed = 2

abbrev pub flag : Bool → ℕ
flag last = if last then 1 else 0

block_type_of-type_bits : (t : BlockType) → block_type_of (type_bits t) ≡ some t
unfolding block_type_of
block_type_of-type_bits raw = refl
block_type_of-type_bits rle = refl
block_type_of-type_bits compressed = refl

type_bits-lt : (t : BlockType) → type_bits t < 3
type_bits-lt raw = omega arith
type_bits-lt rle = omega arith
type_bits-lt compressed = omega arith

flag-back : (last : Bool) → not (flag last == 0) ≡ last
flag-back true = refl
flag-back false = refl

flag-lt : (last : Bool) → flag last < 2
flag-lt true = omega arith
flag-lt false = omega arith

push_header_value : (h : ℕ) (rest : List ℕ) → h < 2 ^ 24 → le_at (push_header h ++ rest) 0 3 ≡ h
unfolding le_at push_header
push_header_value h rest lt = omega (arith, lt)

push_header_long : (h : ℕ) (rest : List ℕ) → ltb (length (push_header h ++ rest)) 3 ≡ false
unfolding push_header
push_header_long h rest = ge→ltb (suc (suc (suc (length rest)))) 3 (omega arith)

parse_block_header-ok :
    (xs : List ℕ) (v : ℕ) (t : BlockType)
    → ltb (length xs) 3 ≡ false
    → le_at xs 0 3 ≡ v
    → block_type_of (bit_and (v >>> 1) 3) ≡ some t
    → parse_block_header xs
      ≡ ok (record { last_block = not (bit_and v 1 == 0); block_type = t; block_size = v >>> 3 })
unfolding parse_block_header
parse_block_header-ok xs v t long e f =
    let kind : block_type_of (bit_and (le_at xs 0 3 >>> 1) 3) ≡ some t =
      ap (λ (k : ℕ). block_type_of (bit_and (k >>> 1) 3)) e ∙ f in
    rw (long, kind)
      (ap
        (λ (k : ℕ).
          ok (record { last_block = not (bit_and k 1 == 0); block_type = t; block_size = k >>> 3 }))
        e)

-- A header of three bytes with a size below 2^21 is parsed into the flag, the type and the size it
-- was made of, whatever bytes follow.
pub parse_block_header-push_header :
    (last : Bool) (t : BlockType) (size : ℕ) (rest : List ℕ)
    → size < 2 ^ 21
    → parse_block_header (push_header (size * 8 + type_bits t * 2 + flag last) ++ rest)
      ≡ ok (record { last_block = last; block_type = t; block_size = size })
parse_block_header-push_header last t size rest h =
    let v : ℕ = size * 8 + type_bits t * 2 + flag last in
    let tl = type_bits-lt t in
    let fl = flag-lt last in
    let kind : bit_and (v / 2 ^ 1) 3 ≡ type_bits t = bit_and_mask 2 (v / 2 ^ 1) ∙ omega arith in
    let low : bit_and v 1 ≡ flag last = bit_and_mask 1 v ∙ omega arith in
    let size_eq : v / 2 ^ 3 ≡ size = omega arith in
    parse_block_header-ok (push_header v ++ rest) v t (push_header_long v rest)
      (push_header_value v rest (omega arith)) (ap block_type_of kind ∙ block_type_of-type_bits t)
    ∙ ap₂ (λ (b : Bool) (n : ℕ). ok (record { last_block = b; block_type = t; block_size = n }))
        (ap (λ (k : ℕ). not (k == 0)) low ∙ flag-back last) size_eq

-- A raw block of fewer than 2^21 bytes is parsed into a raw header with its length and its flag,
-- and the bytes behind the header are the block's, whatever follows.
pub parse_block_header-encode_raw_block :
    (source rest : List ℕ) (last : Bool)
    → length source < 2 ^ 21
    → (parse_block_header (encode_raw_block source last ++ rest)
        ≡ ok (record { last_block = last; block_type = raw; block_size = length source }))
      × (drop 3 (encode_raw_block source last ++ rest) ≡ source ++ rest)
unfolding encode_raw_block
parse_block_header-encode_raw_block source rest last h =
    let n : ℕ = length source in
    let fl = flag-lt last in
    let header : bit_or (u32 (u32 n <<< 3)) (flag last) ≡ n * 8 + type_bits raw * 2 + flag last =
      ap (λ (k : ℕ). bit_or k (flag last))
        (let e : u32 (u32 n * 2 ^ 3) ≡ n * 2 ^ 3 = omega arith in e)
      ∙ bit_or_high 3 n (flag last) (omega arith)
      ∙ omega arith in
    (
      ap (λ k. parse_block_header ((push_header k ++ source) ++ rest)) header
          ∙ ap parse_block_header (append_assoc (push_header _) source rest)
          ∙ parse_block_header-push_header last raw n (source ++ rest) h,
      unfold push_header in refl,
    )
