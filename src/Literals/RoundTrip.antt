-- ===== src/Literals/RoundTrip.antt =====
-- The header parsers after the header writers.
use zrip.Common.{ℕ, ◌+◌, ◌*◌, ◌/◌, ◌%◌, ◌^◌, ◌≤◌, ◌<◌, ◌≡◌, refl, ap, ap₂, ◌∙◌, arith}
use zrip.Common.{Bool, true, false, ◌&&◌, bit_and, bit_or, List, ◌∷◌, ◌++◌, length, ok}
use zrip.Common.{==→eq, leb, leb→le, ◌==◌, if◌then◌else◌, Bool-cases, inl, inr}
use zrip.Common.Words.{u8, u32, u64, ◌>>>◌}
use zrip.Common.Bits.{bit_and_mask, bit_or_low}
use zrip.Literals.{raw, block_type_of, at, both2, both3, both4, both5}
use zrip.Literals.{
  parse_raw_rle_header, parse_compressed_header, Sizes, split_sizes, lead, low_nibble,
}
use zrip.Literals.{encode_huf_literals_header, encode_raw_literals_header}
use zrip.Literals.Fields.{
  need-ok, both2_lem, both3_lem, both4_lem, both5_lem, lead_lem, low_nibble_lem,
}
use zrip.Literals.Fields.{split_sizes_lem}

-- The size format of a first byte.
format_of : (b : ℕ) (f : ℕ) → b / 4 % 4 ≡ f → bit_and (b >>> 2) 3 ≡ f
format_of b f e = bit_and_mask 2 (b / 2 ^ 2) ∙ omega (arith, e)

type_of : (b t : ℕ) → b % 4 ≡ t → bit_and b 3 ≡ t
type_of b t e = bit_and_mask 2 b ∙ omega (arith, e)

raw_type : (b : ℕ) → b % 4 ≡ 0 → block_type_of b ≡ raw
unfolding block_type_of
raw_type b e = rw (type_of b 0 e)

raw_1 :
    (b0 size : ℕ) (rest : List ℕ)
    → b0 ≡ 4 + size % 16 * 16
    → size < 2 ^ 12
    → parse_raw_rle_header (b0 ∷ u8 (size / 2 ^ 4) ∷ rest) ≡ ok (size, 2)
unfolding parse_raw_rle_header
raw_1 b0 size rest e h =
    let xs : List ℕ = b0 ∷ u8 (size / 2 ^ 4) ∷ rest in
    rw
      (
        format_of b0 1 (omega (arith, e)),
        need-ok {A = ℕ × ℕ} xs 2 (ok (both2 xs, 2)) (omega arith),
        both2_lem size b0 rest (omega (arith, e)),
      )
      (ap (λ (t : ℕ). ok (t, 2)) (let q : size % 2 ^ 12 ≡ size = omega (arith, h) in q))

raw_3 :
    (b0 size : ℕ) (rest : List ℕ)
    → b0 ≡ 12 + size % 16 * 16
    → size < 2 ^ 20
    → parse_raw_rle_header (b0 ∷ u8 (size / 2 ^ 4) ∷ u8 (size / 2 ^ 12) ∷ rest) ≡ ok (size, 3)
unfolding parse_raw_rle_header
raw_3 b0 size rest e h =
    let xs : List ℕ = b0 ∷ u8 (size / 2 ^ 4) ∷ u8 (size / 2 ^ 12) ∷ rest in
    rw
      (
        format_of b0 3 (omega (arith, e)),
        need-ok {A = ℕ × ℕ} xs 3 (ok (both3 xs, 3)) (omega arith),
        both3_lem size b0 rest (omega (arith, e)),
      )
      (ap (λ (t : ℕ). ok (t, 3)) (let q : size % 2 ^ 20 ≡ size = omega (arith, h) in q))

raw_0 :
    (b0 size : ℕ) (rest : List ℕ) → b0 ≡ size * 8 → parse_raw_rle_header (b0 ∷ rest) ≡ ok (size, 1)
unfolding parse_raw_rle_header
raw_0 b0 size rest e = elim (Bool-cases (b0 / 4 % 4 == 0)) [
  | inl z ↦
      rw (format_of b0 0 (ground (arith, z)))
        (ap (λ (t : ℕ). ok (t, 1)) (let q : b0 / 2 ^ 3 ≡ size = omega (arith, e) in q))
  | inr nz ↦
      rw (format_of b0 2 (ground (arith, nz, e)))
        (ap (λ (t : ℕ). ok (t, 1)) (let q : b0 / 2 ^ 3 ≡ size = omega (arith, e) in q))
]

-- The header of raw literals of fewer than 2^20 bytes is parsed into that size and its own length,
-- whatever bytes follow, and its first byte says that the literals are raw.
pub parse_raw_rle_header-encode_raw_literals_header :
    (size : ℕ) (rest : List ℕ)
    → size < 2 ^ 20
    → (parse_raw_rle_header (encode_raw_literals_header size ++ rest)
        ≡ ok (size, length (encode_raw_literals_header size)))
      × (block_type_of (at (encode_raw_literals_header size) 0) ≡ raw)
unfolding encode_raw_literals_header
parse_raw_rle_header-encode_raw_literals_header size rest h = elim (Bool-cases (leb size 31)) [
  | inl e ↦
      let small = leb→le size 31 e in
      rw e (
        raw_0 (u8 (u8 size * 2 ^ 3)) size rest (omega arith),
        raw_type (u8 (u8 size * 2 ^ 3)) (omega arith),
      )
  | inr e ↦
      let one : bit_or 0x04 (low_nibble size) ≡ 4 + size % 16 * 16 =
        ap (bit_or 4) (low_nibble_lem size)
        ∙ bit_or_low 4 4 (size % 16) (omega arith)
        ∙ omega arith in
      let three : bit_or 0x0C (low_nibble size) ≡ 12 + size % 16 * 16 =
        ap (bit_or 12) (low_nibble_lem size)
        ∙ bit_or_low 4 12 (size % 16) (omega arith)
        ∙ omega arith in
      elim (Bool-cases (leb size 4095)) [
        | inl f ↦
            rw (e, f)
              (
                raw_1 _ size rest one (omega (arith, leb→le size 4095 f)),
                raw_type _ (omega (arith, one)),
              )
        | inr f ↦ rw (e, f) (raw_3 _ size rest three h, raw_type _ (omega (arith, three)))
      ]
]

-- The three lengths of a Huffman header, for two sizes in one number.
huf_3 :
    (t f v : ℕ) (rest : List ℕ)
    → t < 4
    → f < 2
    → v < 2 ^ 20
    → parse_compressed_header (lead t f v ∷ u8 (v / 2 ^ 4) ∷ u8 (v / 2 ^ 12) ∷ rest)
      ≡ ok (split_sizes v 10 (if f == 0 then 1 else 4) 3)
unfolding parse_compressed_header
huf_3 t f v rest ht hf hv =
    let b0 : ℕ = lead t f v in
    let b = lead_lem v t f ht (omega arith) in
    let xs : List ℕ = b0 ∷ u8 (v / 2 ^ 4) ∷ u8 (v / 2 ^ 12) ∷ rest in
    let whole : both3 xs ≡ v = both3_lem v b0 rest (omega (arith, b)) ∙ omega (arith, hv) in
    elim (Bool-cases (f == 0)) [
      | inl z ↦ rw (
        format_of b0 0 (omega (arith, b, ==→eq f 0 z)),
        need-ok {A = Sizes} xs 3 _ (omega arith),
        whole,
        z,
      )
      | inr nz ↦ rw (
        format_of b0 1 (let one : f ≡ 1 = ground (arith, nz) in omega (arith, b, one)),
        need-ok {A = Sizes} xs 3 _ (omega arith),
        whole,
        nz,
      )
    ]

huf_4 :
    (t v : ℕ) (rest : List ℕ)
    → t < 4
    → v < 2 ^ 28
    → parse_compressed_header
        (lead t 2 v ∷ u8 (v / 2 ^ 4) ∷ u8 (v / 2 ^ 12) ∷ u8 (v / 2 ^ 20) ∷ rest)
      ≡ ok (split_sizes v 14 4 4)
unfolding parse_compressed_header
huf_4 t v rest ht hv =
    let b0 : ℕ = lead t 2 v in
    let b = lead_lem v t 2 ht (omega arith) in
    let xs : List ℕ = b0 ∷ u8 (v / 2 ^ 4) ∷ u8 (v / 2 ^ 12) ∷ u8 (v / 2 ^ 20) ∷ rest in
    let whole : both4 xs ≡ v = both4_lem v b0 rest (omega (arith, b)) ∙ omega (arith, hv) in
    rw (format_of b0 2 (omega (arith, b)), need-ok {A = Sizes} xs 4 _ (omega arith), whole)

huf_5 :
    (t v : ℕ) (rest : List ℕ)
    → t < 4
    → v < 2 ^ 36
    → parse_compressed_header
        (lead t 3 v ∷ u8 (v / 2 ^ 4) ∷ u8 (v / 2 ^ 12) ∷ u8 (v / 2 ^ 20) ∷ u8 (v / 2 ^ 28) ∷ rest)
      ≡ ok (split_sizes v 18 4 5)
unfolding parse_compressed_header
huf_5 t v rest ht hv =
    let b0 : ℕ = lead t 3 v in
    let b = lead_lem v t 3 ht (omega arith) in
    let xs : List ℕ =
      b0 ∷ u8 (v / 2 ^ 4) ∷ u8 (v / 2 ^ 12) ∷ u8 (v / 2 ^ 20) ∷ u8 (v / 2 ^ 28) ∷ rest in
    let whole : both5 xs ≡ v = both5_lem v b0 rest (omega (arith, b)) ∙ omega (arith, hv) in
    rw (format_of b0 3 (omega (arith, b)), need-ok {A = Sizes} xs 5 _ (omega arith), whole)

flag_lt : (b : Bool) → (if b then 1 else 0) < 2
flag_lt true = omega arith
flag_lt false = omega arith

flag_streams :
    (b : Bool) → ◌≡◌ {A = ℕ} (if (if b then 1 else 0) == 0 then 1 else 4) (if b then 4 else 1)
flag_streams true = refl
flag_streams false = refl

both_le : (n a b : ℕ) → (leb a n && leb b n) ≡ true → (a ≤ n) × (b ≤ n)
both_le n a b e = ground arith

-- How many streams a header announces.
abbrev pub announced : ℕ → ℕ → Bool → ℕ
announced regen comp four_streams =
    if leb regen 1023 && leb comp 1023 then (if four_streams then 4 else 1) else 4

-- The header of Huffman-coded literals, new or treeless, with both sizes below 2^18, is parsed into
-- those sizes and its own length, whatever bytes follow. It announces the number of streams that was
-- asked for where both sizes are below 1024, and four otherwise.
pub parse_compressed_header-encode_huf_literals_header :
    (t regen comp : ℕ) (four_streams : Bool) (rest : List ℕ)
    → t < 4
    → regen < 2 ^ 18
    → comp < 2 ^ 18
    → parse_compressed_header (encode_huf_literals_header t regen comp four_streams ++ rest)
      ≡ ok (record {
        regen_size = regen;
        comp_size = comp;
        streams = announced regen comp four_streams;
        header_size = length (encode_huf_literals_header t regen comp four_streams);
      })
unfolding encode_huf_literals_header
parse_compressed_header-encode_huf_literals_header t regen comp four_streams rest ht hr hc =
    elim (Bool-cases (leb regen 1023 && leb comp 1023)) [
      | inl e ↦
          let (r, c) = both_le 1023 regen comp e in
          rw e (
            ap
              (λ (v : ℕ). parse_compressed_header (
                lead t (if four_streams then 1 else 0) v ∷ u8 (v / 2 ^ 4) ∷ u8 (v / 2 ^ 12) ∷ rest))
              (ap₂ bit_or (let q : u32 regen ≡ regen = omega arith in q)
                  (let q : u32 (u32 comp * 2 ^ 10) ≡ comp * 2 ^ 10 = omega arith in q)
                ∙ bit_or_low 10 regen comp (omega arith))
            ∙ huf_3 t (if four_streams then 1 else 0) (regen + comp * 2 ^ 10) rest ht
                (flag_lt four_streams) (omega arith)
            ∙ ap ok (split_sizes_lem regen comp _ 3 10 (omega arith))
            ∙ ap
                (λ (n : ℕ).
                  ok
                    (record { regen_size = regen; comp_size = comp; streams = n; header_size = 3 }))
                (flag_streams four_streams))
      | inr e ↦ elim (Bool-cases (leb regen 16383 && leb comp 16383)) [
        | inl f ↦
            let (r, c) = both_le 16383 regen comp f in
            rw (e, f)
              (ap
                  (λ (v : ℕ).
                    parse_compressed_header
                      (lead t 2 v ∷ u8 (v / 2 ^ 4) ∷ u8 (v / 2 ^ 12) ∷ u8 (v / 2 ^ 20) ∷ rest))
                  (ap₂ bit_or (let q : u32 regen ≡ regen = omega arith in q)
                      (let q : u32 (u32 comp * 2 ^ 14) ≡ comp * 2 ^ 14 = omega arith in q)
                    ∙ bit_or_low 14 regen comp (omega arith))
                ∙ huf_4 t (regen + comp * 2 ^ 14) rest ht (omega arith)
                ∙ ap ok (split_sizes_lem regen comp 4 4 14 (omega arith)))
        | inr f ↦
            rw (e, f)
              (ap
                  (λ (v : ℕ). parse_compressed_header (
                    lead t 3 v
                    ∷ u8 (v / 2 ^ 4)
                    ∷ u8 (v / 2 ^ 12)
                    ∷ u8 (v / 2 ^ 20)
                    ∷ u8 (v / 2 ^ 28)
                    ∷ rest))
                  (ap₂ bit_or (let q : u64 regen ≡ regen = omega arith in q)
                      (let q : u64 (u64 comp * 2 ^ 18) ≡ comp * 2 ^ 18 = omega arith in q)
                    ∙ bit_or_low 18 regen comp hr)
                ∙ huf_5 t (regen + comp * 2 ^ 18) rest ht (omega arith)
                ∙ ap ok (split_sizes_lem regen comp 4 5 18 hr))
      ]
    ]
