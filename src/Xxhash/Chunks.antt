-- ===== src/Xxhash/Chunks.antt =====
-- Cutting an input into stripes, and the 128-byte blocks of `bulk_rounds`.
use zrip.Common.{ℕ, zero, suc, ◌+◌, ◌*◌, ◌/◌, ◌≤◌, ◌<◌, ◌≡◌, refl, sym, ap, ap₂, ◌∙◌}
use zrip.Common.{List, [], ◌∷◌, ◌++◌, length, take, drop, arith, append-nil, length-append}
use zrip.Common.{length-take, length-drop, take-append-drop, take-append_le}
use zrip.Common.{drop-append_le, take_all}
use zrip.Xxhash.{Lanes, stripe, stripes, blocks, chunks_of, as_chunks, bulk_rounds}

stripes-append :
    (acc : Lanes) (ss ts : List (List ℕ)) → stripes acc (ss ++ ts) ≡ stripes (stripes acc ss) ts
unfolding stripes
stripes-append acc [] ts = refl
stripes-append acc (s ∷ ss) ts = stripes-append (stripe acc s) ss ts

-- The first `k` chunks of `xs ++ ys` are those of `xs` when `xs` is `k` chunks long.
chunks_of-append :
    (n k j m : ℕ) (xs ys : List ℕ)
    → length xs ≡ n * k
    → k + j ≡ m
    → chunks_of n m (xs ++ ys) ≡ chunks_of n k xs ++ chunks_of n j ys
unfolding chunks_of
chunks_of-append n zero j m [] ys e f =
    let g : m ≡ j = omega arith in ap (λ (t : ℕ). chunks_of n t ys) g
chunks_of-append n zero j m (x ∷ xs) ys e f = absurd (omega arith)
chunks_of-append n (suc k) j zero xs ys e f = absurd (omega arith)
chunks_of-append n (suc k) j (suc m) xs ys e f = ap₂ ◌∷◌ (take-append_le n xs ys (omega arith)) (
    ap (chunks_of n m) (drop-append_le n xs ys (omega arith))
    ∙ chunks_of-append n k j m (drop n xs) ys (omega (arith, length-drop n xs)) (omega arith))

-- `k` chunks are those of the bytes that they hold.
chunks_of-take :
    (n k m : ℕ) (xs : List ℕ)
    → m ≡ n * k
    → m ≤ length xs
    → chunks_of n k xs ≡ chunks_of n k (take m xs)
unfolding chunks_of
chunks_of-take n k m xs e h =
    ap (chunks_of n k) (sym (take-append-drop m xs))
    ∙ chunks_of-append n k 0 k (take m xs) (drop m xs) (omega (arith, length-take m xs))
        (omega arith)
    ∙ append-nil (chunks_of n k (take m xs))

-- The stripes of an input, one after the other: what both forms of the hash compute.
abbrev pub absorb_all : Lanes → List ℕ → Lanes
absorb_all acc xs = stripes acc (chunks_of 32 (length xs / 32) xs)

pub absorb_all-append :
    (k : ℕ) (acc : Lanes) (xs ys : List ℕ)
    → length xs ≡ 32 * k
    → absorb_all acc (xs ++ ys) ≡ absorb_all (absorb_all acc xs) ys
absorb_all-append k acc xs ys e =
    ap (stripes acc) (
      chunks_of-append 32 (length xs / 32) (length ys / 32) (length (xs ++ ys) / 32) xs ys
        (omega arith) (omega (arith, length-append xs ys)))
    ∙ stripes-append acc (chunks_of 32 (length xs / 32) xs) (chunks_of 32 (length ys / 32) ys)

pub absorb_all_short : (acc : Lanes) (xs : List ℕ) → length xs < 32 → absorb_all acc xs ≡ acc
unfolding stripes chunks_of
absorb_all_short acc xs h =
    let e : length xs / 32 ≡ 0 = omega arith in ap (λ (t : ℕ). stripes acc (chunks_of 32 t xs)) e

pub absorb_all-stripe :
    (acc : Lanes) (xs : List ℕ) → length xs ≡ 32 → absorb_all acc xs ≡ stripe acc xs
unfolding stripes chunks_of
absorb_all-stripe acc xs h =
    let e : length xs / 32 ≡ 1 = omega arith in
    ap (λ (t : ℕ). stripes acc (chunks_of 32 t xs)) e
    ∙ ap (stripe acc) (take_all 32 xs (omega arith))

-- A block of 128 bytes is four stripes, so `k` blocks are the stripes of their bytes.
blocks-chunks_of :
    (k : ℕ) (acc : Lanes) (xs : List ℕ)
    → 128 * k ≤ length xs
    → blocks acc (chunks_of 128 k xs) ≡ stripes acc (chunks_of 32 (4 * k) xs)
unfolding blocks chunks_of as_chunks stripes
blocks-chunks_of zero acc xs h = refl
blocks-chunks_of (suc k) acc xs h =
    let four : length (take 128 xs) / 32 ≡ 4 = omega (arith, length-take 128 xs) in
    let apart : chunks_of 32 (4 * suc k) xs
        ≡ chunks_of 32 4 (take 128 xs) ++ chunks_of 32 (4 * k) (drop 128 xs) =
      ap (chunks_of 32 (4 * suc k)) (sym (take-append-drop 128 xs))
      ∙ chunks_of-append 32 4 (4 * k) (4 * suc k) (take 128 xs) (drop 128 xs)
          (omega (arith, length-take 128 xs)) (omega arith) in
    blocks-chunks_of k (stripes acc (chunks_of 32 (length (take 128 xs) / 32) (take 128 xs)))
      (drop 128 xs) (omega (arith, length-drop 128 xs))
    ∙ ap
        (λ (n : ℕ).
          stripes (stripes acc (chunks_of 32 n (take 128 xs))) (chunks_of 32 (4 * k) (drop 128 xs)))
        four
    ∙ sym (stripes-append acc (chunks_of 32 4 (take 128 xs)) (chunks_of 32 (4 * k) (drop 128 xs)))
    ∙ ap (stripes acc) (sym apart)

-- `bulk_rounds` absorbs the stripes of its input in order.
pub bulk_rounds-eq-absorb_all : (xs : List ℕ) (acc : Lanes) → bulk_rounds xs acc ≡ absorb_all acc xs
unfolding bulk_rounds as_chunks
bulk_rounds-eq-absorb_all xs acc =
    let q : ℕ = length xs / 128 in
    let r : List ℕ = drop (128 * q) xs in
    let whole : chunks_of 32 (length xs / 32) xs
        ≡ chunks_of 32 (4 * q) (take (128 * q) xs) ++ chunks_of 32 (length r / 32) r =
      ap (chunks_of 32 (length xs / 32)) (sym (take-append-drop (128 * q) xs))
      ∙ chunks_of-append 32 (4 * q) (length r / 32) (length xs / 32) (take (128 * q) xs) r
          (omega (arith, length-take (128 * q) xs)) (omega (arith, length-drop (128 * q) xs)) in
    ap (λ (v : Lanes). stripes v (chunks_of 32 (length r / 32) r))
      (blocks-chunks_of q acc xs (omega arith))
    ∙ ap (λ (c : List (List ℕ)). stripes (stripes acc c) (chunks_of 32 (length r / 32) r))
        (chunks_of-take 32 (4 * q) (128 * q) xs (omega arith) (omega arith))
    ∙ sym (
        stripes-append acc (chunks_of 32 (4 * q) (take (128 * q) xs))
          (chunks_of 32 (length r / 32) r))
    ∙ ap (stripes acc) (sym whole)

-- The bytes behind the last whole stripe change nothing.
pub absorb_all-take :
    (q : ℕ) (acc : Lanes) (xs : List ℕ)
    → q ≡ length xs / 32
    → absorb_all acc (take (32 * q) xs) ≡ absorb_all acc xs
absorb_all-take q acc xs e =
    let n : length (take (32 * q) xs) / 32 ≡ q = omega (arith, length-take (32 * q) xs) in
    ap (λ (k : ℕ). stripes acc (chunks_of 32 k (take (32 * q) xs))) n
    ∙ ap (stripes acc) (sym (chunks_of-take 32 q (32 * q) xs refl (omega arith)))
    ∙ ap (λ (k : ℕ). stripes acc (chunks_of 32 k xs)) e
