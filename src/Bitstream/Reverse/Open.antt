-- ===== src/Bitstream/Reverse/Open.antt =====
-- `ReverseBitReader::new`: which inputs it refuses, and where it stands at first.
use zrip.Common.{ℕ, zero, suc, ◌+◌, ◌-◌, ◌*◌, ◌%◌, ◌^◌, ◌≤◌, ◌<◌, ◌≡◌, refl, sym, ap, ◌∙◌}
use zrip.Common.{List, [], ◌∷◌, length, take, get_or, arith, Bool-cases, inl, inr}
use zrip.Common.{leb, leb→le, leb→gt, ok, err}
use zrip.Common.{input_exhausted, corrupt_sequences, length-take, All-take}
use zrip.Common.Bytes.{IsByte, IsBytes, from_le_bytes, from_le_bytes-lt_pow}
use zrip.Common.Words.{leading_zeros}
use zrip.Common.Powers.{pow_cong, pow-add, leading_zeros_lem}
use native.Mathlib.Nat.{div-one}
use zrip.Bitstream.Reverse.{ReverseBitReader, new, opened, bits_remaining}
use zrip.Bitstream.Reverse.Fields.{IsValid, read_u64_le_lem, short_value}

-- The last byte of a byte string.
abbrev pub last_byte : List ℕ → ℕ
last_byte xs = get_or xs (length xs - 1) 0

pub last_byte_split :
    (n : ℕ) (xs : List ℕ)
    → length xs ≡ suc n
    → IsBytes xs
    → (get_or xs n 0 < 256)
      × (from_le_bytes xs ≡ from_le_bytes (take n xs) + 2 ^ (8 * n) * get_or xs n 0)
last_byte_split n [] e h = absurd (omega arith)
last_byte_split zero (x ∷ []) e (hx, hs) = (hx, omega arith)
last_byte_split zero (x ∷ y ∷ ys) e h = absurd (omega arith)
last_byte_split (suc n) (x ∷ xs) e (hx, hs) =
    let (lt, split) = last_byte_split n xs (omega arith) hs in
    (
      lt,
      omega (
        arith,
        split,
        ap (λ (t : ℕ). t * get_or xs n 0)
            (pow_cong (8 * suc n) (8 + 8 * n) (omega arith) ∙ pow-add 8 (8 * n)),
      ),
    )

-- The marker bit of a byte string with a nonzero last byte.
abbrev marker : List ℕ → ℕ
marker xs = 8 * length xs - (leading_zeros 8 (last_byte xs) + 1)

module _ (xs : List ℕ) (ne : 0 < length xs) (h : IsBytes xs) (nz : 0 < last_byte xs) where
  last_byte-lt : last_byte xs < 256
  last_byte-lt = (last_byte_split (length xs - 1) xs (omega arith) h).0

  marker_bounds : (2 ^ marker xs ≤ from_le_bytes xs) × (from_le_bytes xs < 2 ^ suc (marker xs))
  marker_bounds =
      let n : ℕ = length xs - 1 in
      let z : ℕ = leading_zeros 8 (last_byte xs) in
      let low : ℕ = from_le_bytes (take n xs) in
      let (lt, split) = last_byte_split n xs (omega arith) h in
      let (zl, lo, hi) = leading_zeros_lem 8 (last_byte xs) nz lt in
      let low_lt : low < 2 ^ (8 * n) = omega (
        arith,
        from_le_bytes-lt_pow (take n xs) (All-take IsByte n xs h),
        pow_cong (8 * length (take n xs)) (8 * n) (omega (arith, length-take n xs)),
      ) in
      let at : 2 ^ marker xs ≡ 2 ^ (8 * n) * 2 ^ (8 - 1 - z) =
        pow_cong (marker xs) (8 * n + (8 - 1 - z)) (omega (arith, zl))
        ∙ pow-add (8 * n) (8 - 1 - z) in
      let above : 2 ^ suc (marker xs) ≡ 2 ^ (8 * n) * 2 ^ (8 - z) =
        pow_cong (suc (marker xs)) (8 * n + (8 - z)) (omega (arith, zl))
        ∙ pow-add (8 * n) (8 - z) in
      let under : low + 2 ^ (8 * n) * last_byte xs < 2 ^ (8 * n) * 2 ^ (8 - z) = grind arith in
      let over : 2 ^ (8 * n) * 2 ^ (8 - 1 - z) ≤ 2 ^ (8 * n) * last_byte xs = grind arith in
      (omega (arith, split, at, over), omega (arith, split, above, under))

-- The input ends in a marker bit, and `r` stands right below it.
pub record Opened (source : List ℕ) (r : ReverseBitReader) : Type 0 where
  pub valid : IsValid r
  pub same : r.source ≡ source
  pub marker_le : 2 ^ bits_remaining r ≤ from_le_bytes source
  pub marker_gt : from_le_bytes source < 2 ^ suc (bits_remaining r)
  pub marker_at : bits_remaining r ≡ 8 * length source - (leading_zeros 8 (last_byte source) + 1)

opened-Opened :
    (source : List ℕ)
    → IsBytes source
    → 0 < length source
    → 0 < last_byte source
    → Opened source (opened source)
unfolding opened
opened-Opened source h ne nz =
    let z : ℕ = leading_zeros 8 (last_byte source) in
    let (lo, hi) = marker_bounds source ne h nz in
    let zl : z < 8 = (leading_zeros_lem 8 (last_byte source) nz (last_byte-lt source ne h nz)).0 in
    elim (Bool-cases (leb 8 (length source))) [
      | inl long ↦
          let len : 8 ≤ length source = leb→le 8 (length source) long in
          let at : 64 - (z + 1) + (length source - 8) * 8 ≡ marker source = omega arith in
          rw long (record {
            valid = record {
              bytes = h;
              loaded = read_u64_le_lem source (length source - 8) h;
              consumed_le = omega arith;
              placed = inr (omega arith);
            };
            same = refl;
            marker_le = omega (arith, lo, pow_cong _ _ at);
            marker_gt = omega (arith, hi, pow_cong _ _ (ap suc at));
            marker_at = at;
          })
      | inr short ↦
          let len : length source < 8 = leb→gt 8 (length source) short in
          let at : 64 - (64 - length source * 8 + (z + 1)) + 0 * 8 ≡ marker source = omega arith in
          rw short (record {
            valid = record {
              bytes = h;
              loaded =
                  short_value source h (omega arith)
                  ∙ ap (λ (t : ℕ). t % 2 ^ 64) (sym (div-one (from_le_bytes source)));
              consumed_le = omega arith;
              placed = inl refl;
            };
            same = refl;
            marker_le = omega (arith, lo, pow_cong _ _ at);
            marker_gt = omega (arith, hi, pow_cong _ _ (ap suc at));
            marker_at = at;
          })
    ]

-- An input whose last byte is not zero is opened right below its highest bit.
pub new-Opened :
    (source : List ℕ)
    → IsBytes source
    → 0 < length source
    → 0 < last_byte source
    → (r : ReverseBitReader) × (new source ≡ ok r) × Opened source r
unfolding new
new-Opened source h ne nz = (opened source, ground arith, opened-Opened source h ne nz)

-- The inputs that `new` refuses, with the error of each.
pub new-refuses :
    (source : List ℕ)
    → ((length source ≡ 0) → new source ≡ err input_exhausted)
      × (0 < length source → last_byte source ≡ 0 → new source ≡ err corrupt_sequences)
unfolding new
new-refuses source = (λ e. ground arith, λ p e. ground arith)
