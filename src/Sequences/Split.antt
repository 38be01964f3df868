-- ===== src/Sequences/Split.antt =====
-- The split of lengths into codes and extra bits, against the decoder's tables.
use zrip.Common.{ℕ, ◌+◌, ◌-◌, ◌*◌, ◌^◌, ◌≤◌, ◌<◌, ◌≡◌, refl, sym, ap, ◌∙◌, arith}
use zrip.Common.{Bool, true, ◌&&◌, ◌||◌, List, get_or, leb, ltb, ◌==◌, Bool-cases, inl, inr}
use zrip.Common.{leb→le, leb→gt, ltb→lt, ltb→ge, passes_below, passes_below_lem}
use zrip.Common.Words.{u8, leading_zeros}
use zrip.Common.Powers.{leading_zeros_lem, pow_cong, pow_mono, pow_pos, pow-add}
use zrip.Sequences.{CodeSplit, split_row, split_high, ll_split, ml_split}
use zrip.Sequences.Codes.{
  ll_rows, ml_rows, ll_bits_table, ll_baseline_table, ml_bits_table, ml_baseline_table,
}

-- A split is right for `v` by the tables `bits` and `base`, which have `codes` codes.
pub record IsSplit (bits base : List ℕ) (codes v : ℕ) (s : CodeSplit) : Type 0 where
  pub code_lt : s.code < codes
  pub nb_eq : s.nb ≡ get_or bits s.code 0
  pub extra_lt : s.extra < 2 ^ s.nb
  pub nb_le : s.nb ≤ 16
  pub back : get_or base s.code 0 + s.extra ≡ v

moved :
    {bits base : List ℕ} {codes : ℕ} (s : CodeSplit) (v w : ℕ)
    → v ≡ w
    → IsSplit bits base codes v s
    → IsSplit bits base codes w s
moved s v w e h = record {
  code_lt = h.code_lt;
  nb_eq = h.nb_eq;
  extra_lt = h.extra_lt;
  nb_le = h.nb_le;
  back = h.back ∙ e;
}

-- The same as a test, to run over the rows.
abbrev split_test : List ℕ → List ℕ → ℕ → ℕ → CodeSplit → Bool
split_test bits base codes v s =
    ltb s.code codes
    && (s.nb == get_or bits s.code 0
        && (ltb s.extra (2 ^ s.nb) && (leb s.nb 16 && get_or base s.code 0 + s.extra == v)))

split_test_lem :
    (bits base : List ℕ) (codes v : ℕ) (s : CodeSplit)
    → split_test bits base codes v s ≡ true
    → IsSplit bits base codes v s
split_test_lem bits base codes v s e = record {
  code_lt = ground arith;
  nb_eq = ground arith;
  extra_lt = ground arith;
  nb_le = ground arith;
  back = ground arith;
}

abbrev ll_test : ℕ → Bool
ll_test v = split_test ll_bits_table ll_baseline_table 36 v (split_row (get_or ll_rows v 0) v)

abbrev ml_test : ℕ → Bool
ml_test v = split_test ml_bits_table ml_baseline_table 53 (v + 3) (split_row (get_or ml_rows v 0) v)

ll_table : passes_below ll_test 64 ≡ true
unfolding split_row
ll_table = refl

ml_table : passes_below ml_test 128 ≡ true
unfolding split_row
ml_table = refl

-- The codes of the longer lengths, by the highest bit.
abbrev high_test : List ℕ → List ℕ → ℕ → ℕ → ℕ → ℕ → Bool
high_test bits base low k off b =
    ltb b low || (get_or base (b + k) 0 == 2 ^ b + off && get_or bits (b + k) 0 == b)

high_test_lem :
    (bits base : List ℕ) (low k off b : ℕ)
    → low ≤ b
    → high_test bits base low k off b ≡ true
    → (get_or base (b + k) 0 ≡ 2 ^ b + off) × (get_or bits (b + k) 0 ≡ b)
high_test_lem bits base low k off b h e = (ground arith, ground arith)

ll_high : passes_below (high_test ll_bits_table ll_baseline_table 6 19 0) 17 ≡ true
ll_high = refl

ml_high : passes_below (high_test ml_bits_table ml_baseline_table 7 36 3) 17 ≡ true
ml_high = refl

-- The highest bit of a number of at most 17 bits.
high_bit_lem :
    (v low : ℕ)
    → 2 ^ low ≤ v
    → v < 2 ^ 17
    → (low ≤ 31 - leading_zeros 32 v)
      × (31 - leading_zeros 32 v ≤ 16)
      × (2 ^ (31 - leading_zeros 32 v) ≤ v)
      × (v < 2 * 2 ^ (31 - leading_zeros 32 v))
high_bit_lem v low hl hv =
    let z : ℕ = leading_zeros 32 v in
    let b : ℕ = 31 - z in
    let (lt, lo, hi) = leading_zeros_lem 32 v (omega (arith, hl, pow_pos low)) (omega arith) in
    let floor : 2 ^ b ≤ v = omega (arith, lo, pow_cong (32 - 1 - z) b (omega arith)) in
    let next : 2 ^ (b + 1) ≡ 2 ^ b * 2 = pow-add b 1 in
    let ceil : v < 2 ^ (b + 1) = omega (arith, hi, pow_cong (32 - z) (b + 1) (omega (arith, lt))) in
    let above : low ≤ b = elim (Bool-cases (leb low b)) [
      | inl e ↦ leb→le low b e
      | inr e ↦
          absurd (omega (arith, hl, ceil, pow_mono (b + 1) low (omega (arith, leb→gt low b e))))
    ] in
    let below : b ≤ 16 = elim (Bool-cases (leb b 16)) [
      | inl e ↦ leb→le b 16 e
      | inr e ↦ absurd (omega (arith, floor, hv, pow_mono 17 b (omega (arith, leb→gt b 16 e))))
    ] in
    (above, below, floor, omega (arith, ceil, next))

-- The split by the highest bit, where the tables hold that bit's row.
split_high-IsSplit :
    (bits base : List ℕ) (codes v k low off : ℕ)
    → 2 ^ low ≤ v
    → v < 2 ^ 17
    → 17 + k ≤ codes
    → codes ≤ 256
    → ((b : ℕ)
        → low ≤ b
        → b ≤ 16
        → (get_or base (b + k) 0 ≡ 2 ^ b + off) × (get_or bits (b + k) 0 ≡ b))
    → IsSplit bits base codes (v + off) (split_high v k)
unfolding split_high
split_high-IsSplit bits base codes v k low off hl hv hc hk rows =
    let b : ℕ = 31 - leading_zeros 32 v in
    let (above, below, floor, ceil) = high_bit_lem v low hl hv in
    let (line, width) = rows b above below in
    let code : u8 (b + k) ≡ b + k = omega arith in
    record {
      code_lt = omega (arith, code);
      nb_eq = sym (ap (λ (c : ℕ). get_or bits c 0) code ∙ width);
      extra_lt = omega arith;
      nb_le = below;
      back = omega (arith, ap (λ (c : ℕ). get_or base c 0) code, line);
    }

ll_row :
    (b : ℕ)
    → 6 ≤ b
    → b ≤ 16
    → (get_or ll_baseline_table (b + 19) 0 ≡ 2 ^ b + 0) × (get_or ll_bits_table (b + 19) 0 ≡ b)
ll_row b above below =
    let row =
      passes_below_lem (high_test ll_bits_table ll_baseline_table 6 19 0) 17 b ll_high
        (omega arith) in
    high_test_lem ll_bits_table ll_baseline_table 6 19 0 b above row

ml_row :
    (b : ℕ)
    → 7 ≤ b
    → b ≤ 16
    → (get_or ml_baseline_table (b + 36) 0 ≡ 2 ^ b + 3) × (get_or ml_bits_table (b + 36) 0 ≡ b)
ml_row b above below =
    let row =
      passes_below_lem (high_test ml_bits_table ml_baseline_table 7 36 3) 17 b ml_high
        (omega arith) in
    high_test_lem ml_bits_table ml_baseline_table 7 36 3 b above row

-- A length below 2^17 is the baseline of its code plus its extra bits, and these are as many as the
-- decoder's table says.
pub ll_split-IsSplit :
    (ll : ℕ) → ll < 2 ^ 17 → IsSplit ll_bits_table ll_baseline_table 36 ll (ll_split ll)
unfolding ll_split
ll_split-IsSplit ll h = elim (Bool-cases (ltb ll 64)) [
  | inl e ↦ rw e (
      split_test_lem ll_bits_table ll_baseline_table 36 ll _
        (passes_below_lem ll_test 64 ll ll_table (ltb→lt ll 64 e)))
  | inr e ↦ rw e (
      moved (split_high ll 19) (ll + 0) ll (omega arith) (
        split_high-IsSplit ll_bits_table ll_baseline_table 36 ll 19 6 0 (ltb→ge ll 64 e) h
          (omega arith) (omega arith) ll_row))
]

-- A match length from 3 to below 2^17 + 3 is the baseline of its code plus its extra bits, and these
-- are as many as the decoder's table says.
pub ml_split-IsSplit :
    (ml : ℕ)
    → 3 ≤ ml
    → ml < 2 ^ 17 + 3
    → IsSplit ml_bits_table ml_baseline_table 53 ml (ml_split ml)
unfolding ml_split
ml_split-IsSplit ml low h =
    let v : ℕ = ml - 3 in
    let whole : v + 3 ≡ ml = omega (arith, low) in
    elim (Bool-cases (ltb v 128)) [
      | inl e ↦ rw e (
          moved (split_row (get_or ml_rows v 0) v) (v + 3) ml whole (
            split_test_lem ml_bits_table ml_baseline_table 53 (v + 3) _
              (passes_below_lem ml_test 128 v ml_table (ltb→lt v 128 e))))
      | inr e ↦ rw e (
          moved (split_high v 36) (v + 3) ml whole (
            split_high-IsSplit ml_bits_table ml_baseline_table 53 v 36 7 3 (ltb→ge v 128 e)
              (omega (arith, h)) (omega arith) (omega arith) ml_row))
    ]
