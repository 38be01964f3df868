-- ===== src/Sequences/Pack.antt =====
-- Packed sequences and the decoder's view of them. The extra bits of a sequence are read from the
-- top: those of the offset, then of the match length, then of the literal length.
use zrip.Common.{
  ℕ, ◌+◌, ◌-◌, ◌*◌, ◌/◌, ◌%◌, ◌^◌, ◌≤◌, ◌<◌, ◌≡◌, refl, sym, ap, ap₂, ◌∙◌, arith, bit_or,
}
use zrip.Common.{List, [], ◌∷◌, All, get_or, ◌==◌}
use zrip.Common.Words.{u8, u64, ◌<<<◌, leading_zeros}
use zrip.Common.Bits.{bit_or_low}
use zrip.Common.Powers.{pow_cong, pow-add, pow_pos, pow_mono, add-mul_pow_fields, leading_zeros_lem}
use zrip.Sequences.{
  Sequence, Reps, PackedSeq, CodeSplit, pack_sequence, pack_sequences, compute_offset,
}
use zrip.Sequences.{pick_offset_value, of_code, ll_split, ml_split}
use zrip.Sequences.Codes.{ll_bits_table, ll_baseline_table, ml_bits_table, ml_baseline_table}
use zrip.Sequences.Split.{IsSplit, ll_split-IsSplit, ml_split-IsSplit}
use zrip.Sequences.Offsets.{
  compute_offset-pick_offset_value, pick_offset_value-bounds, shift_reps-rep0,
}

-- The sequence that the codes and the extra bits spell, by the decoder's tables, and the repeat
-- offsets behind it.
abbrev pub unpack_sequence : Reps → PackedSeq → Sequence × Reps
unpack_sequence r p =
    let ll_nb = get_or ll_bits_table p.ll_code 0 in
    let ml_nb = get_or ml_bits_table p.ml_code 0 in
    let ll = get_or ll_baseline_table p.ll_code 0 + p.extra_bits % 2 ^ ll_nb in
    let ml = get_or ml_baseline_table p.ml_code 0 + p.extra_bits / 2 ^ ll_nb % 2 ^ ml_nb in
    let ov = 2 ^ p.of_code_ + p.extra_bits / 2 ^ ll_nb / 2 ^ ml_nb in
    let (offset, next) = compute_offset ov ll r in
    (record { literal_length = ll; offset = offset; match_length = ml }, next)

abbrev pub unpack_sequences : Reps → List PackedSeq → List Sequence × Reps
unpack_sequences r [] = ([], r)
unpack_sequences r (p ∷ ps) =
    let (s, r1) = unpack_sequence r p in let (ss, r2) = unpack_sequences r1 ps in (s ∷ ss, r2)

-- What the match finders emit: lengths that have codes, and a nonzero 32-bit offset.
pub record IsCodable (s : Sequence) : Type 0 where
  pub ll_lt : s.literal_length < 2 ^ 17
  pub ml_ge : 3 ≤ s.match_length
  pub ml_lt : s.match_length < 2 ^ 17 + 3
  pub offset_pos : 0 < s.offset
  pub offset_lt : s.offset + 3 < 2 ^ 32

-- The code of an offset value is its highest bit.
of_code_lem :
    (ov : ℕ)
    → 0 < ov
    → ov < 2 ^ 32
    → (of_code ov ≤ 31) × (2 ^ of_code ov ≤ ov) × (ov < 2 * 2 ^ of_code ov)
unfolding of_code
of_code_lem ov pos lt =
    let z : ℕ = leading_zeros 32 ov in
    let (zl, lo, hi) = leading_zeros_lem 32 ov pos lt in
    let same : u8 (31 - z) ≡ 31 - z = omega arith in
    (
      omega arith,
      omega (arith, lo, pow_cong (u8 (31 - z)) (32 - 1 - z) (omega (arith, same))),
      omega (
        arith,
        hi,
        pow_cong (32 - z) (u8 (31 - z) + 1) (omega (arith, same, zl)),
        pow-add (u8 (31 - z)) 1,
      ),
    )

fields_lt : (a b x y : ℕ) → a < 2 ^ x → b < 2 ^ y → a + b * 2 ^ x < 2 ^ (x + y)
fields_lt a b x y ha hb =
    let e = pow-add x y in
    let top : b * 2 ^ x + 2 ^ x ≤ 2 ^ x * 2 ^ y = grind (arith, pow_pos x) in omega arith

-- The three fields of extra bits do not overlap and fit 64 bits.
extra_sum :
    (a b c x y z : ℕ)
    → a < 2 ^ x
    → b < 2 ^ y
    → c < 2 ^ z
    → x ≤ 16
    → y ≤ 16
    → z ≤ 31
    → bit_or (bit_or a (u64 (b <<< x))) (u64 (c <<< (x + y))) ≡ a + (b + c * 2 ^ y) * 2 ^ x
extra_sum a b c x y z ha hb hc hx hy hz =
    let low = fields_lt a b x y ha hb in
    let all = fields_lt (a + b * 2 ^ x) c (x + y) z low hc in
    let top : 2 ^ (x + y + z) ≤ 2 ^ 63 = pow_mono (x + y + z) 63 (omega arith) in
    let b_fits : u64 (b <<< x) ≡ b * 2 ^ x = omega arith in
    let c_fits : u64 (c <<< (x + y)) ≡ c * 2 ^ (x + y) = omega arith in
    ap₂ bit_or (ap (bit_or a) b_fits ∙ bit_or_low x a b ha) c_fits
    ∙ bit_or_low (x + y) (a + b * 2 ^ x) c low
    ∙ omega (arith, ap (λ (t : ℕ). c * t) (pow-add x y))

-- The decoder's values from the three fields.
abbrev decoded : Reps → ℕ → ℕ → ℕ → Sequence × Reps
decoded r ll ml ov = (
  record { literal_length = ll; offset = (compute_offset ov ll r).0; match_length = ml },
  (compute_offset ov ll r).1,
)

unpack_fields :
    (r : Reps) (p : PackedSeq) (c ll ml ov : ℕ) (l m : CodeSplit)
    → IsSplit ll_bits_table ll_baseline_table 36 ll l
    → IsSplit ml_bits_table ml_baseline_table 53 ml m
    → p.ll_code ≡ l.code
    → p.ml_code ≡ m.code
    → p.extra_bits ≡ l.extra + (m.extra + c * 2 ^ m.nb) * 2 ^ l.nb
    → 2 ^ p.of_code_ + c ≡ ov
    → unpack_sequence r p ≡ decoded r ll ml ov
unpack_fields r p c ll ml ov l m hl hm el em ex eo =
    let x : ℕ = p.extra_bits in
    let ll_nb : get_or ll_bits_table p.ll_code 0 ≡ l.nb =
      ap (λ (k : ℕ). get_or ll_bits_table k 0) el ∙ sym hl.nb_eq in
    let ml_nb : get_or ml_bits_table p.ml_code 0 ≡ m.nb =
      ap (λ (k : ℕ). get_or ml_bits_table k 0) em ∙ sym hm.nb_eq in
    let (up, low) = add-mul_pow_fields l.nb l.extra (m.extra + c * 2 ^ m.nb) hl.extra_lt in
    let (top, mid) = add-mul_pow_fields m.nb m.extra c hm.extra_lt in
    let low' : x % 2 ^ get_or ll_bits_table p.ll_code 0 ≡ l.extra =
      ap₂ (λ (v k : ℕ). v % 2 ^ k) ex ll_nb ∙ low in
    let up' : x / 2 ^ get_or ll_bits_table p.ll_code 0 ≡ m.extra + c * 2 ^ m.nb =
      ap₂ (λ (v k : ℕ). v / 2 ^ k) ex ll_nb ∙ up in
    let mid' : x / 2 ^ get_or ll_bits_table p.ll_code 0 % 2 ^ get_or ml_bits_table p.ml_code 0
        ≡ m.extra =
      ap₂ (λ (v k : ℕ). v % 2 ^ k) up' ml_nb ∙ mid in
    let top' : x / 2 ^ get_or ll_bits_table p.ll_code 0 / 2 ^ get_or ml_bits_table p.ml_code 0 ≡ c =
      ap₂ (λ (v k : ℕ). v / 2 ^ k) up' ml_nb ∙ top in
    let ll_eq : get_or ll_baseline_table p.ll_code 0 + x % 2 ^ get_or ll_bits_table p.ll_code 0
        ≡ ll =
      ap₂ (λ (k v : ℕ). get_or ll_baseline_table k 0 + v) el low' ∙ hl.back in
    let ml_eq : get_or ml_baseline_table p.ml_code 0
          + x / 2 ^ get_or ll_bits_table p.ll_code 0 % 2 ^ get_or ml_bits_table p.ml_code 0
        ≡ ml =
      ap₂ (λ (k v : ℕ). get_or ml_baseline_table k 0 + v) em mid' ∙ hm.back in
    let ov_eq : 2 ^ p.of_code_
          + x / 2 ^ get_or ll_bits_table p.ll_code 0 / 2 ^ get_or ml_bits_table p.ml_code 0
        ≡ ov =
      ap (λ (v : ℕ). 2 ^ p.of_code_ + v) top' ∙ eo in
    ap₂
      (λ (u v : ℕ). decoded r u v (
        2 ^ p.of_code_
        + x / 2 ^ get_or ll_bits_table p.ll_code 0 / 2 ^ get_or ml_bits_table p.ml_code 0))
      ll_eq ml_eq
    ∙ ap (decoded r ll ml) ov_eq

module _ (r : Reps) (s : Sequence) (pos : 0 < r.rep0) (lt : r.rep0 < 2 ^ 32) (h : IsCodable s) where
  unpack_sequence-pack_sequence :
      unpack_sequence r (pack_sequence r s).0 ≡ (s, (pack_sequence r s).1)
  unfolding pack_sequence
  unpack_sequence-pack_sequence =
      let l : CodeSplit = ll_split s.literal_length in
      let m : CodeSplit = ml_split s.match_length in
      let hl = ll_split-IsSplit s.literal_length h.ll_lt in
      let hm = ml_split-IsSplit s.match_length h.ml_ge h.ml_lt in
      let ov : ℕ = pick_offset_value r (s.literal_length == 0) s.offset in
      let (op, ole) = pick_offset_value-bounds r (s.literal_length == 0) s.offset h.offset_pos in
      let (o31, olo, ohi) = of_code_lem ov op (omega (arith, ole, h.offset_lt)) in
      unpack_fields r (pack_sequence r s).0 (ov - (1 <<< of_code ov)) s.literal_length
        s.match_length ov l m hl hm refl refl
        (extra_sum l.extra m.extra (ov - (1 <<< of_code ov)) l.nb m.nb (of_code ov) hl.extra_lt
          hm.extra_lt (omega (arith, olo, ohi)) hl.nb_le hm.nb_le o31)
        (omega (arith, olo))
      ∙ ap
          (λ (t : ℕ × Reps). (
            record {
              literal_length = s.literal_length;
              offset = t.0;
              match_length = s.match_length;
            },
            t.1,
          ))
          (compute_offset-pick_offset_value r s.literal_length s.offset pos lt h.offset_pos
            h.offset_lt)

-- Sequences whose lengths have codes and whose offsets are nonzero and at most 2^32 - 4 are packed
-- so that the decoder's tables and offset rule give back every one of them in order, from the same
-- repeat offsets, the first of which is a nonzero 32-bit number; both sides end with the same ones.
pub unpack_sequences-pack_sequences :
    (r : Reps) (ss : List Sequence)
    → 0 < r.rep0
    → r.rep0 < 2 ^ 32
    → All IsCodable ss
    → unpack_sequences r (pack_sequences r ss).0 ≡ (ss, (pack_sequences r ss).1)
unfolding pack_sequences
unpack_sequences-pack_sequences r [] pos lt h = refl
unpack_sequences-pack_sequences r (s ∷ ss) pos lt (h, hs) =
    let one = unpack_sequence-pack_sequence r s pos lt h in
    let next : Reps = (pack_sequence r s).1 in
    let first : next.rep0 ≡ s.offset = unfold pack_sequence in shift_reps-rep0 _ _ _ _ in
    let rest =
      unpack_sequences-pack_sequences next ss (omega (arith, first, h.offset_pos))
        (omega (arith, first, h.offset_lt)) hs in
    ap
      (λ (t : Sequence × Reps). (
        t.0 ∷ (unpack_sequences t.1 (pack_sequences next ss).0).0,
        (unpack_sequences t.1 (pack_sequences next ss).0).1,
      ))
      one
    ∙ ap (λ (t : List Sequence × Reps). (s ∷ t.0, t.1)) rest
