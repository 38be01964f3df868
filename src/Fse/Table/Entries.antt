-- ===== src/Fse/Table/Entries.antt =====
-- The bits and the base line of every cell, as the last loop computes them.
use zrip.Common.{ℕ, suc, ◌+◌, ◌-◌, ◌*◌, ◌^◌, ◌<◌, ◌≤◌, ◌≡◌, refl, ap, ◌∙◌, arith}
use zrip.Common.{Bool-cases, inl, inr, List, [], ◌∷◌, length, get_or, get_or-set_cases}
use zrip.Common.{set, All, leb, leb→le, leb→gt}
use zrip.Common.Powers.{pow_mono, pow-add, pow_cong, leading_zeros_lem}
use zrip.Common.Words.{u8, u16, leading_zeros}
use zrip.Fse.Table.{FseDecodeEntry, fill_entries, high_bit}
use native.Mathlib.Nat.{mod-eq_of_lt, mod-le, pow-suc, mul-le-mul_right}

-- Whatever bits are read, the next state is a cell of the table.
pub record InTable (n : ℕ) (e : FseDecodeEntry) : Type 0 where
  pub few_bits : e.num_bits ≤ n
  pub inside : e.base_line + 2 ^ e.num_bits ≤ 2 ^ n

high_bit_lem : (v : ℕ) → 0 < v → v < 2 ^ 32 → (2 ^ high_bit v ≤ v) × (v < 2 ^ suc (high_bit v))
unfolding high_bit
high_bit_lem v p h =
    let (a, b, c) = leading_zeros_lem 32 v p h in
    (
      b,
      omega (
        arith,
        c,
        pow_cong (32 - leading_zeros 32 v) (suc (31 - leading_zeros 32 v)) (omega (arith, a)),
      ),
    )

entry-InTable :
    (n v s : ℕ)
    → n ≤ 14
    → 0 < v
    → v < 2 ^ suc n
    → InTable n (record {
      base_line = u16 (v * 2 ^ (n - high_bit v) - 2 ^ n);
      num_bits = u8 (n - high_bit v);
      symbol = s;
    })
entry-InTable n v s small p h =
    let (low, high) = high_bit_lem v p (omega (arith, h, pow_mono (suc n) 32 (omega arith))) in
    let top : high_bit v ≤ n = elim (Bool-cases (leb (high_bit v) n)) [
      | inl e ↦ leb→le (high_bit v) n e
      | inr e ↦
          absurd (omega (arith, low, h, pow_mono (suc n) (high_bit v) (leb→gt (high_bit v) n e)))
    ] in
    let nb : ℕ = n - high_bit v in
    let whole : 2 ^ n ≡ 2 ^ nb * 2 ^ high_bit v =
      pow_cong n (nb + high_bit v) (omega (arith, top)) ∙ pow-add nb (high_bit v) in
    let bits : u8 nb ≡ nb = mod-eq_of_lt (omega arith) in
    let above : (v + 1) * 2 ^ nb ≤ 2 * 2 ^ n = omega (
      arith,
      mul-le-mul_right (2 ^ nb) high,
      whole,
      ap (λ (t : ℕ). t * 2 ^ nb) (pow-suc 2 (high_bit v)),
    ) in
    let under : 2 ^ n ≤ v * 2 ^ nb = omega (arith, mul-le-mul_right (2 ^ nb) low, whole) in
    record {
      few_bits = omega (arith, bits);
      inside =
          omega
            (arith, above, under, pow_cong (u8 nb) nb bits, mod-le (v * 2 ^ nb - 2 ^ n) (2 ^ 16));
    }

-- The counters stay below `b` and positive where they were.
bump-le :
    (next : List ℕ) (i j b : ℕ)
    → ((s : ℕ) → get_or next s 0 ≤ b)
    → get_or (set next i (u16 (get_or next i 0 + 1))) j 0 ≤ b + 1
bump-le next i j b h = elim (get_or-set_cases next i (u16 (get_or next i 0 + 1)) j 0) [
  | inl (e, f) ↦ omega (arith, f, mod-le (get_or next i 0 + 1) (2 ^ 16), h i)
  | inr f ↦ omega (arith, f, h j)
]

bump-pos :
    (next : List ℕ) (i j : ℕ)
    → get_or next i 0 + 1 < 2 ^ 16
    → 0 < get_or next j 0
    → 0 < get_or (set next i (u16 (get_or next i 0 + 1))) j 0
bump-pos next i j small p = elim (get_or-set_cases next i (u16 (get_or next i 0 + 1)) j 0) [
  | inl (e, f) ↦ omega (arith, f, mod-eq_of_lt small)
  | inr f ↦ omega (arith, f, p)
]

abbrev pub Counts : List ℕ → FseDecodeEntry → Type 0
Counts next e = 0 < get_or next e.symbol 0

bump-All :
    (next : List ℕ) (i : ℕ) (es : List FseDecodeEntry)
    → get_or next i 0 + 1 < 2 ^ 16
    → All (Counts next) es
    → All (Counts (set next i (u16 (get_or next i 0 + 1)))) es
bump-All next i [] small h = tt
bump-All next i (e ∷ es) small (p, h) =
    (bump-pos next i e.symbol small p, bump-All next i es small h)

pub fill_entries-InTable :
    (n b : ℕ) (next : List ℕ) (es : List FseDecodeEntry)
    → n ≤ 14
    → ((s : ℕ) → get_or next s 0 ≤ b)
    → b + length es ≤ 2 * 2 ^ n
    → All (Counts next) es
    → All (InTable n) (fill_entries n next es)
unfolding fill_entries
fill_entries-InTable n b next [] small h room c = tt
fill_entries-InTable n b next (e ∷ es) small h room (p, c) =
    let v : ℕ = get_or next e.symbol 0 in
    let below : v + 1 ≤ 2 * 2 ^ n = omega (arith, h e.symbol, room) in
    let fits : v + 1 < 2 ^ 16 = omega (arith, below, pow_mono n 14 small) in
    (
      entry-InTable n v e.symbol small p (omega (arith, below, pow-suc 2 n)),
      fill_entries-InTable n (b + 1) _ es small (λ s. bump-le next e.symbol s b h)
          (omega (arith, room)) (bump-All next e.symbol es fits c),
    )

pub length-fill_entries :
    (n : ℕ) (es : List FseDecodeEntry) (next : List ℕ) → length (fill_entries n next es) ≡ length es
unfolding fill_entries
length-fill_entries n [] next = refl
length-fill_entries n (e ∷ es) next =
    ap suc (length-fill_entries n es (set next e.symbol (u16 (get_or next e.symbol 0 + 1))))

-- The loop keeps the symbols.
pub symbols-fill_entries :
    (n m : ℕ) (es : List FseDecodeEntry) (next : List ℕ)
    → All (λ e. e.symbol < m) es
    → All (λ e. e.symbol < m) (fill_entries n next es)
unfolding fill_entries
symbols-fill_entries n m [] next h = tt
symbols-fill_entries n m (e ∷ es) next (p, h) =
    (p, symbols-fill_entries n m es (set next e.symbol (u16 (get_or next e.symbol 0 + 1))) h)
