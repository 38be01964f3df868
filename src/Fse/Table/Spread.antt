-- ===== src/Fse/Table/Spread.antt =====
-- What the loop that skips the cells of the rare symbols leaves in the table, followed along the
-- walk over the cells.
use zrip.Common.{ℕ, zero, suc, ◌+◌, ◌-◌, ◌%◌, ◌^◌, ◌<◌, ◌≤◌, ◌≡◌, refl, sym, ap, ap₂, ◌∙◌}
use mathlib.Core.Path.{transport}
use zrip.Common.{arith, bit_and, Bool-cases, inl, inr, ◌⊎◌, ◌==◌, ==→eq, ltb, ltb→lt, ltb→ge}
use zrip.Common.{List, [], ◌∷◌, length, get_or}
use zrip.Common.Powers.{pow_pos}
use zrip.Common.Words.{u8}
use zrip.Common.Integers.{ℤ, pos}
use zrip.Fse.Table.{FseDecodeEntry, zero_entry, set_symbol, skip_high, place_skipping, positive}
use zrip.Fse.Table.{spread_skipping}
use zrip.Fse.Table.Cycle.{cell_at, cell_at-lt, cell_at-suc, cell_at-onto, cell_at-zero}
use zrip.Fse.Table.Skip.{skip_high-enough}

-- How many cells the symbols that are not rare take.
abbrev pub positive_sum : List ℤ → ℕ
positive_sum [] = 0
positive_sum (prob ∷ probs) = positive prob + positive_sum probs

abbrev pub symbol_at : List FseDecodeEntry → ℕ → ℕ
symbol_at table c = let e = get_or table c zero_entry in e.symbol

pub length-set_symbol :
    (table : List FseDecodeEntry) (i s : ℕ) → length (set_symbol table i s) ≡ length table
length-set_symbol [] i s = refl
length-set_symbol (e ∷ es) zero s = refl
length-set_symbol (e ∷ es) (suc i) s = ap suc (length-set_symbol es i s)

pub symbol_at-set_symbol :
    (table : List FseDecodeEntry) (i s : ℕ)
    → i < length table
    → symbol_at (set_symbol table i s) i ≡ s
symbol_at-set_symbol [] i s h = absurd (omega arith)
symbol_at-set_symbol (e ∷ es) zero s h = refl
symbol_at-set_symbol (e ∷ es) (suc i) s h = symbol_at-set_symbol es i s (omega arith)

pub symbol_at-set_symbol_other :
    (table : List FseDecodeEntry) (i s j : ℕ)
    → (i ≡ j) ⊎ (symbol_at (set_symbol table i s) j ≡ symbol_at table j)
symbol_at-set_symbol_other [] i s j = inr refl
symbol_at-set_symbol_other (e ∷ es) zero s zero = inl refl
symbol_at-set_symbol_other (e ∷ es) zero s (suc j) = inr refl
symbol_at-set_symbol_other (e ∷ es) (suc i) s zero = inr refl
symbol_at-set_symbol_other (e ∷ es) (suc i) s (suc j) = elim (symbol_at-set_symbol_other es i s j) [
  | inl e ↦ inl (ap suc e)
  | inr e ↦ inr e
]

-- A property of a written symbol, at the written cell and at the others.
pub set_symbol-keeps {ℓ} :
    (P : ℕ → Type ℓ) (table : List FseDecodeEntry) (i s j : ℕ)
    → i < length table
    → P s
    → ((i ≡ j) ⊎ P (symbol_at table j))
    → P (symbol_at (set_symbol table i s) j)
set_symbol-keeps P table i s j h p q =
    let here = transport (ap P (sym (symbol_at-set_symbol table i s h))) p in
    let moved =
      λ (e : i ≡ j). transport (ap (λ t. P (symbol_at (set_symbol table i s) t)) e) here in
    elim (symbol_at-set_symbol_other table i s j) [
      | inl e ↦ moved e
      | inr e ↦ elim q [ inl f ↦ moved f | inr f ↦ transport (ap P (sym e)) f ]
    ]

module _ {ℓ} (P : ℕ → Type ℓ) (n step high : ℕ) (odd : step % 2 ≡ 1) where
  -- After `k` steps of the walk: the table, with `P` of the symbols in the high cells and of those
  -- written.
  pub record Walked (k position : ℕ) (table : List FseDecodeEntry) : Type ℓ where
    pub at : position ≡ cell_at n step k
    pub low : cell_at n step k ≤ high
    pub long : length table ≡ 2 ^ n
    pub done : (j : ℕ) → j < k → cell_at n step j ≤ high → P (symbol_at table (cell_at n step j))
    pub rest : (c : ℕ) → high < c → c < 2 ^ n → P (symbol_at table c)

  place-Walked :
      (k position s : ℕ) (table : List FseDecodeEntry)
      → P s
      → Walked k position table
      → (k' : ℕ) × (k < k')
        × Walked k'
            (skip_high
              (2 ^ n - 1 + 1)
              (2 ^ n - 1)
              step
              high
              (bit_and (position + step) (2 ^ n - 1)))
            (set_symbol table position s)
  place-Walked k position s table p w =
      let f = skip_high-enough n step high odd (suc k) in
      let inside : position < length table = omega (arith, w.at, w.long, cell_at-lt n step k) in
      (
        f.steps,
        f.later,
        record {
          at =
              ap₂ (λ (fuel p : ℕ). skip_high fuel (2 ^ n - 1) step high p)
                (omega (arith, pow_pos n))
                (ap (λ (p : ℕ). bit_and (p + step) (2 ^ n - 1)) w.at ∙ cell_at-suc n step k)
              ∙ f.at;
          low = f.low;
          long = length-set_symbol table position s ∙ w.long;
          done = λ j a b.
              set_symbol-keeps P table position s (cell_at n step j) inside p
                (elim (Bool-cases (ltb j k)) [
                  | inl e ↦ inr (w.done j (ltb→lt j k e) b)
                  | inr e ↦ elim (Bool-cases (j == k)) [
                    | inl z ↦ inl (w.at ∙ ap (cell_at n step) (sym (==→eq j k z)))
                    | inr z ↦ absurd (omega (arith, b, f.before j (ground arith) a))
                  ]
                ]);
          rest = λ c a b. set_symbol-keeps P table position s c inside p (inr (w.rest c a b));
        },
      )

  place_skipping-Walked :
      (count k s : ℕ) (st : ℕ × List FseDecodeEntry)
      → (0 < count → P (u8 s))
      → Walked k st.0 st.1
      → (k' : ℕ) × (k + count ≤ k')
        × (let out = place_skipping (2 ^ n - 1) step high s count st in Walked k' out.0 out.1)
  unfolding place_skipping
  place_skipping-Walked zero k s st p w = (k, omega arith, w)
  place_skipping-Walked (suc count) k s (position, table) p w =
      let (k1, a, w1) = place-Walked k position (u8 s) table (p (omega arith)) w in
      let (k2, b, w2) = place_skipping-Walked count k1 s _ (λ q. p (omega arith)) w1 in
      (k2, omega (arith, a, b), w2)

  -- Every symbol with cells of its own has `P`.
  pub spread_skipping-Walked :
      (probs : List ℤ) (k s : ℕ) (st : ℕ × List FseDecodeEntry)
      → ((i : ℕ) → 0 < positive (get_or probs i (pos 0)) → P (u8 (s + i)))
      → Walked k st.0 st.1
      → (k' : ℕ) × (k + positive_sum probs ≤ k')
        × (let out = spread_skipping (2 ^ n - 1) step high s probs st in Walked k' out.0 out.1)
  unfolding spread_skipping
  spread_skipping-Walked [] k s st p w = (k, omega arith, w)
  spread_skipping-Walked (prob ∷ probs) k s st p w =
      let first : P (u8 s) ≡ P (u8 (s + 0)) = ap (λ (t : ℕ). P (u8 t)) (omega arith) in
      let (k1, a, w1) =
        place_skipping-Walked (positive prob) k s st (λ q. transport (sym first) (p 0 q)) w in
      let next = λ (i : ℕ) (q : 0 < positive (get_or probs i (pos 0))).
        transport (ap (λ (t : ℕ). P (u8 t)) (let e : s + suc i ≡ s + 1 + i = omega arith in e))
          (p (suc i) q) in
      let (k2, b, w2) = spread_skipping-Walked probs k1 (s + 1) _ next w1 in
      (k2, omega (arith, a, b), w2)

  -- Back at cell 0, every cell has a symbol with `P`.
  pub Walked-full :
      (k : ℕ) (st : ℕ × List FseDecodeEntry)
      → 0 < k
      → Walked k st.0 st.1
      → st.0 ≡ 0
      → (c : ℕ) → c < 2 ^ n
      → P (symbol_at st.1 c)
  Walked-full k st p w e c h = elim (Bool-cases (ltb high c)) [
    | inl f ↦ w.rest c (ltb→lt high c f) h
    | inr f ↦
        let (j, small, g) = cell_at-onto n step c odd h in
        let passed = cell_at-zero n step k odd p (omega (arith, w.at, e)) in
        transport (ap (λ (t : ℕ). P (symbol_at st.1 t)) g)
          (w.done j (omega (arith, small, passed)) (omega (arith, g, ltb→ge high c f)))
  ]
