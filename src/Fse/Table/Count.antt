-- ===== src/Fse/Table/Count.antt =====
-- What the counting loop leaves: the counters of the symbols, and the cells of the rare ones.
use zrip.Common.{ℕ, zero, suc, ◌+◌, ◌-◌, ◌^◌, ◌<◌, ◌≤◌, ◌≡◌, refl, ap, ◌∙◌, arith}
use zrip.Common.{bit_and, false, Bool-cases, inl, inr, ltb, ltb→lt, ltb→ge, ◌==◌}
use zrip.Common.{List, [], ◌∷◌, length, get_or, set, get_or-set, get_or-set_cases, length-set}
use zrip.Common.{ok, bad_fse_table, ok-injective, err-absurd}
use zrip.Common.Bits.{bit_and_mask}
use zrip.Common.Powers.{pow_pos, pow_mono}
use zrip.Common.Words.{u8, u16}
use zrip.Common.Integers.{ℤ, pos, negsuc}
use zrip.Fse.Table.{Counted, count_symbol, count_symbols, set_symbol, positive}
use zrip.Fse.Table.Spread.{positive_sum, symbol_at, length-set_symbol, set_symbol-keeps}
use mathlib.Core.Path.{transport, subst}
use native.Mathlib.Nat.{mod-eq_of_lt}

-- The cells that a probability takes: -1 takes one, and a number below that none.
abbrev pub taken_of : ℤ → ℕ
taken_of (pos n) = n
taken_of (negsuc zero) = 1
taken_of (negsuc (suc n)) = 0

abbrev pub taken : List ℤ → ℕ
taken [] = 0
taken (prob ∷ probs) = taken_of prob + taken probs

-- The counters and the table before symbol `s`.
pub record Count (n s : ℕ) (c : Counted) : Type 0 where
  pub long : length c.table ≡ 2 ^ n
  pub wide : length c.next ≡ 256
  pub small : (j : ℕ) → get_or c.next j 0 ≤ 2 ^ n
  pub high : c.high_threshold < 2 ^ n
  pub marked :
      (i : ℕ)
      → c.high_threshold < i
      → i < 2 ^ n
      → (symbol_at c.table i < s) × (0 < get_or c.next (symbol_at c.table i) 0)

index_of : (s : ℕ) → s < 256 → bit_and s 255 ≡ s
index_of s h = bit_and_mask 8 s ∙ mod-eq_of_lt h

-- A counter written for symbol `s` changes no other.
write_other :
    (next : List ℕ) (s v j : ℕ)
    → s < 256
    → j < s
    → get_or (set next (bit_and s 255) v) j 0 ≡ get_or next j 0
write_other next s v j h k = elim (get_or-set_cases next (bit_and s 255) v j 0) [
  | inl (e, f) ↦ absurd (omega (arith, e, index_of s h))
  | inr f ↦ f
]

write_here :
    (next : List ℕ) (s v : ℕ)
    → length next ≡ 256
    → s < 256
    → get_or (set next (bit_and s 255) v) s 0 ≡ v
write_here next s v wide h =
    ap (λ (t : ℕ). get_or (set next t v) s 0) (index_of s h)
    ∙ get_or-set next s v 0 (omega (arith, wide))

write_small :
    (next : List ℕ) (i v j b : ℕ)
    → v ≤ b
    → ((k : ℕ) → get_or next k 0 ≤ b)
    → get_or (set next i v) j 0 ≤ b
write_small next i v j b h g = elim (get_or-set_cases next i v j 0) [
  | inl (e, f) ↦ omega (arith, f)
  | inr f ↦ omega (arith, f, g j)
]

module _ (n s : ℕ) (few : s < 256) where
  common_Count :
      (v total : ℕ) (c : Counted)
      → v ≤ 2 ^ n
      → Count n s c
      → Count n (s + 1) (record {
        next = set c.next (bit_and s 255) v;
        high_threshold = c.high_threshold;
        total = total;
        table = c.table;
      })
  common_Count v total c small k = record {
    long = k.long;
    wide = length-set c.next (bit_and s 255) v ∙ k.wide;
    small = λ j. write_small c.next (bit_and s 255) v j (2 ^ n) small k.small;
    high = k.high;
    marked = λ i a b.
        let (below, counted) = k.marked i a b in
        (
          omega (arith, below),
          omega (arith, counted, write_other c.next s v (symbol_at c.table i) few below),
        );
  }

  rare_Count :
      (total : ℕ) (c : Counted)
      → 0 < c.high_threshold
      → Count n s c
      → Count n (s + 1) (record {
        next = set c.next (bit_and s 255) (u16 0 + 1);
        high_threshold = c.high_threshold - 1;
        total = total;
        table = set_symbol c.table (bit_and c.high_threshold (2 ^ n - 1)) (u8 s);
      })
  rare_Count total c more k =
      let at : bit_and c.high_threshold (2 ^ n - 1) ≡ c.high_threshold =
        bit_and_mask n c.high_threshold ∙ mod-eq_of_lt k.high in
      let sym_s : u8 s ≡ s = mod-eq_of_lt few in
      let next : List ℕ = set c.next (bit_and s 255) 1 in
      let here : (u8 s < s + 1) × (0 < get_or next (u8 s) 0) = (
        omega (arith, sym_s),
        omega (arith, ap (λ (t : ℕ). get_or next t 0) sym_s, write_here c.next s 1 k.wide few),
      ) in
      record {
        long = length-set_symbol c.table _ (u8 s) ∙ k.long;
        wide = length-set c.next (bit_and s 255) 1 ∙ k.wide;
        small =
            λ j. write_small c.next (bit_and s 255) 1 j (2 ^ n) (omega (arith, pow_pos n)) k.small;
        high = omega (arith, k.high);
        marked = λ i a b.
            set_symbol-keeps (λ x. (x < s + 1) × (0 < get_or next x 0)) c.table _ (u8 s) i
              (omega (arith, at, k.high, k.long)) here
              (elim (Bool-cases (ltb c.high_threshold i)) [
                | inr e ↦ inl (omega (arith, at, a, ltb→ge c.high_threshold i e))
                | inl e ↦
                    let (below, counted) = k.marked i (ltb→lt c.high_threshold i e) b in
                    inr (
                      omega (arith, below),
                      omega
                          (arith, counted, write_other c.next s 1 (symbol_at c.table i) few below),
                    )
              ]);
      }

-- What the whole loop returns from symbol `s` on.
pub record Counting (n s : ℕ) (probs : List ℤ) (c c' : Counted) : Type 0 where
  pub count : Count n (s + length probs) c'
  pub totals : c'.total ≡ c.total + positive_sum probs
  pub spent : c'.high_threshold + taken probs ≡ c.high_threshold + positive_sum probs
  pub before : (j : ℕ) → j < s → get_or c'.next j 0 ≡ get_or c.next j 0
  pub owned : (i : ℕ) → 0 < positive (get_or probs i (pos 0)) → 0 < get_or c'.next (s + i) 0

-- A symbol's own step, in front of the rest.
cons_Counting :
    (n s v : ℕ) (prob : ℤ) (probs : List ℤ) (c c1 c' : Counted)
    → s < 256
    → length c.next ≡ 256
    → c1.next ≡ set c.next (bit_and s 255) v
    → (0 < positive prob → 0 < v)
    → c1.total ≡ c.total + positive prob
    → c1.high_threshold + taken (prob ∷ []) ≡ c.high_threshold + positive prob
    → taken (prob ∷ probs) ≡ taken (prob ∷ []) + taken probs
    → Counting n (s + 1) probs c1 c'
    → Counting n s (prob ∷ probs) c c'
cons_Counting n s v prob probs c c1 c' few wide e own total high split r = record {
  count =
      transport
        (ap (λ (t : ℕ). Count n t c')
          (let f : s + 1 + length probs ≡ s + suc (length probs) = omega arith in f))
        r.count;
  totals = omega (arith, r.totals, total);
  spent = omega (arith, r.spent, high, split);
  before = λ j h.
      r.before j (omega (arith, h)) ∙ ap (λ t. get_or t j 0) e ∙ write_other c.next s v j few h;
  owned = owned_at;
}
  where
    owned_at :
        (i : ℕ) → 0 < positive (get_or (prob ∷ probs) i (pos 0)) → 0 < get_or c'.next (s + i) 0
    owned_at zero q = omega (
      arith,
      own q,
      ap (λ (t : ℕ). get_or c'.next t 0) (let f : s + 0 ≡ s = omega arith in f),
      r.before s (omega arith),
      ap (λ t. get_or t s 0) e,
      write_here c.next s v wide few,
    )
    owned_at (suc i) q = omega (
      arith,
      r.owned i q,
      ap (λ (t : ℕ). get_or c'.next t 0) (let f : s + suc i ≡ s + 1 + i = omega arith in f),
    )

pub count_symbols-Counting :
    (n s : ℕ) (probs : List ℤ) (c c' : Counted)
    → n ≤ 14
    → s + length probs ≤ 256
    → taken probs ≤ 2 ^ n
    → Count n s c
    → count_symbols (2 ^ n - 1) s probs c ≡ ok c'
    → Counting n s probs c c'
unfolding count_symbols count_symbol
count_symbols-Counting n s [] c c' narrow fits room k e =
    subst (λ t. Counting n s [] c t) (ok-injective c c' e)
      (record {
        count = transport (ap (λ (t : ℕ). Count n t c) (let f : s ≡ s + 0 = omega arith in f)) k;
        totals = omega arith;
        spent = omega arith;
        before = λ j h. refl;
        owned = λ i q. absurd (omega arith);
      })
count_symbols-Counting n s (pos m ∷ probs) c c' narrow fits room k e =
    let few : s < 256 = omega arith in
    let same : u16 m ≡ m = mod-eq_of_lt (omega (arith, room, pow_mono n 14 narrow)) in
    cons_Counting n s (u16 m + 0) (pos m) probs c _ c' few k.wide refl (λ q. omega (arith, same))
      refl (omega arith) (omega arith)
      (count_symbols-Counting n (s + 1) probs _ c' narrow (omega arith) (omega arith)
        (common_Count n s few (u16 m + 0) (c.total + m) c (omega (arith, same)) k) e)
count_symbols-Counting n s (negsuc zero ∷ probs) c c' narrow fits room k e =
    elim (Bool-cases (c.high_threshold == 0)) [
      | inl z ↦ err-absurd bad_fse_table c' (rw z at e)
      | inr z ↦
          let few : s < 256 = omega arith in
          cons_Counting n s (u16 0 + 1) (negsuc zero) probs c _ c' few k.wide refl
            (λ q. omega arith) (omega arith) (ground arith) (omega arith)
            (count_symbols-Counting n (s + 1) probs _ c' narrow (omega arith) (omega arith)
              (rare_Count n s few (c.total + 0) c (ground arith) k) (rw z at e))
    ]
count_symbols-Counting n s (negsuc (suc m) ∷ probs) c c' narrow fits room k e =
    let not_rare : (suc m == 0) ≡ false = ground arith in
    let few : s < 256 = omega arith in
    cons_Counting n s (u16 0 + 0) (negsuc (suc m)) probs c _ c' few k.wide refl (λ q. q)
      (omega arith) (omega arith) (omega arith)
      (count_symbols-Counting n (s + 1) probs _ c' narrow (omega arith) (omega arith)
        (common_Count n s few (u16 0 + 0) (c.total + 0) c (omega arith) k) (rw not_rare at e))
