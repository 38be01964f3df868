-- ===== src/Fse/Table/Agree.antt =====
-- The three ways to spread agree.
use zrip.Common.{ℕ, zero, suc, ◌+◌, ◌-◌, ◌*◌, ◌/◌, ◌^◌, ◌≤◌, ◌≡◌, refl, sym, ap, ◌∙◌}
use zrip.Common.{arith, ◌&&◌, Bool-cases, inl, inr, leb, ◌==◌, ==→eq}
use zrip.Common.{List, [], ◌∷◌, length, take, replicate, length-replicate}
use zrip.Common.{length-append}
use zrip.Common.Powers.{pow_pos}
use zrip.Common.Words.{u8, ◌>>>◌}
use zrip.Common.Integers.{ℤ}
use zrip.Fse.Table.{FseDecodeEntry, Counted, positive, spread_symbols}
use zrip.Fse.Table.{spread_skipping, scatter, lay_down}
use zrip.Fse.Table.Spread.{positive_sum}
use zrip.Fse.Table.Fast.{flat, walk, spread_plain-walk, spread_skipping-plain, scatter-walk}
use zrip.Fse.Table.Lay.{take-lay_down}
use native.Mathlib.Nat.{pow-suc}

-- `step`, by the size of the table.
abbrev pub step_of : ℕ → ℕ
step_of table_size = (table_size >>> 1) + (table_size >>> 3) + 3

length-flat : (s : ℕ) (probs : List ℤ) → length (flat s probs) ≡ positive_sum probs
length-flat s [] = refl
length-flat s (prob ∷ probs) = omega (
  arith,
  length-append (replicate (positive prob) (u8 s)) (flat (s + 1) probs),
  length-replicate (positive prob) (u8 s),
  length-flat (s + 1) probs,
)

even_pow : (n : ℕ) → 32 ≤ 2 ^ n → 2 ^ n ≡ 2 * (2 ^ n / 2)
even_pow zero h = absurd (omega arith)
even_pow (suc n) h = omega (arith, pow-suc 2 n)

scatter-plain :
    (n : ℕ) (probs : List ℤ) (table : List FseDecodeEntry)
    → 32 ≤ 2 ^ n
    → 2 ^ n ≤ 512
    → positive_sum probs ≡ 2 ^ n
    → scatter
        (2 ^ n - 1)
        (step_of (2 ^ n))
        (take (2 ^ n) (lay_down 0 0 probs (replicate 520 0)))
        (0, table)
      ≡ walk (2 ^ n - 1) (step_of (2 ^ n)) (flat 0 probs) (0, table)
scatter-plain n probs table low high sum =
    let laid : take (2 ^ n) (lay_down 0 0 probs (replicate 520 0)) ≡ flat 0 probs =
      ap (λ (t : ℕ). take t (lay_down 0 0 probs (replicate 520 0)))
        (let e : 2 ^ n ≡ 0 + positive_sum probs = omega (arith, sum) in e)
      ∙ take-lay_down probs 0 0 (replicate 520 0)
          (omega (arith, sum, high, length-replicate {A = ℕ} 520 0)) in
    ap (λ t. scatter (2 ^ n - 1) (step_of (2 ^ n)) t (0, table)) laid
    ∙ scatter-walk n (step_of (2 ^ n)) (2 ^ n / 2) (flat 0 probs) 0 table
        (omega (arith, length-flat 0 probs, sum, even_pow n low)) (pow_pos n)

-- Where `total` counts the cells of the positive probabilities, the scatter of the symbols laid down
-- eight bytes at a time, the plain loop and the loop that skips the cells of the rare symbols give
-- the same table and end at the same position, whichever the code takes.
pub spread_symbols-spread_skipping :
    (n : ℕ) (distribution : List ℤ) (c : Counted)
    → c.total ≡ positive_sum distribution
    → spread_symbols (2 ^ n) distribution c
      ≡ spread_skipping (2 ^ n - 1) (step_of (2 ^ n)) c.high_threshold 0 distribution (0, c.table)
unfolding spread_symbols
spread_symbols-spread_skipping n distribution c total =
    let step : ℕ = step_of (2 ^ n) in
    elim (Bool-cases (c.high_threshold == 2 ^ n - 1)) [
      | inr e ↦ rw e refl
      | inl e ↦
          let all_low : c.high_threshold ≡ 2 ^ n - 1 = ==→eq c.high_threshold (2 ^ n - 1) e in
          let plain =
            spread_skipping-plain n step 0 distribution (0, c.table)
            ∙ ap (λ (t : ℕ). spread_skipping (2 ^ n - 1) step t 0 distribution (0, c.table))
                (sym all_low) in
          let fast = (leb 32 (2 ^ n) && leb (2 ^ n) 512) && c.total == 2 ^ n in
          elim (Bool-cases fast) [
            | inr f ↦ rw (e, f) plain
            | inl f ↦
                rw (e, f)
                  (scatter-plain n distribution c.table (ground arith) (ground arith) (ground arith)
                    ∙ sym (spread_plain-walk (2 ^ n - 1) step 0 distribution (0, c.table))
                    ∙ plain)
          ]
    ]
