-- ===== src/Fse/Table/Fast.antt =====
-- The two fast ways to spread, against the loop that skips.
use zrip.Common.{ℕ, zero, suc, ◌+◌, ◌-◌, ◌*◌, ◌%◌, ◌^◌, ◌<◌, ◌≤◌, ◌≡◌, refl, sym, ap, ap₂, ◌∙◌}
use zrip.Common.{arith, bit_and, ge→ltb}
use zrip.Common.{List, [], ◌∷◌, ◌++◌, length, replicate}
use zrip.Common.Bits.{bit_and_mask}
use zrip.Common.Powers.{pow_pos}
use zrip.Common.Words.{u8}
use zrip.Common.Integers.{ℤ}
use zrip.Fse.Table.{
  FseDecodeEntry, set_symbol, skip_high, place_skipping, spread_skipping, positive,
}
use zrip.Fse.Table.{place_plain, spread_plain, scatter}
use zrip.Fse.Table.Skip.{skip_high-stop}
use native.Mathlib.Nat.{mod-eq_of_lt, mod-lt, mod-add-mod}

-- The symbols in order, each as often as it has cells.
abbrev pub flat : ℕ → List ℤ → List ℕ
flat s [] = []
flat s (prob ∷ probs) = replicate (positive prob) (u8 s) ++ flat (s + 1) probs

abbrev pub walk : ℕ → ℕ → List ℕ → ℕ × List FseDecodeEntry → ℕ × List FseDecodeEntry
walk mask step [] st = st
walk mask step (x ∷ xs) (position, table) =
    walk mask step xs (bit_and (position + step) mask, set_symbol table position x)

walk-append :
    (mask step : ℕ) (xs ys : List ℕ) (st : ℕ × List FseDecodeEntry)
    → walk mask step (xs ++ ys) st ≡ walk mask step ys (walk mask step xs st)
walk-append mask step [] ys st = refl
walk-append mask step (x ∷ xs) ys (position, table) = walk-append mask step xs ys _

place_plain-walk :
    (mask step s n : ℕ) (st : ℕ × List FseDecodeEntry)
    → place_plain mask step s n st ≡ walk mask step (replicate n (u8 s)) st
unfolding place_plain
place_plain-walk mask step s zero st = refl
place_plain-walk mask step s (suc n) (position, table) = place_plain-walk mask step s n _

pub spread_plain-walk :
    (mask step s : ℕ) (probs : List ℤ) (st : ℕ × List FseDecodeEntry)
    → spread_plain mask step s probs st ≡ walk mask step (flat s probs) st
unfolding spread_plain
spread_plain-walk mask step s [] st = refl
spread_plain-walk mask step s (prob ∷ probs) st =
    spread_plain-walk mask step (s + 1) probs _
    ∙ ap (walk mask step (flat (s + 1) probs)) (place_plain-walk mask step s (positive prob) st)
    ∙ sym (walk-append mask step (replicate (positive prob) (u8 s)) (flat (s + 1) probs) st)

module _ (n step : ℕ) where
  -- With every cell low, nothing is skipped.
  skip_high-none :
      (x : ℕ)
      → skip_high (2 ^ n - 1 + 1) (2 ^ n - 1) step (2 ^ n - 1) (bit_and x (2 ^ n - 1))
        ≡ bit_and x (2 ^ n - 1)
  skip_high-none x =
      let low : bit_and x (2 ^ n - 1) ≤ 2 ^ n - 1 =
        omega (arith, bit_and_mask n x, mod-lt x (pow_pos n)) in
      ap (λ (t : ℕ). skip_high t (2 ^ n - 1) step (2 ^ n - 1) (bit_and x (2 ^ n - 1)))
        (let e : 2 ^ n - 1 + 1 ≡ suc (2 ^ n - 1) = omega arith in e)
      ∙ skip_high-stop (2 ^ n - 1) (2 ^ n - 1) step (2 ^ n - 1) (bit_and x (2 ^ n - 1))
          (ge→ltb (2 ^ n - 1) (bit_and x (2 ^ n - 1)) low)

  place_skipping-plain :
      (s count : ℕ) (st : ℕ × List FseDecodeEntry)
      → place_plain (2 ^ n - 1) step s count st
        ≡ place_skipping (2 ^ n - 1) step (2 ^ n - 1) s count st
  unfolding place_plain place_skipping
  place_skipping-plain s zero st = refl
  place_skipping-plain s (suc count) (position, table) =
      rw (skip_high-none (position + step)) (place_skipping-plain s count _)

  pub spread_skipping-plain :
      (s : ℕ) (probs : List ℤ) (st : ℕ × List FseDecodeEntry)
      → spread_plain (2 ^ n - 1) step s probs st
        ≡ spread_skipping (2 ^ n - 1) step (2 ^ n - 1) s probs st
  unfolding spread_plain spread_skipping
  spread_skipping-plain s [] st = refl
  spread_skipping-plain s (prob ∷ probs) st =
      spread_skipping-plain (s + 1) probs _
      ∙ ap (spread_skipping (2 ^ n - 1) step (2 ^ n - 1) (s + 1) probs)
          (place_skipping-plain s (positive prob) st)

  two_steps :
      (x : ℕ)
      → bit_and (x + 2 * step) (2 ^ n - 1)
        ≡ bit_and (bit_and (x + step) (2 ^ n - 1) + step) (2 ^ n - 1)
  two_steps x =
      bit_and_mask n (x + 2 * step)
      ∙ ap (λ (t : ℕ). t % 2 ^ n) (let e : x + 2 * step ≡ x + step + step = omega arith in e)
      ∙ sym (mod-add-mod (x + step) (2 ^ n) step)
      ∙ ap (λ (t : ℕ). (t + step) % 2 ^ n) (sym (bit_and_mask n (x + step)))
      ∙ sym (bit_and_mask n (bit_and (x + step) (2 ^ n - 1) + step))

  pub scatter-walk :
      (m : ℕ) (xs : List ℕ) (position : ℕ) (table : List FseDecodeEntry)
      → length xs ≡ 2 * m
      → position < 2 ^ n
      → scatter (2 ^ n - 1) step xs (position, table) ≡ walk (2 ^ n - 1) step xs (position, table)
  unfolding scatter
  scatter-walk m [] position table e h = refl
  scatter-walk m (a ∷ []) position table e h = absurd (omega arith)
  scatter-walk m (a ∷ b ∷ xs) position table e h =
      let stay : bit_and position (2 ^ n - 1) ≡ position =
        bit_and_mask n position ∙ mod-eq_of_lt h in
      let inside : bit_and (position + 2 * step) (2 ^ n - 1) < 2 ^ n =
        omega
          (arith, bit_and_mask n (position + 2 * step), mod-lt (position + 2 * step) (pow_pos n)) in
      scatter-walk (m - 1) xs _ _ (omega arith) inside
      ∙ ap₂
          (λ (p q : ℕ).
            walk (2 ^ n - 1) step xs
              (p, set_symbol (set_symbol table q a) (bit_and (position + step) (2 ^ n - 1)) b))
          (two_steps position) stay
