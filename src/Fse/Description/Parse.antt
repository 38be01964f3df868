-- ===== src/Fse/Description/Parse.antt =====
-- What the parser of a table description accepts.
use zrip.Common.{ℕ, zero, suc, ◌+◌, ◌-◌, ◌*◌, ◌/◌, ◌<◌, ◌≤◌, min, ◌≡◌, refl, ap, ◌∙◌, arith}
use zrip.Common.{bit_and, ◌&&◌, Bool, false, Bool-cases, inl, inr, ltb, ltb→ge, ◌==◌}
use zrip.Common.{List, [], ◌∷◌, length, get_or, set, take, replicate, length-set}
use zrip.Common.{Option, none, some, Result, get_or-set_cases, ok, >>=-ok, ok-injective, err-absurd}
use zrip.Common.{bad_fse_table, input_exhausted, if◌then◌else◌}
use zrip.Common.Bits.{bit_and_mask}
use zrip.Common.Words.{u64, ◌>>>◌}
use zrip.Common.Integers.{ℤ, pos}
use zrip.Bitstream.Reader.{BitReader, window_at}
use zrip.Fse.Description.{
  Probs, trailing_ones, repeat_zeros, finished, prob_of, size_of, read_count, narrow, put_prob,
  skip_zeros,
}
use mathlib.Core.Path.{subst}
use zrip.Fse.Description.{parse_prob, parse_probs}
use zrip.Fse.Table.Count.{taken_of, taken}
use native.Mathlib.Nat.{mod-eq_of_lt}

taken_of-prob_of : (count : ℕ) → taken_of (prob_of count) ≡ size_of count
taken_of-prob_of count = elim (Bool-cases (count == 0)) [ inl e ↦ rw e refl | inr e ↦ rw e refl ]

taken-set :
    (ps : List ℤ) (i count : ℕ)
    → i < length ps
    → get_or ps i (pos 0) ≡ pos 0
    → taken (set ps i (prob_of count)) ≡ taken ps + size_of count
taken-set [] i count h z = absurd (omega arith)
taken-set (p ∷ ps) zero count h z = omega (arith, ap taken_of z, taken_of-prob_of count)
taken-set (p ∷ ps) (suc i) count h z = omega (arith, taken-set ps i count (omega arith) z)

pub taken-zeros : (n : ℕ) → taken (replicate n (pos 0)) ≡ 0
taken-zeros zero = refl
taken-zeros (suc n) = omega (arith, taken-zeros n)

pub get_zeros : (n i : ℕ) → get_or (replicate n (pos 0)) i (pos 0) ≡ pos 0
get_zeros zero i = refl
get_zeros (suc n) zero = refl
get_zeros (suc n) (suc i) = get_zeros n i

-- The zeros that are cut off take no cell.
pub taken-take :
    (m : ℕ) (ps : List ℤ)
    → ((j : ℕ) → m ≤ j → get_or ps j (pos 0) ≡ pos 0)
    → taken (take m ps) ≡ taken ps
taken-take zero [] h = refl
taken-take zero (p ∷ ps) h =
    omega
      (arith, ap taken_of (h 0 (omega arith)), taken-take zero ps (λ j q. h (suc j) (omega arith)))
taken-take (suc m) [] h = refl
taken-take (suc m) (p ∷ ps) h = omega (arith, taken-take m ps (λ j q. h (suc j) (omega (arith, q))))

repeat_zeros-le :
    (reader : BitReader) (end max_len fuel run bit n : ℕ) (p : ℕ × ℕ)
    → n ≤ max_len
    → repeat_zeros reader end max_len fuel run bit n ≡ some (ok p)
    → (n ≤ p.1) × (p.1 ≤ max_len)
unfolding repeat_zeros finished
repeat_zeros-le reader end max_len zero run bit n p h e =
    err-absurd input_exhausted p (ap finished e)
repeat_zeros-le reader end max_len (suc fuel) run bit n p h e =
    let threes : ℕ = trailing_ones 64 run / 2 in
    elim (Bool-cases (ltb threes 16)) [
      | inl few ↦ elim (Bool-cases (ltb end (bit + 2 * threes + 2))) [
        | inl past ↦ err-absurd input_exhausted p (ap finished (rw (few, repeat_zeros, past) at e))
        | inr fits ↦
            let is =
              ap (λ t. t.1) (ok-injective _ p (ap finished (rw (few, repeat_zeros, fits) at e))) in
            (omega (arith, is), omega (arith, is))
      ]
      | inr many ↦ elim (Bool-cases (ltb end (bit + 32))) [
        | inl past ↦ err-absurd input_exhausted p (ap finished (rw (many, repeat_zeros, past) at e))
        | inr fits ↦
            let (a, b) =
              repeat_zeros-le reader end max_len fuel (window_at reader (bit + 32)) (bit + 32)
                (min (n + 48) max_len) p (omega arith) (rw (many, repeat_zeros, fits) at e) in
            (omega (arith, a), b)
      ]
    ]

-- The description so far: what is out and what remains fill the table, and nothing is out from the
-- next symbol on.
pub record Parsed (size max_len : ℕ) (st : Probs) : Type 0 where
  pub filled : taken st.out + st.remaining ≡ size + 1
  pub wide : length st.out ≡ 256
  pub blank : (j : ℕ) → st.n ≤ j → get_or st.out j (pos 0) ≡ pos 0
  pub within : st.n ≤ max_len

narrow-Parsed :
    (size max_len : ℕ) (st : Probs) → Parsed size max_len st → Parsed size max_len (narrow st)
unfolding narrow
narrow-Parsed size max_len st h =
    elim (Bool-cases (ltb st.remaining st.threshold && ltb 1 st.remaining)) [
      | inl e ↦ rw e record { filled = h.filled; wide = h.wide; blank = h.blank; within = h.within }
      | inr e ↦ rw e h
    ]

n-narrow : (st : Probs) → (let st' = narrow st in st'.n) ≡ st.n
unfolding narrow
n-narrow st = elim (Bool-cases (ltb st.remaining st.threshold && ltb 1 st.remaining)) [
  | inl e ↦ rw e refl
  | inr e ↦ rw e refl
]

n-put : (st : Probs) (count : ℕ) (p : ℕ × ℕ) → (let st' = put_prob st count p in st'.n) ≡ p.1
unfolding put_prob
n-put st count (bit, n) = refl

-- A probability written behind the others.
put-Parsed :
    (size max_len count bit n : ℕ) (st : Probs)
    → max_len ≤ 256
    → st.n < max_len
    → size_of count ≤ st.remaining
    → st.n < n
    → n ≤ max_len
    → Parsed size max_len st
    → Parsed size max_len (put_prob st count (bit, n))
unfolding put_prob
put-Parsed size max_len count bit n st fits more enough later below h =
    let at : bit_and st.n 255 ≡ st.n =
      bit_and_mask 8 st.n ∙ mod-eq_of_lt (omega (arith, more, fits)) in
    record {
      filled =
          ap (λ (i : ℕ). taken (set st.out i (prob_of count)) + (st.remaining - size_of count)) at
          ∙ omega (
            arith,
            taken-set st.out st.n count (omega (arith, more, fits, h.wide))
                (h.blank st.n (omega arith)),
            enough,
            h.filled,
          );
      wide = length-set st.out (bit_and st.n 255) (prob_of count) ∙ h.wide;
      blank = λ j a. elim (get_or-set_cases st.out (bit_and st.n 255) (prob_of count) j (pos 0)) [
        | inl (e, f) ↦ absurd (omega (arith, e, at, a, later))
        | inr f ↦ f ∙ h.blank j (omega (arith, a, later))
      ];
      within = below;
    }

finished-ok : (r : Option (Result (ℕ × ℕ))) (p : ℕ × ℕ) → finished r ≡ ok p → r ≡ some (ok p)
unfolding finished
finished-ok none p e = err-absurd input_exhausted p e
finished-ok (some r) p e = ap some e

skip_zeros-le :
    (reader : BitReader) (end max_len count run bit n : ℕ) (p : ℕ × ℕ)
    → n ≤ max_len
    → skip_zeros reader end max_len count run bit n ≡ ok p
    → (n ≤ p.1) × (p.1 ≤ max_len)
unfolding skip_zeros
skip_zeros-le reader end max_len count run bit n p h e = elim (Bool-cases (count == 1)) [
  | inl one ↦
      repeat_zeros-le reader end max_len (end / 32 + 1) run bit n p h
        (finished-ok (repeat_zeros reader end max_len (end / 32 + 1) run bit n) p (rw one at e))
  | inr other ↦
      let is = ap (λ t. t.1) (ok-injective (bit, n) p (rw other at e)) in
      (omega (arith, is), omega (arith, is))
]

parse_prob-Parsed :
    (reader : BitReader) (size end max_len : ℕ) (st st' : Probs)
    → max_len ≤ 256
    → st.n < max_len
    → Parsed size max_len st
    → parse_prob reader end max_len st ≡ ok st'
    → Parsed size max_len st' × (st.n < st'.n)
unfolding parse_prob
parse_prob-Parsed reader size end max_len st st' fits more h e =
    let window : ℕ = window_at reader st.bit in
    let read : Bool × ℕ = read_count window st.threshold st.remaining in
    let used : ℕ = st.nb_bits - 1 + (if read.0 then 1 else 0) in
    let bit : ℕ = st.bit + used in
    elim (Bool-cases (ltb end bit)) [
      | inl past ↦ err-absurd input_exhausted st' (rw past at e)
      | inr inside ↦ elim (Bool-cases (ltb st.remaining (size_of read.1))) [
        | inl over ↦ err-absurd bad_fse_table st' (rw (inside, over) at e)
        | inr enough ↦
            let (p, zeros, made) =
              >>=-ok (skip_zeros reader end max_len read.1 (u64 window >>> used) bit (st.n + 1))
                (λ p. ok (narrow (put_prob st read.1 p))) st' (rw (inside, enough) at e) in
            let (later, below) =
              skip_zeros-le reader end max_len read.1 (u64 window >>> used) bit (st.n + 1) p
                (omega (arith, more)) zeros in
            let is = ok-injective (narrow (put_prob st read.1 p)) st' made in
            let put =
              put-Parsed size max_len read.1 p.0 p.1 st fits more
                (ltb→ge st.remaining (size_of read.1) enough) (omega (arith, later)) below h in
            (
              subst (Parsed size max_len) is
                  (narrow-Parsed size max_len (put_prob st read.1 p) put),
              omega (
                arith,
                ap (λ t. t.n) is,
                n-narrow (put_prob st read.1 p),
                later,
                n-put st read.1 p,
              ),
            )
      ]
    ]

-- With as much fuel as there are symbols left, the loop ends where its test fails.
pub parse_probs-Parsed :
    (reader : BitReader) (size end max_len fuel : ℕ) (st st' : Probs)
    → max_len ≤ 256
    → max_len ≤ st.n + fuel
    → Parsed size max_len st
    → parse_probs reader end max_len fuel st ≡ ok st'
    → Parsed size max_len st' × ((ltb 1 st'.remaining && ltb st'.n max_len) ≡ false)
unfolding parse_probs
parse_probs-Parsed reader size end max_len zero st st' fits enough h e =
    subst (λ t. Parsed size max_len t × ((ltb 1 t.remaining && ltb t.n max_len) ≡ false))
      (ok-injective st st' e) (h, ground (arith, enough))
parse_probs-Parsed reader size end max_len (suc fuel) st st' fits enough h e =
    elim (Bool-cases (ltb 1 st.remaining && ltb st.n max_len)) [
      | inr stop ↦
          subst (λ t. Parsed size max_len t × ((ltb 1 t.remaining && ltb t.n max_len) ≡ false))
            (ok-injective st st' (rw (stop, parse_probs) at e)) (h, stop)
      | inl go ↦
          let (st1, one, rest) =
            >>=-ok (parse_prob reader end max_len st) (λ t. parse_probs reader end max_len fuel t)
              st' (rw (go, parse_probs) at e) in
          let (h1, later) =
            parse_prob-Parsed reader size end max_len st st1 fits (ground arith) h one in
          parse_probs-Parsed reader size end max_len fuel st1 st' fits
            (omega (arith, later, enough)) h1 rest
    ]
