-- ===== src/Fse/Description/Fuel.antt =====
-- The fuel of the repeat codes.
use zrip.Common.{ℕ, zero, suc, ◌+◌, ◌-◌, ◌*◌, ◌/◌, ◌<◌, ◌≤◌, min, ◌≡◌, refl, ap, ◌∙◌, arith}
use zrip.Common.{true, false, Bool-cases, inl, inr, ltb, lt→ltb, some, Result, ok, err}
use zrip.Common.{if◌then◌else◌, bit_and, input_exhausted}
use zrip.Common.Words.{◌>>>◌}
use zrip.Bitstream.Reader.{BitReader, window_at}
use zrip.Fse.Description.{trailing_ones, repeat_zeros}

-- The first round, by the two tests that it makes.
module _ (reader : BitReader) (end max_len fuel run bit n : ℕ) where
  few_lem :
      ltb (trailing_ones 64 run / 2) 16 ≡ true
      → repeat_zeros reader end max_len (suc fuel) run bit n
        ≡ some (
            let threes = trailing_ones 64 run / 2 in
            let last = bit_and (run >>> (2 * threes)) 3 in
            if ltb end (bit + 2 * threes + 2)
            then err input_exhausted
            else ok (bit + 2 * threes + 2, min (n + 3 * threes + last) max_len))
  unfolding repeat_zeros
  few_lem few = rw (few, repeat_zeros) refl

  past_lem :
      ltb (trailing_ones 64 run / 2) 16 ≡ false
      → ltb end (bit + 32) ≡ true
      → repeat_zeros reader end max_len (suc fuel) run bit n ≡ some (err input_exhausted)
  unfolding repeat_zeros
  past_lem many past = rw (many, repeat_zeros, past) refl

  more_lem :
      ltb (trailing_ones 64 run / 2) 16 ≡ false
      → ltb end (bit + 32) ≡ false
      → repeat_zeros reader end max_len (suc fuel) run bit n
        ≡ repeat_zeros reader end max_len fuel
            (window_at reader (bit + 32))
            (bit + 32)
            (min (n + 48) max_len)
  unfolding repeat_zeros
  more_lem many fits = rw (many, repeat_zeros, fits) refl

repeat_zeros-some :
    (reader : BitReader) (end max_len rounds run bit n : ℕ)
    → end < bit + 32 * rounds + 32
    → (r : Result (ℕ × ℕ)) × ((fuel : ℕ)
        → rounds ≤ fuel
        → repeat_zeros reader end max_len (suc fuel) run bit n ≡ some r)
repeat_zeros-some reader end max_len zero run bit n h =
    elim (Bool-cases (ltb (trailing_ones 64 run / 2) 16)) [
      | inl few ↦ (_, λ fuel q. few_lem reader end max_len fuel run bit n few)
      | inr many ↦ (
        _,
        λ fuel q.
            past_lem reader end max_len fuel run bit n many
              (lt→ltb end (bit + 32) (omega (arith, h))),
      )
    ]
repeat_zeros-some reader end max_len (suc rounds) run bit n h =
    elim (Bool-cases (ltb (trailing_ones 64 run / 2) 16)) [
      | inl few ↦ (_, λ fuel q. few_lem reader end max_len fuel run bit n few)
      | inr many ↦ elim (Bool-cases (ltb end (bit + 32))) [
        | inl past ↦ (_, λ fuel q. past_lem reader end max_len fuel run bit n many past)
        | inr fits ↦
            let (r, ends) =
              repeat_zeros-some reader end max_len rounds (window_at reader (bit + 32)) (bit + 32)
                (min (n + 48) max_len) (omega (arith, h)) in
            (
              r,
              λ fuel q.
                  more_lem reader end max_len fuel run bit n many fits
                  ∙ ap
                      (λ (f : ℕ).
                        repeat_zeros reader end max_len f (window_at reader (bit + 32)) (bit + 32)
                          (min (n + 48) max_len))
                      (let e : fuel ≡ suc (fuel - 1) = omega (arith, q) in e)
                  ∙ ends (fuel - 1) (omega (arith, q)),
            )
      ]
    ]

-- The loop over the repeat codes ends: with as much fuel as the parser gives it, one more than the
-- input has windows of 32 bits, it has a result, and with any larger fuel it has the same one.
pub repeat_zeros-ends :
    (reader : BitReader) (end max_len run bit n : ℕ)
    → (r : Result (ℕ × ℕ)) × ((fuel : ℕ)
        → end / 32 + 1 ≤ fuel
        → repeat_zeros reader end max_len fuel run bit n ≡ some r)
repeat_zeros-ends reader end max_len run bit n =
    let (r, ends) = repeat_zeros-some reader end max_len (end / 32) run bit n (omega arith) in
    (
      r,
      λ fuel q.
          ap (λ (f : ℕ). repeat_zeros reader end max_len f run bit n)
            (let e : fuel ≡ suc (fuel - 1) = omega (arith, q) in e)
          ∙ ends (fuel - 1) (omega (arith, q)),
    )
