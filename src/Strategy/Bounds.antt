-- ===== src/Strategy/Bounds.antt =====
-- The logarithms that the encoder allocates and shifts by.
use zrip.Common.{ℕ, ◌-◌, ◌^◌, ◌≤◌, ◌<◌, ◌≡◌, ◌⊎◌, refl, sym, ap, ◌∙◌, arith, min, true, ◌&&◌}
use zrip.Common.{Option, none, some, Bool-cases, inl, inr, leb, ltb, Option-cases, leb→le, leb→gt}
use zrip.Common.Powers.{leading_zeros_lem, pow_cong}
use zrip.Common.{Bool, false, passes_below_lem}
use zrip.Common.Integers.{ℤ, pos, negsuc}
use zrip.Strategy.Levels.{LevelParams, level_params_inner}
use zrip.Strategy.{
  set_strength, clamp, clamp_logs, fit_logs, small_input, small_input_search, Search, apply_search,
  tuned, src_log,
}
use zrip.Strategy.{
  level_params_for_size, short_input_search_strength, raw_literals_limit, usize_max,
}

-- What every parameter set keeps to.
pub record InBounds (p : LevelParams) : Type 0 where
  pub hash_log_ge : 6 ≤ p.hash_log
  pub hash_log_le : p.hash_log ≤ 30
  pub chain_log_ge : 6 ≤ p.chain_log
  pub chain_log_le : p.chain_log ≤ 30
  pub window_log_le : p.window_log ≤ 27

clamp_logs-InBounds : (p : LevelParams) → InBounds (clamp_logs p)
unfolding clamp_logs clamp
clamp_logs-InBounds p = record {
  hash_log_ge = omega arith;
  hash_log_le = omega arith;
  chain_log_ge = omega arith;
  chain_log_le = omega arith;
  window_log_le = omega arith;
}

fit_logs-InBounds : (n : ℕ) (p : LevelParams) → InBounds p → InBounds (fit_logs n p)
unfolding fit_logs
fit_logs-InBounds n p h = elim (Bool-cases (leb 2 n && ltb n usize_max)) [
  | inr e ↦ rw e h
  | inl e ↦ rw e (record {
    hash_log_ge = omega arith;
    hash_log_le = omega (arith, h.hash_log_le);
    chain_log_ge = omega arith;
    chain_log_le = omega (arith, h.chain_log_le);
    window_log_le = omega (arith, h.window_log_le);
  })
]

-- The small-input search leaves the logarithms alone.
abbrev Same : LevelParams → LevelParams → Type 0
Same p q = (q.hash_log ≡ p.hash_log) × (q.chain_log ≡ p.chain_log) × (q.window_log ≡ p.window_log)

apply_search-Same : (s : Option Search) (p : LevelParams) → Same p (apply_search s p)
unfolding apply_search
apply_search-Same none p = (refl, refl, refl)
apply_search-Same (some s) p = (refl, refl, refl)

small_input-Same :
    (level : ℤ) (limit : Option ℕ) (n : ℕ) (p : LevelParams) → Same p (small_input level limit n p)
unfolding small_input
small_input-Same level none n p = (refl, refl, refl)
small_input-Same level (some limit) n p = elim (Bool-cases (leb n limit)) [
  | inr e ↦ rw e (refl, refl, refl)
  | inl e ↦
      rw e (apply_search-Same (small_input_search level) (record p { force_raw_literals = true }))
]

Same-InBounds : (p q : LevelParams) → Same p q → InBounds p → InBounds q
Same-InBounds p q (a, b, c) h = record {
  hash_log_ge = omega (arith, a, h.hash_log_ge);
  hash_log_le = omega (arith, a, h.hash_log_le);
  chain_log_ge = omega (arith, b, h.chain_log_ge);
  chain_log_le = omega (arith, b, h.chain_log_le);
  window_log_le = omega (arith, c, h.window_log_le);
}

tuned-InBounds : (level : ℤ) (n : ℕ) (p : LevelParams) → InBounds (tuned level n p)
unfolding tuned
tuned-InBounds level n p =
    let q : LevelParams = clamp_logs (set_strength (short_input_search_strength level n) p) in
    Same-InBounds (fit_logs n q) _
      (small_input-Same level (raw_literals_limit level) n (fit_logs n q))
      (fit_logs-InBounds n q (clamp_logs-InBounds _))

-- The bits of a length address it.
src_log-covers : (n : ℕ) → 2 ≤ n → n < 2 ^ 64 → n ≤ 2 ^ src_log n
unfolding src_log
src_log-covers n low high =
    omega (arith, (leading_zeros_lem 64 (n - 1) (omega arith) (omega arith)).2)

-- What is left of the window: all that the clamped level asks for, or enough for the input.
fit_logs-covers :
    (n : ℕ) (p : LevelParams)
    → 2 ≤ n
    → n < usize_max
    → ((fit_logs n p).window_log ≡ p.window_log) ⊎ (n ≤ 2 ^ (fit_logs n p).window_log)
unfolding fit_logs
fit_logs-covers n p low high = elim (Bool-cases (leb 2 n && ltb n usize_max)) [
  | inr e ↦ rw e (inl refl)
  | inl e ↦ rw e (elim (Bool-cases (leb p.window_log (src_log n))) [
    | inl f ↦ inl (omega (arith, leb→le _ _ f))
    | inr f ↦ inr (
        omega (
          arith,
          src_log-covers n low (omega arith),
          pow_cong (src_log n) (min p.window_log (src_log n)) (omega (arith, leb→gt _ _ f)),
        ))
  ])
]

set_strength_window :
    (o : Option ℕ) (p : LevelParams) → (set_strength o p).window_log ≡ p.window_log
unfolding set_strength
set_strength_window none p = refl
set_strength_window (some x) p = refl

some-inj : (d a b : LevelParams) → some a ≡ some b → a ≡ b
some-inj d a b e = ap (λ o. elim o [ none ↦ d | some x ↦ x ]) e

-- The parameters that a level gives for an input length, if any: the table logarithms lie in 6..=30
-- and the window logarithm is at most 27.
pub level_params_for_size-InBounds :
    (level : ℤ) (src_len : ℕ) (p : LevelParams)
    → level_params_for_size level src_len ≡ some p
    → InBounds p
unfolding level_params_for_size
level_params_for_size-InBounds level src_len p e = elim (Option-cases (level_params_inner level)) [
  | inl z ↦ absurd (ground (arith, rw (z, level_params_for_size) at e))
  | inr (q, z) ↦
      let same : tuned level src_len q ≡ p = some-inj p _ p (rw (z, level_params_for_size) at e) in
      Same-InBounds (tuned level src_len q) p
        (
          sym (ap (λ (t : LevelParams). t.hash_log) same),
          sym (ap (λ (t : LevelParams). t.chain_log) same),
          sym (ap (λ (t : LevelParams). t.window_log) same),
        )
        (tuned-InBounds level src_len q)
]

-- The levels from -8 to 4.
abbrev pub IsLevel : ℤ → Type 0
IsLevel (pos n) = n ≤ 4
IsLevel (negsuc n) = n ≤ 7

is_some : Option LevelParams → Bool
is_some none = false
is_some (some q) = true

is_some_lem : (o : Option LevelParams) → is_some o ≡ true → (q : LevelParams) × (o ≡ some q)
unfolding is_some
is_some_lem none e = absurd (ground (arith, e))
is_some_lem (some q) e = (q, refl)

level_params_inner-some :
    (level : ℤ) → IsLevel level → (q : LevelParams) × (level_params_inner level ≡ some q)
unfolding level_params_inner is_some
level_params_inner-some (pos n) h =
    is_some_lem _
      (passes_below_lem (λ n. is_some (level_params_inner (pos n))) 5 n refl (omega (arith, h)))
level_params_inner-some (negsuc n) h =
    is_some_lem _
      (passes_below_lem (λ n. is_some (level_params_inner (negsuc n))) 8 n refl (omega (arith, h)))

-- Every level from -8 to 4 has parameters of its own and gives parameters for every input length of 2
-- up to below 2^64 - 1, and their window is the level's own, clamped to 10..=27, or it holds the whole
-- input.
pub level_params_for_size-covers :
    (level : ℤ) (src_len : ℕ)
    → IsLevel level
    → 2 ≤ src_len
    → src_len < usize_max
    → (q : LevelParams) × (p : LevelParams) × (level_params_inner level ≡ some q)
      × (level_params_for_size level src_len ≡ some p)
      × ((p.window_log ≡ clamp 10 27 q.window_log) ⊎ (src_len ≤ 2 ^ p.window_log))
unfolding level_params_for_size tuned clamp_logs
level_params_for_size-covers level src_len known low high =
    let (q, e) = level_params_inner-some level known in
    let strong : LevelParams = set_strength (short_input_search_strength level src_len) q in
    let fitted : LevelParams = fit_logs src_len (clamp_logs strong) in
    let (a, b, c) = small_input-Same level (raw_literals_limit level) src_len fitted in
    let own : strong.window_log ≡ q.window_log =
      set_strength_window (short_input_search_strength level src_len) q in
    (
      q,
      small_input level (raw_literals_limit level) src_len fitted,
      e,
      rw (e, level_params_for_size),
      elim (fit_logs-covers src_len (clamp_logs strong) low high) [
        | inl f ↦ inl (c ∙ f ∙ ap (clamp 10 27) own)
        | inr f ↦ inr (omega (arith, f, pow_cong _ _ c))
      ],
    )
