-- ===== src/Output/Refine.antt =====
-- The bytes in a slice sink, against those of a vector.
use zrip.Common.{
  ℕ, zero, suc, ◌+◌, ◌≤◌, ◌<◌, ◌≡◌, refl, ap, ◌∙◌, arith, List, [], ◌∷◌, ◌++◌, length, take, set,
}
use zrip.Common.{
  ◌⊎◌, leb, ltb, copy_from_slice, length-copy_from_slice, take-copy_from_slice, none, some,
  Bool-cases, inl, inr,
}
use zrip.Common.{ltb→ge, ltb→lt, leb→gt, leb→le, length-set}
use zrip.Output.{SliceSink, push, extend_from_slice}

-- The bytes written so far.
abbrev pub written : SliceSink → List ℕ
written s = take s.pos s.output

take-set :
    (xs : List ℕ) (i : ℕ) (v : ℕ)
    → i < length xs
    → take (i + 1) (set xs i v) ≡ take i xs ++ (v ∷ [])
take-set [] i v h = absurd (omega arith)
take-set (x ∷ xs) zero v h = refl
take-set (x ∷ xs) (suc i) v h =
    ap (λ (n : ℕ). take n (set (x ∷ xs) (suc i) v))
      (let e : suc i + 1 ≡ suc (i + 1) = omega arith in e)
    ∙ ap (λ t. x ∷ t) (take-set xs i v (omega arith))

-- A push either finds no room and fails, or appends the byte to what was written and keeps the
-- slice's length.
pub push-written :
    (s : SliceSink) (byte : ℕ)
    → ((length s.output ≤ s.pos) × (push s byte ≡ none))
      ⊎ ((s' : SliceSink) × (push s byte ≡ some s')
          × (written s' ≡ written s ++ (byte ∷ []))
          × (length s'.output ≡ length s.output))
unfolding push
push-written s byte = elim (Bool-cases (leb (length s.output) s.pos)) [
  | inl e ↦ inl (leb→le _ _ e, rw e)
  | inr e ↦ inr (
    record { output = set s.output s.pos byte; pos = s.pos + 1 },
    rw e,
    take-set s.output s.pos byte (leb→gt _ _ e),
    length-set s.output s.pos byte,
  )
]

-- A slice either does not fit behind what was written and fails, or is appended to it, and the
-- length of the sink's slice is kept.
pub extend_from_slice-written :
    (s : SliceSink) (source : List ℕ)
    → ((length s.output < s.pos + length source) × (extend_from_slice s source ≡ none))
      ⊎ ((s' : SliceSink) × (extend_from_slice s source ≡ some s')
          × (written s' ≡ written s ++ source)
          × (length s'.output ≡ length s.output))
unfolding extend_from_slice
extend_from_slice-written s source =
    let end : ℕ = s.pos + length source in
    elim (Bool-cases (ltb (length s.output) end)) [
      | inl e ↦ inl (ltb→lt _ _ e, rw e)
      | inr e ↦
          let room = ltb→ge _ _ e in
          inr (
            record { output = copy_from_slice s.output s.pos source; pos = end },
            rw e,
            take-copy_from_slice s.output s.pos source room,
            length-copy_from_slice s.output s.pos source room,
          )
    ]
