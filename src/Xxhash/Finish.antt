-- ===== src/Xxhash/Finish.antt =====
-- `finish`, which walks its buffer by an offset, against `xxh64`, which cuts bytes off a slice.
use zrip.Common.{ℕ, zero, suc, ◌+◌, ◌*◌, ◌≤◌, ◌<◌, ◌≡◌, refl, sym, ap, ap₂, ◌∙◌}
use zrip.Common.{
  List, [], ◌∷◌, ◌++◌, length, take, drop, arith, append_assoc, append-nil, length-append,
}
use zrip.Common.{Bool, length-drop, drop-append, drop-drop, get_or, leb, ltb, if◌then◌else◌}
use zrip.Common.{Bool-cases, inl, inr, leb→le, leb→gt, ltb→lt, ltb→ge, le→leb, gt→leb, drop_all}
use zrip.Common.Words.{wrapping_add}
use zrip.Xxhash.{
  Xxh64State, Lanes, new, update, absorb, fill_buffer, bulk_update, keep_rest, finish,
}
use zrip.Xxhash.{
  tail_eights, tail_fours, tail_ones, hash_tail, finish_eights, finish_fours, finish_ones,
}
use zrip.Xxhash.{
  eight_step, four_step, one_step, read_u64_le, read_u32_le, xxh64, converge, init_lanes,
}
use zrip.Xxhash.{bulk_rounds, whole_stripes, avalanche, prime64_5}
use mathlib.Core.List.{flatten}
use zrip.Xxhash.Chunks.{absorb_all, absorb_all-append, absorb_all_short, bulk_rounds-eq-absorb_all}
use zrip.Xxhash.Stream.{Represents, new-Represents, update-Represents}

-- The slice loops end by their tests: less than 8, then less than 4 bytes are left.
tail_eights_exits :
    (fuel h64 : ℕ) (xs : List ℕ) → length xs ≤ fuel → length (tail_eights fuel h64 xs).1 < 8
unfolding tail_eights
tail_eights_exits zero h64 xs h = omega arith
tail_eights_exits (suc fuel) h64 xs h = ground (
  arith,
  length-drop 8 xs,
  tail_eights_exits fuel (eight_step h64 (read_u64_le xs 0)) (drop 8 xs),
)

tail_fours_exits :
    (fuel h64 : ℕ) (xs : List ℕ) → length xs ≤ fuel → length (tail_fours fuel h64 xs).1 < 4
unfolding tail_fours
tail_fours_exits zero h64 xs h = omega arith
tail_fours_exits (suc fuel) h64 xs h =
    ground (
      arith,
      length-drop 4 xs,
      tail_fours_exits fuel (four_step h64 (read_u32_le xs 0)) (drop 4 xs),
    )

-- The offset loop over `xs` from `o` and the slice loop over `xs[o..]`, round by round.
abbrev Agree : List ℕ → ℕ × ℕ → ℕ × List ℕ → Type 0
Agree xs p q = (p.0 ≡ q.0) × (drop p.1 xs ≡ q.1) × (p.1 ≤ length xs)

eights-Agree :
    (fuel h64 : ℕ) (xs : List ℕ) (o : ℕ)
    → o ≤ length xs
    → Agree xs (finish_eights fuel h64 xs o) (tail_eights fuel h64 (drop o xs))
unfolding finish_eights tail_eights read_u64_le
eights-Agree zero h64 xs o h = (refl, refl, h)
eights-Agree (suc fuel) h64 xs o h = elim (Bool-cases (leb (o + 8) (length xs))) [
  | inr e ↦
      let few =
        gt→leb 8 (length (drop o xs)) (omega (arith, length-drop o xs, leb→gt (o + 8) _ e)) in
      rw (e, few) (refl, refl, h)
  | inl e ↦
      let le = leb→le (o + 8) (length xs) e in
      let more = le→leb 8 (length (drop o xs)) (omega (arith, length-drop o xs)) in
      rw (e, more, drop-drop o 8 (o + 8) xs (omega arith))
        (eights-Agree fuel (eight_step h64 (read_u64_le xs o)) xs (o + 8) le)
]

fours-Agree :
    (fuel h64 : ℕ) (xs : List ℕ) (o : ℕ)
    → o ≤ length xs
    → Agree xs (finish_fours fuel h64 xs o) (tail_fours fuel h64 (drop o xs))
unfolding finish_fours tail_fours read_u32_le
fours-Agree zero h64 xs o h = (refl, refl, h)
fours-Agree (suc fuel) h64 xs o h = elim (Bool-cases (leb (o + 4) (length xs))) [
  | inr e ↦
      let few =
        gt→leb 4 (length (drop o xs)) (omega (arith, length-drop o xs, leb→gt (o + 4) _ e)) in
      rw (e, few) (refl, refl, h)
  | inl e ↦
      let le = leb→le (o + 4) (length xs) e in
      let more = le→leb 4 (length (drop o xs)) (omega (arith, length-drop o xs)) in
      rw (e, more, drop-drop o 4 (o + 4) xs (omega arith))
        (fours-Agree fuel (four_step h64 (read_u32_le xs o)) xs (o + 4) le)
]

drop-cons : (xs : List ℕ) (o : ℕ) → o < length xs → drop o xs ≡ get_or xs o 0 ∷ drop (o + 1) xs
drop-cons [] o h = absurd (omega arith)
drop-cons (x ∷ xs) zero h = refl
drop-cons (x ∷ xs) (suc o) h =
    drop-cons xs o (omega arith)
    ∙ ap (λ (k : ℕ). get_or xs o 0 ∷ drop k (x ∷ xs))
        (let e : suc (o + 1) ≡ suc o + 1 = omega arith in e)

finish_ones-eq-tail_ones :
    (fuel h64 : ℕ) (xs : List ℕ) (o : ℕ)
    → length xs ≤ o + fuel
    → finish_ones fuel h64 xs o ≡ tail_ones h64 (drop o xs)
unfolding finish_ones tail_ones
finish_ones-eq-tail_ones zero h64 xs o h = ap (tail_ones h64) (sym (drop_all o xs (omega arith)))
finish_ones-eq-tail_ones (suc fuel) h64 xs o h = elim (Bool-cases (ltb o (length xs))) [
  | inr e ↦ rw (e, drop_all o xs (ltb→ge o (length xs) e))
  | inl e ↦
      rw (e, drop-cons xs o (ltb→lt o (length xs) e))
        (finish_ones-eq-tail_ones fuel (one_step h64 (get_or xs o 0)) xs (o + 1) (omega arith))
]

-- The three loops of `finish` over its buffered bytes are the tail of the one-shot hash.
finish_loops : (h64 : ℕ) (xs : List ℕ) → ℕ
finish_loops h64 xs =
    let (h8, o8) = finish_eights (length xs) h64 xs 0 in
    let (h4, o4) = finish_fours (length xs) h8 xs o8 in avalanche (finish_ones (length xs) h4 xs o4)

finish_loops-eq-hash_tail : (h64 : ℕ) (xs : List ℕ) → finish_loops h64 xs ≡ hash_tail h64 xs
unfolding finish_loops hash_tail
finish_loops-eq-hash_tail h64 xs =
    let n : ℕ = length xs in
    let p8 = finish_eights n h64 xs 0 in
    let q8 = tail_eights n h64 xs in
    let p4 = finish_fours n p8.0 xs p8.1 in
    let (a8, b8, c8) = eights-Agree n h64 xs 0 (omega arith) in
    let (a4, b4, c4) = fours-Agree n p8.0 xs p8.1 c8 in
    ap avalanche (
      finish_ones-eq-tail_ones n p4.0 xs p4.1 (omega arith)
      ∙ ap₂ tail_ones a4 b4
      ∙ ap₂ (λ (h : ℕ) (r : List ℕ). tail_ones (tail_fours n h r).0 (tail_fours n h r).1) a8 b8)

module _ (st : Xxh64State) (seen : List ℕ) (rep : Represents st seen) where
  length-seen : length seen ≡ 32 * rep.count + length rep.pending
  length-seen =
      omega (arith, ap length rep.split, length-append rep.absorbed rep.pending, rep.whole)

  lanes-eq-bulk_rounds : st.lanes ≡ bulk_rounds seen (init_lanes st.seed)
  lanes-eq-bulk_rounds =
      let init : Lanes = init_lanes st.seed in
      rep.lanes_eq
      ∙ sym (absorb_all_short (absorb_all init rep.absorbed) rep.pending rep.short)
      ∙ sym (absorb_all-append rep.count init rep.absorbed rep.pending rep.whole)
      ∙ ap (absorb_all init) (sym rep.split)
      ∙ sym (bulk_rounds-eq-absorb_all seen init)

  large-eq-leb : st.large ≡ leb 32 (length seen)
  large-eq-leb = rep.large_eq ∙ ground (arith, length-seen, rep.short)

  pending-eq-drop : take st.buf_used st.buf ≡ drop (whole_stripes (length seen)) seen
  pending-eq-drop =
      rep.buf_eq
      ∙ sym (
          ap (drop (whole_stripes (length seen))) rep.split
          ∙ drop-append (whole_stripes (length seen)) rep.absorbed rep.pending
              (omega (arith, length-seen, rep.short, rep.whole)))

  -- A state that has read `seen` finishes with the hash of `seen`.
  pub finish-eq-xxh64 : finish st ≡ xxh64 seen st.seed
  unfolding finish xxh64 finish_loops
  finish-eq-xxh64 =
      finish_loops-eq-hash_tail
        (wrapping_add (if st.large then converge st.lanes else wrapping_add st.seed prime64_5)
          st.total_len)
        (take st.buf_used st.buf)
      ∙ ap₂ hash_tail
          (ap₂ wrapping_add
            (ap₂
              (λ (b : Bool) (v : Lanes). if b then converge v else wrapping_add st.seed prime64_5)
              large-eq-leb lanes-eq-bulk_rounds)
            rep.total_eq)
          pending-eq-drop

pub seed-update : (st : Xxh64State) (xs : List ℕ) → (update st xs).seed ≡ st.seed
unfolding update absorb fill_buffer bulk_update keep_rest
seed-update st xs = ground arith

pub seed-new : (s : ℕ) → (new s).seed ≡ s
unfolding new
seed-new s = refl

-- A stream of calls of `update`.
pub update_all : Xxh64State → List (List ℕ) → Xxh64State
update_all st [] = st
update_all st (piece ∷ pieces) = update_all (update st piece) pieces

update_all-eq-xxh64 :
    (pieces : List (List ℕ)) (st : Xxh64State) (seen : List ℕ)
    → Represents st seen
    → finish (update_all st pieces) ≡ xxh64 (seen ++ flatten pieces) st.seed
unfolding update_all flatten
update_all-eq-xxh64 [] st seen rep = rw append-nil (finish-eq-xxh64 st seen rep)
update_all-eq-xxh64 (piece ∷ pieces) st seen rep =
    update_all-eq-xxh64 pieces (update st piece) (seen ++ piece)
      (update-Represents st seen piece rep)
    ∙ ap₂ xxh64 (append_assoc seen piece (flatten pieces)) (seed-update st piece)

-- However the input is cut into pieces, `update` on each piece in turn and then `finish` give the
-- one-shot `xxh64` of the whole input, for every seed.
pub finish-update_all :
    (seed : ℕ) (pieces : List (List ℕ))
    → finish (update_all (new seed) pieces) ≡ xxh64 (flatten pieces) seed
unfolding new
finish-update_all seed pieces = update_all-eq-xxh64 pieces (new seed) [] (new-Represents seed)
