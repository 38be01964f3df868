-- ===== src/Xxhash/Stream.antt =====
-- `Xxh64State::update`, against the one-shot hash of what was absorbed.
use zrip.Common.{ℕ, suc, ◌+◌, ◌-◌, ◌*◌, ◌/◌, ◌≤◌, ◌<◌, ◌≡◌, refl, sym, ap, ap₂, ◌∙◌}
use zrip.Common.{List, [], ◌++◌, length, take, drop, arith, append_assoc, length-append}
use zrip.Common.{true, length-take, length-drop, take-append-drop}
use zrip.Common.{
  leb, ltb, Bool-cases, inl, inr, leb→le, leb→gt, ltb→lt, ltb→ge, take_all, lt→ltb, append-nil,
  length-zero, ◌==◌, ==→eq,
}
use zrip.Common.Words.{u64}
use zrip.Xxhash.{Xxh64State, Lanes, new, update, absorb, fill_buffer, bulk_update, keep_rest}
use zrip.Common.{copy_from_slice, length-copy_from_slice, take-copy_from_slice}
use zrip.Xxhash.{init_lanes, stripe}
use zrip.Xxhash.Chunks.{absorb_all, absorb_all-append, absorb_all_short, absorb_all-stripe}
use zrip.Xxhash.Chunks.{bulk_rounds-eq-absorb_all, absorb_all-take}
use native.Mathlib.Nat.{zero-add}

-- `st` has read `seen`: its lanes hold the first `count` stripes, its buffer the rest.
pub record Represents (st : Xxh64State) (seen : List ℕ) : Type 0 where
  pub count : ℕ
  pub absorbed : List ℕ
  pub pending : List ℕ
  pub split : seen ≡ absorbed ++ pending
  pub whole : length absorbed ≡ 32 * count
  pub short : length pending < 32
  pub lanes_eq : st.lanes ≡ absorb_all (init_lanes st.seed) absorbed
  pub total_eq : st.total_len ≡ u64 (length seen)
  pub buf_full : length st.buf ≡ 32
  pub used_eq : st.buf_used ≡ length pending
  pub buf_eq : take st.buf_used st.buf ≡ pending
  pub large_eq : st.large ≡ ltb 0 count

-- Between the steps of `update`: `rest` is still to be read and the buffer is empty.
record Aligned (st : Xxh64State) (seen rest : List ℕ) : Type 0 where
  count : ℕ
  absorbed : List ℕ
  split : seen ≡ absorbed ++ rest
  whole : length absorbed ≡ 32 * count
  lanes_eq : st.lanes ≡ absorb_all (init_lanes st.seed) absorbed
  total_eq : st.total_len ≡ u64 (length seen)
  buf_full : length st.buf ≡ 32
  used_zero : st.buf_used ≡ 0
  large_eq : st.large ≡ ltb 0 count

-- A fresh state has read nothing.
pub new-Represents : (s : ℕ) → Represents (new s) []
unfolding new
new-Represents s = record {
  count = 0;
  absorbed = [];
  pending = [];
  split = refl;
  whole = omega arith;
  short = omega arith;
  lanes_eq = sym (absorb_all_short (init_lanes s) [] (omega arith));
  total_eq = omega arith;
  buf_full = refl;
  used_eq = refl;
  buf_eq = refl;
  large_eq = refl;
}

-- The steps of `update` over a state `st` that represents `seen`, with the input `xs`.
module _ (st0 : Xxh64State) (seen xs : List ℕ) (rep : Represents st0 seen) where
  abbrev counted : Xxh64State
  counted = record st0 { total_len = u64 (st0.total_len + length xs) }

  total-counted : counted.total_len ≡ u64 (length (seen ++ xs))
  total-counted = omega (arith, rep.total_eq, length-append seen xs)

  -- Input that does not complete a stripe only joins the buffer.
  buffered-Represents :
      st0.buf_used + length xs < 32
      → Represents
          (record counted {
            buf = copy_from_slice st0.buf st0.buf_used xs;
            buf_used = st0.buf_used + length xs;
          })
          (seen ++ xs)
  buffered-Represents h = record {
    count = rep.count;
    absorbed = rep.absorbed;
    pending = rep.pending ++ xs;
    split = ap (λ t. t ++ xs) rep.split ∙ append_assoc rep.absorbed rep.pending xs;
    whole = rep.whole;
    short = omega (arith, rep.used_eq, length-append rep.pending xs);
    lanes_eq = rep.lanes_eq;
    total_eq = total-counted;
    buf_full =
        length-copy_from_slice st0.buf st0.buf_used xs (omega (arith, rep.buf_full)) ∙ rep.buf_full;
    used_eq = omega (arith, rep.used_eq, length-append rep.pending xs);
    buf_eq =
        take-copy_from_slice st0.buf st0.buf_used xs (omega (arith, rep.buf_full))
        ∙ ap (λ t. t ++ xs) rep.buf_eq;
    large_eq = rep.large_eq;
  }

  -- The filled buffer is the pending bytes with the first bytes of the input, a whole stripe.
  filled : List ℕ
  filled = copy_from_slice st0.buf st0.buf_used (take (32 - st0.buf_used) xs)

  filled-eq : 32 ≤ st0.buf_used + length xs → filled ≡ rep.pending ++ take (32 - st0.buf_used) xs
  unfolding filled
  filled-eq h =
      let part : List ℕ = take (32 - st0.buf_used) xs in
      let n : length part ≡ 32 - st0.buf_used = omega (arith, length-take (32 - st0.buf_used) xs) in
      sym (
        take_all (st0.buf_used + length part) filled (
          omega (
            arith,
            n,
            rep.short,
            rep.used_eq,
            rep.buf_full,
            length-copy_from_slice st0.buf st0.buf_used part
                (omega (arith, n, rep.short, rep.used_eq, rep.buf_full)),
          )))
      ∙ take-copy_from_slice st0.buf st0.buf_used part
          (omega (arith, n, rep.short, rep.used_eq, rep.buf_full))
      ∙ ap (λ t. t ++ part) rep.buf_eq

  -- A stripe made up in the buffer is absorbed, and the buffer is empty again.
  filled-Aligned :
      32 ≤ st0.buf_used + length xs
      → Aligned
          (record counted {
            lanes = stripe st0.lanes filled;
            buf = filled;
            buf_used = 0;
            large = true;
          })
          (seen ++ xs)
          (drop (32 - st0.buf_used) xs)
  filled-Aligned h =
      let room : ℕ = 32 - st0.buf_used in
      let part : List ℕ = take room xs in
      let n : length part ≡ room = omega (arith, length-take room xs) in
      let full : length (rep.pending ++ part) ≡ 32 =
        omega (arith, n, rep.short, rep.used_eq, length-append rep.pending part) in
      record {
        count = suc rep.count;
        absorbed = rep.absorbed ++ (rep.pending ++ part);
        split =
            ap₂ ◌++◌ rep.split (sym (take-append-drop room xs))
            ∙ append_assoc rep.absorbed rep.pending (part ++ drop room xs)
            ∙ ap (λ t. rep.absorbed ++ t) (sym (append_assoc rep.pending part (drop room xs)))
            ∙ sym (append_assoc rep.absorbed (rep.pending ++ part) (drop room xs));
        whole = omega (arith, rep.whole, full, length-append rep.absorbed (rep.pending ++ part));
        lanes_eq =
            ap₂ stripe rep.lanes_eq (filled-eq h)
            ∙ sym (
                absorb_all-stripe (absorb_all (init_lanes st0.seed) rep.absorbed)
                  (rep.pending ++ part) full)
            ∙ sym (
                absorb_all-append rep.count (init_lanes st0.seed) rep.absorbed (rep.pending ++ part)
                  rep.whole);
        total_eq = total-counted;
        buf_full = ap length (filled-eq h) ∙ full;
        used_zero = refl;
        large_eq = sym (lt→ltb 0 (suc rep.count) (omega arith));
      }

  -- With an empty buffer the state is aligned as it is.
  empty-Aligned : st0.buf_used ≡ 0 → Aligned counted (seen ++ xs) xs
  empty-Aligned e = record {
    count = rep.count;
    absorbed = rep.absorbed;
    split =
        ap (λ t. t ++ xs) rep.split
        ∙ ap (λ t. (rep.absorbed ++ t) ++ xs) (length-zero rep.pending (omega (arith, rep.used_eq)))
        ∙ ap (λ t. t ++ xs) (append-nil rep.absorbed);
    whole = rep.whole;
    lanes_eq = rep.lanes_eq;
    total_eq = total-counted;
    buf_full = rep.buf_full;
    used_zero = e;
    large_eq = rep.large_eq;
  }

  fill_buffer-Aligned :
      32 ≤ st0.buf_used + length xs
      → Aligned (fill_buffer counted xs).0 (seen ++ xs) (fill_buffer counted xs).1
  unfolding fill_buffer filled
  fill_buffer-Aligned h = elim (Bool-cases (ltb 0 st0.buf_used)) [
    | inl some_used ↦ rw some_used (filled-Aligned h)
    | inr none_used ↦ rw none_used (empty-Aligned (omega (arith, ltb→ge 0 st0.buf_used none_used)))
  ]

-- The stripes of the rest are absorbed, and less than a stripe is left.
bulk_update-Aligned :
    (st : Xxh64State) (seen xs : List ℕ)
    → Aligned st seen xs
    → Aligned (bulk_update st xs).0 seen (bulk_update st xs).1 × (length (bulk_update st xs).1 < 32)
unfolding bulk_update
bulk_update-Aligned st seen xs al = elim (Bool-cases (leb 32 (length xs))) [
  | inr few ↦ rw few (al, leb→gt 32 (length xs) few)
  | inl many ↦
      let q : ℕ = length xs / 32 in
      let n : length (take (32 * q) xs) ≡ 32 * q = omega (arith, length-take (32 * q) xs) in
      let len : 32 ≤ length xs = leb→le 32 (length xs) many in
      rw many (
        record {
          count = al.count + q;
          absorbed = al.absorbed ++ take (32 * q) xs;
          split =
              al.split
              ∙ ap (λ t. al.absorbed ++ t) (sym (take-append-drop (32 * q) xs))
              ∙ sym (append_assoc al.absorbed (take (32 * q) xs) (drop (32 * q) xs));
          whole = omega (arith, al.whole, n, length-append al.absorbed (take (32 * q) xs));
          lanes_eq =
              bulk_rounds-eq-absorb_all xs st.lanes
              ∙ sym (absorb_all-take q st.lanes xs refl)
              ∙ ap (λ (v : Lanes). absorb_all v (take (32 * q) xs)) al.lanes_eq
              ∙ sym (
                  absorb_all-append al.count (init_lanes st.seed) al.absorbed (take (32 * q) xs)
                    al.whole);
          total_eq = al.total_eq;
          buf_full = al.buf_full;
          used_zero = al.used_zero;
          large_eq = sym (lt→ltb 0 (al.count + q) (omega arith));
        },
        omega (arith, length-drop (32 * q) xs),
      )
]

keep_rest-Represents :
    (st : Xxh64State) (seen xs : List ℕ)
    → Aligned st seen xs
    → length xs < 32
    → Represents (keep_rest st xs) seen
unfolding keep_rest
keep_rest-Represents st seen xs al h = elim (Bool-cases (length xs == 0)) [
  | inl none ↦ rw none (record {
    count = al.count;
    absorbed = al.absorbed;
    pending = xs;
    split = al.split;
    whole = al.whole;
    short = h;
    lanes_eq = al.lanes_eq;
    total_eq = al.total_eq;
    buf_full = al.buf_full;
    used_eq = omega (arith, al.used_zero, ==→eq (length xs) 0 none);
    buf_eq =
        ap (λ (n : ℕ). take n st.buf) al.used_zero
        ∙ sym (length-zero xs (==→eq (length xs) 0 none));
    large_eq = al.large_eq;
  })
  | inr some ↦ rw some (record {
    count = al.count;
    absorbed = al.absorbed;
    pending = xs;
    split = al.split;
    whole = al.whole;
    short = h;
    lanes_eq = al.lanes_eq;
    total_eq = al.total_eq;
    buf_full = length-copy_from_slice st.buf 0 xs (omega (arith, al.buf_full)) ∙ al.buf_full;
    used_eq = refl;
    buf_eq =
        ap (λ (n : ℕ). take n (copy_from_slice st.buf 0 xs)) (sym (zero-add (length xs)))
        ∙ take-copy_from_slice st.buf 0 xs (omega (arith, al.buf_full));
    large_eq = al.large_eq;
  })
]

-- `update` adds its input to what a state has read.
pub update-Represents :
    (st : Xxh64State) (seen xs : List ℕ)
    → Represents st seen
    → Represents (update st xs) (seen ++ xs)
unfolding update absorb
update-Represents st seen xs rep = elim (Bool-cases (ltb (st.buf_used + length xs) 32)) [
  | inl few ↦ rw few (buffered-Represents st seen xs rep (ltb→lt (st.buf_used + length xs) 32 few))
  | inr many ↦
      let st1 = fill_buffer (counted st seen xs rep) xs in
      let al = fill_buffer-Aligned st seen xs rep (ltb→ge (st.buf_used + length xs) 32 many) in
      let (al2, h) = bulk_update-Aligned st1.0 (seen ++ xs) st1.1 al in
      rw many (
        keep_rest-Represents (bulk_update st1.0 st1.1).0 (seen ++ xs) (bulk_update st1.0 st1.1).1
          al2 h)
]
