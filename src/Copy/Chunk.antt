-- ===== src/Copy/Chunk.antt =====
-- Slices read at an index, and what a chunk leaves of a match: every byte from its start on is the one
-- `offset` before it.
use zrip.Common.{ℕ, zero, suc, ◌+◌, ◌-◌, ◌*◌, ◌<◌, ◌≤◌, ◌≡◌, refl, sym, ap, ◌∙◌, arith}
use zrip.Common.{List, [], ◌∷◌, ◌++◌, length, get_or, take, drop, copy_from_slice, length-take}
use zrip.Common.{length-drop, length-copy_from_slice, Bool-cases, inl, inr, ltb, ltb→lt, ltb→ge}
use zrip.Copy.{chunk, chunks}

module _ {ℓ} {A : Type ℓ} (d : A) where
  pub get_or-append :
      (xs ys : List A) (j : ℕ) → j < length xs → get_or (xs ++ ys) j d ≡ get_or xs j d
  get_or-append [] ys j h = absurd (omega arith)
  get_or-append (x ∷ xs) ys zero h = refl
  get_or-append (x ∷ xs) ys (suc j) h = get_or-append xs ys j (omega arith)

  pub get_or-append_right :
      (xs ys : List A) (j : ℕ) → length xs ≤ j → get_or (xs ++ ys) j d ≡ get_or ys (j - length xs) d
  get_or-append_right [] ys j h = ap (λ (t : ℕ). get_or ys t d) (omega arith)
  get_or-append_right (x ∷ xs) ys zero h = absurd (omega arith)
  get_or-append_right (x ∷ xs) ys (suc j) h =
      get_or-append_right xs ys j (omega arith)
      ∙ ap (λ (t : ℕ). get_or ys t d)
          (let e : j - length xs ≡ suc j - suc (length xs) = omega arith in e)

  pub get_or-take : (n j : ℕ) (xs : List A) → j < n → get_or (take n xs) j d ≡ get_or xs j d
  get_or-take zero j xs h = absurd (omega arith)
  get_or-take (suc n) j [] h = refl
  get_or-take (suc n) zero (x ∷ xs) h = refl
  get_or-take (suc n) (suc j) (x ∷ xs) h = get_or-take n j xs (omega arith)

  pub get_or-drop : (n j k : ℕ) (xs : List A) → n + j ≡ k → get_or (drop n xs) j d ≡ get_or xs k d
  get_or-drop zero j k xs e = ap (λ (t : ℕ). get_or xs t d) (omega (arith, e))
  get_or-drop (suc n) j k [] e = refl
  get_or-drop (suc n) j zero (x ∷ xs) e = absurd (omega arith)
  get_or-drop (suc n) j (suc k) (x ∷ xs) e = get_or-drop n j k xs (omega arith)

  pub copy-before :
      (xs : List A) (at : ℕ) (ys : List A) (j : ℕ)
      → at ≤ length xs
      → j < at
      → get_or (copy_from_slice xs at ys) j d ≡ get_or xs j d
  unfolding copy_from_slice
  copy-before xs at ys j room h =
      get_or-append (take at xs) (ys ++ drop (at + length ys) xs) j
        (omega (arith, length-take at xs))
      ∙ get_or-take at j xs h

  pub copy-inside :
      (xs : List A) (at : ℕ) (ys : List A) (j k : ℕ)
      → at ≤ length xs
      → at + k ≡ j
      → k < length ys
      → get_or (copy_from_slice xs at ys) j d ≡ get_or ys k d
  unfolding copy_from_slice
  copy-inside xs at ys j k room e h =
      let long : length (take at xs) ≡ at = length-take at xs ∙ omega arith in
      let q : j - length (take at xs) ≡ k = omega (arith, long) in
      get_or-append_right (take at xs) (ys ++ drop (at + length ys) xs) j (omega (arith, long))
      ∙ ap (λ (t : ℕ). get_or (ys ++ drop (at + length ys) xs) t d) q
      ∙ get_or-append ys (drop (at + length ys) xs) k h

-- The match of bytes `at..end` in `out`, over what was before it.
pub record Copied (offset at end : ℕ) (before out : List ℕ) : Type 0 where
  pub long : length out ≡ length before
  pub below : (j : ℕ) → j < at → get_or out j 0 ≡ get_or before j 0
  pub back : (j : ℕ) → at ≤ j → j < end → get_or out j 0 ≡ get_or out (j - offset) 0

pub nothing-Copied : (offset at : ℕ) (out : List ℕ) → Copied offset at at out out
nothing-Copied offset at out = record {
  long = refl;
  below = λ j h. refl;
  back = λ j a b. absurd (omega (arith, a, b));
}

shorten-Copied :
    (offset at end end' : ℕ) (before out : List ℕ)
    → end' ≤ end
    → Copied offset at end before out
    → Copied offset at end' before out
shorten-Copied offset at end end' before out h c = record {
  long = c.long;
  below = c.below;
  back = λ j a b. c.back j a (omega (arith, b, h));
}

module _ (offset at end : ℕ) (before out : List ℕ) (c : Copied offset at end before out) where
  -- Bytes a multiple of the offset apart are the same.
  period :
      (m p : ℕ)
      → at ≤ p + offset
      → p + m * offset < end
      → get_or out (p + m * offset) 0 ≡ get_or out p 0
  period zero p h k = ap (λ (t : ℕ). get_or out t 0) (omega arith)
  period (suc m) p h k =
      let e : p + suc m * offset - offset ≡ p + m * offset = omega arith in
      c.back (p + suc m * offset) (omega arith) k
      ∙ ap (λ (t : ℕ). get_or out t 0) e
      ∙ period m p h (omega arith)

  -- One more chunk of `n` bytes, read a multiple of the offset back.
  pub chunk-Copied :
      (n src m : ℕ)
      → 0 < offset
      → 0 < m
      → src + m * offset ≡ end
      → n ≤ m * offset
      → at ≤ src + offset
      → at ≤ end
      → end + n ≤ length out
      → Copied offset at (end + n) before (chunk n out src end)
  unfolding chunk
  chunk-Copied n src m some_offset more e reach low low_end room =
      let ys : List ℕ = take n (drop src out) in
      let size : length ys ≡ n =
        length-take n (drop src out) ∙ omega (arith, length-drop src out, room, e, reach) in
      let out' : List ℕ = copy_from_slice out end ys in
      let inside = λ (j k : ℕ) (q : end + k ≡ j) (h : k < n).
        copy-inside 0 out end ys j k (omega (arith, room)) q (omega (arith, size, h))
        ∙ get_or-take 0 n k (drop src out) h
        ∙ get_or-drop 0 src k (src + k) out refl in
      let outside = λ (j : ℕ) (h : j < end). copy-before 0 out end ys j (omega (arith, room)) h in
      record {
        long = length-copy_from_slice out end ys (omega (arith, size, room)) ∙ c.long;
        below = λ j h. outside j (omega (arith, h, low_end)) ∙ c.below j h;
        back = λ j a b. elim (Bool-cases (ltb j end)) [
          | inl f ↦
              outside j (ltb→lt j end f)
              ∙ c.back j a (ltb→lt j end f)
              ∙ sym (outside (j - offset) (omega (arith, ltb→lt j end f)))
          | inr f ↦
              let k : ℕ = j - end in
              let past = ltb→ge j end f in
              let m' : ℕ = m - 1 in
              let split : m * offset ≡ m' * offset + offset =
                ap (λ (t : ℕ). t * offset) (let g : m ≡ m' + 1 = omega (arith, more) in g)
                ∙ omega arith in
              let here = inside j k (omega (arith, past)) (omega (arith, past, b)) in
              elim (Bool-cases (ltb k offset)) [
                | inl near ↦
                    let source : j - offset ≡ src + k + m' * offset =
                      omega (arith, split, e, past, ltb→lt k offset near) in
                    let under : src + k + m' * offset < end =
                      omega (arith, split, e, past, ltb→lt k offset near) in
                    here
                    ∙ sym (period m' (src + k) (omega (arith, low)) under)
                    ∙ sym (ap (λ (t : ℕ). get_or out t 0) source)
                    ∙ sym (outside (j - offset) (omega (arith, source, under)))
                | inr far ↦
                    let apart = ltb→ge k offset far in
                    here
                    ∙ c.back (src + k) (omega (arith, apart, low))
                        (omega (arith, past, b, e, reach))
                    ∙ ap (λ (t : ℕ). get_or out t 0)
                        (let q : src + k - offset ≡ src + (k - offset) = omega (arith, apart) in q)
                    ∙ sym (
                        inside (j - offset) (k - offset) (omega (arith, past, apart))
                          (omega (arith, past, b)))
              ]
        ];
      }

-- The chunks of the loop, once `end - at` bytes are there.
pub chunks-Copied :
    (offset at : ℕ) (before : List ℕ) (fuel n i len src end m : ℕ) (out : List ℕ)
    → 0 < offset
    → 0 < m
    → 0 < n
    → src + m * offset ≡ end
    → n ≤ m * offset
    → at ≤ src + offset
    → at + i ≡ end
    → at + len + n ≤ length before
    → len ≤ i + fuel
    → Copied offset at end before out
    → Copied offset at (at + len) before (chunks fuel n i len src end out)
unfolding chunks
chunks-Copied offset at before zero n i len src end m out o p q e reach low here room enough c =
    shorten-Copied offset at end (at + len) before out (omega (arith, here, enough)) c
chunks-Copied offset at before (suc fuel) n i len src end m out o p q e reach low here room enough
      c =
    elim (Bool-cases (ltb i len)) [
      | inr f ↦
          rw (f, chunks)
            (shorten-Copied offset at end (at + len) before out
              (omega (arith, here, ltb→ge i len f)) c)
      | inl f ↦
          let more = ltb→lt i len f in
          rw (f, chunks)
            (chunks-Copied offset at before fuel n (i + n) len (src + n) (end + n) m
              (chunk n out src end) o p q (omega (arith, e)) reach (omega (arith, low))
              (omega (arith, here)) room (omega (arith, enough, q))
              (chunk-Copied offset at end before out c n src m o p e reach low (omega (arith, here))
                (omega (arith, more, here, room, c.long))))
    ]
