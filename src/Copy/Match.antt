-- ===== src/Copy/Match.antt =====
-- The copy of a match in whole chunks, against the bytes one offset back.
use zrip.Common.{ℕ, zero, suc, ◌+◌, ◌-◌, ◌*◌, ◌<◌, ◌≤◌, ◌≡◌, refl, sym, ap, ◌∙◌, arith}
use zrip.Common.{List, length, get_or, Bool-cases, inl, inr, ltb, ltb→lt, ltb→ge, leb, leb→le}
use zrip.Common.{set, get_or-set_cases, get_or-set, length-set}
use mathlib.Core.Path.{subst}
use zrip.Copy.{
  chunk, chunks, copy_byte, copy_four, spread_match, spread_add, spread_sub, wild_match,
}
use zrip.Copy.Chunk.{Copied, nothing-Copied, chunk-Copied, chunks-Copied}

byte-Copied :
    (offset at end src : ℕ) (before out : List ℕ)
    → 0 < offset
    → src + offset ≡ end
    → at ≤ end
    → end < length out
    → Copied offset at end before out
    → Copied offset at (end + 1) before (copy_byte out src end)
unfolding copy_byte
byte-Copied offset at end src before out some e low room c =
    let v : ℕ = get_or out src 0 in
    let outside = λ (j : ℕ) (h : j < end). other out end v j h in
    record {
      long = length-set out end v ∙ c.long;
      below = λ j h. outside j (omega (arith, h, low)) ∙ c.below j h;
      back = λ j a b. elim (Bool-cases (ltb j end)) [
        | inl f ↦
            outside j (ltb→lt j end f)
            ∙ c.back j a (ltb→lt j end f)
            ∙ sym (outside (j - offset) (omega (arith, ltb→lt j end f)))
        | inr f ↦
            let here : j ≡ end = omega (arith, ltb→ge j end f, b) in
            ap (λ (t : ℕ). get_or (set out end v) t 0) here
            ∙ get_or-set out end v 0 room
            ∙ ap (λ (t : ℕ). get_or out t 0)
                (let q : src ≡ j - offset = omega (arith, here, e) in q)
            ∙ sym (outside (j - offset) (omega (arith, here, some, e)))
      ];
    }
  where
    other : (out : List ℕ) (end v j : ℕ) → j < end → get_or (set out end v) j 0 ≡ get_or out j 0
    other out end v j h = elim (get_or-set_cases out end v j 0) [
      | inl (q, f) ↦ absurd (omega (arith, q, h))
      | inr f ↦ f
    ]

next_byte :
    (offset at end src end' : ℕ) (before out : List ℕ)
    → 0 < offset
    → src + offset ≡ end
    → end < length out
    → at ≤ end
    → end + 1 ≡ end'
    → Copied offset at end before out
    → Copied offset at end' before (copy_byte out src end)
next_byte offset at end src end' before out some e room low next c =
    subst (λ (t : ℕ). Copied offset at t before (copy_byte out src end)) next
      (byte-Copied offset at end src before out some e low room c)

copy_four-Copied :
    (offset at src : ℕ) (out : List ℕ)
    → 0 < offset
    → src + offset ≡ at
    → at + 4 ≤ length out
    → Copied offset at (at + 4) out (copy_four out src at)
unfolding copy_four
copy_four-Copied offset at src out some e room =
    let o1 = copy_byte out src at in
    let o2 = copy_byte o1 (src + 1) (at + 1) in
    let o3 = copy_byte o2 (src + 2) (at + 2) in
    let c1 =
      byte-Copied offset at at src out out some e (omega arith) (omega (arith, room))
        (nothing-Copied offset at out) in
    let c2 =
      next_byte offset at (at + 1) (src + 1) (at + 2) out o1 some (omega (arith, e))
        (omega (arith, c1.long, room)) (omega arith) (omega arith) c1 in
    let c3 =
      next_byte offset at (at + 2) (src + 2) (at + 3) out o2 some (omega (arith, e))
        (omega (arith, c2.long, room)) (omega arith) (omega arith) c2 in
    next_byte offset at (at + 3) (src + 3) (at + 4) out o3 some (omega (arith, e))
      (omega (arith, c3.long, room)) (omega arith) (omega arith) c3

-- The two tables: both distances are multiples of the offset, and no shorter than what is copied.
record Spread (offset : ℕ) : Type 0 where
  m1 : ℕ
  m2 : ℕ
  first : m1 * offset + get_or spread_add offset 0 ≡ 4 + offset
  first_reach : 4 ≤ m1 * offset
  rest : m2 * offset + get_or spread_add offset 0 ≡ offset + get_or spread_sub offset 0
  rest_reach : 8 ≤ m2 * offset
  back : get_or spread_sub offset 0 ≤ get_or spread_add offset 0 + 8

offset-Spread : (offset : ℕ) → 0 < offset → offset < 8 → Spread offset
offset-Spread zero p h = absurd (omega arith)
offset-Spread (suc zero) p h = record {
  m1 = 4;
  m2 = 8;
  first = refl;
  first_reach = omega arith;
  rest = refl;
  rest_reach = omega arith;
  back = omega arith;
}
offset-Spread (suc (suc zero)) p h = record {
  m1 = 2;
  m2 = 4;
  first = refl;
  first_reach = omega arith;
  rest = refl;
  rest_reach = omega arith;
  back = omega arith;
}
offset-Spread (suc (suc (suc zero))) p h = record {
  m1 = 2;
  m2 = 3;
  first = refl;
  first_reach = omega arith;
  rest = refl;
  rest_reach = omega arith;
  back = omega arith;
}
offset-Spread (suc (suc (suc (suc zero)))) p h = record {
  m1 = 1;
  m2 = 2;
  first = refl;
  first_reach = omega arith;
  rest = refl;
  rest_reach = omega arith;
  back = omega arith;
}
offset-Spread (suc (suc (suc (suc (suc zero))))) p h = record {
  m1 = 1;
  m2 = 2;
  first = refl;
  first_reach = omega arith;
  rest = refl;
  rest_reach = omega arith;
  back = omega arith;
}
offset-Spread (suc (suc (suc (suc (suc (suc zero)))))) p h = record {
  m1 = 1;
  m2 = 2;
  first = refl;
  first_reach = omega arith;
  rest = refl;
  rest_reach = omega arith;
  back = omega arith;
}
offset-Spread (suc (suc (suc (suc (suc (suc (suc zero))))))) p h = record {
  m1 = 1;
  m2 = 2;
  first = refl;
  first_reach = omega arith;
  rest = refl;
  rest_reach = omega arith;
  back = omega arith;
}
offset-Spread (suc (suc (suc (suc (suc (suc (suc (suc n)))))))) p h = absurd (omega arith)

positive_factor : (m offset : ℕ) {k : ℕ} → suc k ≤ m * offset → 0 < m
positive_factor zero offset h = absurd (omega arith)
positive_factor (suc m) offset h = omega arith

spread-from :
    (out : List ℕ) (at src offset : ℕ)
    → (spread_match out at src offset).1
      ≡ src + get_or spread_add offset 0 + 8 - get_or spread_sub offset 0
unfolding spread_match
spread-from out at src offset = refl

spread-Copied :
    (offset at : ℕ) (out : List ℕ)
    → 0 < offset
    → offset < 8
    → offset ≤ at
    → at + 8 ≤ length out
    → Copied offset at (at + 8) out (spread_match out at (at - offset) offset).0
unfolding spread_match
spread-Copied offset at out some small far room =
    let s = offset-Spread offset some small in
    let src : ℕ = at - offset + get_or spread_add offset 0 in
    let c =
      copy_four-Copied offset at (at - offset) out some (omega (arith, far))
        (omega (arith, room)) in
    subst
      (λ (t : ℕ). Copied offset at t out (chunk 4 (copy_four out (at - offset) at) src (at + 4)))
      (let e : at + 4 + 4 ≡ at + 8 = omega arith in e)
      (chunk-Copied offset at (at + 4) out (copy_four out (at - offset) at) c 4 src s.m1 some
        (positive_factor s.m1 offset s.first_reach) (omega (arith, s.first, far)) s.first_reach
        (omega (arith, far)) (omega arith) (omega (arith, c.long, room)))

wide :
    (offset at len n : ℕ) (out : List ℕ)
    → 0 < offset
    → offset ≤ at
    → n ≤ offset
    → 0 < n
    → n ≤ 64
    → at + len + 64 ≤ length out
    → Copied offset at
        (at + len)
        out
        (chunks len n n len (at - offset + n) (at + n) (chunk n out (at - offset) at))
wide offset at len n out some far reach more small room =
    chunks-Copied offset at out len n n len (at - offset + n) (at + n) 1
      (chunk n out (at - offset) at) some (omega arith) more (omega (arith, far))
      (omega (arith, reach)) (omega (arith, far)) refl (omega (arith, room, small))
      (omega (arith, more))
      (chunk-Copied offset at at out out (nothing-Copied offset at out) n (at - offset) 1 some
        (omega arith) (omega (arith, far)) (omega (arith, reach)) (omega (arith, far)) (omega arith)
        (omega (arith, room, small)))

-- A copied match of `len` bytes at `at`, from `offset` bytes back: the bytes before it stay, and every
-- byte of it is the one `offset` before it, at every offset that has its byte, in a buffer with 64
-- bytes of room behind the match. The copies in chunks of 32, 16 and 8 bytes, and the spreading of
-- offsets below eight, all give this.
pub wild_match-Copied :
    (offset at len : ℕ) (out : List ℕ)
    → 0 < offset
    → offset ≤ at
    → at + len + 64 ≤ length out
    → Copied offset at (at + len) out (wild_match out at (at - offset) offset len)
unfolding wild_match
wild_match-Copied offset at len out some far room = elim (Bool-cases (leb 32 offset)) [
  | inl e ↦
      rw e
        (wide offset at len 32 out some far (leb→le 32 offset e) (omega arith) (omega arith) room)
  | inr e ↦ elim (Bool-cases (leb 16 offset)) [
    | inl f ↦
        rw (e, f)
          (wide offset at len 16 out some far (leb→le 16 offset f) (omega arith) (omega arith) room)
    | inr f ↦ elim (Bool-cases (ltb offset 8)) [
      | inr g ↦
          rw (e, f, g)
            (wide offset at len 8 out some far (ltb→ge offset 8 g) (omega arith) (omega arith) room)
      | inl g ↦
          let small = ltb→lt offset 8 g in
          let s = offset-Spread offset some small in
          let c = spread-Copied offset at out some small far (omega (arith, room)) in
          let from = spread-from out at (at - offset) offset in
          rw (e, f, g)
            (chunks-Copied offset at out len 8 8 len (spread_match out at (at - offset) offset).1
              (at + 8) s.m2 (spread_match out at (at - offset) offset).0 some
              (positive_factor s.m2 offset s.rest_reach) (omega arith)
              (omega (arith, from, s.rest, s.back, far)) s.rest_reach
              (omega (arith, from, s.back, far)) refl (omega (arith, room)) (omega arith) c)
    ]
  ]
]
