-- ===== src/Exec/Fields.antt =====
-- The reads of a word, against the number that the bytes spell.
use zrip.Common.{
  ℕ, ◌+◌, ◌-◌, ◌*◌, ◌/◌, ◌%◌, ◌^◌, ◌≤◌, ◌<◌, ◌≡◌, refl, sym, ap, ap₂, ◌∙◌, arith, min, bit_and,
}
use zrip.Common.{
  List, [], ◌∷◌, All, length, drop, All-drop, ltb, ltb→lt, ltb→ge, Bool-cases, inl, inr,
}
use zrip.Common.Words.{u32, wrapping_sub}
use zrip.Common.Bytes.{IsByte, IsBytes, from_le_bytes, from_le_bytes-take, from_le_bytes-drop}
use zrip.Common.Bits.{bit_and_mask}
use zrip.Common.Powers.{pow_cong, pow_pos, pow_mono, mod-div-mod_pow, div-div_pow}
use native.Mathlib.Nat.{mod-lt, mod-eq_of_lt, mod-one}
use zrip.Exec.{Word, word, read, bits}

-- The word stands below bit `left` of the bytes, in 64 bits of them.
record Holds (source : List ℕ) (left : ℕ) (w : Word) : Type 0 where
  loaded : w.container ≡ from_le_bytes source / 2 ^ (8 * w.pos) % 2 ^ 64
  place : w.avail + 8 * w.pos ≡ left
  avail_le : w.avail ≤ 64
  left_lt : left < 2 ^ 63

word-Holds :
    (source : List ℕ) (left : ℕ)
    → IsBytes source
    → 8 ≤ length source
    → left ≤ 8 * length source
    → left < 2 ^ 63
    → Holds source left (word (record { left = left }) source)
      × (min left 57 ≤ (word (record { left = left }) source).avail)
unfolding word
word-Holds source left h long inside lt = elim (Bool-cases (ltb left 57)) [
  | inl e ↦
      let short = ltb→lt left 57 e in
      rw e (
        record {
          loaded =
              from_le_bytes-take 8 (drop (min 0 (length source - 8)) source)
                (All-drop IsByte _ source h)
              ∙ ap (λ (t : ℕ). t % 2 ^ 64) (from_le_bytes-drop _ source h);
          place = omega arith;
          avail_le = omega arith;
          left_lt = lt;
        },
        omega arith,
      )
  | inr e ↦
      let full = ltb→ge left 57 e in
      rw e (
        record {
          loaded =
              from_le_bytes-take 8 (drop (min ((left - 57) / 2 ^ 3) (length source - 8)) source)
                (All-drop IsByte _ source h)
              ∙ ap (λ (t : ℕ). t % 2 ^ 64) (from_le_bytes-drop _ source h);
          place = omega arith;
          avail_le = omega arith;
          left_lt = lt;
        },
        omega arith,
      )
]

-- The fields of the given widths below bit `left` of a number, the highest first.
abbrev pub fields : ℕ → ℕ → List ℕ → List ℕ
fields number left [] = []
fields number left (n ∷ ns) = number / 2 ^ (left - n) % 2 ^ n ∷ fields number (left - n) ns

abbrev pub sum : List ℕ → ℕ
sum [] = 0
sum (n ∷ ns) = n + sum ns

-- A sequence of reads of a word.
abbrev pub read_all : Word → List ℕ → List ℕ × Word
read_all w [] = ([], w)
read_all w (n ∷ ns) = let (v, w1) = read w n in let (vs, w2) = read_all w1 ns in (v ∷ vs, w2)

module _ (source : List ℕ) (left : ℕ) (w : Word) (n : ℕ) (h : Holds source left w) (hn : n ≤ 31)
    (room : n ≤ w.avail) where
  start_eq : wrapping_sub w.avail n ≡ w.avail - n
  start_eq = omega (arith, h.avail_le)

  read-value : (read w n).0 ≡ from_le_bytes source / 2 ^ (left - n) % 2 ^ n
  unfolding read
  read-value =
      let s : ℕ = w.avail - n in
      let number : ℕ = from_le_bytes source in
      let shift : bit_and (wrapping_sub w.avail n) 63 ≡ s % 64 =
        ap (λ (t : ℕ). bit_and t 63) start_eq ∙ bit_and_mask 6 s in
      let mask : bit_and (w.container / 2 ^ (s % 64)) (1 * 2 ^ n - 1)
          ≡ w.container / 2 ^ (s % 64) % 2 ^ n =
        ap (λ (t : ℕ). bit_and (w.container / 2 ^ (s % 64)) (t - 1))
          (let e : 1 * 2 ^ n ≡ 2 ^ n = omega arith in e)
        ∙ bit_and_mask n (w.container / 2 ^ (s % 64)) in
      let field : w.container / 2 ^ (s % 64) % 2 ^ n ≡ number / 2 ^ (left - n) % 2 ^ n =
        elim (Bool-cases (ltb s 64)) [
          | inl e ↦
              let small : s % 64 ≡ s = omega (arith, ltb→lt s 64 e) in
              ap (λ (t : ℕ). w.container / 2 ^ t % 2 ^ n) small
              ∙ ap (λ (t : ℕ). t / 2 ^ s % 2 ^ n) h.loaded
              ∙ mod-div-mod_pow 64 s n (number / 2 ^ (8 * w.pos)) (omega (arith, h.avail_le, room))
              ∙ ap (λ (t : ℕ). t % 2 ^ n) (div-div_pow (8 * w.pos) s number)
              ∙ ap (λ (t : ℕ). number / t % 2 ^ n)
                  (pow_cong (8 * w.pos + s) (left - n) (omega (arith, h.place, room)))
          | inr e ↦
              let none_left : n ≡ 0 = omega (arith, ltb→ge s 64 e, h.avail_le) in
              ap (λ (t : ℕ). w.container / 2 ^ (s % 64) % 2 ^ t) none_left
              ∙ mod-one (w.container / 2 ^ (s % 64))
              ∙ sym (
                  ap (λ (t : ℕ). number / 2 ^ (left - n) % 2 ^ t) none_left
                  ∙ mod-one (number / 2 ^ (left - n)))
        ] in
      ap (λ (t : ℕ). u32 (bit_and (w.container / 2 ^ t) (1 * 2 ^ n - 1))) shift
      ∙ ap u32 (mask ∙ field)
      ∙ mod-eq_of_lt (omega (arith, mod-lt (number / 2 ^ (left - n)) (pow_pos n), pow_mono n 31 hn))

  read-Holds : Holds source (left - n) (read w n).1
  unfolding read
  read-Holds = record {
    loaded = h.loaded;
    place = omega (arith, h.place, h.avail_le);
    avail_le = omega (arith, h.avail_le);
    left_lt = omega (arith, h.left_lt);
  }

  read-avail : (read w n).1.avail ≡ w.avail - n
  unfolding read
  read-avail = start_eq

-- A word's reads return the fields, and the word stands below them.
read_all-fields :
    (source : List ℕ) (left : ℕ) (w : Word) (ns : List ℕ)
    → Holds source left w
    → All (λ (n : ℕ). n ≤ 31) ns
    → sum ns ≤ w.avail
    → ((read_all w ns).0 ≡ fields (from_le_bytes source) left ns)
      × Holds source (left - sum ns) (read_all w ns).1
read_all-fields source left w [] h hs room = (
  refl,
  record {
    loaded = h.loaded;
    place = omega (arith, h.place);
    avail_le = h.avail_le;
    left_lt = omega (arith, h.left_lt);
  },
)
read_all-fields source left w (n ∷ ns) h (hn, hs) room =
    let first = read-value source left w n h hn (omega arith) in
    let held = read-Holds source left w n h hn (omega arith) in
    let avail = read-avail source left w n h hn (omega arith) in
    let (rest, last) =
      read_all-fields source (left - n) (read w n).1 ns held hs (omega (arith, avail)) in
    (
      ap₂ (λ (x : ℕ) (xs : List ℕ). x ∷ xs) first rest,
      record {
        loaded = last.loaded;
        place = omega (arith, last.place);
        avail_le = last.avail_le;
        left_lt = omega (arith, last.left_lt);
      },
    )

bits-left : (source : List ℕ) (left : ℕ) (w : Word) → Holds source left w → (bits w).left ≡ left
unfolding bits
bits-left source left w h = omega (arith, h.place, h.left_lt)

-- For an input of eight bytes at least, of which fewer than 2^63 bits are unread: reads of at most 31
-- bits each, of 57 bits and of the unread bits at most together, return the fields below the unread
-- bits, the highest first, and leave that many bits less.
pub read_all-word :
    (source : List ℕ) (left : ℕ) (ns : List ℕ)
    → IsBytes source
    → 8 ≤ length source
    → left ≤ 8 * length source
    → left < 2 ^ 63
    → All (λ (n : ℕ). n ≤ 31) ns
    → sum ns ≤ 57
    → sum ns ≤ left
    → ((read_all (word (record { left = left }) source) ns).0
        ≡ fields (from_le_bytes source) left ns)
      × ((bits (read_all (word (record { left = left }) source) ns).1).left ≡ left - sum ns)
read_all-word source left ns h long inside lt small s57 sleft =
    let (held, ready) = word-Holds source left h long inside lt in
    let (values, after) =
      read_all-fields source left (word (record { left = left }) source) ns held small
        (omega (arith, ready)) in
    (values, bits-left source (left - sum ns) _ after)
