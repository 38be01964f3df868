-- ===== src/Bitstream/Reverse/Fields.antt =====
-- What `ReverseBitReader` returns, by the number that its bytes spell: a reader with `left` bits
-- left stands below bit `left` of that number, and a field is read from there down.
use zrip.Common.{ℕ, ◌+◌, ◌-◌, ◌*◌, ◌/◌, ◌%◌, ◌^◌, ◌≤◌, ◌<◌, ◌≡◌, refl, sym, ap, ap₂, ◌∙◌}
use zrip.Common.{◌⊎◌, List, [], ◌∷◌, length, drop, arith, bit_or, ◌||◌}
use zrip.Common.{Bool-cases, inl, inr, leb, leb→gt, length-drop, All-drop}
use zrip.Common.{ok, err, input_exhausted, ◌==◌, ==→eq, ge→ltb, lt→ltb, false}
use zrip.Common.Bytes.{IsByte, IsBytes, from_le_bytes, from_le_bytes-take, from_le_bytes-drop}
use zrip.Common.Bytes.{from_le_bytes-lt_pow}
use zrip.Common.Words.{u32, u64}
use zrip.Common.Bits.{bit_or_low}
use zrip.Common.Powers.{
  pow_cong, pow-add, pow_mono, pow_pos, mod-div-mod_pow, div-div_pow, mod-mul_fields,
}
use native.Mathlib.Nat.{mod-eq_of_lt, mod-lt, mod-one, mul-div-mul_right}
use zrip.Bitstream.Reverse.{ReverseBitReader, read_u64_le, or_bytes, reload, refill, top_field}
use zrip.Bitstream.Reverse.{read_bits, bits_remaining}

abbrev pub number : ReverseBitReader → ℕ
number r = from_le_bytes r.source

-- The container holds the 64 bits from byte `ptr` on, and `ptr` leaves eight bytes or is zero.
pub record IsValid (r : ReverseBitReader) : Type 0 where
  pub bytes : IsBytes r.source
  pub loaded : r.container ≡ number r / 2 ^ (8 * r.ptr) % 2 ^ 64
  pub consumed_le : r.bits_consumed ≤ 64
  pub placed : (r.ptr ≡ 0) ⊎ (r.ptr + 8 ≤ length r.source)

pub read_u64_le_lem :
    (xs : List ℕ) (at : ℕ)
    → IsBytes xs
    → read_u64_le xs at ≡ from_le_bytes xs / 2 ^ (8 * at) % 2 ^ 64
unfolding read_u64_le
read_u64_le_lem xs at h =
    from_le_bytes-take 8 (drop at xs) (All-drop IsByte at xs h)
    ∙ ap (λ (t : ℕ). t % 2 ^ 64) (from_le_bytes-drop at xs h)

-- The `|=` loop over at most eight bytes spells them.
or_bytes_lem :
    (i val : ℕ) (xs : List ℕ)
    → IsBytes xs
    → i + length xs ≤ 8
    → val < 2 ^ (i * 8)
    → or_bytes i val xs ≡ val + 2 ^ (i * 8) * from_le_bytes xs
unfolding or_bytes
or_bytes_lem i val [] h n lt = omega arith
or_bytes_lem i val (b ∷ bs) (hb, hs) n lt =
    let next : 2 ^ ((i + 1) * 8) ≡ 2 ^ (i * 8) * 256 =
      pow_cong ((i + 1) * 8) (i * 8 + 8) (omega arith) ∙ pow-add (i * 8) 8 in
    let top : 2 ^ ((i + 1) * 8) ≤ 2 ^ 64 = pow_mono ((i + 1) * 8) 64 (omega arith) in
    let fits : b * 2 ^ (i * 8) < 2 ^ 64 = grind (arith, pow_pos (i * 8)) in
    let step : bit_or val (u64 (b * 2 ^ (i * 8))) ≡ val + b * 2 ^ (i * 8) =
      ap (bit_or val) (mod-eq_of_lt fits) ∙ bit_or_low (i * 8) val b lt in
    let below : val + b * 2 ^ (i * 8) < 2 ^ ((i + 1) * 8) = grind arith in
    ap (λ (t : ℕ). or_bytes (i + 1) t bs) step
    ∙ or_bytes_lem (i + 1) (val + b * 2 ^ (i * 8)) bs hs (omega arith) below
    ∙ omega (arith, ap (λ (t : ℕ). t * from_le_bytes bs) next)

pub short_value :
    (xs : List ℕ) → IsBytes xs → length xs ≤ 8 → or_bytes 0 0 xs ≡ from_le_bytes xs % 2 ^ 64
short_value xs h n =
    let fits : from_le_bytes xs < 2 ^ 64 =
      omega (arith, from_le_bytes-lt_pow xs h, pow_mono (8 * length xs) 64 (omega arith)) in
    or_bytes_lem 0 0 xs h (omega arith) (omega arith) ∙ omega (arith, mod-eq_of_lt fits)

reload_lem :
    (xs : List ℕ) (at : ℕ) → IsBytes xs → reload xs at ≡ from_le_bytes xs / 2 ^ (8 * at) % 2 ^ 64
unfolding reload
reload_lem xs at h = elim (Bool-cases (leb (at + 8) (length xs))) [
  | inl e ↦ rw e (read_u64_le_lem xs at h)
  | inr e ↦ rw e (
      short_value (drop at xs) (All-drop IsByte at xs h)
        (omega (arith, length-drop at xs, leb→gt (at + 8) (length xs) e))
      ∙ ap (λ (t : ℕ). t % 2 ^ 64) (from_le_bytes-drop at xs h))
]

-- `refill` keeps the bits that are left, and makes 57 of them ready, or all.
pub record Refilled (r r' : ReverseBitReader) : Type 0 where
  pub valid : IsValid r'
  pub same : r'.source ≡ r.source
  pub left : bits_remaining r' ≡ bits_remaining r
  pub ready : (r'.bits_consumed ≤ 7) ⊎ (r'.ptr ≡ 0)

pub refill-Refilled : (r : ReverseBitReader) → IsValid r → Refilled r (refill r)
unfolding refill
refill-Refilled r h = elim (Bool-cases (leb r.bits_consumed 7 || r.ptr == 0)) [
  | inl e ↦ rw e (record { valid = h; same = refl; left = refl; ready = ground arith })
  | inr e ↦
      let (c, p) = let q : (7 < r.bits_consumed) × (0 < r.ptr) = ground arith in q in
      rw e (record {
        valid = record {
          bytes = h.bytes;
          loaded = reload_lem r.source _ h.bytes;
          consumed_le = omega (arith, h.consumed_le);
          placed = omega (arith, h.placed);
        };
        same = refl;
        left = omega (arith, h.consumed_le);
        ready = omega arith;
      })
]

-- `n` bits from the top of the container, as bits of the number.
top_field_lem :
    (r : ReverseBitReader) (n : ℕ)
    → IsValid r
    → 0 < n
    → n ≤ 32
    → r.bits_consumed + n ≤ 64
    → top_field r n ≡ number r / 2 ^ (bits_remaining r - n) % 2 ^ n
unfolding top_field
top_field_lem r n h pos hn room =
    let c : ℕ = r.bits_consumed in
    let x : ℕ = r.container in
    let k : ℕ = 64 - c - n in
    let cut : x * 2 ^ c % 2 ^ 64 / 2 ^ (64 - n) ≡ x * 2 ^ c / 2 ^ (64 - n) % 2 ^ n =
      ap (λ (t : ℕ). x * 2 ^ c % t / 2 ^ (64 - n))
        (pow_cong 64 (64 - n + n) (omega arith) ∙ pow-add (64 - n) n)
      ∙ (mod-mul_fields (2 ^ (64 - n)) (2 ^ n) (x * 2 ^ c) (pow_pos (64 - n)) (pow_pos n)).0 in
    let down : x * 2 ^ c / 2 ^ (64 - n) ≡ x / 2 ^ k =
      ap (λ (t : ℕ). x * 2 ^ c / t) (pow_cong (64 - n) (k + c) (omega arith) ∙ pow-add k c)
      ∙ mul-div-mul_right x (2 ^ k) (pow_pos c) in
    let field : x * 2 ^ c % 2 ^ 64 / 2 ^ (64 - n) ≡ number r / 2 ^ (bits_remaining r - n) % 2 ^ n =
      cut
      ∙ ap (λ (t : ℕ). t % 2 ^ n) down
      ∙ ap (λ (t : ℕ). t / 2 ^ k % 2 ^ n) h.loaded
      ∙ mod-div-mod_pow 64 k n (number r / 2 ^ (8 * r.ptr)) (omega arith)
      ∙ ap (λ (t : ℕ). t % 2 ^ n) (div-div_pow (8 * r.ptr) k (number r))
      ∙ ap (λ (t : ℕ). number r / t % 2 ^ n)
          (pow_cong (8 * r.ptr + k) (bits_remaining r - n) (omega arith)) in
    ap u32 field
    ∙ mod-eq_of_lt (
        omega (arith, mod-lt (number r / 2 ^ (bits_remaining r - n)) (pow_pos n), pow_mono n 32 hn))

consumed-IsValid :
    (r : ReverseBitReader) (n : ℕ)
    → IsValid r
    → r.bits_consumed + n ≤ 64
    → IsValid (record r { bits_consumed = r.bits_consumed + n })
consumed-IsValid r n h room = record {
  bytes = h.bytes;
  loaded = h.loaded;
  consumed_le = room;
  placed = h.placed;
}

module _ (r : ReverseBitReader) (n : ℕ) (h : IsValid r) (hn : n ≤ 32) where
  -- Where `n` bits are left, the highest `n` of them are returned, and `n` less are left.
  pub read_bits-ok :
      n ≤ bits_remaining r
      → (r' : ReverseBitReader) × (read_bits r n
          ≡ ok (number r / 2 ^ (bits_remaining r - n) % 2 ^ n, r'))
        × (r'.source ≡ r.source)
        × (bits_remaining r' ≡ bits_remaining r - n)
        × IsValid r'
  unfolding read_bits
  read_bits-ok room = elim (Bool-cases (n == 0)) [
    | inl e ↦
        let z : n ≡ 0 = ==→eq n 0 e in
        (
          r,
          rw e (
              ap (λ (t : ℕ). ok (t, r))
                (sym (
                  ap (λ (k : ℕ). number r / 2 ^ (bits_remaining r - n) % 2 ^ k) z
                  ∙ mod-one (number r / 2 ^ (bits_remaining r - n))))),
          refl,
          omega (arith, z),
          h,
        )
    | inr e ↦
        let f = refill-Refilled r h in
        let r1 = refill r in
        let fits : r1.bits_consumed + n ≤ 64 =
          omega (arith, f.left, f.ready, f.valid.consumed_le) in
        let enough = ge→ltb (64 - r1.bits_consumed) n (omega arith) in
        let pos : 0 < n = ground arith in
        (
          record r1 { bits_consumed = r1.bits_consumed + n },
          rw (e, enough)
              (ap (λ (t : ℕ). ok (t, record r1 { bits_consumed = r1.bits_consumed + n }))
                (top_field_lem r1 n f.valid pos hn fits
                  ∙ ap₂ (λ (s : List ℕ) (k : ℕ). from_le_bytes s / 2 ^ (k - n) % 2 ^ n) f.same
                      f.left)),
          f.same,
          omega (arith, f.left),
          consumed-IsValid r1 n f.valid fits,
        )
  ]

  -- Otherwise the reader says so.
  pub read_bits-exhausted : bits_remaining r < n → read_bits r n ≡ err input_exhausted
  unfolding read_bits
  read_bits-exhausted short =
      let f = refill-Refilled r h in
      let over =
        lt→ltb (64 - (refill r).bits_consumed) n (omega (arith, f.left, f.valid.consumed_le)) in
      let nonzero : (n == 0) ≡ false = ground arith in rw (nonzero, over)
