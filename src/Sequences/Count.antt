-- ===== src/Sequences/Count.antt =====
-- The sequence count, written and read back.
use zrip.Common.{ℕ, ◌+◌, ◌-◌, ◌*◌, ◌/◌, ◌^◌, ◌≤◌, ◌<◌, ◌≡◌, ap, ◌∙◌, arith}
use zrip.Common.{List, ◌∷◌, ◌++◌, length, Bool-cases, inl, inr, ltb, ltb→lt, ltb→ge}
use zrip.Common.{ok}
use zrip.Common.Words.{u8}
use zrip.Sequences.{write_seq_count, parse_sequence_count}

count_1 : (b0 : ℕ) (rest : List ℕ) → b0 < 128 → parse_sequence_count (b0 ∷ rest) ≡ ok (b0, 1)
unfolding parse_sequence_count
count_1 b0 rest h = ground arith

count_2 :
    (b0 b1 : ℕ) (rest : List ℕ)
    → 128 ≤ b0
    → b0 < 255
    → parse_sequence_count (b0 ∷ b1 ∷ rest) ≡ ok ((b0 - 128) * 2 ^ 8 + b1, 2)
unfolding parse_sequence_count
count_2 b0 b1 rest h g = ground arith

count_3 :
    (b1 b2 : ℕ) (rest : List ℕ)
    → parse_sequence_count (255 ∷ b1 ∷ b2 ∷ rest) ≡ ok (b1 + b2 * 2 ^ 8 + 0x7F00, 3)
unfolding parse_sequence_count
count_3 b1 b2 rest = ground arith

-- A count below 2^16 + 0x7F00 is read back with the number of bytes that were written, whatever
-- bytes follow.
pub parse_sequence_count-write_seq_count :
    (n : ℕ) (rest : List ℕ)
    → n < 2 ^ 16 + 0x7F00
    → parse_sequence_count (write_seq_count n ++ rest) ≡ ok (n, length (write_seq_count n))
unfolding write_seq_count
parse_sequence_count-write_seq_count n rest h = elim (Bool-cases (ltb n 128)) [
  | inl e ↦
      let small = ltb→lt n 128 e in
      rw e (
        count_1 (u8 n) rest (omega arith)
        ∙ ap (λ (k : ℕ). ok (k, 1)) (let q : u8 n ≡ n = omega arith in q))
  | inr e ↦ elim (Bool-cases (ltb n 0x7F00)) [
    | inl f ↦
        let below = ltb→lt n 0x7F00 f in
        let above = ltb→ge n 128 e in
        let b0 : ℕ = u8 (n / 2 ^ 8 + 128) in
        rw (e, f)
          (count_2 b0 (u8 n) rest (omega arith) (omega arith)
            ∙ ap (λ (k : ℕ). ok (k, 2)) (let q : (b0 - 128) * 2 ^ 8 + u8 n ≡ n = omega arith in q))
    | inr f ↦
        let above = ltb→ge n 0x7F00 f in
        let adj : ℕ = n - 0x7F00 in
        rw (e, f)
          (count_3 (u8 adj) (u8 (adj / 2 ^ 8)) rest
            ∙ ap (λ (k : ℕ). ok (k, 3))
                (let q : u8 adj + u8 (adj / 2 ^ 8) * 2 ^ 8 + 0x7F00 ≡ n = omega arith in q))
  ]
]
