-- ===== src/Exec/Tests.antt =====
-- Two reads of a word of eight bytes.
use zrip.Common.{ℕ, ◌≡◌, arith, List, [], ◌∷◌}
use zrip.Common.Bytes.{from_le_bytes}
use zrip.Common.{some, ok}
use zrip.Bitstream.Reverse
use zrip.Bitstream.Reverse.{ReverseBitReader, bits_remaining}
use zrip.Exec.{SeqBits, new, word, bits}
use zrip.Exec.Open.{new-same}
use zrip.Exec.Fields.{read_all, read_all-word, fields}

abbrev eight_bytes : List ℕ
eight_bytes = 1 ∷ 2 ∷ 3 ∷ 4 ∷ 5 ∷ 6 ∷ 7 ∷ 8 ∷ []

read_all-word_example :
    ((read_all (word (record { left = 60 }) eight_bytes) (5 ∷ 9 ∷ [])).0
      ≡ fields (from_le_bytes eight_bytes) 60 (5 ∷ 9 ∷ []))
    × ((bits (read_all (word (record { left = 60 }) eight_bytes) (5 ∷ 9 ∷ [])).1).left ≡ 46)
read_all-word_example =
    read_all-word eight_bytes 60 (5 ∷ 9 ∷ [])
      (
        omega arith,
        (
          omega arith,
          (
            omega arith,
            (omega arith, (omega arith, (omega arith, (omega arith, (omega arith, tt))))),
          ),
        ),
      )
      (omega arith) (omega arith) (omega arith) (omega arith, (omega arith, tt)) (omega arith)
      (omega arith)

new-same_example :
    (b : SeqBits) × (r : ReverseBitReader) × (new eight_bytes ≡ some b)
    × (Reverse.new eight_bytes ≡ ok r)
    × (b.left ≡ bits_remaining r)
new-same_example =
    new-same eight_bytes
      (
        omega arith,
        (
          omega arith,
          (
            omega arith,
            (omega arith, (omega arith, (omega arith, (omega arith, (omega arith, tt))))),
          ),
        ),
      )
      (omega arith) (omega arith)
