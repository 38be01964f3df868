-- ===== src/Copy/Tests.antt =====
-- Two literals and an overlapping match behind four bytes of output.
use zrip.Common.{◌+◌, ◌≡◌, refl, arith, true, [], ◌∷◌, replicate}
use zrip.Common.{ok, err, invalid_offset}
use zrip.Copy.{Literals, SeqOut, as_slice, execute, wild_match}
use zrip.Copy.Chunk.{Copied}
use zrip.Copy.Match.{wild_match-Copied}
use zrip.Copy.Join.{Executed}
use zrip.Copy.Execute.{execute-Executed, execute-error}

abbrev output : SeqOut
output = record { buf = 1 ∷ 2 ∷ 3 ∷ 4 ∷ replicate 80 0; op = 4 }

abbrev two_literals : Literals
two_literals = record { fast = 9 ∷ 8 ∷ replicate 32 0; len = 2 }

execute-Executed_example :
    (out' : SeqOut) × (execute true output two_literals 0 2 10 3 [] ≡ ok out')
    × (out'.op ≡ 4 + 2 + 10)
    × Executed output.buf (as_slice two_literals) 4 0 2 10 3 [] out'.buf
execute-Executed_example =
    execute-Executed true output two_literals 0 2 10 3 [] (λ e. omega arith) (λ e. omega arith)
      (omega arith) refl

execute-error_example : execute true output two_literals 0 2 10 9 (7 ∷ []) ≡ err invalid_offset
execute-error_example =
    execute-error true output two_literals 0 2 10 9 (7 ∷ []) invalid_offset (λ e. omega arith)
      (λ e. omega arith) (record { all = omega arith; slack = omega arith }) refl

wild_match-Copied_example :
    Copied 3 4
      (4 + 10)
      (1 ∷ 2 ∷ 3 ∷ 4 ∷ replicate 80 0)
      (wild_match (1 ∷ 2 ∷ 3 ∷ 4 ∷ replicate 80 0) 4 1 3 10)
wild_match-Copied_example =
    wild_match-Copied 3 4 10 (1 ∷ 2 ∷ 3 ∷ 4 ∷ replicate 80 0) (omega arith) (omega arith)
      (omega arith)
