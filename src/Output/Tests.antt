-- ===== src/Output/Tests.antt =====
-- A sink of two bytes.
use zrip.Common.{◌+◌, ◌≤◌, ◌<◌, ◌≡◌, ◌⊎◌, [], ◌∷◌, length, none, some}
use zrip.Output.{SliceSink, push, extend_from_slice}
use zrip.Output.Refine.{written, push-written, extend_from_slice-written}

abbrev one_left : SliceSink
one_left = record { output = 5 ∷ 0 ∷ []; pos = 1 }

push-written_example :
    ((2 ≤ 1) × (push one_left 9 ≡ none))
    ⊎ ((s' : SliceSink) × (push one_left 9 ≡ some s')
        × (written s' ≡ 5 ∷ 9 ∷ [])
        × (length s'.output ≡ 2))
push-written_example = push-written one_left 9

extend_from_slice-written_example :
    ((2 < 1 + 2) × (extend_from_slice one_left (1 ∷ 2 ∷ []) ≡ none))
    ⊎ ((s' : SliceSink) × (extend_from_slice one_left (1 ∷ 2 ∷ []) ≡ some s')
        × (written s' ≡ 5 ∷ 1 ∷ 2 ∷ [])
        × (length s'.output ≡ 2))
extend_from_slice-written_example = extend_from_slice-written one_left (1 ∷ 2 ∷ [])
