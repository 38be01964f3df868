-- ===== src/Fse/Tests.antt =====
-- Three symbols in a table of 32 cells.
use zrip.Common.{◌≡◌, arith, [], ◌∷◌, length}
use zrip.Fse.{normalize_counts, total}
use zrip.Fse.Normalize.{cells, cells-normalize_counts}

cells-normalize_counts_example :
    (cells (normalize_counts (90 ∷ 0 ∷ 1 ∷ 9 ∷ []) 5) ≡ 32)
    × (length (normalize_counts (90 ∷ 0 ∷ 1 ∷ 9 ∷ []) 5) ≡ 4)
cells-normalize_counts_example =
    cells-normalize_counts (90 ∷ 0 ∷ 1 ∷ 9 ∷ []) 5 (unfold total in omega arith) (omega arith)
