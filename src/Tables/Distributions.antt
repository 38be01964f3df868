-- ===== src/Tables/Distributions.antt =====
-- crates/core/src/fse/mod.rs: the default distributions of the three tables.
use zrip.Common.{List, [], ◌∷◌}
use zrip.Common.Integers.{ℤ, pos, negsuc}

abbrev pub ll_default_dist : List ℤ
ll_default_dist =
    pos 4
    ∷ pos 3
    ∷ pos 2
    ∷ pos 2
    ∷ pos 2
    ∷ pos 2
    ∷ pos 2
    ∷ pos 2
    ∷ pos 2
    ∷ pos 2
    ∷ pos 2
    ∷ pos 2
    ∷ pos 2
    ∷ pos 1
    ∷ pos 1
    ∷ pos 1
    ∷ pos 2
    ∷ pos 2
    ∷ pos 2
    ∷ pos 2
    ∷ pos 2
    ∷ pos 2
    ∷ pos 2
    ∷ pos 2
    ∷ pos 2
    ∷ pos 3
    ∷ pos 2
    ∷ pos 1
    ∷ pos 1
    ∷ pos 1
    ∷ pos 1
    ∷ pos 1
    ∷ negsuc 0
    ∷ negsuc 0
    ∷ negsuc 0
    ∷ negsuc 0
    ∷ []

abbrev pub of_default_dist : List ℤ
of_default_dist =
    pos 1
    ∷ pos 1
    ∷ pos 1
    ∷ pos 1
    ∷ pos 1
    ∷ pos 1
    ∷ pos 2
    ∷ pos 2
    ∷ pos 2
    ∷ pos 1
    ∷ pos 1
    ∷ pos 1
    ∷ pos 1
    ∷ pos 1
    ∷ pos 1
    ∷ pos 1
    ∷ pos 1
    ∷ pos 1
    ∷ pos 1
    ∷ pos 1
    ∷ pos 1
    ∷ pos 1
    ∷ pos 1
    ∷ pos 1
    ∷ negsuc 0
    ∷ negsuc 0
    ∷ negsuc 0
    ∷ negsuc 0
    ∷ negsuc 0
    ∷ []

abbrev pub ml_default_dist : List ℤ
ml_default_dist =
    pos 1
    ∷ pos 4
    ∷ pos 3
    ∷ pos 2
    ∷ pos 2
    ∷ pos 2
    ∷ pos 2
    ∷ pos 2
    ∷ pos 2
    ∷ pos 1
    ∷ pos 1
    ∷ pos 1
    ∷ pos 1
    ∷ pos 1
    ∷ pos 1
    ∷ pos 1
    ∷ pos 1
    ∷ pos 1
    ∷ pos 1
    ∷ pos 1
    ∷ pos 1
    ∷ pos 1
    ∷ pos 1
    ∷ pos 1
    ∷ pos 1
    ∷ pos 1
    ∷ pos 1
    ∷ pos 1
    ∷ pos 1
    ∷ pos 1
    ∷ pos 1
    ∷ pos 1
    ∷ pos 1
    ∷ pos 1
    ∷ pos 1
    ∷ pos 1
    ∷ pos 1
    ∷ pos 1
    ∷ pos 1
    ∷ pos 1
    ∷ pos 1
    ∷ pos 1
    ∷ pos 1
    ∷ pos 1
    ∷ pos 1
    ∷ pos 1
    ∷ negsuc 0
    ∷ negsuc 0
    ∷ negsuc 0
    ∷ negsuc 0
    ∷ negsuc 0
    ∷ negsuc 0
    ∷ negsuc 0
    ∷ []
