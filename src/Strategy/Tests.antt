-- ===== src/Strategy/Tests.antt =====
-- Concrete levels.
use zrip.Common.{◌^◌, ◌≤◌, ◌≡◌, ◌⊎◌, refl, arith, some}
use zrip.Common.Integers.{pos}
use zrip.Strategy.{level_params_for_size, tuned, clamp}
use zrip.Strategy.Levels.{LevelParams, level_3, level_params_inner}
use zrip.Strategy.Bounds.{InBounds, level_params_for_size-InBounds, level_params_for_size-covers}

level_params_for_size-InBounds_example : InBounds (tuned (pos 3) 1000 level_3)
level_params_for_size-InBounds_example =
    level_params_for_size-InBounds (pos 3) 1000 (tuned (pos 3) 1000 level_3)
      (unfold level_params_for_size level_params_inner in refl)

level_params_for_size-covers_example :
    (q : LevelParams) × (p : LevelParams) × (level_params_inner (pos 3) ≡ some q)
    × (level_params_for_size (pos 3) 1000 ≡ some p)
    × ((p.window_log ≡ clamp 10 27 q.window_log) ⊎ (1000 ≤ 2 ^ p.window_log))
level_params_for_size-covers_example =
    level_params_for_size-covers (pos 3) 1000 (omega arith) (omega arith) (omega arith)
