-- ===== src/Sequences/Offsets.antt =====
-- The offset value that the encoder picks, and what the decoder makes of it.
use zrip.Common.{ℕ, ◌+◌, ◌^◌, ◌≤◌, ◌<◌, ◌≡◌, refl, arith}
use zrip.Common.{Bool, ◌==◌}
use zrip.Sequences.{Reps, rep_at, compute_offset, pick_offset_value, shift_reps}

-- Whatever the repeat offsets (the first a nonzero 32-bit number), the literal length and the offset
-- (not zero, and such that adding three does not overflow), the decoder makes of the encoder's offset
-- value that same offset, and both keep the same repeat offsets for the next sequence.
pub compute_offset-pick_offset_value :
    (r : Reps) (ll off : ℕ)
    → 0 < r.rep0
    → r.rep0 < 2 ^ 32
    → 0 < off
    → off + 3 < 2 ^ 32
    → compute_offset (pick_offset_value r (ll == 0) off) ll r
      ≡ (off, shift_reps r (ll == 0) (pick_offset_value r (ll == 0) off) off)
unfolding compute_offset pick_offset_value shift_reps rep_at
compute_offset-pick_offset_value r ll off p q h lt = ground arith

-- The offset value fits the code of an offset, and the next first repeat offset is the offset.
pub pick_offset_value-bounds :
    (r : Reps) (b : Bool) (off : ℕ)
    → 0 < off
    → (0 < pick_offset_value r b off) × (pick_offset_value r b off ≤ off + 3)
unfolding pick_offset_value
pick_offset_value-bounds r b off h = ground arith

pub shift_reps-rep0 : (r : Reps) (b : Bool) (ov off : ℕ) → (shift_reps r b ov off).rep0 ≡ off
unfolding shift_reps
shift_reps-rep0 r b ov off = refl
