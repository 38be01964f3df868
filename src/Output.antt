-- ===== src/Output.antt =====
-- crates/encode/src/output.rs: the sinks that the encoder writes to. `none` stands for
-- `CompressError::OutputTooSmall`; `checked_add` cannot fail for slices that fit the address space.
pub mod Refine
mod Tests
use zrip.Common.{
  ℕ, ◌+◌, List, [], ◌∷◌, ◌++◌, length, set, leb, ltb, if◌then◌else◌, copy_from_slice, Option, none,
  some,
}

-- The sink of a vector.
pub vec_push : List ℕ → ℕ → Option (List ℕ)
vec_push v byte = some (v ++ (byte ∷ []))

pub vec_extend : List ℕ → List ℕ → Option (List ℕ)
vec_extend v source = some (v ++ source)

pub record SliceSink : Type 0 where
  pub output : List ℕ
  pub pos : ℕ

pub new : List ℕ → SliceSink
new output = record { output = output; pos = 0 }

pub push : SliceSink → ℕ → Option SliceSink
push s byte =
    if leb (length s.output) s.pos
    then none
    else some (record { output = set s.output s.pos byte; pos = s.pos + 1 })

pub extend_from_slice : SliceSink → List ℕ → Option SliceSink
extend_from_slice s source =
    let end = s.pos + length source in
    if ltb (length s.output) end
    then none
    else some (record { output = copy_from_slice s.output s.pos source; pos = end })
