-- ===== src/Frame/Checksum.antt =====
-- crates/decode/src/lib.rs: the checksum of a frame of raw and RLE blocks.
use zrip.Common.{ℕ, ◌+◌, ◌%◌, ◌^◌, ◌≤◌, ◌≡◌, sym, ap, ◌∙◌, arith, Bool}
use zrip.Common.{true, false, Bool-cases, inl, inr, List, ◌++◌, length}
use zrip.Common.{ltb, ltb→ge, ◌==◌, ==→eq, Option-cases}
use zrip.Common.{ok, ok-injective, err-absurd, DecompressError, input_exhausted}
use zrip.Common.{checksum_mismatch}
use zrip.Header.{FrameHeader, le_at}
use zrip.Frame.{Frame, check_content}
use zrip.Xxhash.{Xxh64State, xxh64}
use zrip.Xxhash
use zrip.Xxhash.Stream.{Represents}
use zrip.Xxhash.Finish.{finish-eq-xxh64}
use zrip.Frame.Run.{Reached, IsHashed, Reached-IsRun}

module _ (input output : List ℕ) (header : FrameHeader) (limit : ℕ)
    (overrun : DecompressError) where
  -- What the checksum of the frame says of what it has written.
  record IsChecked (f : Frame) (offset : ℕ) (written : List ℕ) : Type 0 where
    stored : le_at input f.offset 4 ≡ xxh64 written 0 % 2 ^ 32
    behind : offset ≡ f.offset + 4
    inside : offset ≤ length input

  check_content-IsChecked :
      (f : Frame) (offset : ℕ) (written : List ℕ) (used : Bool)
      → used ≡ true
      → IsHashed input output header limit overrun used f.hasher written
      → check_content input f ≡ ok offset
      → IsChecked f offset written
  unfolding check_content
  check_content-IsChecked f offset written false q h e = absurd (ground (arith, q))
  check_content-IsChecked f offset written true q h e = elim (Option-cases f.hasher) [
    | inl missing ↦ absurd (let z : 1 ≤ 0 = rw missing at h in omega (arith, z))
    | inr (state, some_) ↦
        let (rep, seed) : Represents state written × (state.seed ≡ 0) = rw some_ at h in
        let expected : ℕ = zrip.Xxhash.finish state % 2 ^ 32 in
        let hash : zrip.Xxhash.finish state ≡ xxh64 written 0 =
          finish-eq-xxh64 state written rep ∙ ap (xxh64 written) seed in
        elim (Bool-cases (ltb (length input) (f.offset + 4))) [
          | inl short ↦ err-absurd input_exhausted offset (rw (some_, short) at e)
          | inr enough ↦ elim (Bool-cases (expected == le_at input f.offset 4)) [
            | inr wrong ↦
                err-absurd (checksum_mismatch (le_at input f.offset 4) expected) offset
                  (rw (some_, enough, wrong) at e)
            | inl right ↦
                let behind = ok-injective (f.offset + 4) offset (rw (some_, enough, right) at e) in
                record {
                  stored =
                      sym (==→eq expected (le_at input f.offset 4) right)
                      ∙ ap (λ (t : ℕ). t % 2 ^ 32) hash;
                  behind = sym behind;
                  inside = omega (arith, behind, ltb→ge (length input) (f.offset + 4) enough);
                }
          ]
        ]
  ]

-- Behind the last of any number of raw and RLE blocks of a frame with a checksum, whose header lies in
-- the input: where the checksum is accepted, the four bytes behind the blocks are the lower half of the
-- one-shot XXH64, of seed 0, of all that the frame has written, and they lie in the input.
pub check_content-xxh64 :
    (input output : List ℕ) (header : FrameHeader) (limit : ℕ) (overrun : DecompressError)
    (f : Frame) (offset : ℕ)
    → header.header_size ≤ length input
    → header.content_checksum ≡ true
    → Reached input output header limit overrun f true
    → check_content input f ≡ ok offset
    → (written : List ℕ) × (f.output ≡ output ++ written)
      × (le_at input f.offset 4 ≡ xxh64 written 0 % 2 ^ 32)
      × (offset ≡ f.offset + 4)
      × (offset ≤ length input)
check_content-xxh64 input output header limit overrun f offset inside used r e =
    let h = Reached-IsRun input output header limit overrun f true inside r in
    let c =
      check_content-IsChecked input output header limit overrun f offset h.written
        header.content_checksum used h.hashed e in
    (h.written, h.grown, c.stored, c.behind, c.inside)
