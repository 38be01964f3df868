-- ===== src/Copy.antt =====
-- crates/decode/src/fast_vec.rs: `Literals`, `SeqOut` and the copies of literals and matches in whole
-- chunks, which write past their end. A write past the end of the buffer would be a panic; the
-- theorems on the copies have the room they need among their hypotheses. Every loop has as much fuel
-- as it has bytes to copy, and copies one at least in a round. A buffer that an error leaves half
-- written is dropped: the caller cuts it back to where the sequence starts.
pub mod Chunk
pub mod Match
pub mod Run
pub mod Join
pub mod Execute
mod Tests
use zrip.Common.{
  ℕ, zero, suc, ◌+◌, ◌-◌, ◌*◌, ◌%◌, ◌^◌, min, Bool, true, false, ◌&&◌, ◌||◌, not, bit_and,
}
use zrip.Common.{
  List, [], ◌∷◌, ◌++◌, length, get_or, set, take, drop, replicate, copy_from_slice, resize,
}
use zrip.Common.{leb, ltb, ◌==◌, if◌then◌else◌, Result, ok, err}
use zrip.Common.{corrupt_sequences, corrupt_literals, invalid_offset}

abbrev pub wildcopy_overlength : ℕ
wildcopy_overlength = 64

abbrev pub literal_overread : ℕ
literal_overread = 32

-- Copies `n` bytes within `out`, reading them all before writing.
unfoldable pub chunk : ℕ → List ℕ → ℕ → ℕ → List ℕ
chunk n out src dst = copy_from_slice out dst (take n (drop src out))

-- `while i < len`, one chunk of `n` bytes per round.
unfoldable pub chunks : ℕ → ℕ → ℕ → ℕ → ℕ → ℕ → List ℕ → List ℕ
chunks zero n i len src dst out = out
chunks (suc fuel) n i len src dst out = elim (ltb i len) [
  | true ↦ chunks fuel n (i + n) len (src + n) (dst + n) (chunk n out src dst)
  | false ↦ out
]

-- `out[dst] = out[src]`
unfoldable pub copy_byte : List ℕ → ℕ → ℕ → List ℕ
copy_byte out src dst = set out dst (get_or out src 0)

abbrev pub spread_add : List ℕ
spread_add = 0 ∷ 1 ∷ 2 ∷ 1 ∷ 4 ∷ 4 ∷ 4 ∷ 4 ∷ []

abbrev pub spread_sub : List ℕ
spread_sub = 8 ∷ 8 ∷ 8 ∷ 7 ∷ 8 ∷ 9 ∷ 10 ∷ 11 ∷ []

-- The first four bytes of an overlapping match, one by one.
unfoldable pub copy_four : List ℕ → ℕ → ℕ → List ℕ
copy_four out src at =
    copy_byte (copy_byte (copy_byte (copy_byte out src at) (src + 1) (at + 1)) (src + 2) (at + 2))
      (src + 3) (at + 3)

-- The first eight bytes of a match whose offset is below eight, and where the rest is read from.
unfoldable pub spread_match : List ℕ → ℕ → ℕ → ℕ → List ℕ × ℕ
spread_match out at src0 offset =
    let src = src0 + get_or spread_add offset 0 in
    (chunk 4 (copy_four out src0 at) src (at + 4), src + 8 - get_or spread_sub offset 0)

unfoldable pub wild_match : List ℕ → ℕ → ℕ → ℕ → ℕ → List ℕ
wild_match out at src offset len =
    let (spread, from) = spread_match out at src offset in
    if leb 32 offset
    then chunks len 32 32 len (src + 32) (at + 32) (chunk 32 out src at)
    else if leb 16 offset
    then chunks len 16 16 len (src + 16) (at + 16) (chunk 16 out src at)
    else if ltb offset 8
    then chunks len 8 8 len from (at + 8) spread
    else chunks len 8 8 len (src + 8) (at + 8) (chunk 8 out src at)

-- `while i < len`, 32 literals per round.
unfoldable pub literal_chunks : ℕ → ℕ → ℕ → ℕ → List ℕ → ℕ → List ℕ → List ℕ
literal_chunks zero i len at lits lp out = out
literal_chunks (suc fuel) i len at lits lp out = elim (ltb i len) [
  | true ↦
      literal_chunks fuel (i + 32) len at lits lp
        (copy_from_slice out (at + i) (take 32 (drop (lp + i) lits)))
  | false ↦ out
]

unfoldable pub wild_literals : List ℕ → ℕ → List ℕ → ℕ → ℕ → List ℕ
wild_literals out at lits lp len =
    literal_chunks len 32 len at lits lp (copy_from_slice out at (take 32 (drop lp lits)))

-- `fast` holds the literals and the slack after them.
pub record Literals : Type 0 where
  pub fast : List ℕ
  pub len : ℕ

pub new : List ℕ → ℕ → Literals
new bytes len =
    let len = min len (length bytes) in
    record { fast = take (min (len + literal_overread) (length bytes)) bytes; len = len }

abbrev pub as_slice : Literals → List ℕ
as_slice lits = take lits.len lits.fast

pub record SeqOut : Type 0 where
  pub buf : List ℕ
  pub op : ℕ

-- The buffer with the room of a block, where the block's output starts in it, and its position.
pub open_block : List ℕ → ℕ → ℕ → List ℕ × ℕ × ℕ
open_block vec max_block frame_start =
    let start = length vec in
    let frame_start = min frame_start start in
    (resize vec (start + max_block + wildcopy_overlength) 0, frame_start, start - frame_start)

abbrev pub limit : SeqOut → ℕ
limit out = length out.buf - wildcopy_overlength

-- Masked to 32 bits under `NARROW`.
unfoldable pub ix : Bool → ℕ → ℕ
ix narrow i = if narrow then bit_and i (2 ^ 32 - 1) else i

-- The part of the match that lies in the history before the frame, and how much that is.
unfoldable pub from_history : List ℕ → ℕ → ℕ → ℕ → List ℕ → List ℕ × ℕ
from_history dst lit_end ml offset history =
    let before = offset - lit_end in
    let start = length history - before in
    let done = min before ml in
    if ltb lit_end offset
    then (copy_from_slice dst lit_end (take done (drop start history)), done)
    else (dst, 0)

-- The output buffer and the new output position.
unfoldable pub execute_exact : List ℕ → ℕ → ℕ → ℕ → List ℕ → ℕ → ℕ → List ℕ → Result (List ℕ × ℕ)
execute_exact dst op ll ml lits lp offset history =
    let lit_end = op + ll in
    let written = copy_from_slice dst op (take ll (drop lp lits)) in
    let (out, done) = from_history written lit_end ml offset history in
    let at = lit_end + done in
    if ltb (length lits) lp || ltb (length lits - lp) ll
    then err corrupt_literals
    else if offset == 0
    then err invalid_offset
    else if ltb lit_end offset && ltb (length history) (offset - lit_end)
    then err invalid_offset
    else ok (
      if ltb done ml then wild_match out at (at - offset) offset (ml - done) else out,
      lit_end + ml,
    )

unfoldable pub execute : Bool → SeqOut → Literals → ℕ → ℕ → ℕ → ℕ → List ℕ → Result SeqOut
execute narrow out lits lp0 ll ml offset history =
    let op = ix narrow out.op in
    let lp = ix narrow lp0 in
    let lit_end = op + ll in
    let match_end = lit_end + ml in
    let exact = execute_exact out.buf op ll ml (as_slice lits) lp offset history in
    if ltb (length out.buf) (match_end + wildcopy_overlength)
    then err corrupt_sequences
    else if leb offset lit_end
        && (leb (lp + ll + literal_overread) (length lits.fast) && not (offset == 0))
    then ok (record {
      buf =
          wild_match (wild_literals out.buf op lits.fast lp ll) lit_end (lit_end - offset) offset
            ml;
      op = match_end;
    })
    else elim exact [ ok p ↦ ok (record { buf = p.0; op = p.1 }) | err e ↦ err e ]

unfoldable pub extend_literals : SeqOut → Literals → ℕ → ℕ → Result SeqOut
extend_literals out lits lp len =
    let slice = as_slice lits in
    if ltb (length slice) lp || ltb (length slice - lp) len
    then err corrupt_literals
    else if ltb (limit out - out.op) len
    then err corrupt_sequences
    else ok (record {
      buf = copy_from_slice out.buf out.op (take len (drop lp slice));
      op = out.op + len;
    })
