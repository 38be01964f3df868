-- ===== src/Frame/Run.antt =====
-- crates/decode/src/lib.rs: the block loop of a frame over raw and RLE blocks, as a relation.
use zrip.Common.{ℕ, ◌+◌, ◌-◌, ◌≤◌, ◌≡◌, refl, sym, ap, ◌∙◌, arith, Bool}
use zrip.Common.{true, false, Bool-cases, inl, inr, List, [], ◌++◌, length, take, drop}
use zrip.Common.{replicate, get_or, length-append, length-take, length-replicate}
use zrip.Common.{ltb, ltb→ge, leb, leb→gt, Option, none, some}
use zrip.Common.{ok, ok-injective, err-absurd, DecompressError, input_exhausted}
use zrip.Common.{block_too_large}
use zrip.Header.{FrameHeader, BlockHeader, BlockType, raw, rle, parse_block_header}
use zrip.Frame.{Frame, open_frame, raw_block, rle_block, hash_block, behind_block, max_block_size}
use zrip.Xxhash.{Xxh64State, xxh64}
use zrip.Xxhash
use zrip.Xxhash.Stream.{Represents, new-Represents, update-Represents}
use zrip.Xxhash.Finish.{seed-update, seed-new}
use zrip.Common.{append_assoc, append-nil, drop-append, if◌then◌else◌}
use mathlib.Core.Path.{subst}

module _ (input output : List ℕ) (header : FrameHeader) (limit : ℕ)
    (overrun : DecompressError) where
  -- The decoding of a block of one of the two types.
  pub data Decoded : BlockType → ℕ → ℕ → List ℕ → ℕ × List ℕ → Type 0 where
    raw_decoded :
        (size offset : ℕ) (out : List ℕ) (p : ℕ × List ℕ)
        → raw_block input (length output) limit overrun size offset out ≡ ok p
        → Decoded raw size offset out p
    rle_decoded :
        (size offset : ℕ) (out : List ℕ) (p : ℕ × List ℕ)
        → rle_block input (length output) limit overrun size offset out ≡ ok p
        → Decoded rle size offset out p

  -- The variables that the loop reaches, and whether the block before was the last.
  pub data Reached : Frame → Bool → Type 0 where
    opened : Reached (open_frame header output) false
    block :
        (f : Frame) (b : BlockHeader) (p : ℕ × List ℕ)
        → Reached f false
        → f.offset + 3 ≤ length input
        → parse_block_header (drop f.offset input) ≡ ok b
        → Decoded b.block_type b.block_size (f.offset + 3) f.output p
        → Reached (behind_block f p) b.last_block

  -- A decoded block puts a piece behind the output, within the limit.
  record Grown (offset : ℕ) (out : List ℕ) (p : ℕ × List ℕ) : Type 0 where
    piece : List ℕ
    grown : p.1 ≡ out ++ piece
    within : length out - length output + length piece ≤ limit
    read : p.0 ≤ length input

  raw-Grown :
      (size offset : ℕ) (out : List ℕ) (p : ℕ × List ℕ)
      → raw_block input (length output) limit overrun size offset out ≡ ok p
      → Grown offset out p
  unfolding raw_block
  raw-Grown size offset out p e = elim (Bool-cases (ltb max_block_size size)) [
    | inl large ↦ err-absurd block_too_large p (rw large at e)
    | inr small ↦ elim (Bool-cases (ltb (length input) (offset + size))) [
      | inl short ↦ err-absurd input_exhausted p (rw (small, short) at e)
      | inr enough ↦ elim (Bool-cases (ltb limit (length out - length output + size))) [
        | inl over ↦ err-absurd overrun p (rw (small, enough, over) at e)
        | inr fits ↦
            subst (Grown offset out) (ok-injective _ p (rw (small, enough, fits) at e)) (record {
              piece = take size (drop offset input);
              grown = refl;
              within = omega (
                arith,
                length-take size (drop offset input),
                ltb→ge limit (length out - length output + size) fits,
              );
              read = ltb→ge (length input) (offset + size) enough;
            })
      ]
    ]
  ]

  rle-Grown :
      (size offset : ℕ) (out : List ℕ) (p : ℕ × List ℕ)
      → rle_block input (length output) limit overrun size offset out ≡ ok p
      → Grown offset out p
  unfolding rle_block
  rle-Grown size offset out p e = elim (Bool-cases (ltb max_block_size size)) [
    | inl large ↦ err-absurd block_too_large p (rw large at e)
    | inr small ↦ elim (Bool-cases (leb (length input) offset)) [
      | inl short ↦ err-absurd input_exhausted p (rw (small, short) at e)
      | inr enough ↦ elim (Bool-cases (ltb limit (length out - length output + size))) [
        | inl over ↦ err-absurd overrun p (rw (small, enough, over) at e)
        | inr fits ↦
            subst (Grown offset out) (ok-injective _ p (rw (small, enough, fits) at e)) (record {
              piece = replicate size (get_or input offset 0);
              grown = refl;
              within = omega (
                arith,
                length-replicate size (get_or input offset 0),
                ltb→ge limit (length out - length output + size) fits,
              );
              read = omega (arith, leb→gt (length input) offset enough);
            })
      ]
    ]
  ]

  Decoded-Grown :
      (t : BlockType) (size offset : ℕ) (out : List ℕ) (p : ℕ × List ℕ)
      → Decoded t size offset out p
      → Grown offset out p
  Decoded-Grown _ _ _ _ _ (raw_decoded size offset out p e) = raw-Grown size offset out p e
  Decoded-Grown _ _ _ _ _ (rle_decoded size offset out p e) = rle-Grown size offset out p e

  -- The hasher, where there is one, has read what the frame has written.
  abbrev pub IsHashed : Bool → Option Xxh64State → List ℕ → Type 0
  IsHashed false hasher xs = Unit
  IsHashed true none xs = 1 ≤ 0
  IsHashed true (some h) xs = Represents h xs × (h.seed ≡ 0)

  hash_block-IsHashed :
      (used : Bool) (hasher : Option Xxh64State) (xs piece : List ℕ)
      → IsHashed used hasher xs
      → IsHashed used (hash_block hasher piece) (xs ++ piece)
  unfolding hash_block
  hash_block-IsHashed false hasher xs piece h = tt
  hash_block-IsHashed true none xs piece h = h
  hash_block-IsHashed true (some state) xs piece (h, seed) =
      (update-Represents state xs piece h, seed-update state piece ∙ seed)

  open-IsHashed : (used : Bool) → IsHashed used (if used then some (zrip.Xxhash.new 0) else none) []
  open-IsHashed false = tt
  open-IsHashed true = (new-Represents 0, seed-new 0)

  -- What the frame has written, and where it is.
  pub record IsRun (f : Frame) : Type 0 where
    pub written : List ℕ
    pub grown : f.output ≡ output ++ written
    pub within : length written ≤ limit
    pub read : f.offset ≤ length input
    pub hashed : IsHashed header.content_checksum f.hasher written

  behind_block-IsRun :
      (f : Frame) (p : ℕ × List ℕ)
      → IsRun f
      → Grown (f.offset + 3) f.output p
      → IsRun (behind_block f p)
  unfolding behind_block
  behind_block-IsRun f p h g =
      let split : p.1 ≡ output ++ (h.written ++ g.piece) =
        g.grown ∙ ap (λ t. t ++ g.piece) h.grown ∙ append_assoc output h.written g.piece in
      let fresh : drop (length f.output) p.1 ≡ g.piece =
        ap (drop (length f.output)) g.grown ∙ drop-append (length f.output) f.output g.piece refl in
      record {
        written = h.written ++ g.piece;
        grown = split;
        within = omega (
          arith,
          g.within,
          length-append h.written g.piece,
          length-append output h.written,
          ap (λ (t : List ℕ). length t) h.grown,
        );
        read = g.read;
        hashed =
            subst
              (λ t. IsHashed header.content_checksum (hash_block f.hasher t) (h.written ++ g.piece))
              (sym fresh)
              (hash_block-IsHashed header.content_checksum f.hasher h.written g.piece h.hashed);
      }

  pub Reached-IsRun :
      (f : Frame) (last : Bool) → header.header_size ≤ length input → Reached f last → IsRun f
  unfolding open_frame
  Reached-IsRun _ _ inside opened = record {
    written = [];
    grown = sym (append-nil output);
    within = omega arith;
    read = inside;
    hashed = open-IsHashed header.content_checksum;
  }
  Reached-IsRun _ _ inside (block f b p r room parsed decoded) =
      behind_block-IsRun f p (Reached-IsRun f false inside r)
        (Decoded-Grown b.block_type b.block_size (f.offset + 3) f.output p decoded)

-- Whatever the bytes of a frame are whose header lies in the input: after any number of raw and RLE
-- blocks that the loop decodes one after the other, the output is that of before with what the frame
-- has written behind it, which is no more than its limit, and the loop has read no further than its
-- input.
pub Reached-bounded :
    (input output : List ℕ) (header : FrameHeader) (limit : ℕ) (overrun : DecompressError)
    (f : Frame) (last : Bool)
    → header.header_size ≤ length input
    → Reached input output header limit overrun f last
    → (written : List ℕ) × (f.output ≡ output ++ written)
      × (length written ≤ limit)
      × (f.offset ≤ length input)
Reached-bounded input output header limit overrun f last inside r =
    let h = Reached-IsRun input output header limit overrun f last inside r in
    (h.written, h.grown, h.within, h.read)
