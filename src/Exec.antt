-- ===== src/Exec.antt =====
-- crates/decode/src/exec.rs: `SeqBits` and `Word`, the backward reader of the sequences bitstream,
-- which carries only the count of unread bits. `usize` wraps at 64 bits.
pub mod Fields
pub mod Open
pub mod Decoder
mod Tests
use zrip.Common.{
  ℕ, ◌+◌, ◌-◌, ◌*◌, ◌/◌, ◌%◌, ◌^◌, min, bit_and, Bool, List, [], ◌∷◌, length, take, drop, get_or,
}
use zrip.Common.{ltb, ◌==◌, if◌then◌else◌, Option, none, some}
use zrip.Common.Words.{u32, u64, ◌<<<◌, ◌>>>◌, wrapping_add, wrapping_sub, leading_zeros}
use zrip.Common.Bytes.{from_le_bytes}

abbrev pub word_bits : ℕ
word_bits = 57

pub record SeqBits : Type 0 where
  pub left : ℕ

pub record Word : Type 0 where
  pub container : ℕ
  pub avail : ℕ
  pub pos : ℕ

-- `none` for an input that is empty or ends without a marker bit.
pub new : List ℕ → Option SeqBits
new source =
    let last = get_or source (length source - 1) 0 in
    if length source == 0
    then none
    else if last == 0
    then none
    else some (record { left = length source * 8 - (leading_zeros 8 last + 1) })

-- The word of the next unread bits; the input has eight bytes at least.
pub word : SeqBits → List ℕ → Word
word b source =
    let start = if ltb b.left word_bits then 0 else (b.left - word_bits) >>> 3 in
    let pos = min start (length source - 8) in
    record {
      container = from_le_bytes (take 8 (drop pos source));
      avail = wrapping_sub b.left (pos * 8);
      pos = pos;
    }

pub is_exhausted : SeqBits → Bool
is_exhausted b = b.left == 0

-- Reads `count <= 31` bits.
pub read : Word → ℕ → ℕ × Word
read w count =
    let start = wrapping_sub w.avail count in
    (u32 (bit_and (w.container >>> bit_and start 63) (1 <<< count - 1)), record w { avail = start })

-- The reader after this word's reads.
pub bits : Word → SeqBits
bits w = record { left = wrapping_add (w.pos * 8) w.avail }
