-- ===== src/Bitstream/Writer.antt =====
-- crates/core/src/bitstream/writer.rs and primitives.rs: `BitWriter`, which packs fields of bits
-- from the lowest bit up and spills whole bytes into a vector.
-- `grow cap n` stands for the capacity that `Vec` allocates when `n` items do not fit `cap`; the
-- standard library leaves it open, and nothing here depends on it.
pub mod Value
pub mod Write
pub mod Flush
use zrip.Common.{ℕ, zero, suc, ◌+◌, ◌-◌, ◌*◌, ◌%◌, ◌^◌, bit_and, bit_or, Option, none, some}
use zrip.Common.{
  List, [], ◌∷◌, ◌++◌, length, leb, ltb, ◌==◌, if◌then◌else◌, resize, copy_from_slice,
}
use zrip.Common.Words.{u8, u64, ◌<<<◌, ◌>>>◌}
use zrip.Common.Bytes.{to_le_bytes}
use mathlib.Core.Option

pub record BitWriter : Type 0 where
  pub buf : List ℕ
  pub capacity : ℕ
  pub bits : ℕ
  pub bits_used : ℕ
  pub pos : ℕ

-- `write_u64_le_unaligned`
pub write_u64_le : List ℕ → ℕ → ℕ → List ℕ
write_u64_le buf pos val =
    let buf' = if ltb (length buf) (pos + 8) then resize buf (pos + 8) 0 else buf in
    copy_from_slice buf' pos (to_le_bytes 8 val)

pub empty_writer : ℕ → BitWriter
empty_writer cap = record { buf = []; capacity = cap; bits = 0; bits_used = 0; pos = 0 }

-- `self.bits |= (value as u64) << self.bits_used`
pub put_field : BitWriter → ℕ → ℕ → BitWriter
put_field w value n = record w {
  bits = bit_or w.bits (u64 (value <<< w.bits_used));
  bits_used = u8 (w.bits_used + n);
}

module _ (grow : ℕ → ℕ → ℕ) where
  -- The capacity after the vector is made to hold `needed` items.
  pub reserved : ℕ → ℕ → ℕ
  reserved cap needed = if leb needed cap then cap else grow cap needed

  pub new : BitWriter
  new = empty_writer (reserved 0 64)

  pub with_capacity : ℕ → BitWriter
  with_capacity cap = empty_writer (reserved 0 (cap + 8))

  -- `from_vec`: the vector is cleared and its allocation, `cap`, is kept.
  pub from_vec : ℕ → BitWriter
  from_vec cap = empty_writer (reserved cap 8)

  -- `ensure_capacity`: `set_vec_len` to `pos`, then `reserve(64)`.
  pub ensure_capacity : BitWriter → BitWriter
  ensure_capacity w =
      if ltb w.capacity (w.pos + 8)
      then record w {
        buf = resize w.buf w.pos 0;
        capacity = reserved (reserved w.capacity w.pos) (w.pos + 64);
      }
      else w

  -- The whole bytes of the waiting bits go to the vector.
  pub store_bytes : BitWriter → BitWriter
  store_bytes w =
      let nb = w.bits_used >>> 3 in
      record w {
        buf = write_u64_le w.buf w.pos w.bits;
        capacity = reserved w.capacity (w.pos + 8);
        bits = w.bits >>> (nb <<< 3);
        bits_used = bit_and w.bits_used 7;
        pos = w.pos + nb;
      }

  -- The part of `write_bits` under `bits_used >= 32`.
  pub spill : BitWriter → BitWriter
  spill w = store_bytes (ensure_capacity w)

  -- `none` is a panic of the two `assert!`s: more than 25 bits, or a value that does not fit.
  pub write_bits : BitWriter → ℕ → ℕ → Option BitWriter
  write_bits w value n =
      if n == 0
      then some w
      else if ltb 25 n
      then none
      else if leb (1 <<< n) value
      then none
      else let w' = put_field w value n in some (if leb 32 w'.bits_used then spill w' else w')

  -- `buf.push(bits as u8)`, in one round of the loop of `flush_remaining`.
  pub push_byte : BitWriter → BitWriter
  push_byte w = record w {
    buf = w.buf ++ (u8 w.bits ∷ []);
    capacity = reserved w.capacity (length w.buf + 1);
    bits = w.bits >>> 8;
    bits_used = w.bits_used - 8;
  }

  -- `while self.bits_used > 0`; as many rounds as there are bits are fuel enough.
  pub flush_loop : ℕ → BitWriter → BitWriter
  flush_loop zero w = w
  flush_loop (suc fuel) w =
      let more = flush_loop fuel (push_byte w) in if ltb 0 w.bits_used then more else w

  pub flush_remaining : BitWriter → BitWriter
  flush_remaining w0 =
      let w = record w0 { buf = resize w0.buf w0.pos 0; capacity = reserved w0.capacity w0.pos } in
      let w' = flush_loop w0.bits_used w in record w' { pos = length w'.buf }

  unfoldable pub close_reverse_stream : BitWriter → Option BitWriter
  close_reverse_stream w = Option.map flush_remaining (write_bits w 1 1)

  pub bits_written : BitWriter → ℕ
  bits_written w = w.pos * 8 + w.bits_used

  -- `into_bytes` and `into_vec`
  pub into_bytes : BitWriter → List ℕ
  into_bytes w = (flush_remaining w).buf

  pub as_bytes : BitWriter → List ℕ
  as_bytes w = resize w.buf w.pos 0

  pub write_byte : BitWriter → ℕ → Option BitWriter
  write_byte w b = write_bits w b 8

  pub write_bytes : BitWriter → List ℕ → Option BitWriter
  write_bytes w [] = some w
  write_bytes w (b ∷ bs) = elim (write_byte w b) [ none ↦ none | some w' ↦ write_bytes w' bs ]
