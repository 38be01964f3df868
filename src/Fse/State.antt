-- ===== src/Fse/State.antt =====
-- crates/core/src/fse/decode.rs: `FseState`, the decoding state that walks over the entries of a
-- table by the bits it reads.
pub mod Reach
mod Tests
use zrip.Common.{ℕ, ◌+◌, List, get_or, Result, ok, ◌>>=◌}
use zrip.Bitstream.Reverse.{ReverseBitReader, read_bits}
use zrip.Fse.Table.{FseDecodeEntry, zero_entry}

pub record FseState : Type 0 where
  pub table : List FseDecodeEntry
  pub state : ℕ

unfoldable pub new :
    List FseDecodeEntry → ℕ → ReverseBitReader → Result (FseState × ReverseBitReader)
new table accuracy_log reader =
    read_bits reader accuracy_log >>= λ p. ok (record { table = table; state = p.0 }, p.1)

-- `&self.table[self.state as usize]`
abbrev pub entry : FseState → FseDecodeEntry
entry st = get_or st.table st.state zero_entry

abbrev pub symbol : FseState → ℕ
symbol st = let e = entry st in e.symbol

abbrev pub num_bits : FseState → ℕ
num_bits st = let e = entry st in e.num_bits

unfoldable pub update_state : FseState → ReverseBitReader → Result (FseState × ReverseBitReader)
update_state st reader =
    let e = entry st in
    read_bits reader e.num_bits >>= λ p. ok (record st { state = e.base_line + p.0 }, p.1)
