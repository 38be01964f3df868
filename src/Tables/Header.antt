-- ===== src/Tables/Header.antt =====
-- The three sections, and the whole header.
use zrip.Common.{ℕ, ◌+◌, ◌-◌, ◌%◌, ◌^◌, ◌<◌, ◌≤◌, ◌≡◌, refl, sym, ap, ◌∙◌, arith}
use zrip.Common.{
  Bool, true, false, not, Bool-cases, inl, inr, List, [], length, get_or, drop, All,
  length-replicate,
}
use zrip.Common.{
  ◌==◌, bit_and, Result, ok, err, >>=-ok, ok-injective, err-absurd, corrupt_sequences,
  copy_from_slice,
}
use zrip.Common.Words.{◌>>>◌}
use zrip.Common.Integers.{ℤ}
use zrip.Bitstream.Reader.{BitReader}
use zrip.Fse.Table.{
  FseDecodeEntry, build_decode_table_into, count_symbols, count_symbol, spread_symbols,
}
use zrip.Fse.Table.{spread_skipping, place_skipping, skip_high, fill_entries, high_bit}
use zrip.Fse.Table.Bounds.{build_decode_table_into-InTable}
use zrip.Fse.Table.Count.{taken}
use zrip.SeqTable.{promote, empty, new}
use zrip.SeqTable.Fill.{IsTable, fill-IsTable, ll_extra-lt, of_extra-lt, ml_extra-lt}
use zrip.Tables.{Slot, default_slot, clear_flag, new_default, reset_default, clear_repeat_flags}
use zrip.Tables.{Section, SequenceDecodeTables, build_decode_table_from_default}
use zrip.Tables.{ll_section, of_section, ml_section}
use zrip.Tables.{parse_mode, parse_tables}
use zrip.Tables.Distributions.{ll_default_dist, of_default_dist, ml_default_dist}
use zrip.Tables.Sound.{IsSection, IsSlot, parse_mode-IsSlot, predefined_mode-IsSlot}
use mathlib.Core.Path.{subst}

promote-IsTable :
    (n : ℕ) (dist : List ℤ) (extra : ℕ → ℕ × ℕ) (entries : List FseDecodeEntry)
    → 5 ≤ n
    → n ≤ 9
    → taken dist ≡ 2 ^ n
    → ((x : ℕ) → x < length dist → (extra x).0 < 32)
    → build_decode_table_into dist n [] ≡ ok entries
    → IsTable n (promote entries extra)
unfolding promote empty
promote-IsTable n dist extra entries big small full few made =
    let (long, inside, symbols) =
      build_decode_table_into-InTable n dist [] entries big (omega (arith, small)) full made in
    fill-IsTable n (length dist) extra (empty 0) entries small (length-replicate 512 (new 0 0 0 0))
      long few inside symbols

ll_built :
    build_decode_table_into ll_default_dist 6 []
    ≡ ok (build_decode_table_from_default ll_default_dist 6)
unfolding build_decode_table_from_default build_decode_table_into count_symbols count_symbol
    spread_symbols spread_skipping place_skipping skip_high fill_entries high_bit
    zrip.Common.Words.leading_zeros
ll_built = refl

of_built :
    build_decode_table_into of_default_dist 5 []
    ≡ ok (build_decode_table_from_default of_default_dist 5)
unfolding build_decode_table_from_default build_decode_table_into count_symbols count_symbol
    spread_symbols spread_skipping place_skipping skip_high fill_entries high_bit
    zrip.Common.Words.leading_zeros
of_built = refl

ml_built :
    build_decode_table_into ml_default_dist 6 []
    ≡ ok (build_decode_table_from_default ml_default_dist 6)
unfolding build_decode_table_from_default build_decode_table_into count_symbols count_symbol
    spread_symbols spread_skipping place_skipping skip_high fill_entries high_bit
    zrip.Common.Words.leading_zeros
ml_built = refl

pub ll-IsSection : IsSection ll_section
ll-IsSection = record {
  default_table =
      promote-IsTable 6 ll_default_dist ll_section.extra _ (omega arith) (omega arith) refl
        (λ x h. ll_extra-lt x h) ll_built;
  symbols = omega arith;
  logs = omega arith;
  few = λ x h. ll_extra-lt x h;
}

pub of-IsSection : IsSection of_section
of-IsSection = record {
  default_table =
      promote-IsTable 5 of_default_dist of_section.extra _ (omega arith) (omega arith) refl
        (λ x h. of_extra-lt x (omega (arith, h))) of_built;
  symbols = omega arith;
  logs = omega arith;
  few = λ x h. of_extra-lt x h;
}

pub ml-IsSection : IsSection ml_section
ml-IsSection = record {
  default_table =
      promote-IsTable 6 ml_default_dist ml_section.extra _ (omega arith) (omega arith) refl
        (λ x h. ml_extra-lt x h) ml_built;
  symbols = omega arith;
  logs = omega arith;
  few = λ x h. ml_extra-lt x h;
}

-- All three tables are sound.
pub record AreTables (t : SequenceDecodeTables) : Type 0 where
  pub ll : IsSlot ll_section t.ll
  pub of : IsSlot of_section t.of
  pub ml : IsSlot ml_section t.ml

-- Whatever the bytes of a header are, sound tables stay sound where it is accepted.
pub parse_tables-AreTables :
    (xs : List ℕ) (prev tables : SequenceDecodeTables) (build_buf : List FseDecodeEntry) (used : ℕ)
    → AreTables prev
    → parse_tables xs prev build_buf ≡ ok (tables, used)
    → AreTables tables
unfolding parse_tables
parse_tables-AreTables xs prev tables build_buf used h e =
    let mode_byte : ℕ = get_or xs 0 0 in
    let start : BitReader = record { source = drop 1 xs; pos = 0; bit_pos = 0 } in
    let (p, ll, rest1) =
      >>=-ok (parse_mode ll_section (bit_and (mode_byte >>> 6) 3) prev.ll start build_buf) _
        (tables, used) e in
    let (q, of, rest2) =
      >>=-ok (parse_mode of_section (bit_and (mode_byte >>> 4) 3) prev.of p.1 p.2) _ (tables, used)
        rest1 in
    let (r, ml, made) =
      >>=-ok (parse_mode ml_section (bit_and (mode_byte >>> 2) 3) prev.ml q.1 q.2) _ (tables, used)
        rest2 in
    subst AreTables (ap (λ t. t.0) (ok-injective _ (tables, used) made)) (record {
      ll = parse_mode-IsSlot ll_section _ prev.ll start build_buf p ll-IsSection h.ll ll;
      of = parse_mode-IsSlot of_section _ prev.of p.1 p.2 q of-IsSection h.of of;
      ml = parse_mode-IsSlot ml_section _ prev.ml q.1 q.2 r ml-IsSection h.ml ml;
    })

clear-IsSlot : (s : Section) (slot : Slot) → IsSlot s slot → IsSlot s (clear_flag slot)
clear-IsSlot s slot h = record { sound = h.sound; default_sound = h.default_sound }

default-IsSlot : (s : Section) → IsSection s → IsSlot s (default_slot s)
default-IsSlot s k = record { sound = k.default_table; default_sound = λ e. k.default_table }

pub new_default-AreTables : AreTables new_default
unfolding new_default
new_default-AreTables = record {
  ll = default-IsSlot ll_section ll-IsSection;
  of = default-IsSlot of_section of-IsSection;
  ml = default-IsSlot ml_section ml-IsSection;
}

pub reset_default-AreTables : (t : SequenceDecodeTables) → AreTables t → AreTables (reset_default t)
unfolding reset_default
reset_default-AreTables t h = record {
  ll = clear-IsSlot ll_section _ (predefined_mode-IsSlot ll_section t.ll ll-IsSection h.ll);
  of = clear-IsSlot of_section _ (predefined_mode-IsSlot of_section t.of of-IsSection h.of);
  ml = clear-IsSlot ml_section _ (predefined_mode-IsSlot ml_section t.ml ml-IsSection h.ml);
}

pub clear_repeat_flags-AreTables :
    (t : SequenceDecodeTables) → AreTables t → AreTables (clear_repeat_flags t)
unfolding clear_repeat_flags
clear_repeat_flags-AreTables t h = record {
  ll = clear-IsSlot ll_section t.ll h.ll;
  of = clear-IsSlot of_section t.of h.of;
  ml = clear-IsSlot ml_section t.ml h.ml;
}
