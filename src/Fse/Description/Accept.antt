-- ===== src/Fse/Description/Accept.antt =====
-- What the parser of a table description accepts, and the tables built from it.
use zrip.Common.{ℕ, ◌+◌, ◌^◌, ◌<◌, ◌≤◌, ◌≡◌, sym, ap, ◌∙◌, arith}
use zrip.Common.{bit_and, not, Bool-cases, inl, inr, ltb, ltb→ge, ◌==◌, ==→eq}
use zrip.Common.{All, List, length, take, length-replicate, length-take}
use zrip.Common.{ok, err, >>=-ok, ok-injective, err-absurd}
use zrip.Common.{bad_fse_table, input_exhausted, if◌then◌else◌}
use zrip.Common.Powers.{pow_cong}
use zrip.Common.Integers.{ℤ, pos}
use zrip.Bitstream.Reader.{BitReader, window_at, bits_consumed, bits_remaining, align_to_byte, seek}
use mathlib.Core.Path.{subst}
use zrip.Fse.Description.{parse_probs, start_of, parse_fse_table_description_into}
use zrip.Fse.Table.Count.{taken}
use zrip.Fse.Table.{FseDecodeEntry, build_decode_table_into}
use zrip.Fse.Table.Entries.{InTable}
use zrip.Fse.Table.Bounds.{build_decode_table_into-InTable}
use zrip.Fse.Description.Parse.{Parsed, parse_probs-Parsed, taken-take, taken-zeros, get_zeros}

start-Parsed : (bit log max_len : ℕ) → Parsed (2 ^ log) max_len (start_of bit log)
start-Parsed bit log max_len = record {
  filled = omega (arith, taken-zeros 256);
  wide = length-replicate 256 (pos 0);
  blank = λ j q. get_zeros 256 j;
  within = omega arith;
}

-- For a largest symbol of at most 255, a description that is accepted has an accuracy log of 5 to
-- 12, one probability for every symbol, and probabilities that take all 2^accuracy_log cells of the
-- table, a probability of -1 taking one.
pub parse_fse_table_description_into-taken :
    (reader reader' : BitReader) (max_symbol : ℕ) (distribution : List ℤ) (accuracy_log : ℕ)
    → max_symbol ≤ 255
    → parse_fse_table_description_into reader max_symbol ≡ ok (distribution, accuracy_log, reader')
    → (5 ≤ accuracy_log)
      × (accuracy_log ≤ 12)
      × (length distribution ≡ max_symbol + 1)
      × (taken distribution ≡ 2 ^ accuracy_log)
unfolding parse_fse_table_description_into
parse_fse_table_description_into-taken reader reader' max_symbol distribution accuracy_log small e =
    let end : ℕ = bits_consumed reader + bits_remaining reader in
    let bit : ℕ = bits_consumed reader in
    let log : ℕ = bit_and (window_at reader bit) 15 + 5 in
    let max_len : ℕ = max_symbol + 1 in
    elim (Bool-cases (ltb end (bit + 4))) [
      | inl past ↦ err-absurd input_exhausted (distribution, accuracy_log, reader') (rw past at e)
      | inr inside ↦ elim (Bool-cases (ltb 12 log)) [
        | inl wide ↦
            err-absurd bad_fse_table (distribution, accuracy_log, reader') (rw (inside, wide) at e)
        | inr fits ↦
            let (st, looped, made) =
              >>=-ok (parse_probs reader end max_len max_len (start_of (bit + 4) log))
                (λ st.
                  if not (st.remaining == 1)
                  then err bad_fse_table
                  else ok (take max_len st.out, log, align_to_byte (seek reader st.bit)))
                (distribution, accuracy_log, reader') (rw (inside, fits) at e) in
            let (h, done) =
              parse_probs-Parsed reader (2 ^ log) end max_len max_len (start_of (bit + 4) log) st
                (omega (arith, small)) (omega arith) (start-Parsed (bit + 4) log max_len) looped in
            elim (Bool-cases (st.remaining == 1)) [
              | inr left ↦
                  err-absurd bad_fse_table (distribution, accuracy_log, reader') (rw left at made)
              | inl full ↦
                  let is =
                    ok-injective (take max_len st.out, log, align_to_byte (seek reader st.bit))
                      (distribution, accuracy_log, reader') (rw full at made) in
                  let log_is : log ≡ accuracy_log = ap (λ t. t.1) is in
                  let out_is : take max_len st.out ≡ distribution = ap (λ t. t.0) is in
                  (
                    omega (arith, log_is),
                    omega (arith, log_is, ltb→ge 12 log fits),
                    sym (ap length out_is)
                        ∙ length-take max_len st.out
                        ∙ omega (arith, h.wide, small),
                    sym (ap taken out_is)
                        ∙ taken-take max_len st.out (λ j q. h.blank j (omega (arith, q, h.within)))
                        ∙ omega (arith, h.filled, ==→eq st.remaining 1 full)
                        ∙ pow_cong log accuracy_log log_is,
                  )
            ]
      ]
    ]

-- A description that is accepted, with a largest symbol of at most 255, and a table that is built
-- from it: the table has 2^accuracy_log entries, every entry's symbol is at most the largest
-- one, and whatever bits its number of bits reads, the next state is again an entry of the table.
pub built-InTable :
    (reader reader' : BitReader) (max_symbol : ℕ) (distribution : List ℤ) (accuracy_log : ℕ)
    (table entries : List FseDecodeEntry)
    → max_symbol ≤ 255
    → parse_fse_table_description_into reader max_symbol ≡ ok (distribution, accuracy_log, reader')
    → build_decode_table_into distribution accuracy_log table ≡ ok entries
    → (length entries ≡ 2 ^ accuracy_log)
      × All (InTable accuracy_log) entries
      × All (λ e. e.symbol < max_symbol + 1) entries
built-InTable reader reader' max_symbol distribution accuracy_log table entries small parsed made =
    let (low, high, long, full) =
      parse_fse_table_description_into-taken reader reader' max_symbol distribution accuracy_log
        small parsed in
    let (size, inside, symbols) =
      build_decode_table_into-InTable accuracy_log distribution table entries low
        (omega (arith, high)) full made in
    (size, inside, subst (λ (t : ℕ). All (λ e. e.symbol < t) entries) long symbols)
