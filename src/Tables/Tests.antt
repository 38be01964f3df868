-- ===== src/Tables/Tests.antt =====
-- A header with a single symbol for each table, from a workspace's first tables, and the same header
-- in the next frame.
use zrip.Common.{ℕ, ◌≡◌, refl, List, [], ◌∷◌, none, Result, ok, err, copy_from_slice}
use zrip.Bitstream.Reader.{read_bits, load_u64, bytes_consumed}
use zrip.Tables.{SequenceDecodeTables, parse_tables, parse_mode, single_mode, new_default}
use zrip.Tables.Cache.{
  SeqTableCache, no_cache, cacheable, cached_tables, starts_with, remember, store,
  parse_sequence_tables_ws,
}
use zrip.Tables.Dict.{initial_sequence_state}
use zrip.Tables.Header.{AreTables}
use zrip.Tables.Reach.{Reachable-AreTables, Reachable, start, frame, parse, nothing}

abbrev header : List ℕ
header = 84 ∷ 2 ∷ 3 ∷ 4 ∷ []

abbrev Parsed : Type 0
Parsed = SequenceDecodeTables × ℕ × SeqTableCache

abbrev both_of : Result Parsed → Parsed
both_of (ok p) = p
both_of (err e) = (new_default, 0, no_cache)

abbrev first : Parsed
first = both_of (parse_sequence_tables_ws header new_default no_cache [])

parsed : parse_sequence_tables_ws header new_default no_cache [] ≡ ok first
unfolding parse_sequence_tables_ws cached_tables cacheable starts_with parse_tables parse_mode
    single_mode read_bits load_u64 bytes_consumed copy_from_slice
parsed = refl

abbrev next_frame : SequenceDecodeTables × SeqTableCache × (ℕ × ℕ × ℕ)
next_frame = initial_sequence_state first.0 first.2 none none

abbrev second : Parsed
second = both_of (parse_sequence_tables_ws header next_frame.0 next_frame.1 [])

found : parse_sequence_tables_ws header next_frame.0 next_frame.1 [] ≡ ok second
unfolding parse_sequence_tables_ws cached_tables cacheable starts_with parse_tables parse_mode
    single_mode read_bits load_u64 bytes_consumed copy_from_slice remember store
    initial_sequence_state
found = refl

two_frames : Reachable second.0 second.2
two_frames =
    parse header next_frame.0 second.0 next_frame.1 second.2 [] second.1
      (frame first.0 first.2 none none nothing nothing
        (parse header new_default first.0 no_cache first.2 [] first.1 start parsed))
      found

Reachable-AreTables_example : AreTables second.0
Reachable-AreTables_example = Reachable-AreTables second.0 second.2 two_frames
