-- ===== src/Tables/Reuse.antt =====
-- crates/decode/src/sequences.rs: the tables of the cache, copied to and from those in use.
use zrip.Common.{ℕ, Bool, true, false, Bool-cases}
use zrip.Common.{inl, inr, List, get_or}
use zrip.Common.{Option, none, some}
use zrip.Tables.{Section, Slot, SequenceDecodeTables, ll_section, of_section, ml_section}
use zrip.Tables.Sound.{IsSlot, clone-IsTable}
use zrip.Tables.Header.{AreTables}
use zrip.Tables.Header.{}
use zrip.Tables.Cache.{SeqTableCache, clone_slot, clone_tables, copy_flag, copy_flags}
use zrip.Tables.Cache.{cacheable, reuse, store, remember, seq_tables_replaced}
use zrip.Tables.Dict.{}

-- The tables of a cache, if there are any, are sound.
abbrev pub IsCached : Option SequenceDecodeTables → Type 0
IsCached none = Unit
IsCached (some t) = AreTables t

clone-IsSlot :
    (s : Section) (slot source : Slot)
    → IsSlot s slot
    → IsSlot s source
    → IsSlot s (clone_slot slot source)
unfolding clone_slot
clone-IsSlot s slot source h g = record {
  sound = clone-IsTable source.accuracy slot.accuracy slot.table source.table h.sound g.sound;
  default_sound = λ e.
      clone-IsTable s.default_accuracy slot.accuracy slot.table source.table h.sound
        (g.default_sound e);
}

pub clone_tables-AreTables :
    (t source : SequenceDecodeTables)
    → AreTables t
    → AreTables source
    → AreTables (clone_tables t source)
unfolding clone_tables
clone_tables-AreTables t source h g = record {
  ll = clone-IsSlot ll_section t.ll source.ll h.ll g.ll;
  of = clone-IsSlot of_section t.of source.of h.of g.of;
  ml = clone-IsSlot ml_section t.ml source.ml h.ml g.ml;
}

flag-IsSlot : (s : Section) (slot source : Slot) → IsSlot s slot → IsSlot s (copy_flag slot source)
unfolding copy_flag
flag-IsSlot s slot source h = record { sound = h.sound; default_sound = h.default_sound }

pub reuse-AreTables :
    (current : Bool) (prev cached : SequenceDecodeTables)
    → AreTables prev
    → AreTables cached
    → AreTables (reuse current prev cached)
unfolding reuse copy_flags
reuse-AreTables true prev cached h g = record {
  ll = flag-IsSlot ll_section prev.ll cached.ll h.ll;
  of = flag-IsSlot of_section prev.of cached.of h.of;
  ml = flag-IsSlot ml_section prev.ml cached.ml h.ml;
}
reuse-AreTables false prev cached h g = clone_tables-AreTables prev cached h g

store-AreTables :
    (old : Option SequenceDecodeTables) (t : SequenceDecodeTables)
    → IsCached old
    → AreTables t
    → AreTables (store old t)
unfolding store
store-AreTables none t h g = g
store-AreTables (some old) t h g = clone_tables-AreTables old t h g

pub remember-IsCached :
    (xs : List ℕ) (t : SequenceDecodeTables) (used : ℕ) (c : SeqTableCache)
    → IsCached c.tables
    → AreTables t
    → IsCached (let d = remember xs t used c in d.tables)
unfolding remember seq_tables_replaced
remember-IsCached xs t used c h g = elim (Bool-cases (cacheable (get_or xs 0 0))) [
  | inl e ↦ rw e (store-AreTables c.tables t h g)
  | inr e ↦ rw e h
]
