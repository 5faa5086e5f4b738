-- ===== src/Wss/Usage.antt =====
-- internal/wssbridge/limits.go, `sourceUsage`: how many sessions and streams each viewer source
-- holds. The entry that a method changes through its pointer is written back into the map.
pub mod Counts
mod Tests
use openrung.Base.{
  ℕ, ◌+◌, ◌-◌, Bool, true, false, ◌&&◌, ◌||◌, List, [], Option, none, some, leb, ◌==◌,
  if◌then◌else◌,
}
use openrung.Base.Bytes.{Bytes, bytes_eq}
use openrung.Base.Map.{lookup, insert, remove}

pub record Entry : Type 0 where
  pub sessions : ℕ
  pub streams : ℕ

pub record SourceUsage : Type 0 where
  pub entries : List (Bytes × Entry)
  pub max_sessions : ℕ
  pub max_streams : ℕ

unfoldable pub new_source_usage : ℕ → ℕ → SourceUsage
new_source_usage max_sessions max_streams = record {
  entries = [];
  max_sessions = max_sessions;
  max_streams = max_streams;
}

-- The entry of a source, a new one if there is none.
unfoldable pub entry : SourceUsage → Bytes → Entry
unfolding lookup bytes_eq
entry u key = elim (lookup bytes_eq key u.entries) [
  | none ↦ record { sessions = 0; streams = 0 }
  | some e ↦ e
]

unfoldable pub store : SourceUsage → Bytes → Entry → SourceUsage
unfolding insert bytes_eq
store u key e = record u { entries = insert bytes_eq key e u.entries }

-- `deleteEmptyLocked`, on the entry that stands in the map.
unfoldable pub delete_empty : SourceUsage → Bytes → Entry → SourceUsage
unfolding remove bytes_eq
delete_empty u key e =
    if e.sessions == 0 && e.streams == 0
    then record u { entries = remove bytes_eq key u.entries }
    else u

unfoldable pub acquire_session : SourceUsage → Bytes → SourceUsage × Bool
unfolding entry store delete_empty
acquire_session u key =
    let e = entry u key in
    if leb u.max_sessions e.sessions
    then (delete_empty (store u key e) key e, false)
    else (store u key (record e { sessions = e.sessions + 1 }), true)

unfoldable pub release_session : SourceUsage → Bytes → SourceUsage
unfolding entry store delete_empty
release_session u key =
    let e = entry u key in
    let e' : Entry = record e { sessions = e.sessions - 1 } in
    if e.sessions == 0 then u else delete_empty (store u key e') key e'

unfoldable pub acquire_stream : SourceUsage → Bytes → SourceUsage × Bool
unfolding entry store delete_empty
acquire_stream u key =
    let e = entry u key in
    if leb u.max_streams e.streams
    then (delete_empty (store u key e) key e, false)
    else (store u key (record e { streams = e.streams + 1 }), true)

unfoldable pub release_stream : SourceUsage → Bytes → SourceUsage
unfolding entry store delete_empty
release_stream u key =
    let e = entry u key in
    let e' : Entry = record e { streams = e.streams - 1 } in
    if e.streams == 0 then u else delete_empty (store u key e') key e'
