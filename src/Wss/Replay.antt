-- ===== src/Wss/Replay.antt =====
-- internal/wssbridge/replay.go: the durable store of consumed ticket identifiers. The state is the
-- journal file, as the disk holds it, and the process that has it open. container/heap is a list
-- whose least expiry stands first. A write may fail after part of the record has reached the disk,
-- and a compaction before or after its rename; the arguments say which. Times are nanoseconds.
pub mod Journal
pub mod RoundTrip
pub mod Memory
pub mod Disk
pub mod Once
pub mod Reopen
pub mod Safety
pub mod Tests
use openrung.Base.{
  ℕ, ◌+◌, ◌-◌, ◌/◌, Bool, true, false, not, ◌&&◌, ◌||◌, List, [], ◌∷◌, ◌++◌, Option, none, some,
  ltb, leb, ◌==◌, if◌then◌else◌, length, take, drop, max, ◌*◌,
}
use openrung.Base.Bytes.{Bytes, bytes_eq}
use openrung.Base.Map.{lookup, insert, remove}
use openrung.Base.Sort.{place}
use openrung.Wss.Replay.Journal.{
  Text, Entries, header, encode_record, encode_all, complete_lines, terminated, has_prefix,
  parse_record, record_max_bytes,
}

-- replayIndex; a replayExpiry is a pair of a key and an expiry.
pub record ReplayIndex : Type 0 where
  pub entries : Entries
  pub expiry : List (Bytes × ℕ)

unfoldable pub new_replay_index : ReplayIndex
new_replay_index = record { entries = []; expiry = [] }

-- `contains`
unfoldable pub contains : ReplayIndex → Bytes → ℕ → Bool
contains i key now = elim (lookup bytes_eq key i.entries) [ none ↦ false | some e ↦ ltb now e ]

-- The method `insert`.
unfoldable pub insert_key : ReplayIndex → Bytes → ℕ → ReplayIndex
insert_key i key expires_at = record {
  entries = insert bytes_eq key expires_at i.entries;
  expiry = place (λ (a b : Bytes × ℕ). leb a.1 b.1) (key, expires_at) i.expiry;
}

-- An entry that still has the expiry of a candidate is removed.
unfoldable pub expire : Entries → Bytes × ℕ → Entries
expire m (key, e) = elim (lookup bytes_eq key m) [
  | none ↦ m
  | some x ↦ if x == e then remove bytes_eq key m else m
]

-- The loop of `prune`, over the heap.
unfoldable pub prune_from : ℕ → Entries → List (Bytes × ℕ) → ReplayIndex
prune_from now m [] = record { entries = m; expiry = [] }
prune_from now m (c ∷ cs) = elim (leb c.1 now) [
  | true ↦ prune_from now (expire m c) cs
  | false ↦ record { entries = m; expiry = c ∷ cs }
]

-- `prune`
unfoldable pub prune : ReplayIndex → ℕ → ReplayIndex
prune i now = prune_from now i.entries i.expiry

-- DurableReplayStore, of an open journal.
pub record ReplayStore : Type 0 where
  pub index : ReplayIndex
  pub max_entries : ℕ
  pub journal_records : ℕ
  pub broken : Bool

-- The disk's journal and the process that has it open; none after a crash or `Close`.
pub record System : Type 0 where
  pub file : Bytes
  pub store : Option ReplayStore

pub data Error : Type 0 where
  closed expired full invalid_jti io : Error

pub data Verdict : Type 0 where
  consumed : Verdict
  replayed : Verdict
  refused : Error → Verdict

-- How a compaction ends.
pub data Compaction : Type 0 where
  done before_rename after_rename : Compaction

-- How an append of a record ends: synced, or failed with so many of its bytes on the disk.
pub data Append : Type 0 where
  synced : Append
  torn : ℕ → Append

abbrev pub default_replay_entries : ℕ
default_replay_entries = 100000

abbrev pub max_replay_entries : ℕ
max_replay_entries = 1000000

unfoldable pub threshold : ℕ → ℕ
threshold max_entries = max (max_entries / 2) 128

-- `shouldCompact`
unfoldable pub should_compact : ReplayStore → Bool
should_compact s = leb (length s.index.entries + threshold s.max_entries) s.journal_records

-- `maxReplayJournalBytes`
unfoldable pub max_replay_journal_bytes : ℕ → ℕ
max_replay_journal_bytes max_entries =
    length header + (max_entries + threshold max_entries + 1) * record_max_bytes

-- One record that `load` reads: the index, and whether a compaction is needed.
unfoldable pub load_record : ℕ → Bytes × ℕ → ReplayIndex → Bool → ReplayIndex × Bool
load_record now (key, e) i needs = elim (leb e now) [
  | true ↦ (i, true)
  | false ↦ elim (lookup bytes_eq key i.entries) [
    | none ↦ (insert_key i key e, needs)
    | some x ↦ if leb e x then (i, true) else (insert_key i key e, true)
  ]
]

-- The bytes that an identifier may have.
unfoldable pub valid_byte : ℕ → Bool
valid_byte c =
    (leb 97 c && leb c 122)
    || (leb 65 c && leb c 90)
    || (leb 48 c && leb c 57)
    || c == 45
    || c == 95
    || c == 46
    || c == 58

unfoldable pub all_valid : Bytes → Bool
all_valid [] = true
all_valid (c ∷ cs) = let rest = all_valid cs in if valid_byte c then rest else false

-- `validID`
unfoldable pub valid_id : Bytes → ℕ → ℕ → Bool
valid_id value min_len max_len =
    if ltb (length value) min_len || ltb max_len (length value) then false else all_valid value

module _ (t : Text) where
  -- `compactLocked`: the file, the store, and whether it succeeded.
  unfoldable pub compact : Bytes → ReplayStore → Compaction → Bytes × ReplayStore × Bool
  compact file s done = (
    header ++ encode_all t s.index.entries,
    record s { journal_records = length s.index.entries },
    true,
  )
  compact file s before_rename = (file, s, false)
  compact file s after_rename =
      (header ++ encode_all t s.index.entries, record s { broken = true }, false)

  -- The append and the sync in `Consume`.
  unfoldable pub append_record : Bytes → ReplayStore → Bytes → ℕ → Append → System × Verdict
  append_record file s key expires_at synced = (
    record {
      file = file ++ encode_record t key expires_at;
      store = some (record s {
        index = insert_key s.index key expires_at;
        journal_records = s.journal_records + 1;
      });
    },
    consumed,
  )
  append_record file s key expires_at (torn n) = (
    record {
      file = file ++ take n (encode_record t key expires_at);
      store = some (record s { broken = true });
    },
    refused io,
  )

  -- The compaction in `Consume`, and what follows it.
  unfoldable pub compact_and_append :
      Bytes → ReplayStore → Bytes → ℕ → Compaction → Append → System × Verdict
  compact_and_append file s key expires_at c a = elim (should_compact s) [
    | false ↦ append_record file s key expires_at a
    | true ↦
        let (f, u, ok) = compact file s c in
        elim ok [
          | true ↦ append_record f u key expires_at a
          | false ↦ (record { file = f; store = some u }, refused io)
        ]
  ]

  -- `Consume` from the check of the store on.
  unfoldable pub consume_key :
      Bytes → ReplayStore → Bytes → ℕ → ℕ → Compaction → Append → System × Verdict
  consume_key file s key expires_at now c a =
      let u : ReplayStore = record s { index = prune s.index now } in
      if s.broken
      then (record { file = file; store = some s }, refused closed)
      else (if leb expires_at now
          then (record { file = file; store = some s }, refused expired)
          else (if contains u.index key now
              then (record { file = file; store = some u }, replayed)
              else (if leb u.max_entries (length u.index.entries)
                  then (record { file = file; store = some u }, refused full)
                  else compact_and_append file u key expires_at c a)))

  -- `Consume` once the identifier is accepted.
  unfoldable pub consume_valid : System → Bytes → ℕ → ℕ → Compaction → Append → System × Verdict
  consume_valid s key expires_at now c a = elim s.store [
    | none ↦ (s, refused closed)
    | some p ↦ consume_key s.file p key expires_at now c a
  ]

  -- `Consume`
  unfoldable pub consume : System → Bytes → ℕ → ℕ → Compaction → Append → System × Verdict
  consume s jti expires_at now c a =
      if valid_id jti 16 128
      then consume_valid s (t.hash jti) expires_at now c a
      else (s, refused invalid_jti)

  -- The loop of `load` over the journal's lines; none where it fails.
  unfoldable pub load_lines :
      ℕ → List Bytes → ReplayIndex → ℕ → Bool → Option (ReplayIndex × ℕ × Bool)
  load_lines now [] i records needs = some (i, records, needs)
  load_lines now (l ∷ ls) i records needs = elim (leb record_max_bytes (length l)) [
    | true ↦ none
    | false ↦ elim (parse_record t l) [
      | none ↦ none
      | some r ↦ let (j, more) = load_record now r i needs in load_lines now ls j (records + 1) more
    ]
  ]

  -- What `load` reads of the file.
  unfoldable pub read_journal : Bytes → ℕ → Option (ReplayIndex × ℕ × Bool)
  read_journal [] now = some (new_replay_index, 0, true)
  read_journal (b ∷ file) now =
      let records = drop (length header) (b ∷ file) in
      elim (has_prefix header (b ∷ file)) [
        | false ↦ none
        | true ↦
            load_lines now (complete_lines [] records) new_replay_index 0 (not (terminated records))
      ]

  -- The end of `load`: the bound, and the compaction.
  unfoldable pub finish_load : Bytes → ℕ → Compaction → ReplayIndex × ℕ × Bool → System
  finish_load file max_entries c (i, records, needs) =
      let s : ReplayStore = record {
        index = i;
        max_entries = max_entries;
        journal_records = records;
        broken = false;
      } in
      if ltb max_entries (length i.entries)
      then record { file = file; store = none }
      else (elim (needs || should_compact s) [
        | false ↦ record { file = file; store = some s }
        | true ↦
            let (f, u, ok) = compact file s c in
            record { file = f; store = if ok then some u else none }
      ])

  -- `load`
  unfoldable pub load : Bytes → ℕ → ℕ → Compaction → System
  load file max_entries now c =
      if ltb (max_replay_journal_bytes max_entries) (length file)
      then record { file = file; store = none }
      else (elim (read_journal file now) [
        | none ↦ record { file = file; store = none }
        | some r ↦ finish_load file max_entries c r
      ])

  -- `OpenDurableReplayStore`; a journal that another process has open is locked.
  unfoldable pub open_store : System → ℕ → ℕ → Compaction → System
  open_store s requested now c =
      let max_entries = if requested == 0 then default_replay_entries else requested in
      if ltb max_replay_entries max_entries
      then s
      else (elim s.store [ none ↦ load s.file max_entries now c | some p ↦ s ])
