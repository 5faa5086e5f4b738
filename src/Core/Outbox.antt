-- ===== src/Core/Outbox.antt =====
-- connectcore/clienttelemetry/outbox.go: the queue of telemetry events and its file. What the file
-- system answers to an operation is `Io`; a rewrite lands whole or not at all, and a failed append
-- may leave a part of its bytes.
pub mod Batch
pub mod Queue
pub mod Progress
pub mod Bounds
pub mod Drain
pub mod Ends
pub mod Kept
pub mod Reload
mod Tests
use openrung.Base.{
  ℕ, ◌+◌, ◌-◌, Bool, true, false, not, ◌&&◌, ◌||◌, List, [], ◌∷◌, ◌++◌, Option, none, some, ltb,
  leb, ◌==◌, if◌then◌else◌, ite, length, take, drop, filter, any, map,
}
use openrung.Base.Space.{trim_start}
use openrung.Base.Bytes.{Bytes, bytes_eq}
use openrung.Base.Map.{lookup, insert}
use openrung.Core.Outbox.Batch.{
  Event, Json, same, is_empty, is_application, application_connection_event, sanitize, validate,
  upload_batch,
}

pub record Outbox : Type 0 where
  -- The file; one that does not exist is empty.
  pub file : Bytes
  pub locked : Bool
  pub loaded : Bool
  pub events : List Event
  pub file_lines : ℕ
  pub closed : Bool

-- The answers of the file system: to the lock, the read and the rewrite of a load, to an append
-- (none, or the bytes that a failed one leaves), a rewrite and a sync.
pub record Io : Type 0 where
  pub lock : Bool
  pub read : Bool
  pub repair : Bool
  pub append : Option ℕ
  pub rewrite : Bool
  pub sync : Bool

abbrev pub outbox_max_queued : ℕ
outbox_max_queued = 500

abbrev pub outbox_batch_size : ℕ
outbox_batch_size = 200

abbrev pub outbox_compact_threshold : ℕ
outbox_compact_threshold = 1000

abbrev pub outbox_batch_byte_budget : ℕ
outbox_batch_byte_budget = 523_264

-- The newest events up to the cap.
abbrev pub newest : List Event → List Event
newest es = drop (length es - outbox_max_queued) es

-- strings.Split(raw, "\n")
unfoldable pub split_lines : Bytes → Bytes → List Bytes
split_lines line [] = line ∷ []
split_lines line (c ∷ cs) = elim (c == 10) [
  | true ↦ line ∷ split_lines [] cs
  | false ↦ split_lines (line ++ c ∷ []) cs
]

-- strings.TrimSpace(line) == "": no byte is left once the spaces at the line's start are cut off.
unfoldable pub is_blank : Bytes → Bool
is_blank line = is_empty (trim_start line)

unfoldable pub terminated : Bytes → Bool
terminated [] = false
terminated (c ∷ []) = c == 10
terminated (c ∷ d ∷ cs) = terminated (d ∷ cs)

module _ (j : Json) where
  -- `decodeOutboxEvent`
  unfoldable pub decode_event : Bytes → Option Event
  decode_event s = elim (j.unmarshal s) [ none ↦ none | some e ↦ validate e ]

  -- `outboxLineNeedsScrub`
  unfoldable pub line_needs_scrub : Bytes → Event → Bool
  line_needs_scrub line e =
      j.removed_fields line || (is_application e && ltb 0 (j.attributes_in line))

  -- The loop of a load over lines: the events, whether the file is dirty, and its lines.
  unfoldable pub parse_lines : List Bytes → List Event × Bool × ℕ
  parse_lines [] = ([], false, 0)
  parse_lines (l ∷ ls) =
      let (es, dirty, n) = parse_lines ls in
      if is_blank l then (es, dirty, n) else (elim (decode_event l) [
        | none ↦ (es, dirty, n + 1)
        | some e ↦ (e ∷ es, dirty || line_needs_scrub l e, n + 1)
      ])

  unfoldable pub parse_elements : List Bytes → List Event
  parse_elements [] = []
  parse_elements (m ∷ ms) =
      let rest = parse_elements ms in elim (decode_event m) [ none ↦ rest | some e ↦ e ∷ rest ]

  -- What a load reads of a file that is not empty; 91 is "[".
  unfoldable pub parse_file : Bytes → List Event × Bool × ℕ
  parse_file raw =
      let (es, dirty, n) = parse_lines (split_lines [] raw) in
      elim (same (take 1 raw) (91 ∷ [])) [
        | true ↦ (parse_elements (j.elements raw), true, 0)
        | false ↦ (es, dirty || not (terminated raw), n)
      ]

  -- The lines of a rewrite; an event without a text is left out.
  unfoldable pub file_of : List Event → Bytes
  file_of [] = []
  file_of (e ∷ es) =
      let rest = file_of es in elim (j.marshal e) [ none ↦ rest | some l ↦ l ++ (10 ∷ rest) ]

  -- The lines of an append: none if an event has no text.
  unfoldable pub append_lines : List Event → Option Bytes
  append_lines [] = some []
  append_lines (e ∷ es) =
      let rest = append_lines es in
      elim (j.marshal e) [
        | none ↦ none
        | some l ↦ elim rest [ none ↦ none | some r ↦ some (l ++ (10 ∷ r)) ]
      ]

  -- `rewriteLocked`
  unfoldable pub rewrite : Bool → Outbox → Outbox × Bool
  rewrite true o = (record o { file = file_of o.events; file_lines = length o.events }, true)
  rewrite false o = (o, false)

  -- The end of `loadLocked`, with what was parsed.
  unfoldable pub adopt : Io → Outbox → List Event × Bool × ℕ → Outbox × Bool
  adopt io o (parsed, dirty, source_lines) =
      let es = newest (map sanitize parsed) in
      let u : Outbox = record o { loaded = true; events = es; file_lines = length es } in
      if dirty || not (source_lines == length es)
      then (elim io.repair [
        | true ↦ rewrite true u
        | false ↦ (record u { loaded = false; events = []; file_lines = 0 }, false)
      ])
      else (u, true)

  -- `loadLocked` of an outbox that has the lock.
  unfoldable pub load_file : Io → Outbox → Outbox × Bool
  load_file io o =
      if not io.read
      then (o, false)
      else (if is_empty o.file
          then (record o { loaded = true; events = []; file_lines = 0 }, true)
          else adopt io o (parse_file o.file))

  -- `loadLocked`
  unfoldable pub load : Io → Outbox → Outbox × Bool
  load io o =
      if o.loaded
      then (o, true)
      else (if o.locked
          then load_file io o
          else (if io.lock then load_file io (record o { locked = true }) else (o, false)))
