-- ===== src/Core/Outbox/Queue.antt =====
-- connectcore/clienttelemetry/outbox.go and manager.go: the operations on the queue. A send holds no lock: what
-- other callers do meanwhile is the argument `meanwhile`.
use openrung.Base.{
  ℕ, zero, suc, ◌+◌, ◌-◌, Bool, true, false, not, ◌&&◌, ◌||◌, List, [], ◌∷◌, ◌++◌, Option, none,
  some, ltb, leb, ◌==◌, if◌then◌else◌, length, take, filter, any,
}
use openrung.Base.Int.{ℤ, pos, negsuc}
use openrung.Base.Bytes.{Bytes, bytes_eq}
use openrung.Base.Map.{lookup, insert}
use openrung.Core.Outbox.Batch.{Event, Json, same, is_empty, is_application, validate, upload_batch}
use openrung.Core.Outbox.{
  Outbox, Io, newest, load, rewrite, append_lines, outbox_batch_size, outbox_compact_threshold,
  outbox_batch_byte_budget,
}

-- What a send reports: ErrBatchRejected is `rejected`, any other error `failed`.
pub data Delivery : Type 0 where
  delivered rejected failed : Delivery

pub data FlushError : Type 0 where
  outbox_closed outbox_unavailable invalid_event batch_rejected send_failed : FlushError

-- The results `sent`, `pending` and `err`.
pub record Report : Type 0 where
  pub sent : ℕ
  pub pending : ℕ
  pub failure : Option FlushError

abbrev pub report : ℕ → ℕ → Option FlushError → Report
report n m e = record { sent = n; pending = m; failure = e }

-- Whether an event is one of those that were sent, by their identifiers.
abbrev pub is_sent : List Event → Event → Bool
is_sent sent e = any (λ (s : Event). same s.event_id e.event_id) sent

abbrev pub attribute_of : List (Bytes × Bytes) → Bytes → Bytes
attribute_of attributes key = elim (lookup bytes_eq key attributes) [
  | none ↦ []
  | some value ↦ value
]

-- The loop over the attributes: what the event then has, and whether it changed.
unfoldable pub patch : List (Bytes × Bytes) → List (Bytes × Bytes) → List (Bytes × Bytes) × Bool
patch current [] = (current, false)
patch current ((key, value) ∷ rest) =
    if same (attribute_of current key) value
    then patch current rest
    else ((patch (insert bytes_eq key value current) rest).0, true)

-- The loop over the queue.
unfoldable pub patch_session : Bytes → List (Bytes × Bytes) → List Event → List Event × Bool
patch_session session_id attributes [] = ([], false)
patch_session session_id attributes (e ∷ es) =
    let (rest, changed) = patch_session session_id attributes es in
    if not (same e.session_id session_id) || is_application e
    then (e ∷ rest, changed)
    else (let (patched, changes) = patch e.attributes attributes in
        (record e { attributes = patched } ∷ rest, changes || changed))

-- The events of a batch that are accepted.
unfoldable pub valid_events : List Event → List Event
valid_events [] = []
valid_events (e ∷ es) =
    let rest = valid_events es in elim (validate e) [ none ↦ rest | some v ↦ v ∷ rest ]

-- `NewOutbox`, over the file that is there.
unfoldable pub new_outbox : Bytes → Outbox
new_outbox file = record {
  file = file;
  locked = false;
  loaded = false;
  events = [];
  file_lines = 0;
  closed = false;
}

-- `Close`
unfoldable pub close : Outbox → Outbox
close o = record o { closed = true; locked = false }

-- How the loop of `Flush` over the store ends.
pub data Drained : Type 0 where
  drained unavailable : Drained
  stopped : FlushError → Drained

unfoldable pub end_of : FlushError → Drained
end_of outbox_unavailable = unavailable
end_of e = stopped e

module _ (j : Json) where
  -- The end of `appendLocked`: the file is rewritten after a failed append and past the threshold.
  unfoldable pub finish_append : Io → Outbox → Bool → Outbox × Bool
  finish_append io o appendable =
      if not appendable || ltb outbox_compact_threshold o.file_lines
      then rewrite j io.rewrite o
      else (o, true)

  -- The append of `appendLocked` to the file.
  unfoldable pub append_file : Io → Outbox → List Event → Outbox × Bool
  append_file io o es = elim (append_lines j es) [
    | none ↦ finish_append io o false
    | some lines ↦ elim io.append [
      | none ↦
          finish_append io
            (record o { file = o.file ++ lines; file_lines = o.file_lines + length es }) true
      | some n ↦
          finish_append io
            (record o { file = o.file ++ take n lines; file_lines = o.file_lines + length es })
            false
    ]
  ]

  -- `appendLocked`
  unfoldable pub append : Io → Outbox → List Event → Outbox × Bool
  append io o es =
      let u = (load j io o).0 in append_file io (record u { events = newest (u.events ++ es) }) es

  -- Loads the file of an outbox that is open.
  unfoldable pub open_queue : Io → Outbox → Outbox × Bool
  open_queue io o = if o.closed then (o, false) else load j io o

  -- `Enqueue`
  unfoldable pub enqueue : Io → Outbox → Event → Outbox × Bool
  enqueue io o e = elim (validate e) [
    | none ↦ (o, false)
    | some v ↦
        let (u, ready) = open_queue io o in
        if ready then ((append io u (v ∷ [])).0, true) else (u, false)
  ]

  -- `EnqueueBatch`
  unfoldable pub enqueue_batch : Io → Outbox → List Event → Outbox × ℤ
  enqueue_batch io o events =
      let valid = valid_events events in
      if is_empty valid
      then (o, pos 0)
      else (let (u, ready) = open_queue io o in
          if ready
          then (let (w, durable) = append io u valid in
              if durable && io.sync then (w, pos (length valid)) else (w, negsuc 0))
          else (u, negsuc 0))

  -- `ApplySessionAttributes`
  unfoldable pub apply_session_attributes :
      Io → Outbox → Bytes → List (Bytes × Bytes) → Outbox × Bool
  apply_session_attributes io o session_id attributes =
      if is_empty session_id || is_empty attributes
      then (o, false)
      else (let (u, ready) = open_queue io o in
          if ready
          then (let (events, changed) = patch_session session_id attributes u.events in
              let w : Outbox = record u { events = events } in
              (if changed then (rewrite j io.rewrite w).0 else w, changed))
          else (u, false))

  -- `PendingCount`
  unfoldable pub pending_count : Io → Outbox → Outbox × ℕ
  pending_count io o = let (u, ready) = open_queue io o in (u, if ready then length u.events else 0)

  -- `removeSent`
  unfoldable pub remove_sent : Io → Outbox → List Event → Outbox × ℕ
  remove_sent io o sent =
      if o.closed
      then (o, length o.events)
      else (let u : Outbox = record o { events = filter (λ e. not (is_sent sent e)) o.events } in
          let w = if any (is_sent sent) o.events then (rewrite j io.rewrite u).0 else u in
          (w, length w.events))

  -- The removal of events that no request can hold.
  unfoldable pub discard : Io → Outbox → List Event → Outbox × ℕ
  discard io o oversized =
      if leb 1 (length oversized) then remove_sent io o oversized else (o, length o.events)

  -- `post`; `valid_url` is the check of the broker's address.
  unfoldable pub post : Bool → (List Event → Delivery) → List Event → Delivery
  post valid_url send events = if valid_url then send events else failed

  -- The send of a flush, and what follows it.
  unfoldable pub deliver : Io → Outbox → List Event → ℕ → Delivery → Outbox × Report
  deliver io o batch pending delivered =
      let (u, left) = remove_sent io o batch in (u, report (length batch) left none)
  deliver io o batch pending rejected =
      let (u, left) = remove_sent io o batch in (u, report 0 left (some batch_rejected))
  deliver io o batch pending failed = (o, report 0 pending (some send_failed))

  -- `FlushNextBatch` of a queue that is loaded.
  unfoldable pub flush_queue :
      Io → Bool → (List Event → Delivery) → (Outbox → Outbox) → Outbox → Outbox × Report
  flush_queue io valid_url send meanwhile o =
      let (batch, oversized) = upload_batch j o.events outbox_batch_size outbox_batch_byte_budget in
      let (u, pending) = discard io o oversized in
      if is_empty batch
      then (u, report 0 pending none)
      else deliver io (meanwhile u) batch pending (post valid_url send batch)

  -- `FlushNextBatch`
  unfoldable pub flush_next_batch :
      Io → Bool → (List Event → Delivery) → (Outbox → Outbox) → Outbox → Outbox × Report
  flush_next_batch io valid_url send meanwhile o =
      if o.closed
      then (o, report 0 0 (some outbox_closed))
      else (let (u, ready) = load j io o in
          if ready
          then flush_queue io valid_url send meanwhile u
          else (u, report 0 0 (some outbox_unavailable)))

  -- What of the queue may ride along with a heartbeat.
  unfoldable pub piggyback : List Event → Event → List Event × List Event
  piggyback [] heartbeat = ([], [])
  piggyback (first ∷ es) heartbeat =
      let cost = elim (j.marshal heartbeat) as (λ _. ℕ) [
        | none ↦ 0
        | some line ↦ length line + 1
      ] in
      if same first.client_id heartbeat.client_id && same first.session_id heartbeat.session_id
      then upload_batch j (first ∷ es) (outbox_batch_size - 1) (outbox_batch_byte_budget - cost)
      else ([], [])

  -- The send of a heartbeat, and what follows it.
  unfoldable pub deliver_heartbeat : Io → Outbox → List Event → ℕ → Delivery → Outbox × Report
  deliver_heartbeat io o piggybacked pending delivered =
      if is_empty piggybacked
      then (o, report 1 pending none)
      else (let (u, left) = remove_sent io o piggybacked in
          (u, report (length piggybacked + 1) left none))
  deliver_heartbeat io o piggybacked pending rejected = (o, report 0 pending (some batch_rejected))
  deliver_heartbeat io o piggybacked pending failed = (o, report 0 pending (some send_failed))

  -- `SendHeartbeat`
  unfoldable pub send_heartbeat :
      Io → Bool → (List Event → Delivery) → (Outbox → Outbox) → Outbox → Event → Outbox × Report
  send_heartbeat io valid_url send meanwhile o heartbeat = elim (validate heartbeat) [
    | none ↦ let (u, pending) = pending_count io o in (u, report 0 pending (some invalid_event))
    | some h ↦
        if o.closed
        then (o, report 0 0 (some outbox_closed))
        else (let u = (load j io o).0 in
            let (piggybacked, oversized) = piggyback u.events h in
            let (w, pending) = discard io u oversized in
            deliver_heartbeat io (meanwhile w) piggybacked pending
              (post valid_url send (piggybacked ++ h ∷ [])))
  ]

  -- The loop of `Flush` in manager.go over the store, turn by turn, with the answers of each turn:
  -- none where the turns run out.
  unfoldable pub drain :
      ℕ → (ℕ → Io) → Bool → (ℕ → List Event → Delivery) → Outbox → Option (Outbox × Drained)
  drain zero io valid_url send o = none
  drain (suc turns) io valid_url send o =
      let (u, r) = flush_next_batch (io turns) valid_url (send turns) (λ x. x) o in
      let rest = drain turns io valid_url send u in
      elim r.failure [
        | some e ↦ some (u, end_of e)
        | none ↦ if r.pending == 0 then some (u, drained) else rest
      ]
