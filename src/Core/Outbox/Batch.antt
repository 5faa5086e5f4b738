-- ===== src/Core/Outbox/Batch.antt =====
-- connectcore/clienttelemetry/outbox.go: events and the choice of an upload. encoding/json is the
-- interface `Json`. A batch's own copies of the maps are the same values.
use openrung.Base.{
  ℕ, ◌+◌, ◌-◌, Bool, true, false, ◌&&◌, ◌||◌, List, [], ◌∷◌, Option, none, some, ltb, leb, ◌==◌,
  if◌then◌else◌, ite, length, any,
}
use openrung.Base.Int.{ℤ, pos, negsuc}
use openrung.Base.Bytes.{Bytes, bytes_eq}
use openrung.Base.Map.{lookup, insert}

-- brokerapi.TelemetryEvent; no attributes and a nil map are the same.
pub record Event : Type 0 where
  pub schema_version : ℕ
  pub event_id : Bytes
  pub event : Bytes
  pub occurred_at : ℕ
  pub client_id : Bytes
  pub session_id : Bytes
  pub relay_id : Bytes
  pub application : Bytes
  pub application_id : ℕ
  pub attributes : List (Bytes × Bytes)
  pub measurements : List (Bytes × ℤ)

-- encoding/json: an event's text, the event that a text holds, the elements of a text that is an
-- array, whether a text has one of the removed fields, and how many attributes it has.
pub record Json : Type 0 where
  pub marshal : Event → Option Bytes
  pub unmarshal : Bytes → Option Event
  pub elements : Bytes → List Bytes
  pub removed_fields : Bytes → Bool
  pub attributes_in : Bytes → ℕ

abbrev pub same : Bytes → Bytes → Bool
same a b = ite (bytes_eq a b) true false

abbrev pub is_empty {ℓ} : {A : Type ℓ} → List A → Bool
is_empty [] = true
is_empty (x ∷ xs) = false

-- "application_connection"
abbrev pub application_connection_event : Bytes
application_connection_event =
    97 ∷ 112 ∷ 112 ∷ 108 ∷ 105 ∷ 99 ∷ 97 ∷ 116 ∷ 105 ∷ 111 ∷ 110 ∷ 95 ∷ 99 ∷ 111 ∷ 110 ∷ 110 ∷ 101
    ∷ 99 ∷ 116 ∷ 105 ∷ 111 ∷ 110 ∷ []

-- "connection_count"
abbrev pub application_count_key : Bytes
application_count_key =
    99 ∷ 111 ∷ 110 ∷ 110 ∷ 101 ∷ 99 ∷ 116 ∷ 105 ∷ 111 ∷ 110 ∷ 95 ∷ 99 ∷ 111 ∷ 117 ∷ 110 ∷ 116 ∷ []

abbrev pub max_reported_flows : ℕ
max_reported_flows = 100_000

abbrev pub is_application : Event → Bool
is_application e = same e.event application_connection_event

-- `sanitizeOutboxEvent`
unfoldable pub sanitize : Event → Event
sanitize e =
    if is_application e && leb 1 (length e.attributes) then record e { attributes = [] } else e

-- `validateOutboxEvent`
unfoldable pub validate : Event → Option Event
validate e =
    if is_empty e.event_id || is_empty e.event || is_empty e.client_id || is_empty e.session_id
    then none
    else some (sanitize e)

-- `applicationConnectionCount`
unfoldable pub application_connection_count : Event → ℕ
application_connection_count e = elim (lookup bytes_eq application_count_key e.measurements) [
  | none ↦ 1
  | some (negsuc n) ↦ 1
  | some (pos n) ↦ if ltb n 1 || ltb max_reported_flows n then 1 else n
]

-- What the loop of a choice keeps: the size of the batch, its bytes, the flows by application and
-- the applications that are deferred.
pub record Tally : Type 0 where
  pub taken : ℕ
  pub bytes : ℕ
  pub represented : List (Bytes × ℕ)
  pub deferred : List Bytes

abbrev pub no_tally : Tally
no_tally = record { taken = 0; bytes = 0; represented = []; deferred = [] }

pub data Choice : Type 0 where
  uploaded unsendable postponed : Choice

-- representedByApplication[application]
unfoldable pub represented_of : List (Bytes × ℕ) → Bytes → ℕ
represented_of represented application = elim (lookup bytes_eq application represented) [
  | none ↦ 0
  | some n ↦ n
]

-- An event of an application, under its budget of flows.
unfoldable pub choose_application : Tally → Event → ℕ → Choice × Tally
choose_application t e size =
    if any (same e.application) t.deferred
    then (postponed, t)
    else (if ltb (max_reported_flows - represented_of t.represented e.application)
          (application_connection_count e)
        then (postponed, record t { deferred = e.application ∷ t.deferred })
        else (
          uploaded,
          record {
            taken = t.taken + 1;
            bytes = t.bytes + size;
            represented =
                insert bytes_eq e.application
                  (represented_of t.represented e.application + application_connection_count e)
                  t.represented;
            deferred = t.deferred;
          },
        ))

-- An event whose text is `line`: none where the loop stops.
unfoldable pub choose_sized : ℕ → Tally → Event → ℕ → Option (Choice × Tally)
choose_sized byte_budget t e size =
    if ltb byte_budget size
    then some (unsendable, t)
    else (if ltb byte_budget (t.bytes + size)
        then none
        else (if is_application e
            then some (choose_application t e size)
            else some (uploaded, record t { taken = t.taken + 1; bytes = t.bytes + size })))

unfoldable pub settle : Choice → Event → List Event × List Event → List Event × List Event
settle uploaded e (batch, oversized) = (e ∷ batch, oversized)
settle unsendable e (batch, oversized) = (batch, e ∷ oversized)
settle postponed e (batch, oversized) = (batch, oversized)

module _ (j : Json) where
  -- The body of the loop of `outboxUploadBatch`: none where it stops.
  unfoldable pub choose : Event → ℕ → ℕ → Tally → Event → Option (Choice × Tally)
  choose first limit byte_budget t e =
      if same e.client_id first.client_id && same e.session_id first.session_id
      then (if leb limit t.taken then none else (elim (j.marshal e) [
        | none ↦ some (unsendable, t)
        | some line ↦ choose_sized byte_budget t e (length line + 1)
      ]))
      else none

  unfoldable pub upload_from : Event → ℕ → ℕ → Tally → List Event → List Event × List Event
  upload_from first limit byte_budget t [] = ([], [])
  upload_from first limit byte_budget t (e ∷ es) = elim (choose first limit byte_budget t e) [
    | none ↦ ([], [])
    | some (c, u) ↦ settle c e (upload_from first limit byte_budget u es)
  ]

  -- `outboxUploadBatch`: the batch and the oversized events.
  unfoldable pub upload_batch : List Event → ℕ → ℕ → List Event × List Event
  upload_batch [] limit byte_budget = ([], [])
  upload_batch (first ∷ es) limit byte_budget =
      if limit == 0 then ([], []) else upload_from first limit byte_budget no_tally (first ∷ es)
