-- ===== src/Core/Outbox/Tests.antt =====
-- connectcore/clienttelemetry/outbox.go: queues at concrete inputs, where the text of an event is its
-- identifier.
use openrung.Base.{◌≡◌, refl, true, false, [], ◌∷◌, none, some, arith, All, filter, any}
use openrung.Base.Int.{pos}
use openrung.Base.Bytes.{Bytes, bytes_eq}
use openrung.Base.Map.{lookup, insert}
use openrung.Base.Member.{Member}
use openrung.Core.Outbox.Batch.{
  Event, Json, application_connection_event, application_count_key, application_connection_count,
  represented_of, choose_application, choose_sized, settle, choose, upload_from, upload_batch,
}
use openrung.Core.Outbox.{Outbox, Io, load, rewrite, file_of}
use openrung.Core.Outbox.Queue.{
  delivered, rejected, new_outbox, remove_sent, discard, post, deliver, flush_queue,
  flush_next_batch, drain, drained,
}
use openrung.Core.Outbox.Bounds.{IsBatch, upload_batch-IsBatch}
use openrung.Core.Outbox.Ends.{HasEnded, drain-HasEnded}
use openrung.Core.Outbox.Reload.{Stored, load-rewrite}
use openrung.Core.Outbox.Kept.{Accounted, Unsendable, flush_queue-Accounted}

abbrev event_with : Bytes → Bytes → Event
event_with id name = record {
  schema_version = 1;
  event_id = id;
  event = name;
  occurred_at = 0;
  client_id = 99 ∷ [];
  session_id = 115 ∷ [];
  relay_id = [];
  application = 97 ∷ [];
  application_id = 0;
  attributes = [];
  measurements = (application_count_key, pos 60_000) ∷ [];
}

abbrev first_event : Event
first_event = event_with (1 ∷ []) application_connection_event

abbrev second_event : Event
second_event = event_with (2 ∷ []) application_connection_event

abbrev third_event : Event
third_event = event_with (3 ∷ []) (120 ∷ [])

abbrev plain : Json
plain = record {
  marshal = λ e. some e.event_id;
  unmarshal = λ s. some (event_with s (120 ∷ []));
  elements = λ s. [];
  removed_fields = λ s. false;
  attributes_in = λ s. 0;
}

abbrev works : Io
works = record {
  lock = true;
  read = true;
  repair = true;
  append = none;
  rewrite = true;
  sync = true;
}

abbrev queue : Outbox
queue = record {
  file = [];
  locked = true;
  loaded = true;
  events = first_event ∷ second_event ∷ third_event ∷ [];
  file_lines = 3;
  closed = false;
}

-- The second event waits for the next request, since the flows of its application are used up.
second_waits : upload_batch plain queue.events 200 1000 ≡ (first_event ∷ third_event ∷ [], [])
unfolding upload_batch upload_from settle choose choose_sized choose_application
    application_connection_count represented_of lookup insert bytes_eq any
second_waits = refl

-- The queue is drained in three requests, the last of which is not sent.
drains :
    (o : Outbox) × (drain plain 3 (λ n. works) true (λ n b. delivered) queue ≡ some (o, drained))
unfolding drain flush_next_batch load flush_queue discard remove_sent deliver post rewrite file_of
    filter any upload_batch upload_from settle choose choose_sized choose_application
    application_connection_count represented_of lookup insert bytes_eq
drains = (
  record { file = []; locked = true; loaded = true; events = []; file_lines = 0; closed = false },
  refl,
)

-- Under a budget that a large heartbeat leaves, an event is taken for one that no request can hold.
heartbeat_discards : upload_batch plain (third_event ∷ []) 199 1 ≡ ([], third_event ∷ [])
unfolding upload_batch upload_from settle choose choose_sized bytes_eq any
heartbeat_discards = refl

upload_batch-IsBatch_example :
    IsBatch plain queue.events 200 1000 (upload_batch plain queue.events 200 1000).0
upload_batch-IsBatch_example = upload_batch-IsBatch plain queue.events 200 1000

drain-HasEnded_example : HasEnded plain (drain plain 502 (λ n. works) true (λ n b. delivered) queue)
drain-HasEnded_example =
    drain-HasEnded plain (λ n. works) true (λ n b. delivered) queue (omega arith)

flush_queue-Accounted_example :
    ((e : Event)
      → Member e queue.events
      → Accounted plain e
          (upload_batch plain queue.events 200 523264).0
          (upload_batch plain queue.events 200 523264).1
          rejected
          (flush_queue plain works true (λ b. rejected) (λ x. x) queue).0)
    × All (Unsendable plain 523264) (upload_batch plain queue.events 200 523264).1
unfolding post
flush_queue-Accounted_example =
    flush_queue-Accounted plain works true (λ b. rejected) (λ x. x) queue (refl, refl)
      (λ o h. (h, λ e m. m))

-- Texts that hold one event.
abbrev object_text : Bytes
object_text = 123 ∷ 125 ∷ []

abbrev objects : Json
objects = record {
  marshal = λ e. some object_text;
  unmarshal = λ s. some third_event;
  elements = λ s. [];
  removed_fields = λ s. false;
  attributes_in = λ s. 0;
}

third_event-Stored : Stored objects third_event
unfolding bytes_eq
third_event-Stored = record {
  named = refl;
  clean = refl;
  text = object_text;
  printed = refl;
  is_object = (125 ∷ [], refl);
  one_line = (λ h. omega (arith, h), (λ h. omega (arith, h), tt));
  read_back = refl;
  none_removed = refl;
  attributes_read = refl;
}

abbrev twice : Outbox
twice = record queue { events = third_event ∷ third_event ∷ [] }

load-rewrite_example : load objects works (new_outbox (rewrite objects true twice).0.file) ≡ (
  record {
    file = (rewrite objects true twice).0.file;
    locked = true;
    loaded = true;
    events = third_event ∷ third_event ∷ [];
    file_lines = 2;
    closed = false;
  },
  true,
)
load-rewrite_example =
    load-rewrite objects works twice (third_event-Stored, (third_event-Stored, tt)) (omega arith)
      refl refl
