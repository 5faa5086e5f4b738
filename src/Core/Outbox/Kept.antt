-- ===== src/Core/Outbox/Kept.antt =====
-- connectcore/clienttelemetry/outbox.go: a flush loses no event that a request can hold.
use mathlib.Core.Path.{subst}
use openrung.Base.{
  ℕ, ◌+◌, ◌-◌, ◌<◌, ◌≡◌, ◌≢◌, refl, sym, ◌⊎◌, inl, inr, Bool, true, not, ◌&&◌, List, [], ◌∷◌,
  Option, none, some, arith, ltb, leb, ◌==◌, length, any, All, Bool-cases, Option-cases, if_elim,
}
use openrung.Base.Bytes.{Bytes}
use openrung.Core.Outbox.Batch.{Event, Json, same, is_empty, upload_batch}
use openrung.Core.Outbox.{Outbox, Io, outbox_batch_size, outbox_batch_byte_budget}
use openrung.Core.Outbox.Queue.{
  Delivery, delivered, rejected, failed, Report, is_sent, remove_sent, discard, post, deliver,
  flush_queue,
}
use openrung.Base.Member.{Member, Member-filter}
use openrung.Core.Outbox.Batch.{
  Tally, no_tally, Choice, uploaded, unsendable, postponed, choose, choose_sized,
  choose_application, settle, max_reported_flows, represented_of, application_connection_count,
  is_application, upload_from,
}
use openrung.Core.Outbox.Drain.{IsReady, Removed, remove_sent-Removed, discard-Removed}

module _ (j : Json) where
  -- An event that has no text, or whose text is over a request's budget.
  abbrev pub Unsendable : ℕ → Event → Type 0
  Unsendable byte_budget e =
      (line : Bytes) → j.marshal e ≡ some line → byte_budget < length line + 1

  -- A turn that discards an event discards one that no request can hold.
  abbrev Discards : ℕ → Event → Option (Choice × Tally) → Type 0
  Discards byte_budget e (some (unsendable, u)) = Unsendable byte_budget e
  Discards byte_budget e _ = Unit

  choose_sized-Discards :
      (byte_budget : ℕ) (t : Tally) (e : Event) (size : ℕ)
      → (byte_budget < size → Unsendable byte_budget e)
      → Discards byte_budget e (choose_sized byte_budget t e size)
  unfolding choose_sized choose_application
  choose_sized-Discards byte_budget t e size h =
      if_elim (Discards byte_budget e) (ltb byte_budget size) (λ p. h (ground arith))
        (λ _.
          if_elim (Discards byte_budget e) (ltb byte_budget (t.bytes + size)) (λ _. tt)
            (λ _.
              if_elim (Discards byte_budget e) (is_application e)
                (λ _.
                  if_elim (λ (r : Choice × Tally). Discards byte_budget e (some r))
                    (any (same e.application) t.deferred) (λ _. tt)
                    (λ _.
                      if_elim (λ (r : Choice × Tally). Discards byte_budget e (some r))
                        (ltb (max_reported_flows - represented_of t.represented e.application)
                          (application_connection_count e))
                        (λ _. tt) (λ _. tt)))
                (λ _. tt)))

  over :
      (byte_budget : ℕ) (e : Event) (l line : Bytes)
      → byte_budget < length l + 1
      → j.marshal e ≡ some l
      → j.marshal e ≡ some line
      → byte_budget < length line + 1
  over byte_budget e l line lt f p = grind arith

  choose-Discards :
      (first : Event) (limit byte_budget : ℕ) (t : Tally) (e : Event)
      → Discards byte_budget e (choose j first limit byte_budget t e)
  unfolding choose
  choose-Discards first limit byte_budget t e =
      if_elim (Discards byte_budget e)
        (same e.client_id first.client_id && same e.session_id first.session_id)
        (λ _.
          if_elim (Discards byte_budget e) (leb limit t.taken) (λ _. tt)
            (λ _. elim (Option-cases (j.marshal e)) [
              | inl n ↦ rw (n) (λ line p. absurd cc)
              | inr (l, f) ↦ rw (f) (
                  choose_sized-Discards byte_budget t e (length l + 1)
                    (λ lt line p. over byte_budget e l line lt f p))
            ]))
        (λ _. tt)

  upload_from-Unsendable :
      (first : Event) (limit byte_budget : ℕ) (t : Tally) (es : List Event)
      → All (Unsendable byte_budget) (upload_from j first limit byte_budget t es).1
  unfolding upload_from settle
  upload_from-Unsendable first limit byte_budget t [] = tt
  upload_from-Unsendable first limit byte_budget t (e ∷ es) =
      elim (choose j first limit byte_budget t e)
          as (λ o.
            Discards byte_budget e o
            → All (Unsendable byte_budget)
                (elim o as (λ _. List Event × List Event) [
                  | none ↦ ([], [])
                  | some (c, u) ↦ settle c e (upload_from j first limit byte_budget u es)
                ]).1) [
                  | none ↦ λ h. tt
                  | some (uploaded, u) ↦ λ h. upload_from-Unsendable first limit byte_budget u es
                  | some (unsendable, u) ↦
                      λ h. (h, upload_from-Unsendable first limit byte_budget u es)
                  | some (postponed, u) ↦ λ h. upload_from-Unsendable first limit byte_budget u es
                ]
        (choose-Discards first limit byte_budget t e)

  upload_batch-Unsendable :
      (es : List Event) (limit byte_budget : ℕ)
      → All (Unsendable byte_budget) (upload_batch j es limit byte_budget).1
  unfolding upload_batch
  upload_batch-Unsendable [] limit byte_budget = tt
  upload_batch-Unsendable (e ∷ es) limit byte_budget =
      if_elim (λ (r : List Event × List Event). All (Unsendable byte_budget) r.1) (limit == 0)
        (λ _. tt) (λ _. upload_from-Unsendable e limit byte_budget no_tally (e ∷ es))

  -- Where an event of the queue is after a flush of a batch: in the queue, in the batch that was
  -- delivered or rejected, or among the oversized events.
  abbrev pub Accounted : Event → List Event → List Event → Delivery → Outbox → Type 0
  Accounted e batch oversized d u =
      Member e u.events ⊎ (((is_sent batch e ≡ true) × (d ≢ failed)) ⊎ (is_sent oversized e ≡ true))

  Removed-Accounted :
      (o : Outbox) (sent : List Event) (r : Outbox × ℕ) (e : Event)
      → Removed j o sent r
      → Member e o.events
      → Member e r.0.events ⊎ (is_sent sent e ≡ true)
  Removed-Accounted o sent (u, n) e h m = elim (Bool-cases (is_sent sent e)) [
    | inl y ↦ inr y
    | inr n ↦ inl (
        subst (Member e) (sym h.1)
          (Member-filter (λ x. not (is_sent sent x)) e o.events (rw (n) refl) m))
  ]

  deliver-Accounted :
      (io : Io) (o : Outbox) (batch oversized : List Event) (pending : ℕ) (d : Delivery) (e : Event)
      → IsReady o
      → Member e o.events
      → Accounted e batch oversized d (deliver j io o batch pending d).0
  unfolding deliver
  deliver-Accounted io o batch oversized pending delivered e h m =
      elim (Removed-Accounted o batch (remove_sent j io o batch) e
        (remove_sent-Removed j io o batch h) m) [ inl k ↦ inl k | inr k ↦ inr (inl (k, λ p. cc)) ]
  deliver-Accounted io o batch oversized pending rejected e h m =
      elim (Removed-Accounted o batch (remove_sent j io o batch) e
        (remove_sent-Removed j io o batch h) m) [ inl k ↦ inl k | inr k ↦ inr (inl (k, λ p. cc)) ]
  deliver-Accounted io o batch oversized pending failed e h m = inl m

  -- What happens while a batch is sent keeps the outbox open and the events in the queue.
  abbrev pub IsHarmless : (Outbox → Outbox) → Type 0
  IsHarmless meanwhile =
      (o : Outbox)
      → IsReady o
      → IsReady (meanwhile o) × ((e : Event) → Member e o.events → Member e (meanwhile o).events)

  -- Of an open outbox that has read its file, whatever the send answers and with other callers that
  -- keep the outbox open and its events: after a flush every event of the queue is still in it, or
  -- its identifier is in the batch and the send was answered by success or by a rejection, or its
  -- identifier is that of an event that no request can hold. The events that are discarded as
  -- oversized are of the last kind.
  pub flush_queue-Accounted :
      (io : Io) (valid_url : Bool) (send : List Event → Delivery) (meanwhile : Outbox → Outbox)
      (o : Outbox)
      → IsReady o
      → IsHarmless meanwhile
      → (let (batch, oversized) =
            upload_batch j o.events outbox_batch_size outbox_batch_byte_budget in
          ((e : Event)
            → Member e o.events
            → Accounted e batch oversized
                (post j valid_url send batch)
                (flush_queue j io valid_url send meanwhile o).0)
          × All (Unsendable outbox_batch_byte_budget) oversized)
  unfolding flush_queue
  flush_queue-Accounted io valid_url send meanwhile o h w =
      let (batch, oversized) = upload_batch j o.events outbox_batch_size outbox_batch_byte_budget in
      let (u, pending) = discard j io o oversized in
      let p = discard-Removed j io o oversized h in
      (
        λ e m. elim (Removed-Accounted o oversized (discard j io o oversized) e p m) [
          | inl k ↦
              if_elim
                (λ (r : Outbox × Report).
                  Accounted e batch oversized (post j valid_url send batch) r.0)
                (is_empty batch) (λ _. inl k)
                (λ _.
                  deliver-Accounted io (meanwhile u) batch oversized pending
                    (post j valid_url send batch) e (w u p.0).0 ((w u p.0).1 e k))
          | inr k ↦ inr (inr k)
        ],
        upload_batch-Unsendable o.events outbox_batch_size outbox_batch_byte_budget,
      )
