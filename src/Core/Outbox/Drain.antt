-- ===== src/Core/Outbox/Drain.antt =====
-- connectcore/clienttelemetry/outbox.go and manager.go: what a flush takes from the queue, and the
-- end of the loop that drains it.
use mathlib.Core.Path.{subst}
use openrung.Base.{
  ℕ, ◌≤◌, ◌<◌, ◌≡◌, refl, sym, ap, ◌⊎◌, inl, inr, Bool, true, false, not, List, [], ◌∷◌, none,
  arith, leb, length, any, filter, length-filter-le, Bool-cases, if_elim,
}
use openrung.Core.Outbox.Batch.{Event, Json, is_empty, upload_batch}
use openrung.Core.Outbox.Progress.{upload_batch-Leads, Leads, filter_shorter}
use openrung.Core.Outbox.{Outbox, Io, rewrite, outbox_batch_size, outbox_batch_byte_budget}
use openrung.Core.Outbox.Queue.{
  Delivery, delivered, rejected, failed, Report, is_sent, remove_sent, discard, post, deliver,
  flush_queue,
}

-- The queue of an open outbox that has read its file.
abbrev pub IsReady : Outbox → Type 0
IsReady o = (o.loaded ≡ true) × (o.closed ≡ false)

abbrev without : List Event → List Event → List Event
without sent es = filter (λ e. not (is_sent sent e)) es

filter-filter-le :
    (p q : Event → Bool) (es : List Event) → length (filter p (filter q es)) ≤ length (filter p es)
unfolding filter
filter-filter-le p q [] = omega arith
filter-filter-le p q (e ∷ es) = elim (Bool-cases (q e)) [
  | inl y ↦ rw (y) (ground (arith, filter-filter-le p q es))
  | inr n ↦ rw (n) (ground (arith, filter-filter-le p q es))
]

-- Empty, or shorter than another queue.
abbrev pub Shorter : List Event → List Event → Type 0
Shorter xs es = (xs ≡ []) ⊎ (length xs < length es)

module _ (j : Json) where
  rewrite-IsReady :
      (b : Bool) (o : Outbox)
      → IsReady o
      → IsReady (rewrite j b o).0 × ((rewrite j b o).0.events ≡ o.events)
  unfolding rewrite
  rewrite-IsReady true o h = (h, refl)
  rewrite-IsReady false o h = (h, refl)

  -- What is removed, and the count that is left.
  abbrev pub Removed : Outbox → List Event → Outbox × ℕ → Type 0
  Removed o sent (u, left) =
      IsReady u × (u.events ≡ without sent o.events) × (left ≡ length u.events)

  pub remove_sent-Removed :
      (io : Io) (o : Outbox) (sent : List Event)
      → IsReady o
      → Removed o sent (remove_sent j io o sent)
  unfolding remove_sent
  remove_sent-Removed io o sent h =
      let u : Outbox = record o { events = without sent o.events } in
      if_elim (Removed o sent) o.closed (λ c. absurd (ground arith))
        (λ _.
          if_elim (λ (w : Outbox). Removed o sent (w, length w.events))
            (any (is_sent sent) o.events)
            (λ _. ((rewrite-IsReady io.rewrite u h).0, (rewrite-IsReady io.rewrite u h).1, refl))
            (λ _. (h, refl, refl)))

  without_none : (es : List Event) → es ≡ without [] es
  unfolding filter any
  without_none [] = refl
  without_none (e ∷ es) = ap (λ r. e ∷ r) (without_none es)

  nothing-Removed :
      (o : Outbox) (sent : List Event)
      → IsReady o
      → leb 1 (length sent) ≡ false
      → Removed o sent (o, length o.events)
  nothing-Removed o [] h p = (h, without_none o.events, refl)
  nothing-Removed o (e ∷ es) h p = absurd (ground arith)

  pub discard-Removed :
      (io : Io) (o : Outbox) (oversized : List Event)
      → IsReady o
      → Removed o oversized (discard j io o oversized)
  unfolding discard
  discard-Removed io o oversized h =
      if_elim (Removed o oversized) (leb 1 (length oversized))
        (λ _. remove_sent-Removed io o oversized h) (λ p. nothing-Removed o oversized h p)

  -- What a flush without a failure leaves: a queue that is ready, whose length is reported, and which
  -- is shorter than the one before unless that was empty.
  abbrev pub Flushed : List Event → Outbox × Report → Type 0
  Flushed es (u, r) =
      IsReady u × (r.failure ≡ none → (r.pending ≡ length u.events) × Shorter u.events es)

  deliver-Flushed :
      (io : Io) (o : Outbox) (es batch : List Event) (d : Delivery)
      → IsReady o
      → Shorter (without batch o.events) es
      → Flushed es (deliver j io o batch (length o.events) d)
  unfolding deliver
  deliver-Flushed io o es batch delivered h le =
      let p = remove_sent-Removed io o batch h in
      (p.0, λ _. (p.2, subst (λ x. Shorter x es) (sym p.1) le))
  deliver-Flushed io o es batch rejected h le = ((remove_sent-Removed io o batch h).0, λ e. cc)
  deliver-Flushed io o es batch failed h le = (h, λ e. cc)

  -- The queue without the events of two lists, one of which holds its head.
  shorter :
      (e : Event) (es : List Event) (r : List Event × List Event)
      → Leads e r
      → length (without r.0 (without r.1 (e ∷ es))) < length (e ∷ es)
  shorter e es (batch, oversized) (inl h) = omega (
    arith,
    filter_shorter e es batch h,
    filter-filter-le (λ x. not (is_sent batch x)) (λ x. not (is_sent oversized x)) (e ∷ es),
  )
  shorter e es (batch, oversized) (inr h) = omega (
    arith,
    filter_shorter e es oversized h,
    length-filter-le (λ x. not (is_sent batch x)) (without oversized (e ∷ es)),
  )

  Shorter-without :
      (es : List Event)
      → Shorter
          (without
            (upload_batch j es outbox_batch_size outbox_batch_byte_budget).0
            (without (upload_batch j es outbox_batch_size outbox_batch_byte_budget).1 es))
          es
  unfolding filter
  Shorter-without [] = inl refl
  Shorter-without (e ∷ es) = inr (
      shorter e es (upload_batch j (e ∷ es) outbox_batch_size outbox_batch_byte_budget)
        (upload_batch-Leads j e es outbox_batch_size outbox_batch_byte_budget (omega arith)))

  without_empty : (sent es : List Event) → is_empty sent ≡ true → without sent es ≡ es
  without_empty [] es h = sym (without_none es)
  without_empty (s ∷ ss) es h = absurd (ground arith)

  pub flush_queue-Flushed :
      (io : Io) (valid_url : Bool) (send : List Event → Delivery) (o : Outbox)
      → IsReady o
      → Flushed o.events (flush_queue j io valid_url send (λ x. x) o)
  unfolding flush_queue
  flush_queue-Flushed io valid_url send o h =
      let (batch, oversized) = upload_batch j o.events outbox_batch_size outbox_batch_byte_budget in
      let (u, pending) = discard j io o oversized in
      let p = discard-Removed io o oversized h in
      let q : Shorter (without batch u.events) o.events =
        subst (λ x. Shorter (without batch x) o.events) (sym p.1) (Shorter-without o.events) in
      if_elim (Flushed o.events) (is_empty batch)
        (λ y. (p.0, λ _. (p.2, subst (λ x. Shorter x o.events) (without_empty batch u.events y) q)))
        (λ n. rw (p.2) (deliver-Flushed io u o.events batch (post j valid_url send batch) p.0 q))
