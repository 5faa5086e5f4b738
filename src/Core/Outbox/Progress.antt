-- ===== src/Core/Outbox/Progress.antt =====
-- connectcore/clienttelemetry/outbox.go, `outboxUploadBatch`: the head of a queue is uploaded or is
-- unsendable, so every flush that is delivered makes the queue shorter.
use openrung.Base.{
  ℕ, ◌+◌, ◌-◌, ◌≤◌, ◌<◌, ◌≡◌, refl, ◌⊎◌, inl, inr, true, not, List, [], ◌∷◌, Option, none, some,
  arith, ltb, leb, ◌==◌, length, any, filter, length-filter-le, Option-cases, if_elim,
}
use openrung.Base.Bytes.{Bytes}
use openrung.Base.Map.{lookup}
use openrung.Core.Outbox.Batch.{
  Event, Json, same, is_application, application_connection_count, max_reported_flows, Tally,
  no_tally, Choice, uploaded, unsendable, postponed, represented_of, choose_application,
  choose_sized, settle, choose, upload_from, upload_batch,
}
use openrung.Core.Outbox.Bounds.{application_connection_count_bound}
use openrung.Core.Outbox.Queue.{is_sent}

pub same_refl : (a : Bytes) → same a a ≡ true
same_refl a = ground arith

-- The first of a list is an event.
abbrev Starts : Event → List Event → Type 0
Starts e [] = ⊥
Starts e (x ∷ xs) = x ≡ e

-- The head of the queue is in one of the two lists.
abbrev pub Leads : Event → List Event × List Event → Type 0
Leads e (batch, oversized) = Starts e batch ⊎ Starts e oversized

-- A turn takes the event.
abbrev Takes : Option (Choice × Tally) → Type 0
Takes none = ⊥
Takes (some (postponed, u)) = ⊥
Takes (some (unsendable, u)) = Unit
Takes (some (uploaded, u)) = Unit

choose_application-first :
    (e : Event) (size : ℕ) → Takes (some (choose_application no_tally e size))
unfolding choose_application represented_of lookup any
choose_application-first e size =
    if_elim (λ (r : Choice × Tally). Takes (some r))
      (ltb (max_reported_flows - 0) (application_connection_count e))
      (λ h. absurd (ground (arith, application_connection_count_bound e))) (λ _. tt)

choose_sized-first :
    (byte_budget : ℕ) (e : Event) (size : ℕ) → Takes (choose_sized byte_budget no_tally e size)
unfolding choose_sized
choose_sized-first byte_budget e size =
    if_elim Takes (ltb byte_budget size) (λ _. tt)
      (λ h.
        if_elim Takes (ltb byte_budget (0 + size)) (λ k. absurd (ground arith))
          (λ _. if_elim Takes (is_application e) (λ _. choose_application-first e size) (λ _. tt)))

module _ (j : Json) where
  choose-first :
      (e : Event) (limit byte_budget : ℕ)
      → 0 < limit
      → Takes (choose j e limit byte_budget no_tally e)
  unfolding choose
  choose-first e limit byte_budget h =
      rw (same_refl e.client_id, same_refl e.session_id)
        (if_elim Takes (leb limit 0) (λ k. absurd (ground arith))
          (λ _. elim (Option-cases (j.marshal e)) [
            | inl n ↦ rw (n) tt
            | inr (l, f) ↦ rw (f) (choose_sized-first byte_budget e (length l + 1))
          ]))

  -- The head of a queue is uploaded, or it is unsendable.
  pub upload_batch-Leads :
      (e : Event) (es : List Event) (limit byte_budget : ℕ)
      → 0 < limit
      → Leads e (upload_batch j (e ∷ es) limit byte_budget)
  unfolding upload_batch upload_from settle
  upload_batch-Leads e es limit byte_budget h =
      if_elim (Leads e) (limit == 0) (λ k. absurd (ground arith))
        (λ _.
          let p = choose-first e limit byte_budget h in
          elim (choose j e limit byte_budget no_tally e)
              as (λ o.
                Takes o
                → Leads e (elim o as (λ _. List Event × List Event) [
                  | none ↦ ([], [])
                  | some (c, u) ↦ settle c e (upload_from j e limit byte_budget u es)
                ])) [
                  | none ↦ λ q. absurd q
                  | some (uploaded, u) ↦ λ q. inl refl
                  | some (unsendable, u) ↦ λ q. inr refl
                  | some (postponed, u) ↦ λ q. absurd q
                ]
            p)

-- What is left of a queue after the events of a list that holds its head is shorter.
pub filter_shorter :
    (e : Event) (es sent : List Event)
    → Starts e sent
    → length (filter (λ x. not (is_sent sent x)) (e ∷ es)) ≤ length es
unfolding filter any
filter_shorter e es [] h = absurd h
filter_shorter e es (s ∷ ss) h =
    rw (h, same_refl e.event_id) (length-filter-le (λ x. not (is_sent (s ∷ ss) x)) es)
