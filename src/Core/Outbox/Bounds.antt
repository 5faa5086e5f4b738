-- ===== src/Core/Outbox/Bounds.antt =====
-- connectcore/clienttelemetry/outbox.go, `outboxUploadBatch`: what a batch holds.
use mathlib.Core.Path.{subst}
use openrung.Base.{
  ℕ, ◌+◌, ◌-◌, ◌≤◌, ◌≡◌, refl, sym, ap, inl, inr, true, false, ◌&&◌, List, [], ◌∷◌, Option, none,
  some, arith, ltb, leb, ◌==◌, if◌then◌else◌, ite, length, any, All, Option-cases, if_elim,
}
use openrung.Base.Bytes.{Bytes, bytes_eq}
use openrung.Base.Map.{lookup, insert, lookup-insert}
use openrung.Core.Outbox.Batch.{
  Event, Json, same, is_application, application_connection_count, max_reported_flows, Tally,
  no_tally, Choice, uploaded, unsendable, postponed, represented_of, choose_application,
  choose_sized, settle, choose, upload_from, upload_batch,
}

-- The flows that a batch represents of an application.
abbrev pub flows : Bytes → List Event → ℕ
flows a [] = 0
flows a (e ∷ es) =
    (if is_application e && same a e.application then application_connection_count e else 0)
    + flows a es

-- Two events of one client and session.
abbrev pub SameIdentity : Event → Event → Type 0
SameIdentity first e = (e.client_id ≡ first.client_id) × (e.session_id ≡ first.session_id)

same_lem : (a b : Bytes) → same a b ≡ true → a ≡ b
same_lem a b h = ground arith

pub application_connection_count_bound :
    (e : Event) → application_connection_count e ≤ max_reported_flows
unfolding application_connection_count
application_connection_count_bound e = ground arith

represented_of-insert :
    (m : List (Bytes × ℕ)) (k a : Bytes) (v : ℕ)
    → represented_of (insert bytes_eq k v m) a ≡ (if same a k then v else represented_of m a)
unfolding represented_of
represented_of-insert m k a v =
    elim (bytes_eq a k)
        as (λ d.
          lookup bytes_eq a (insert bytes_eq k v m) ≡ ite d (some v) (lookup bytes_eq a m)
          → represented_of (insert bytes_eq k v m) a
            ≡ (if ite d true false then v else represented_of m a)) [
              | yes p ↦ λ h. rw (h, represented_of) refl
              | no p ↦ λ h. rw (h, represented_of) refl
            ]
      (lookup-insert bytes_eq k a v m)

-- What an application is charged shows in its own flows alone.
represented_of-charge :
    (m : List (Bytes × ℕ)) (k a : Bytes) (n : ℕ)
    → represented_of m a + (if same a k then n else 0)
      ≡ represented_of (insert bytes_eq k (represented_of m k + n) m) a
represented_of-charge m k a n =
    rw (represented_of-insert m k a (represented_of m k + n))
      (elim (bytes_eq a k)
        as (λ d.
          represented_of m a + (if ite d true false then n else 0)
          ≡ (if ite d true false then represented_of m k + n else represented_of m a)) [
            | yes p ↦ ap (λ x. represented_of m x + n) p
            | no p ↦ omega arith
          ])

charged_flow :
    (t : Tally) (e : Event) (a : Bytes)
    → is_application e ≡ true
    → represented_of t.represented a + flows a (e ∷ [])
      ≡ represented_of
          (insert bytes_eq e.application
            (represented_of t.represented e.application + application_connection_count e)
            t.represented)
          a
charged_flow t e a app =
    let n = application_connection_count e in
    rw (app) (omega (arith, represented_of-charge t.represented e.application a n))

module _ (j : Json) where
  -- The bytes of an event in a request.
  abbrev pub weight : Event → ℕ
  weight e = elim (j.marshal e) [ none ↦ 0 | some line ↦ length line + 1 ]

  abbrev pub total_bytes : List Event → ℕ
  total_bytes [] = 0
  total_bytes (e ∷ es) = weight e + total_bytes es

  -- A batch after a tally: its size, its bytes and the flows of each application stay in bounds.
  pub record Within (first : Event) (limit byte_budget : ℕ) (t : Tally) (batch : List Event)
      : Type 0 where
    pub size : t.taken + length batch ≤ limit
    pub bytes : t.bytes + total_bytes batch ≤ byte_budget
    pub flow : (a : Bytes) → represented_of t.represented a + flows a batch ≤ max_reported_flows
    pub identity : All (SameIdentity first) batch

  -- What one turn of the loop does to a tally that is in bounds.
  abbrev Turn : Event → ℕ → ℕ → Tally → Event → Choice × Tally → Type 0
  Turn first limit byte_budget t e (uploaded, u) =
      (t.taken + 1 ≡ u.taken)
      × (u.taken ≤ limit)
      × (t.bytes + weight e ≡ u.bytes)
      × (u.bytes ≤ byte_budget)
      × SameIdentity first e
      × ((a : Bytes)
          → (represented_of t.represented a + flows a (e ∷ []) ≡ represented_of u.represented a)
            × (represented_of u.represented a ≤ max_reported_flows))
  Turn first limit byte_budget t e (unsendable, u) = t ≡ u
  Turn first limit byte_budget t e (postponed, u) =
      (t.taken ≡ u.taken) × (t.bytes ≡ u.bytes) × (t.represented ≡ u.represented)

  Turned : Event → ℕ → ℕ → Tally → Event → Option (Choice × Tally) → Type 0
  Turned first limit byte_budget t e none = Unit
  Turned first limit byte_budget t e (some r) = Turn first limit byte_budget t e r

  choose_application-Turn :
      (first : Event) (limit byte_budget : ℕ) (t : Tally) (e : Event)
      → Within first limit byte_budget t []
      → is_application e ≡ true
      → SameIdentity first e
      → t.taken + 1 ≤ limit
      → t.bytes + weight e ≤ byte_budget
      → Turn first limit byte_budget t e (choose_application t e (weight e))
  unfolding choose_application
  choose_application-Turn first limit byte_budget t e w app same_id size bytes =
      if_elim (Turn first limit byte_budget t e) (any (same e.application) t.deferred)
        (λ _. (refl, refl, refl))
        (λ _.
          if_elim (Turn first limit byte_budget t e)
            (ltb (max_reported_flows - represented_of t.represented e.application)
              (application_connection_count e))
            (λ _. (refl, refl, refl))
            (λ le. (
              refl,
              size,
              refl,
              bytes,
              same_id,
              λ a. (
                charged_flow t e a app,
                rw
                    (represented_of-insert t.represented e.application a
                      (represented_of t.represented e.application + application_connection_count e))
                    (ground (arith, w.flow a, w.flow e.application)),
              ),
            )))

  choose_sized-Turn :
      (first : Event) (limit byte_budget : ℕ) (t : Tally) (e : Event)
      → Within first limit byte_budget t []
      → SameIdentity first e
      → t.taken + 1 ≤ limit
      → Turned first limit byte_budget t e (choose_sized byte_budget t e (weight e))
  unfolding choose_sized Turned
  choose_sized-Turn first limit byte_budget t e w same_id size =
      if_elim (Turned first limit byte_budget t e) (ltb byte_budget (weight e)) (λ _. refl)
        (λ _.
          if_elim (Turned first limit byte_budget t e) (ltb byte_budget (t.bytes + weight e))
            (λ _. tt)
            (λ le.
              if_elim (Turned first limit byte_budget t e) (is_application e)
                (λ app.
                  choose_application-Turn first limit byte_budget t e w app same_id size
                    (ground arith))
                (λ app. (
                  refl,
                  size,
                  refl,
                  ground arith,
                  same_id,
                  λ a. (rw (app) (omega arith), omega (arith, w.flow a)),
                ))))

  choose-Turn :
      (first : Event) (limit byte_budget : ℕ) (t : Tally) (e : Event)
      → Within first limit byte_budget t []
      → Turned first limit byte_budget t e (choose j first limit byte_budget t e)
  unfolding choose Turned
  choose-Turn first limit byte_budget t e w =
      if_elim (Turned first limit byte_budget t e)
        (same e.client_id first.client_id && same e.session_id first.session_id)
        (λ p.
          if_elim (Turned first limit byte_budget t e) (leb limit t.taken) (λ _. tt)
            (λ le. elim (Option-cases (j.marshal e)) [
              | inl n ↦ rw (n) refl
              | inr (l, f) ↦
                  let h =
                    choose_sized-Turn first limit byte_budget t e w (ground arith) (ground arith) in
                  let q : weight e ≡ length l + 1 = rw (f, weight) refl in
                  rw (f) (
                    subst (λ n. Turned first limit byte_budget t e (choose_sized byte_budget t e n))
                      q h)
            ]))
        (λ _. tt)

  -- The tally after a turn is in bounds, and what then stays in bounds did so before with the event.
  Within-next :
      (first : Event) (limit byte_budget : ℕ) (t u : Tally) (c : Choice) (e : Event)
      → Within first limit byte_budget t []
      → Turn first limit byte_budget t e (c, u)
      → Within first limit byte_budget u []
  Within-next first limit byte_budget t u uploaded e w h = record {
    size = omega (arith, h.1);
    bytes = omega (arith, h.3);
    flow = λ a. omega (arith, (h.5 a).1);
    identity = tt;
  }
  Within-next first limit byte_budget t u unsendable e w h =
      subst (λ x. Within first limit byte_budget x []) h w
  Within-next first limit byte_budget t u postponed e w h = record {
    size = omega (arith, w.size, h.0);
    bytes = omega (arith, w.bytes, h.1);
    flow = λ a. subst (λ m. represented_of m a + 0 ≤ max_reported_flows) h.2 (w.flow a);
    identity = tt;
  }

  Within-settle :
      (first : Event) (limit byte_budget : ℕ) (t u : Tally) (c : Choice) (e : Event)
      (r : List Event × List Event)
      → Turn first limit byte_budget t e (c, u)
      → Within first limit byte_budget u r.0
      → Within first limit byte_budget t (settle c e r).0
  unfolding settle
  Within-settle first limit byte_budget t u uploaded e (b, o) h w = record {
    size = omega (arith, h.0, w.size);
    bytes = omega (arith, h.2, w.bytes);
    flow = λ a. omega (arith, (h.5 a).0, w.flow a);
    identity = (h.4, w.identity);
  }
  Within-settle first limit byte_budget t u unsendable e (b, o) h w =
      subst (λ x. Within first limit byte_budget x b) (sym h) w
  Within-settle first limit byte_budget t u postponed e (b, o) h w = record {
    size = omega (arith, w.size, h.0);
    bytes = omega (arith, w.bytes, h.1);
    flow =
        λ a. subst (λ m. represented_of m a + flows a b ≤ max_reported_flows) (sym h.2) (w.flow a);
    identity = w.identity;
  }

  upload_from-Within :
      (first : Event) (limit byte_budget : ℕ) (t : Tally) (es : List Event)
      → Within first limit byte_budget t []
      → Within first limit byte_budget t (upload_from j first limit byte_budget t es).0
  unfolding upload_from Turned
  upload_from-Within first limit byte_budget t [] w = w
  upload_from-Within first limit byte_budget t (e ∷ es) w =
      elim (Option-cases (choose j first limit byte_budget t e)) [
        | inl n ↦ rw (n, upload_from) w
        | inr ((c, u), f) ↦
            let h : Turn first limit byte_budget t e (c, u) =
              subst (Turned first limit byte_budget t e) f
                (choose-Turn first limit byte_budget t e w) in
            rw (f, upload_from)
              (Within-settle first limit byte_budget t u c e
                (upload_from j first limit byte_budget u es) h
                (upload_from-Within first limit byte_budget u es
                  (Within-next first limit byte_budget t u c e w h)))
      ]

  -- What a batch promises, of a queue, a number of events and a number of bytes.
  abbrev pub IsBatch : List Event → ℕ → ℕ → List Event → Type 0
  IsBatch [] limit byte_budget batch = batch ≡ []
  IsBatch (first ∷ es) limit byte_budget batch =
      (length batch ≤ limit)
      × (total_bytes batch ≤ byte_budget)
      × ((a : Bytes) → flows a batch ≤ max_reported_flows)
      × All (SameIdentity first) batch

  -- For every queue, limit and byte budget, the batch has at most as many events as the limit and
  -- at most as many bytes as the budget (a separator counted for each event), represents at most
  -- 100000 flows of each application, and holds events of the client and session of the queue's
  -- head alone.
  pub upload_batch-IsBatch :
      (es : List Event) (limit byte_budget : ℕ)
      → IsBatch es limit byte_budget (upload_batch j es limit byte_budget).0
  unfolding upload_batch represented_of lookup
  upload_batch-IsBatch [] limit byte_budget = refl
  upload_batch-IsBatch (first ∷ es) limit byte_budget =
      if_elim (λ (r : List Event × List Event). IsBatch (first ∷ es) limit byte_budget r.0)
        (limit == 0) (λ _. (omega arith, omega arith, λ a. omega arith, tt))
        (λ _.
          let w = upload_from-Within first limit byte_budget no_tally (first ∷ es) (record {
            size = omega arith;
            bytes = omega arith;
            flow = λ a. omega arith;
            identity = tt;
          }) in
          (omega (arith, w.size), omega (arith, w.bytes), λ a. omega (arith, w.flow a), w.identity))
