-- ===== src/Engine/LeaseSync/Cycle.antt =====
-- What a cycle that reports success has reached.
use mathlib.Core.Path.{subst}
use openrung.Base.{
  ℕ, ◌≡◌, refl, ap, ◌∙◌, if_elim, ◌⊎◌, inl, inr, Bool, true, false, not, ◌&&◌, ◌||◌, [], Option,
  none, some, arith, ◌==◌, Bool-cases,
}
use openrung.Base.Bytes.{Bytes, bytes_eq}
use openrung.Base.Map.{lookup}
use openrung.Engine.LeaseSync.{
  LeaseSync, LeaseSyncResponse, BrokerError, not_found, failed, interrupted, reconcile,
  handle_broker_error, ack, begin_cycle, apply_set, poll, cycle,
}
use openrung.Engine.LeaseSync.Reconcile.{installed_at, reconcile-applied}
use openrung.Engine.LeaseSync.Target.{target, reconcile-target}

-- The relay follows the polled set: its revision is the applied one, no full fetch and no
-- acknowledgement are left to do, and the installed leases are the set's.
abbrev pub CaughtUp : LeaseSyncResponse → ℕ → LeaseSync → Type 0
CaughtUp resp now t =
    (t.applied ≡ resp.revision)
    × (t.full ≡ false)
    × (t.pending_ack ≡ false)
    × ((j : Bytes)
        → installed_at t j ≡ lookup bytes_eq j (target now resp.server_time resp.leases []))

-- A set is acknowledged, unless it was polled after its revision was applied.
abbrev Confirms : LeaseSync → LeaseSyncResponse → ℕ → Option BrokerError → LeaseSync → Type 0
Confirms s resp now acked t =
    CaughtUp resp now t
    × (((s.full ≡ false) × (resp.revision ≡ s.applied)) ⊎ ((acked ≡ none) × (t.announced ≡ true)))

handle-fails : (s : LeaseSync) (e : BrokerError) → (handle_broker_error s e).1 ≡ false
unfolding handle_broker_error
handle-fails s not_found = refl
handle-fails s failed = refl
handle-fails s interrupted = refl

ack-Confirms :
    (s u : LeaseSync) (resp : LeaseSyncResponse) (now : ℕ) (acked : Option BrokerError)
    → u.applied ≡ resp.revision
    → u.full ≡ false
    → ((j : Bytes)
        → installed_at u j ≡ lookup bytes_eq j (target now resp.server_time resp.leases []))
    → (ack u resp.revision acked).1 ≡ true
    → Confirms s resp now acked (ack u resp.revision acked).0
unfolding ack
ack-Confirms s u resp now none a f i h = ((a, f, ground arith, i), inr (refl, refl))
ack-Confirms s u resp now (some e) a f i h = absurd (ground (arith, handle-fails u e, h))

quiet :
    (full pending : Bool) (m n : ℕ)
    → (full || not (m == n) || pending) ≡ false
    → (full ≡ false) × (m ≡ n)
quiet full pending m n h = ground arith

apply_set-Confirms :
    (s : LeaseSync) (resp : LeaseSyncResponse) (now : ℕ) (acked : Option BrokerError)
    → (apply_set s resp now acked).1 ≡ true
    → Confirms s resp now acked (apply_set s resp now acked).0
unfolding apply_set
apply_set-Confirms s resp now acked h =
    let t = (reconcile s resp now).0 in
    elim (Bool-cases (reconcile s resp now).1) [
      | inr n ↦ absurd (ground (arith, rw (n, apply_set) at h))
      | inl y ↦
          let i = λ (j : Bytes). reconcile-target s t resp now j (ap (λ (b : Bool). (t, b)) y) in
          elim (Bool-cases (s.full || not (resp.revision == t.applied) || t.pending_ack)) [
            | inl p ↦
                rw (y, p, apply_set)
                  (ack-Confirms s _ resp now acked refl refl i (rw (y, p, apply_set) at h))
            | inr p ↦
                let (f, r) = quiet s.full t.pending_ack resp.revision t.applied p in
                rw (y, p, apply_set) ((refl, refl, p, i), inl (f, r ∙ reconcile-applied s resp now))
          ]
    ]

-- A full fetch that is not due after the start of a cycle was not before it, in the same session.
begin_cycle-same :
    (s : LeaseSync) (generation : ℕ)
    → (begin_cycle s generation).full ≡ false
    → (generation ≡ s.generation) × (s.full ≡ false)
unfolding begin_cycle
begin_cycle-same s generation h = elim (Bool-cases (generation == s.generation)) [
  | inl y ↦ (ground arith, rw (y, begin_cycle) at h)
  | inr n ↦ absurd (ground (arith, rw (n, begin_cycle) at h))
]

begin_cycle-applied :
    (s : LeaseSync) (generation : ℕ) → (begin_cycle s generation).applied ≡ s.applied
unfolding begin_cycle
begin_cycle-applied s generation =
    if_elim (λ (t : LeaseSync). t.applied ≡ s.applied) (generation == s.generation) (λ _. refl)
      (λ _. refl)

ack-applied :
    (s : LeaseSync) (revision : ℕ) (e : Option BrokerError)
    → (ack s revision e).0.applied ≡ s.applied
unfolding ack handle_broker_error
ack-applied s revision none = refl
ack-applied s revision (some not_found) = refl
ack-applied s revision (some failed) = refl
ack-applied s revision (some interrupted) = refl

-- The set was polled in the state's session with no full fetch due, and its revision was the
-- applied one.
abbrev pub Unchanged : LeaseSync → ℕ → LeaseSyncResponse → Type 0
Unchanged s generation resp =
    (generation ≡ s.generation) × (s.full ≡ false) × (resp.revision ≡ s.applied)

-- What a cycle with a polled set reaches from the state `s`.
abbrev Reaches :
    LeaseSync → ℕ → LeaseSyncResponse → ℕ → Option BrokerError → LeaseSync × Bool → Type 0
Reaches s generation resp now acked (t, done) =
    CaughtUp resp now t × (Unchanged s generation resp ⊎ ((acked ≡ none) × (t.announced ≡ true)))

unchanged :
    (s u : LeaseSync) (generation : ℕ) (resp : LeaseSyncResponse) (P : Type 0)
    → u.applied ≡ s.applied
    → (u.full ≡ false → (begin_cycle s generation).full ≡ false)
    → ((u.full ≡ false) × (resp.revision ≡ u.applied)) ⊎ P
    → Unchanged s generation resp ⊎ P
unchanged s u generation resp P a f (inl (k, r)) =
    let (g, x) = begin_cycle-same s generation (f k) in inl (g, x, r ∙ a)
unchanged s u generation resp P a f (inr p) = inr p

cycle-Reaches :
    (s : LeaseSync) (generation : ℕ) (first : Option BrokerError) (resp : LeaseSyncResponse)
    (e : BrokerError) (now : ℕ) (acked : Option BrokerError)
    → (cycle s generation first (some resp) e now acked).1 ≡ true
    → Reaches s generation resp now acked (cycle s generation first (some resp) e now acked)
unfolding cycle poll
cycle-Reaches s generation first resp e now acked h =
    let t = begin_cycle s generation in
    let u = (ack t t.applied first).0 in
    elim (Bool-cases (t.pending_ack && not t.full)) [
      | inr n ↦
          let (caught, said) = apply_set-Confirms t resp now acked (rw (n, cycle) at h) in
          rw (n, cycle)
            (
              caught,
              unchanged s t generation resp _ (begin_cycle-applied s generation) (λ f. f) said,
            )
      | inl y ↦ elim (Bool-cases (ack t t.applied first).1) [
        | inr n ↦ absurd (ground (arith, rw (y, n, cycle) at h))
        | inl z ↦
            let (caught, said) = apply_set-Confirms u resp now acked (rw (y, z, cycle) at h) in
            rw (y, z, cycle)
              (
                caught,
                unchanged s u generation resp _
                    (ack-applied t t.applied first ∙ begin_cycle-applied s generation)
                    (λ _. ground (arith, y)) said,
              )
      ]
    ]

-- A cycle that reports success with a polled set has caught up: the set's revision is the applied
-- one, no full fetch and no acknowledgement are left to do, and the leases that the relay holds as
-- installed are exactly the set's live ones. The broker has taken the set's acknowledgement, unless
-- the set was polled in the state's own session with no full fetch due and its revision was the
-- applied one before.
pub cycle-CaughtUp :
    (s t : LeaseSync) (generation : ℕ) (first : Option BrokerError) (resp : LeaseSyncResponse)
    (e : BrokerError) (now : ℕ) (acked : Option BrokerError)
    → cycle s generation first (some resp) e now acked ≡ (t, true)
    → CaughtUp resp now t × (Unchanged s generation resp ⊎ ((acked ≡ none) × (t.announced ≡ true)))
cycle-CaughtUp s t generation first resp e now acked h =
    subst (Reaches s generation resp now acked) h
      (cycle-Reaches s generation first resp e now acked (ap (λ r. r.1) h))
