-- ===== src/Broker/Store/Revisions.antt =====
-- The revisions of the relays' lease sets: what the calls of the lease store do to them.
use openrung.Base.{
  ℕ, ◌+◌, ◌≤◌, ◌≡◌, refl, sym, ap, ◌∙◌, ◌⊎◌, inl, inr, not, List, [], ◌∷◌, Option, none, some,
  arith, ltb, ◌==◌, if◌then◌else◌, ite, filter, length, Option-cases, Bool-cases, if_elim,
}
use openrung.Base.Bytes.{Bytes, bytes_eq}
use openrung.Base.Map.{lookup, insert, lookup-insert}
use openrung.Broker.Store.{
  Store, Lease, LeaseState, UserStatus, enabled, disabled, Error, Result, ok, err,
}
use openrung.Broker.Store.Leases.{
  row, put_row, put_lease, same, revoke_each, revoke_relays, revoke_user_leases,
  live_leases_for_user,
}
use openrung.Broker.Store.Users.{set_user_status}
use openrung.Broker.Store.Issue.{
  LeaseIssueRequest, Normalized, LeaseIssuePlan, evict, extend_lease, create_lease, minted_for,
  issue_on, issue_each, mint, carry_out, eligible_relays, victims, plan_lease_issue, normalized,
  issue_leases, current,
}
use openrung.Broker.Store.LeaseSets.{lease_relay_authorized, ack_lease_revision}

abbrev rows : Store → Bytes → LeaseState
rows s j = row s.lease_states j

-- From one store to another, no relay's revision and no acknowledged revision falls.
abbrev pub Advances : Store → Store → Type 0
Advances s t =
    (j : Bytes)
    → ((rows s j).revision ≤ (rows t j).revision) × ((rows s j).applied ≤ (rows t j).applied)

Advances-refl : (s : Store) → Advances s s
Advances-refl s j = (omega arith, omega arith)

Advances-trans : (s t u : Store) → Advances s t → Advances t u → Advances s u
Advances-trans s t u f g j = (omega (arith, (f j).0, (g j).0), omega (arith, (f j).1, (g j).1))

-- The row that a lookup gives.
abbrev row_or_new : Option LeaseState → LeaseState
row_or_new none = record { revision = 0; applied = 0 }
row_or_new (some r) = r

row-lookup :
    (m : List (Bytes × LeaseState)) (j : Bytes) → row m j ≡ row_or_new (lookup bytes_eq j m)
unfolding row
row-lookup m j = elim (Option-cases (lookup bytes_eq j m)) [
  | inl n ↦ rw (n, row) refl
  | inr (r, e) ↦ rw (e, row) refl
]

pub row-insert :
    (m : List (Bytes × LeaseState)) (id : Bytes) (r : LeaseState) (j : Bytes)
    → row (insert bytes_eq id r m) j ≡ ite (bytes_eq j id) r (row m j)
row-insert m id r j =
    row-lookup (insert bytes_eq id r m) j
    ∙ ap row_or_new (lookup-insert bytes_eq id j r m)
    ∙ elim (bytes_eq j id)
        as (λ d. row_or_new (ite d (some r) (lookup bytes_eq j m)) ≡ ite d r (row m j)) [
          | yes p ↦ refl
          | no p ↦ sym (row-lookup m j)
        ]

-- A row that is not behind the one that it replaces.
put_row-Advances :
    (s : Store) (id : Bytes) (r : LeaseState)
    → (rows s id).revision ≤ r.revision
    → (rows s id).applied ≤ r.applied
    → Advances s (put_row s id r)
unfolding put_row
put_row-Advances s id r h k j = ground (arith, row-insert s.lease_states id r j, h, k)

-- Where two stores have the same rows.
same_rows : (s t : Store) → t.lease_states ≡ s.lease_states → Advances s t
same_rows s t e = rw e (Advances-refl s)

evict-rows :
    (s : Store) (now n : ℕ) (ls : List Lease) → (evict s now n ls).lease_states ≡ s.lease_states
unfolding evict put_lease
evict-rows s now n [] = refl
evict-rows s now n (l ∷ ls) =
    evict-rows (put_lease s (record (current s l) { revoked_at = now; revision = n })) now n ls

extend_lease-rows :
    (s : Store) (q : Normalized) (now n : ℕ) (o : Option Lease)
    → (extend_lease s q now n o).0.lease_states ≡ s.lease_states
unfolding extend_lease put_lease
extend_lease-rows s q now n none = refl
extend_lease-rows s q now n (some l) = refl

create_lease-rows :
    (s : Store) (n : ℕ) (o : Option Lease) → (create_lease s n o).0.lease_states ≡ s.lease_states
unfolding create_lease put_lease
create_lease-rows s n none = refl
create_lease-rows s n (some l) = refl

revoke_each-rows :
    (now n : ℕ) (s : Store) (ls : List Lease)
    → (revoke_each now n s ls).lease_states ≡ s.lease_states
unfolding revoke_each put_lease
revoke_each-rows now n s [] = refl
revoke_each-rows now n s (l ∷ ls) =
    revoke_each-rows now n (put_lease s (record l { revoked_at = now; revision = n })) ls

revoke_relays-Advances :
    (now : ℕ) (live : List Lease) (s : Store) (ids : List Bytes)
    → Advances s (revoke_relays now live s ids)
unfolding revoke_relays
revoke_relays-Advances now live s [] = Advances-refl s
revoke_relays-Advances now live s (id ∷ ids) =
    let r = row s.lease_states id in
    let t = put_row s id (record r { revision = r.revision + 1 }) in
    let u = revoke_each now (r.revision + 1) t (filter (λ l. same l.relay_id id) live) in
    Advances-trans s u (revoke_relays now live u ids)
      (Advances-trans s t u
        (put_row-Advances s id (record r { revision = r.revision + 1 }) (omega arith) (omega arith))
        (same_rows t u
          (revoke_each-rows now (r.revision + 1) t (filter (λ l. same l.relay_id id) live))))
      (revoke_relays-Advances now live u ids)

set_user_status-Advances :
    (s : Store) (id : Bytes) (status : Option UserStatus) (reason : Bytes) (now : ℕ)
    → Advances s (set_user_status s id status reason now).0
unfolding set_user_status revoke_user_leases
set_user_status-Advances s id none reason now = Advances-refl s
set_user_status-Advances s id (some status) reason now =
    elim (Option-cases (lookup bytes_eq id s.users)) [
      | inl n ↦ rw (n, set_user_status) (Advances-refl s)
      | inr (u, e) ↦ elim status as (λ k. Advances s (set_user_status s id (some k) reason now).0) [
        | enabled ↦ rw (e, set_user_status) (Advances-refl s)
        | disabled ↦ rw (e, set_user_status) (revoke_relays-Advances now _ s _)
      ]
    ]

pub ack_lease_revision-Advances :
    (s : Store) (id token : Bytes) (revision : ℕ)
    → Advances s (ack_lease_revision s id token revision).0
unfolding ack_lease_revision
ack_lease_revision-Advances s id token revision =
    let r = row s.lease_states id in
    elim (Bool-cases (lease_relay_authorized s id token)) [
      | inr n ↦ rw (n, ack_lease_revision) (Advances-refl s)
      | inl y ↦
          rw (y, ack_lease_revision)
            (put_row-Advances s id
              (record r { applied = if ltb r.applied revision then revision else r.applied })
              (omega arith) (ground arith))
    ]

-- A raised revision over a store with the same rows, but for the one that was made.
raise-Advances :
    (s t : Store) (id : Bytes)
    → t.lease_states ≡ (put_row s id (rows s id)).lease_states
    → Advances s (put_row t id (record (rows s id) { revision = (rows s id).revision + 1 }))
unfolding put_row
raise-Advances s t id e j =
    let r = rows s id in
    let same_row = ap (λ m. row m j) e ∙ row-insert s.lease_states id r j in
    ground
      (arith, same_row, row-insert t.lease_states id (record r { revision = r.revision + 1 }) j)

-- One round of an issue.
issue_on-Advances :
    (s : Store) (q : Normalized) (now : ℕ) (p : LeaseIssuePlan) (out : List Lease)
    (minted : List (Bytes × Lease)) (eligible : List Bytes) (id : Bytes)
    → Advances s (issue_on s q now p out minted eligible id).0
unfolding issue_on
issue_on-Advances s q now p out minted eligible id =
    let r = row s.lease_states id in
    let n = r.revision + 1 in
    let evicted = filter (λ l. same l.relay_id id) out in
    let s0 = put_row s id r in
    let s1 = evict s0 now n evicted in
    let s2 = (extend_lease s1 q now n (lookup bytes_eq id p.extend)).0 in
    let s3 = (create_lease s2 n (minted_for minted eligible id)).0 in
    let kept =
      create_lease-rows s2 n (minted_for minted eligible id)
      ∙ extend_lease-rows s1 q now n (lookup bytes_eq id p.extend)
      ∙ evict-rows s0 now n evicted in
    let here =
      Advances-trans s s0 s3 (put_row-Advances s id r (omega arith) (omega arith))
        (same_rows s0 s3 kept) in
    if_elim (Advances s)
      (not (
        length evicted
          + length (extend_lease s1 q now n (lookup bytes_eq id p.extend)).1
          + length (create_lease s2 n (minted_for minted eligible id)).1
        == 0))
      (λ _. raise-Advances s s3 id kept) (λ _. here)

issue_each-Advances :
    (s : Store) (q : Normalized) (now : ℕ) (p : LeaseIssuePlan) (out : List Lease)
    (minted : List (Bytes × Lease)) (eligible ids : List Bytes)
    → Advances s (issue_each s q now p out minted eligible ids).0
unfolding issue_each
issue_each-Advances s q now p out minted eligible [] = Advances-refl s
issue_each-Advances s q now p out minted eligible (id ∷ ids) =
    let t = (issue_on s q now p out minted eligible id).0 in
    Advances-trans s t (issue_each t q now p out minted eligible ids).0
      (issue_on-Advances s q now p out minted eligible id)
      (issue_each-Advances t q now p out minted eligible ids)

carry_out-Advances :
    (s : Store) (q : Normalized) (now : ℕ) (random : List (Option (Bytes × Bytes)))
    (p : LeaseIssuePlan)
    → Advances s (carry_out s q now random p).0
unfolding carry_out
carry_out-Advances s q now random p = elim (Option-cases (mint q now p.create random)) [
  | inl n ↦ rw (n, carry_out) (Advances-refl s)
  | inr (minted, e) ↦
      let eligible = eligible_relays s q now p.create in
      rw (e, carry_out)
        (issue_each-Advances s q now p (victims p eligible) minted eligible p.affected)
]

pub status_cases : (k : UserStatus) → (k ≡ disabled) ⊎ (k ≡ enabled)
status_cases enabled = inr refl
status_cases disabled = inl refl

-- A result is an error or a value.
Result-cases : {A : Type 0} (r : Result A) → ((a : A) × (r ≡ ok a)) ⊎ ((e : Error) × (r ≡ err e))
Result-cases (ok a) = inl (a, refl)
Result-cases (err e) = inr (e, refl)

issue_leases-Advances :
    (s : Store) (request : LeaseIssueRequest) (now : ℕ) (random : List (Option (Bytes × Bytes)))
    → Advances s (issue_leases s request now random).0
unfolding issue_leases
issue_leases-Advances s request now random =
    let q = normalized request in
    elim (Option-cases (lookup bytes_eq q.user_id s.users)) [
      | inl n ↦ rw (n, issue_leases) (Advances-refl s)
      | inr (u, e) ↦ elim (status_cases u.status) [
        | inl d ↦ rw (e, d, issue_leases) (Advances-refl s)
        | inr k ↦ elim (Result-cases (plan_lease_issue q (live_leases_for_user s q.user_id now))) [
          | inl (p, f) ↦ rw (e, k, f, issue_leases) (carry_out-Advances s q now random p)
          | inr (x, f) ↦ rw (e, k, f, issue_leases) (Advances-refl s)
        ]
      ]
    ]

-- A call that changes leases or their revisions.
pub data Call : Type 0 where
  issue : LeaseIssueRequest → ℕ → List (Option (Bytes × Bytes)) → Call
  set_status : Bytes → Option UserStatus → Bytes → ℕ → Call
  acknowledge : Bytes → Bytes → ℕ → Call

abbrev pub perform : Store → Call → Store
perform s (issue request now random) = (issue_leases s request now random).0
perform s (set_status id status reason now) = (set_user_status s id status reason now).0
perform s (acknowledge id token revision) = (ack_lease_revision s id token revision).0

abbrev pub perform_all : Store → List Call → Store
perform_all s [] = s
perform_all s (c ∷ cs) = perform_all (perform s c) cs

perform-Advances : (s : Store) (c : Call) → Advances s (perform s c)
perform-Advances s (issue request now random) = issue_leases-Advances s request now random
perform-Advances s (set_status id status reason now) =
    set_user_status-Advances s id status reason now
perform-Advances s (acknowledge id token revision) = ack_lease_revision-Advances s id token revision

-- Over any sequence of issues, changes of users' status and acknowledgements, whether they succeed
-- or are refused, no relay's revision falls and no revision that it acknowledged falls.
pub perform_all-Advances :
    (s : Store) (cs : List Call) (j : Bytes)
    → ((row s.lease_states j).revision ≤ (row (perform_all s cs).lease_states j).revision)
      × ((row s.lease_states j).applied ≤ (row (perform_all s cs).lease_states j).applied)
perform_all-Advances s [] = Advances-refl s
perform_all-Advances s (c ∷ cs) =
    Advances-trans s (perform s c) (perform_all (perform s c) cs) (perform-Advances s c)
      (perform_all-Advances (perform s c) cs)
