-- ===== src/Broker/Store/Issue.antt =====
-- internal/broker/store_leases.go and leases.go: the issue of access leases.
use openrung.Base.{
  ℕ, ◌+◌, ◌-◌, Bool, not, ◌&&◌, ◌||◌, List, [], ◌∷◌, ◌++◌, Option, none, some, ltb, ◌==◌,
  if◌then◌else◌, length, take, filter, count, map,
}
use openrung.Base.Bytes.{Bytes, bytes_eq, bytes_le}
use openrung.Base.Int.{ℤ, positive_or}
use openrung.Base.Map.{lookup, insert}
use openrung.Base.Sort.{sort_by}
use openrung.Broker.Store.{
  Store, Lease, Result, ok, err, enabled, disabled, user_not_found, user_disabled,
  lease_cap_exceeded, mint_failed,
}
use openrung.Broker.Store.Leases.{
  same, contains, sorted_unique, row, put_row, put_lease, live_leases_for_user,
  live_lease_count_for_relay,
}

-- LeaseIssueRequest, as a caller gives it.
pub record LeaseIssueRequest : Type 0 where
  pub user_id : Bytes
  pub relay_ids : List Bytes
  pub ttl : ℤ
  pub max_per_user : ℤ
  pub max_per_relay : ℤ

-- LeaseIssueRequest with its defaults.
pub record Normalized : Type 0 where
  pub user_id : Bytes
  pub relay_ids : List Bytes
  pub ttl : ℕ
  pub max_per_user : ℕ
  pub max_per_relay : ℕ

-- `normalized`
unfoldable pub normalized : LeaseIssueRequest → Normalized
normalized q = record {
  user_id = q.user_id;
  relay_ids = sorted_unique q.relay_ids;
  ttl = positive_or q.ttl 3_600_000_000_000;
  max_per_user = positive_or q.max_per_user 10;
  max_per_relay = positive_or q.max_per_relay 2000;
}

-- LeaseIssueResult
pub record LeaseIssueResult : Type 0 where
  pub leases : List Lease
  pub changed_relay_ids : List Bytes

-- leaseIssuePlan
pub record LeaseIssuePlan : Type 0 where
  pub extend : List (Bytes × Lease)
  pub create : List Bytes
  pub candidates : List Lease
  pub live_count : ℕ
  pub max_per_user : ℕ
  pub affected : List Bytes

-- The loop that fills byRelay.
unfoldable pub by_relay : List Lease → List (Bytes × Lease) → List (Bytes × Lease)
by_relay [] m = m
by_relay (l ∷ ls) m = by_relay ls (insert bytes_eq l.relay_id l m)

-- The loop over the requested relays: those to extend, with their leases, and those to create.
unfoldable pub divide : List (Bytes × Lease) → List Bytes → List (Bytes × Lease) × List Bytes
divide m [] = ([], [])
divide m (id ∷ ids) =
    let (extend, create) = divide m ids in
    elim (lookup bytes_eq id m) [
      | some l ↦ ((id, l) ∷ extend, create)
      | none ↦ (extend, id ∷ create)
    ]

-- Least recently renewed first, then by ID.
unfoldable pub renewed_before : Lease → Lease → Bool
renewed_before a b =
    ltb a.renewed_at b.renewed_at || (a.renewed_at == b.renewed_at && bytes_le a.id b.id)

-- `planLeaseIssue`, of a normalized request
unfoldable pub plan_lease_issue : Normalized → List Lease → Result LeaseIssuePlan
plan_lease_issue q live =
    let parts = divide (by_relay live []) q.relay_ids in
    let candidates = filter (λ l. not (contains l.relay_id q.relay_ids)) live in
    if ltb q.max_per_user (length q.relay_ids)
    then err lease_cap_exceeded
    else ok (record {
      extend = parts.0;
      create = parts.1;
      candidates = sort_by renewed_before candidates;
      live_count = length live;
      max_per_user = q.max_per_user;
      affected = sorted_unique (q.relay_ids ++ map (λ (l : Lease). l.relay_id) candidates);
    })

-- The number of leases over the cap, 0 if none.
unfoldable pub over_cap : LeaseIssuePlan → List Bytes → ℕ
over_cap p eligible = p.live_count + count (λ id. contains id eligible) p.create - p.max_per_user

-- `victims`, as one list; `eligible` has the relays with room.
unfoldable pub victims : LeaseIssuePlan → List Bytes → List Lease
victims p eligible =
    let over = over_cap p eligible in
    take (if ltb (length p.candidates) over then length p.candidates else over) p.candidates

-- The loop that mints the leases; the list has the random IDs and credentials.
unfoldable pub mint :
    Normalized → ℕ → List Bytes → List (Option (Bytes × Bytes)) → Option (List (Bytes × Lease))
mint q now [] random = some []
mint q now (id ∷ ids) [] = none
mint q now (id ∷ ids) (none ∷ random) = none
mint q now (id ∷ ids) (some (lease_id, credential) ∷ random) = elim (mint q now ids random) [
  | none ↦ none
  | some rest ↦ some (
      (
        id,
        record {
          id = lease_id;
          user_id = q.user_id;
          relay_id = id;
          credential = credential;
          created_at = now;
          renewed_at = now;
          expires_at = now + q.ttl;
          revoked_at = 0;
          revision = 0;
        },
      )
      ∷ rest)
]

abbrev pub zero_lease : Lease
zero_lease = record {
  id = [];
  user_id = [];
  relay_id = [];
  credential = [];
  created_at = 0;
  renewed_at = 0;
  expires_at = 0;
  revoked_at = 0;
  revision = 0;
}

-- s.leases[l.ID]
unfoldable pub current : Store → Lease → Lease
current s l = elim (lookup bytes_eq l.id s.leases) [ none ↦ zero_lease | some x ↦ x ]

-- The loop over the victims of a relay.
unfoldable pub evict : Store → ℕ → ℕ → List Lease → Store
evict s now revision [] = s
evict s now revision (l ∷ ls) =
    evict (put_lease s (record (current s l) { revoked_at = now; revision = revision })) now
      revision ls

-- The extension of a relay's lease, if it has one.
unfoldable pub extend_lease : Store → Normalized → ℕ → ℕ → Option Lease → Store × List Lease
extend_lease s q now revision none = (s, [])
extend_lease s q now revision (some l) =
    let x : Lease = record (current s l) {
      renewed_at = now;
      expires_at = now + q.ttl;
      revision = revision;
    } in
    (put_lease s x, x ∷ [])

-- The lease created on a relay, if there is one.
unfoldable pub create_lease : Store → ℕ → Option Lease → Store × List Lease
create_lease s revision none = (s, [])
create_lease s revision (some l) =
    let x : Lease = record l { revision = revision } in (put_lease s x, x ∷ [])

-- The minted lease of a relay that has room.
unfoldable pub minted_for : List (Bytes × Lease) → List Bytes → Bytes → Option Lease
minted_for minted eligible id = if contains id eligible then lookup bytes_eq id minted else none

-- One round of the loop over the affected relays.
unfoldable pub issue_on :
    Store
    → Normalized
    → ℕ
    → LeaseIssuePlan
    → List Lease
    → List (Bytes × Lease)
    → List Bytes
    → Bytes
    → Store × List Lease × Bool
issue_on s q now p out minted eligible id =
    let r = row s.lease_states id in
    let evicted = filter (λ l. same l.relay_id id) out in
    let (t, extended) =
      extend_lease (evict (put_row s id r) now (r.revision + 1) evicted) q now (r.revision + 1)
        (lookup bytes_eq id p.extend) in
    let (u, created) = create_lease t (r.revision + 1) (minted_for minted eligible id) in
    let changed = not (length evicted + length extended + length created == 0) in
    (
      (if changed then put_row u id (record r { revision = r.revision + 1 }) else u),
      extended ++ created,
      changed,
    )

unfoldable pub issue_each :
    Store
    → Normalized
    → ℕ
    → LeaseIssuePlan
    → List Lease
    → List (Bytes × Lease)
    → List Bytes
    → List Bytes
    → Store × LeaseIssueResult
issue_each s q now p out minted eligible [] = (s, record { leases = []; changed_relay_ids = [] })
issue_each s q now p out minted eligible (id ∷ ids) =
    let (t, leases, changed) = issue_on s q now p out minted eligible id in
    let (u, rest) = issue_each t q now p out minted eligible ids in
    (
      u,
      record {
        leases = leases ++ rest.leases;
        changed_relay_ids = if changed then id ∷ rest.changed_relay_ids else rest.changed_relay_ids;
      },
    )

-- The relays to create on that have room.
unfoldable pub eligible_relays : Store → Normalized → ℕ → List Bytes → List Bytes
eligible_relays s q now create =
    filter (λ id. ltb (live_lease_count_for_relay s id now) q.max_per_relay) create

-- What follows the plan.
unfoldable pub carry_out :
    Store
    → Normalized
    → ℕ
    → List (Option (Bytes × Bytes))
    → LeaseIssuePlan
    → Store × Result LeaseIssueResult
carry_out s q now random p = elim (mint q now p.create random) [
  | none ↦ (s, err mint_failed)
  | some minted ↦
      let eligible = eligible_relays s q now p.create in
      let (t, result) = issue_each s q now p (victims p eligible) minted eligible p.affected in
      (t, ok result)
]

-- `IssueLeases`
unfoldable pub issue_leases :
    Store → LeaseIssueRequest → ℕ → List (Option (Bytes × Bytes)) → Store × Result LeaseIssueResult
issue_leases s request now random =
    let q = normalized request in
    elim (lookup bytes_eq q.user_id s.users) [
      | none ↦ (s, err user_not_found)
      | some u ↦ elim u.status [
        | disabled ↦ (s, err user_disabled)
        | enabled ↦ elim (plan_lease_issue q (live_leases_for_user s q.user_id now)) [
          | err e ↦ (s, err e)
          | ok p ↦ carry_out s q now random p
        ]
      ]
    ]
