-- ===== src/Broker/Store/Leases.antt =====
-- internal/broker/store_leases.go and leases.go: the access leases of the in-memory store.
use openrung.Base.{
  ℕ, ◌+◌, Bool, true, false, ◌&&◌, List, [], ◌∷◌, none, some, ltb, ◌==◌, if◌then◌else◌, filter,
  count, map, ite,
}
use openrung.Base.Bytes.{Bytes, bytes_eq, bytes_le}
use openrung.Base.Map.{lookup, insert, keep}
use openrung.Base.Member.{values}
use openrung.Base.Sort.{sort_by}
use openrung.Broker.Store.{Store, Lease, LeaseState}

-- The method `Live`.
unfoldable pub is_live : ℕ → Lease → Bool
is_live now l = l.revoked_at == 0 && ltb now l.expires_at

-- Equality of IDs as a test.
unfoldable pub same : Bytes → Bytes → Bool
same a b = ite (bytes_eq a b) true false

-- The row of a relay, a new one if there is none.
unfoldable pub row : List (Bytes × LeaseState) → Bytes → LeaseState
unfolding lookup bytes_eq
row m id = elim (lookup bytes_eq id m) [ none ↦ record { revision = 0; applied = 0 } | some r ↦ r ]

unfoldable pub put_lease : Store → Lease → Store
put_lease s l = record s { leases = insert bytes_eq l.id l s.leases }

unfoldable pub put_row : Store → Bytes → LeaseState → Store
put_row s id r = record s { lease_states = insert bytes_eq id r s.lease_states }

-- `leaseStateLocked`: the store with the row, made if it was missing, and the row.
unfoldable pub lease_state : Store → Bytes → Store × LeaseState
lease_state s id =
    let r = row s.lease_states id in
    elim (lookup bytes_eq id s.lease_states) [ none ↦ (put_row s id r, r) | some _ ↦ (s, r) ]

-- `liveLeasesForUserLocked`
unfoldable pub live_leases_for_user : Store → Bytes → ℕ → List Lease
live_leases_for_user s user_id now =
    sort_by (λ a b. bytes_le a.id b.id)
      (filter (λ l. same l.user_id user_id && is_live now l) (values s.leases))

-- `liveLeaseCountForRelayLocked`
unfoldable pub live_lease_count_for_relay : Store → Bytes → ℕ → ℕ
live_lease_count_for_relay s relay_id now =
    count (λ l. same l.relay_id relay_id && is_live now l) (values s.leases)

-- The keys of a Go map that is used as a set, each once.
unfoldable pub contains : Bytes → List Bytes → Bool
contains a [] = false
contains a (x ∷ xs) = let rest = contains a xs in if same a x then true else rest

unfoldable pub unique : List Bytes → List Bytes
unique [] = []
unique (x ∷ xs) = let rest = unique xs in if contains x rest then rest else x ∷ rest

-- `sortedUnique`
unfoldable pub sorted_unique : List Bytes → List Bytes
sorted_unique ids = sort_by bytes_le (unique ids)

-- The inner loop of `revokeUserLeasesLocked`.
unfoldable pub revoke_each : ℕ → ℕ → Store → List Lease → Store
revoke_each now revision s [] = s
revoke_each now revision s (l ∷ ls) =
    revoke_each now revision (put_lease s (record l { revoked_at = now; revision = revision })) ls

-- Its outer loop, over the relays.
unfoldable pub revoke_relays : ℕ → List Lease → Store → List Bytes → Store
revoke_relays now live s [] = s
revoke_relays now live s (id ∷ ids) =
    let r = row s.lease_states id in
    let t = put_row s id (record r { revision = r.revision + 1 }) in
    revoke_relays now live
      (revoke_each now (r.revision + 1) t (filter (λ l. same l.relay_id id) live)) ids

-- `revokeUserLeasesLocked`: the store and the relays whose set changed.
unfoldable pub revoke_user_leases : Store → Bytes → ℕ → Store × List Bytes
revoke_user_leases s user_id now =
    let live = live_leases_for_user s user_id now in
    let relay_ids = sorted_unique (map (λ l. l.relay_id) live) in
    (revoke_relays now live s relay_ids, relay_ids)

abbrev pub lease_retention : ℕ
lease_retention = 604_800_000_000_000

-- `pruneLeasesLocked`
unfoldable pub prune_leases : Store → ℕ → Store
prune_leases s now = record s {
  leases = keep (λ l. ltb now (l.expires_at + lease_retention)) s.leases;
}
