-- ===== src/Broker/Store/LeaseSets.antt =====
-- internal/broker/store_leases.go and leases.go: what relays read and acknowledge of their leases.
use openrung.Base.{
  ℕ, Bool, false, not, ◌&&◌, List, [], ◌∷◌, Option, none, some, ltb, if◌then◌else◌, filter,
}
use openrung.Base.Bytes.{Bytes, bytes_eq, bytes_le}
use openrung.Base.Map.{lookup, insert}
use openrung.Base.Member.{values}
use openrung.Base.Sort.{sort_by}
use openrung.Broker.Store.{Store, Lease, Error, Result, ok, err, relay_not_found, lease_not_found}
use openrung.Broker.Store.Leases.{is_live, same, row, put_row}
use openrung.Broker.Store.Telemetry.{is_empty}

-- `leaseRelayAuthorizedLocked`
unfoldable pub lease_relay_authorized : Store → Bytes → Bytes → Bool
lease_relay_authorized s id token = elim (lookup bytes_eq id s.relays) [
  | none ↦ false
  | some d ↦
      not (is_empty d.identity_public_key)
      && not (is_empty d.lease_token)
      && same d.lease_token token
]

-- RelayLeaseSet
pub record LeaseSet : Type 0 where
  pub revision : ℕ
  pub applied_revision : ℕ
  pub leases : List Lease

-- `RelayLeaseSet`
unfoldable pub relay_lease_set : Store → Bytes → Bytes → ℕ → Result LeaseSet
relay_lease_set s id token now =
    let r = row s.lease_states id in
    if lease_relay_authorized s id token
    then ok (record {
      revision = r.revision;
      applied_revision = r.applied;
      leases =
          sort_by (λ (a b : Lease). bytes_le a.id b.id)
            (filter (λ l. same l.relay_id id && is_live now l) (values s.leases));
    })
    else err relay_not_found

-- `AckLeaseRevision`
unfoldable pub ack_lease_revision : Store → Bytes → Bytes → ℕ → Store × Option Error
ack_lease_revision s id token revision =
    let r = row s.lease_states id in
    if lease_relay_authorized s id token
    then (
      put_row s id (record r { applied = if ltb r.applied revision then revision else r.applied }),
      none,
    )
    else (s, some relay_not_found)

-- `AppliedLeaseRevisions`
unfoldable pub applied_lease_revisions : Store → List Bytes → List (Bytes × ℕ)
applied_lease_revisions s [] = []
applied_lease_revisions s (id ∷ ids) =
    insert bytes_eq id (row s.lease_states id).applied (applied_lease_revisions s ids)

-- `LeaseByID`
unfoldable pub lease_by_id : Store → Bytes → Result Lease
lease_by_id s id = elim (lookup bytes_eq id s.leases) [ none ↦ err lease_not_found | some l ↦ ok l ]
