-- ===== src/Broker/Access/Records.antt =====
-- internal/broker/access.go: what an acknowledgement records, and what an operator finds of a
-- lease.
use openrung.Base.{
  ℕ, ◌≤◌, ◌≡◌, refl, Bool, true, [], ◌∷◌, ◌++◌, Option, none, some, arith, ltb, if◌then◌else◌, take,
  if_elim,
}
use openrung.Base.Bytes.{Bytes, bytes_eq}
use openrung.Base.Int.{ℤ, pos, negsuc}
use openrung.Broker.Store.{Store, Lease, LeaseState, Error, relay_not_found}
use openrung.Broker.Store.Leases.{row, put_row, same, is_live}
use openrung.Broker.Store.LeaseSets.{lease_relay_authorized, ack_lease_revision}
use openrung.Broker.Store.Revisions.{row-insert, ack_lease_revision-Advances}
use openrung.Broker.Access.{World}
use openrung.Broker.Access.Acknowledged.{acked, KeepsAcks}
use openrung.Broker.Access.Candidates.{lower_hex, well_formed_lease_id}
use openrung.Broker.Access.Polls.{
  presents, Ack, recorded, after_ack, lease_ack, Method, admin_lease, trim_email_prefix,
  lease_email_prefix, lease_status, live,
}

-- The world after the store's answer has the store's acknowledgements.
after_ack-KeepsAcks :
    (w : World) (id : Bytes) (s : Store) (o : Option Error)
    → ((j : Bytes) → acked w j ≤ (row s.lease_states j).applied)
    → KeepsAcks w (after_ack w id (s, o)).0
unfolding after_ack
after_ack-KeepsAcks w id s none h = h
after_ack-KeepsAcks w id s (some relay_not_found) h = h
after_ack-KeepsAcks w id s (some e) h = h

-- No acknowledgement, accepted or refused, lowers a relay's acknowledged revision.
pub lease_ack-KeepsAcks :
    (w : World) (id token : Bytes) (revision : Option ℤ)
    → KeepsAcks w (lease_ack w id token revision).0
unfolding lease_ack
lease_ack-KeepsAcks w id token none =
    if_elim (λ (o : World × Ack). KeepsAcks w o.0) (presents id token) (λ _ j. omega arith)
      (λ _ j. omega arith)
lease_ack-KeepsAcks w id token (some (negsuc n)) =
    if_elim (λ (o : World × Ack). KeepsAcks w o.0) (presents id token) (λ _ j. omega arith)
      (λ _ j. omega arith)
lease_ack-KeepsAcks w id token (some (pos n)) =
    let r = ack_lease_revision w.store id token n in
    if_elim (λ (o : World × Ack). KeepsAcks w o.0) (presents id token)
      (λ _.
        after_ack-KeepsAcks w id r.0 r.1
          (λ j. (ack_lease_revision-Advances w.store id token n j).1))
      (λ _ j. omega arith)

-- An acknowledgement with the relay's token is recorded: the relay's acknowledged revision is then at
-- least the one that it names.
pub lease_ack-recorded :
    (w : World) (id token : Bytes) (n : ℕ)
    → presents id token ≡ true
    → lease_relay_authorized w.store id token ≡ true
    → ((lease_ack w id token (some (pos n))).1 ≡ recorded)
      × (n ≤ acked (lease_ack w id token (some (pos n))).0 id)
unfolding lease_ack after_ack ack_lease_revision put_row
lease_ack-recorded w id token n p h =
    let r = row w.store.lease_states id in
    let x : LeaseState = record r { applied = if ltb r.applied n then n else r.applied } in
    let e : ack_lease_revision w.store id token n ≡ (put_row w.store id x, none) = rw h refl in
    rw (p, e) (refl, ground (arith, row-insert w.store.lease_states id x id))

trim_email_prefix-label : (id : Bytes) → trim_email_prefix (lease_email_prefix ++ id) ≡ id
unfolding trim_email_prefix same bytes_eq
trim_email_prefix-label id = refl

trim_email_prefix-well_formed :
    (id : Bytes) → well_formed_lease_id id ≡ true → trim_email_prefix id ≡ id
unfolding trim_email_prefix same well_formed_lease_id lower_hex
trim_email_prefix-well_formed [] h = ground (arith, h)
trim_email_prefix-well_formed (c ∷ cs) h =
    if_elim (λ (x : Bytes). x ≡ c ∷ cs) (same (take 6 (c ∷ cs)) lease_email_prefix)
      (λ y. ground (arith, h, y)) (λ _. refl)

-- An operator finds a lease alike by its ID and by the label that relays log.
pub admin_lease-label :
    (w : World) (authorized : Bool) (m : Method) (id : Bytes) (now : ℕ)
    → well_formed_lease_id id ≡ true
    → admin_lease w authorized m (lease_email_prefix ++ id) now ≡ admin_lease w authorized m id now
unfolding admin_lease
admin_lease-label w authorized m id now h =
    rw (trim_email_prefix-label id, trim_email_prefix-well_formed id h) refl

-- A lease is shown as live just if it is live.
pub lease_status-is_live :
    (l : Lease) (now : ℕ)
    → (lease_status l now ≡ live → is_live now l ≡ true)
      × (is_live now l ≡ true → lease_status l now ≡ live)
unfolding lease_status is_live
lease_status-is_live l now = (ground arith, ground arith)
