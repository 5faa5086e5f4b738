-- ===== src/Broker/Store/Tokens.antt =====
-- What the lease token of a registration guards, and what pruning keeps.
use openrung.Base.{
  ℕ, ◌≤◌, ◌≡◌, ◌≢◌, refl, sym, ap, ◌∙◌, inl, inr, Bool, false, not, ◌&&◌, ◌||◌, [], ◌∷◌, Option,
  none, some, arith, ltb, if◌then◌else◌, Option-cases, Bool-cases,
}
use openrung.Base.Bytes.{Bytes, bytes_eq}
use openrung.Base.Map.{Unique, only_if, keep, lookup, lookup-keep}
use openrung.Broker.Store.{
  Store, Descriptor, GeoLocation, Error, Result, ok, err, relay_not_found, node_class_forbidden,
}
use openrung.Broker.Store.Leases.{same, prune_leases}
use openrung.Broker.Store.Users.{prune_enrollment}
use openrung.Broker.Store.Telemetry.{is_empty, prune_metrics}
use openrung.Broker.Store.Directory.{
  RegisterRequest, RelayCrypto, register, is_foundation, token_matches, heartbeat, guarded,
  update_geo, update_reachability, update_access_reachability,
}
use openrung.Broker.Store.Lookups.{relay_by_id, prune}
use openrung.Broker.Store.LeaseSets.{lease_relay_authorized, relay_lease_set, ack_lease_revision}
use openrung.Broker.Store.Endpoints.{relay_at, register-Sole}

stale_fields :
    (key old token : Bytes)
    → key ≢ []
    → old ≢ token
    → (is_empty key || (not (is_empty old) && same old token)) ≡ false
unfolding is_empty same
stale_fields [] old token h k = absurd (h refl)
stale_fields (c ∷ key) [] token h k = refl
stale_fields (c ∷ key) (b ∷ old) token h k = elim (bytes_eq (b ∷ old) token) [
  | yes p ↦ absurd (k p)
  | no p ↦ ground arith
]

-- A token that is not the one of an identity's registration does not match it.
stale_token :
    (d : Descriptor) (token : Bytes)
    → d.identity_public_key ≢ []
    → d.lease_token ≢ token
    → token_matches d token ≡ false
unfolding token_matches
stale_token d token h k = stale_fields d.identity_public_key d.lease_token token h k

module _ (s : Store) (d : Descriptor) (token : Bytes) (at : relay_at s d.id ≡ some d)
    (stale : token_matches d token ≡ false) where
  heartbeat_stale :
      (max_class client_id : Bytes) (now ttl : ℕ)
      → (e : Error) × (heartbeat s d.id token max_class client_id now ttl ≡ (s, err e))
  unfolding heartbeat
  heartbeat_stale max_class client_id now ttl =
      elim (Bool-cases (is_foundation d.node_class && not (is_foundation max_class))) [
        | inl y ↦ (node_class_forbidden, rw (at, y, heartbeat) refl)
        | inr n ↦ (relay_not_found, rw (at, n, stale, heartbeat) refl)
      ]

  guarded_stale :
      (change : Descriptor → Descriptor) → guarded s d.id token change ≡ (s, some relay_not_found)
  unfolding guarded
  guarded_stale change = rw (at, stale, guarded) refl

  authorized_stale : lease_relay_authorized s d.id token ≡ false
  unfolding lease_relay_authorized token_matches
  authorized_stale = rw (at, lease_relay_authorized) (ground arith)

-- After the registration of a relay with an identity, whoever holds another token than the new
-- one - a session that the registration superseded - changes nothing and reads no leases: its
-- heartbeat, its three updates, its fetch of the lease set and its acknowledgement are refused.
pub register-supersedes :
    (crypto : RelayCrypto) (s t : Store) (q : RegisterRequest) (registered_at register_ttl : ℕ)
    (minted_id minted_token : Option Bytes) (d : Descriptor) (token max_class client_id : Bytes)
    (now ttl revision : ℕ) (g : GeoLocation) (reachable : Bool)
    → register crypto s q registered_at register_ttl minted_id minted_token ≡ (t, ok d)
    → d.identity_public_key ≢ []
    → d.lease_token ≢ token
    → ((e : Error) × (heartbeat t d.id token max_class client_id now ttl ≡ (t, err e)))
      × (update_geo t d.id token g ≡ (t, some relay_not_found))
      × (update_reachability t d.id token reachable now ≡ (t, some relay_not_found))
      × (update_access_reachability t d.id token reachable now ≡ (t, some relay_not_found))
      × (relay_lease_set t d.id token now ≡ err relay_not_found)
      × (ack_lease_revision t d.id token revision ≡ (t, some relay_not_found))
unfolding update_geo update_reachability update_access_reachability relay_lease_set
    ack_lease_revision
register-supersedes crypto s t q registered_at register_ttl minted_id minted_token d token max_class
      client_id now ttl revision g reachable h identity other =
    let at = (register-Sole crypto s t q registered_at register_ttl minted_id minted_token d h).0 in
    let stale = stale_token d token identity other in
    (
      heartbeat_stale t d token at stale max_class client_id now ttl,
      guarded_stale t d token at stale _,
      guarded_stale t d token at stale _,
      guarded_stale t d token at stale _,
      rw (authorized_stale t d token at stale) refl,
      rw (authorized_stale t d token at stale) refl,
    )

-- What a lookup of a relay makes of the entry.
abbrev found : Option Descriptor → ℕ → Result Descriptor
found none now = err relay_not_found
found (some d) now = if ltb now d.expires_at then ok d else err relay_not_found

relay_by_id-found :
    (s : Store) (id : Bytes) (now : ℕ)
    → relay_by_id s id now ≡ found (lookup bytes_eq id s.relays) now
unfolding relay_by_id
relay_by_id-found s id now = elim (Option-cases (lookup bytes_eq id s.relays)) [
  | inl n ↦ rw (n, relay_by_id) refl
  | inr (d, e) ↦ rw (e, relay_by_id) refl
]

found-only_if :
    (o : Option Descriptor) (now later : ℕ)
    → now ≤ later
    → found (only_if (λ d. ltb now d.expires_at) o) later ≡ found o later
found-only_if none now later le = refl
found-only_if (some d) now later le = elim (Bool-cases (ltb now d.expires_at)) [
  | inl y ↦ rw y refl
  | inr n ↦ rw n (ground arith)
]

prune-relays :
    (s : Store) (now : ℕ) → (prune s now).0.relays ≡ keep (λ d. ltb now d.expires_at) s.relays
unfolding prune prune_leases prune_enrollment prune_metrics
prune-relays s now = refl

-- Pruning does not change what RelayByID finds, then or later. The store has no ID twice.
pub relay_by_id-prune :
    (s : Store) (now later : ℕ) (id : Bytes)
    → Unique bytes_eq s.relays
    → now ≤ later
    → relay_by_id (prune s now).0 id later ≡ relay_by_id s id later
relay_by_id-prune s now later id u le =
    let p = λ (d : Descriptor). ltb now d.expires_at in
    relay_by_id-found (prune s now).0 id later
    ∙ ap (λ m. found (lookup bytes_eq id m) later) (prune-relays s now)
    ∙ ap (λ o. found o later) (lookup-keep bytes_eq p id s.relays u)
    ∙ found-only_if (lookup bytes_eq id s.relays) now later le
    ∙ sym (relay_by_id-found s id later)
