-- ===== src/Broker/Store/Directory.antt =====
-- internal/broker/store.go: the directory of relays. The possession proofs of a registration and the
-- derivation of a relay's ID are the interface `RelayCrypto`; random IDs and tokens are arguments.
use openrung.Base.{
  ℕ, ◌+◌, Bool, true, false, not, ◌&&◌, ◌||◌, List, [], ◌∷◌, Option, none, some, ltb, ◌==◌,
  if◌then◌else◌,
}
use openrung.Base.Bytes.{Bytes, bytes_eq}
use openrung.Base.Map.{is_some, lookup, insert, remove}
use openrung.Broker.Store.{
  Store, Descriptor, Advert, GeoLocation, Error, Result, ok, err, relay_not_found,
  node_class_forbidden, mint_failed,
}
use openrung.Broker.Store.Leases.{same, row, put_row}
use openrung.Broker.Store.Telemetry.{is_empty}

-- relay.RegisterRequest, as far as the store reads it.
pub record RegisterRequest : Type 0 where
  pub identity_public_key : Bytes
  pub access_leases : Bool
  pub node_class : Bytes
  pub public_host : Bytes
  pub public_port : ℕ
  pub exit_host : Bytes
  pub access_host : Bytes
  pub client_id : Bytes
  pub max_sessions : ℕ
  pub transport : Bytes
  pub advert : Advert

-- relay.VerifyIdentity, which gives the verified key if the request has one; VerifyWSSCapability;
-- DeriveRelayID.
pub record RelayCrypto : Type 0 where
  pub verify_identity : RegisterRequest → ℕ → Result (Option Bytes)
  pub verify_wss_capability : RegisterRequest → ℕ → Option Error
  pub derive_relay_id : Bytes → Bytes

abbrev pub node_class_foundation : Bytes
node_class_foundation = 102 ∷ 111 ∷ 117 ∷ 110 ∷ 100 ∷ 97 ∷ 116 ∷ 105 ∷ 111 ∷ 110 ∷ []

abbrev pub node_class_volunteer : Bytes
node_class_volunteer = 118 ∷ 111 ∷ 108 ∷ 117 ∷ 110 ∷ 116 ∷ 101 ∷ 101 ∷ 114 ∷ []

abbrev pub transport_direct : Bytes
transport_direct = 100 ∷ 105 ∷ 114 ∷ 101 ∷ 99 ∷ 116 ∷ []

unfoldable pub normalize_transport : Bytes → Bytes
normalize_transport t = if is_empty t then transport_direct else t

unfoldable pub normalize_node_class : Bytes → Bytes
normalize_node_class c = if is_empty c then node_class_volunteer else c

unfoldable pub is_foundation : Bytes → Bool
is_foundation c = same c node_class_foundation

abbrev pub no_location : GeoLocation
no_location = record { latitude_longitude = []; place_names = []; country_code = [] }

-- The descriptor that a registration builds; `key` is the verified identity key.
unfoldable pub descriptor_of : RegisterRequest → Option Bytes → Bytes → Bytes → ℕ → ℕ → Descriptor
descriptor_of q key id lease_token now ttl =
    let identified = is_some key in
    record {
      id = id;
      identity_public_key = q.identity_public_key;
      lease_token = lease_token;
      lease_capable = q.access_leases && identified;
      node_class = normalize_node_class q.node_class;
      public_host = q.public_host;
      public_port = q.public_port;
      exit_host = q.exit_host;
      access_host = if identified then q.access_host else [];
      client_id = q.client_id;
      transport = normalize_transport q.transport;
      max_sessions = q.max_sessions;
      advert = q.advert;
      geo = no_location;
      reachable = false;
      reachability_checked_at = 0;
      access_reachable = false;
      access_reachability_checked_at = 0;
      registered_at = now;
      last_heartbeat_at = now;
      expires_at = now + ttl;
    }

unfoldable pub same_endpoint : Descriptor → Descriptor → Bool
same_endpoint x d = same x.public_host d.public_host && x.public_port == d.public_port

-- A registration of another class on the endpoint of a live foundation relay.
unfoldable pub seizes : Descriptor → Descriptor → ℕ → Bool
seizes d x now =
    not (is_foundation d.node_class) && is_foundation x.node_class && ltb now x.expires_at

-- The location to preserve, with its registration's time.
unfoldable pub preserve :
    Descriptor → Descriptor → Option (GeoLocation × ℕ) → Option (GeoLocation × ℕ)
preserve d x none = if same x.exit_host d.exit_host then some (x.geo, x.registered_at) else none
preserve d x (some (g, at)) =
    if same x.exit_host d.exit_host && ltb at x.registered_at
    then some (x.geo, x.registered_at)
    else some (g, at)

-- The loop over the relays: none where it refuses, or the IDs to replace and the location.
unfoldable pub replaced :
    Descriptor
    → ℕ
    → List (Bytes × Descriptor)
    → Option (GeoLocation × ℕ)
    → Option (List Bytes × Option (GeoLocation × ℕ))
replaced d now [] g = some ([], g)
replaced d now ((id, x) ∷ m) g = elim (same_endpoint x d) [
  | false ↦ replaced d now m g
  | true ↦ elim (seizes d x now) [
    | true ↦ none
    | false ↦ elim (replaced d now m (preserve d x g)) [
      | none ↦ none
      | some (ids, h) ↦ some (id ∷ ids, h)
    ]
  ]
]

unfoldable pub remove_all : List Bytes → List (Bytes × Descriptor) → List (Bytes × Descriptor)
remove_all [] m = m
remove_all (id ∷ ids) m = remove_all ids (remove bytes_eq id m)

unfoldable pub located : Descriptor → Option (GeoLocation × ℕ) → Descriptor
located d none = d
located d (some (g, at)) = record d { geo = g }

-- s.leaseStateLocked(id).applied = 0, for a registration with a token.
unfoldable pub reset_applied : Store → Bytes → Bytes → Store
reset_applied s id [] = s
reset_applied s id (c ∷ token) = put_row s id (record (row s.lease_states id) { applied = 0 })

-- `Register` under its lock.
unfoldable pub install : Store → Descriptor → ℕ → Store × Result Descriptor
install s d now = elim (replaced d now s.relays none) [
  | none ↦ (s, err node_class_forbidden)
  | some (ids, g) ↦
      let e = located d g in
      let t = record s { relays = insert bytes_eq d.id e (remove_all ids s.relays) } in
      (reset_applied t d.id d.lease_token, ok e)
]

-- What `Register` does with the results of its checks and of newRelayID and newRelayLeaseToken.
unfoldable pub register_checked :
    RelayCrypto
    → Store
    → RegisterRequest
    → ℕ
    → ℕ
    → Result (Option Bytes)
    → Option Error
    → Option Bytes
    → Option Bytes
    → Store × Result Descriptor
register_checked crypto s q now ttl (err e) wss minted_id token = (s, err e)
register_checked crypto s q now ttl (ok key) (some e) minted_id token = (s, err e)
register_checked crypto s q now ttl (ok (some k)) none minted_id none = (s, err mint_failed)
register_checked crypto s q now ttl (ok (some k)) none minted_id (some token) =
    install s (descriptor_of q (some k) (crypto.derive_relay_id k) token now ttl) now
register_checked crypto s q now ttl (ok none) none none token = (s, err mint_failed)
register_checked crypto s q now ttl (ok none) none (some id) token =
    install s (descriptor_of q none id [] now ttl) now

-- `Register`; the last arguments are the results of newRelayID and newRelayLeaseToken.
unfoldable pub register :
    RelayCrypto
    → Store
    → RegisterRequest
    → ℕ
    → ℕ
    → Option Bytes
    → Option Bytes
    → Store × Result Descriptor
unfolding register_checked
register crypto s q now ttl minted_id minted_token =
    register_checked crypto s q now ttl (crypto.verify_identity q now)
      (crypto.verify_wss_capability q now) minted_id minted_token

-- The registration that a token belongs to: any for a relay without an identity.
unfoldable pub token_matches : Descriptor → Bytes → Bool
token_matches d token =
    is_empty d.identity_public_key || (not (is_empty d.lease_token) && same d.lease_token token)

unfoldable pub put_relay : Store → Bytes → Descriptor → Store
put_relay s id d = record s { relays = insert bytes_eq id d s.relays }

-- `Heartbeat`
unfoldable pub heartbeat : Store → Bytes → Bytes → Bytes → Bytes → ℕ → ℕ → Store × Result Descriptor
heartbeat s id token max_class client_id now ttl = elim (lookup bytes_eq id s.relays) [
  | none ↦ (s, err relay_not_found)
  | some d ↦
      let e = record d {
        last_heartbeat_at = now;
        expires_at = now + ttl;
        client_id =
            if not (is_empty client_id) && not (is_empty d.identity_public_key)
            then client_id
            else d.client_id;
      } in
      if is_foundation d.node_class && not (is_foundation max_class)
      then (s, err node_class_forbidden)
      else (if token_matches d token then (put_relay s id e, ok e) else (s, err relay_not_found))
]

-- The body that the three updates share: a write guarded by the token.
unfoldable pub guarded : Store → Bytes → Bytes → (Descriptor → Descriptor) → Store × Option Error
guarded s id token change = elim (lookup bytes_eq id s.relays) [
  | none ↦ (s, some relay_not_found)
  | some d ↦
      if token_matches d token then (put_relay s id (change d), none) else (s, some relay_not_found)
]

-- `UpdateGeo`
unfoldable pub update_geo : Store → Bytes → Bytes → GeoLocation → Store × Option Error
unfolding guarded
update_geo s id token g = guarded s id token (λ d. record d { geo = g })

-- `UpdateReachability`
unfoldable pub update_reachability : Store → Bytes → Bytes → Bool → ℕ → Store × Option Error
unfolding guarded
update_reachability s id token reachable at =
    guarded s id token (λ d. record d { reachable = reachable; reachability_checked_at = at })

-- `UpdateAccessReachability`
unfoldable pub update_access_reachability : Store → Bytes → Bytes → Bool → ℕ → Store × Option Error
unfolding guarded
update_access_reachability s id token reachable at =
    guarded s id token
      (λ d. record d { access_reachable = reachable; access_reachability_checked_at = at })
