-- ===== src/Broker/Store.antt =====
-- internal/broker: the in-memory store, its relays, users and access leases. Every method runs
-- under the store's mutex, so it is one step from a store to a store. Times are nanoseconds, and
-- the zero time is 0. The ranking weights of the store, which are floats, are not part of this model.
pub mod Leases
pub mod Revocation
pub mod Users
pub mod Enrollment
pub mod Directory
pub mod Endpoints
pub mod Tokens
pub mod Telemetry
pub mod Lookups
pub mod Issue
pub mod LeaseSets
pub mod Cap
pub mod Revisions
pub mod Ownership
pub mod Issued
pub mod Tests
use openrung.Base.{
  ℕ, ◌+◌, Bool, true, false, not, ◌&&◌, List, [], ◌∷◌, Option, none, some, ltb, leb, ◌==◌,
  if◌then◌else◌,
}
use openrung.Base.Bytes.{Bytes, bytes_eq}
use openrung.Base.Int.{ℤ}
use openrung.Base.Map.{lookup, insert}

-- relay.GeoLocation
pub record GeoLocation : Type 0 where
  pub latitude_longitude : List ℕ
  pub place_names : List Bytes
  pub country_code : Bytes

-- The fields of a registration that a descriptor repeats and that no method of the store reads.
pub record Advert : Type 0 where
  pub label : Bytes
  pub operator_contact : Bytes
  pub protocol : Bytes
  pub reality_public_key : Bytes
  pub short_id : Bytes
  pub server_name : Bytes
  pub flow : Bytes
  pub exit_mode : Bytes
  pub max_mbps : ℕ
  pub relay_version : Bytes
  pub punch_capable : Bool
  pub punch_endpoint : Bytes
  pub wss_fronts : List Bytes

-- relay.Descriptor
pub record Descriptor : Type 0 where
  pub id : Bytes
  pub identity_public_key : Bytes
  pub lease_token : Bytes
  pub lease_capable : Bool
  pub node_class : Bytes
  pub public_host : Bytes
  pub public_port : ℕ
  pub exit_host : Bytes
  pub access_host : Bytes
  pub client_id : Bytes
  pub transport : Bytes
  pub max_sessions : ℕ
  pub advert : Advert
  pub geo : GeoLocation
  pub reachable : Bool
  pub reachability_checked_at : ℕ
  pub access_reachable : Bool
  pub access_reachability_checked_at : ℕ
  pub registered_at : ℕ
  pub last_heartbeat_at : ℕ
  pub expires_at : ℕ

pub data UserStatus : Type 0 where
  enabled disabled : UserStatus

pub record User : Type 0 where
  pub id : Bytes
  pub public_key : Bytes
  pub status : UserStatus
  pub created_at : ℕ
  pub last_auth_at : ℕ
  pub disabled_at : ℕ
  pub disabled_reason : Bytes

pub record EnrollmentCounter : Type 0 where
  pub window_start : ℕ
  pub window : ℕ
  pub count : ℕ

pub record Lease : Type 0 where
  pub id : Bytes
  pub user_id : Bytes
  pub relay_id : Bytes
  pub credential : Bytes
  pub created_at : ℕ
  pub renewed_at : ℕ
  pub expires_at : ℕ
  pub revoked_at : ℕ
  pub revision : ℕ

-- leaseStateRow
pub record LeaseState : Type 0 where
  pub revision : ℕ
  pub applied : ℕ

-- relaySessionState
pub record Session : Type 0 where
  pub client_id : Bytes
  pub relay_id : Bytes
  pub last_heartbeat_at : ℕ
  pub terminal_at : ℕ
  pub last_metric_event_at : ℕ

-- relayMetricObservation
pub record Observation : Type 0 where
  pub observed_at : ℕ
  pub relay_id : Bytes
  pub success : Bool
  pub failure : Bool
  pub tcp_ms : ℤ
  pub internet_probe_ms : ℤ
  pub ttfb_ms : ℤ
  pub download_mbps_milli : ℤ
  pub includes_speed_test : Bool

pub record Store : Type 0 where
  pub relays : List (Bytes × Descriptor)
  pub sessions : List (Bytes × Session)
  pub observations : List Observation
  pub users : List (Bytes × User)
  pub user_ids_by_key : List (Bytes × Bytes)
  pub enrollment : List (Bytes × List (Bytes × EnrollmentCounter))
  pub leases : List (Bytes × Lease)
  pub lease_states : List (Bytes × LeaseState)

unfoldable pub new_store : Store
new_store = record {
  relays = [];
  sessions = [];
  observations = [];
  users = [];
  user_ids_by_key = [];
  enrollment = [];
  leases = [];
  lease_states = [];
}

-- The errors that the store's methods return.
pub data Error : Type 0 where
  relay_not_found node_class_forbidden user_not_found user_disabled invalid_user_status : Error
  lease_not_found lease_cap_exceeded mint_failed identity_refused : Error
  datacenter_source source_unclassified : Error
  wss_refused : Error
  enrollment_limited : ℕ → Error

pub data Result {ℓ} (A : Type ℓ) : Type ℓ where
  ok : A → Result A
  err : Error → Result A
