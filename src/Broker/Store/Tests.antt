-- ===== src/Broker/Store/Tests.antt =====
-- The store on concrete relays, users and leases.
use openrung.Base.{
  ℕ, ◌≤◌, ◌+◌, ◌≡◌, refl, true, false, [], ◌∷◌, none, some, arith, filter, count, length, any, suc,
  ◌-◌, ◌⊎◌,
}
use openrung.Base.Bytes.{Bytes, bytes_eq, bytes_le}
use openrung.Base.Map.{lookup, insert}
use openrung.Base.Member.{values}
use openrung.Base.Sort.{sort_by, place}
use openrung.Broker.Store.{
  Store, new_store, disabled, Descriptor, Advert, User, enabled, Lease, Error, ok, err,
  enrollment_limited, relay_not_found,
}
use openrung.Broker.Store.Leases.{
  is_live, same, contains, unique, sorted_unique, row, put_row, put_lease, live_leases_for_user,
  revoke_each, revoke_relays, revoke_user_leases,
}
use openrung.Broker.Store.Revocation.{KeyedById}
use openrung.Broker.Store.Users.{
  EnrollmentWindow, set_user_status, authenticate_user, charge, counters_of, user_or_zero,
}
use openrung.Broker.Store.Enrollment.{
  exceeded, Enrolls, authenticate_user-new, set_user_status-disabled,
}
use openrung.Broker.Store.Telemetry.{is_empty}
use openrung.Broker.Store.Directory.{
  RegisterRequest, RelayCrypto, register, register_checked, install, descriptor_of, replaced,
  located, normalize_node_class, normalize_transport, is_foundation, node_class_foundation,
  no_location, same_endpoint, heartbeat, update_geo, update_reachability,
  update_access_reachability,
}
use openrung.Broker.Store.Lookups.{relay_by_id, prune}
use openrung.Broker.Store.Endpoints.{relay_at, register-Sole, register-keeps_foundation}
use openrung.Broker.Store.Tokens.{register-supersedes, relay_by_id-prune}
use openrung.Broker.Store.Issue.{
  Normalized, LeaseIssuePlan, plan_lease_issue, by_relay, divide, victims,
}
use openrung.Broker.Store.LeaseSets.{relay_lease_set, ack_lease_revision}
use openrung.Broker.Store.Revisions.{set_status, acknowledge, perform_all, perform_all-Advances}
use openrung.Broker.Store.Cap.{OnePerRelay, length-victims}

abbrev a : Bytes
a = 0 ∷ []

abbrev b : Bytes
b = 1 ∷ []

abbrev lease : Lease
lease = record {
  id = a;
  user_id = b;
  relay_id = a;
  credential = b;
  created_at = 1;
  renewed_at = 1;
  expires_at = 9;
  revoked_at = 0;
  revision = 1;
}

abbrev user : User
user = record {
  id = b;
  public_key = a;
  status = enabled;
  created_at = 1;
  last_auth_at = 1;
  disabled_at = 0;
  disabled_reason = [];
}

abbrev with_lease : Store
with_lease = record {
  relays = [];
  sessions = [];
  observations = [];
  users = (b, user) ∷ [];
  user_ids_by_key = (a, b) ∷ [];
  enrollment = [];
  leases = (a, lease) ∷ [];
  lease_states = [];
}

with_lease-KeyedById : KeyedById with_lease
unfolding lookup bytes_eq
with_lease-KeyedById j l h = ground arith

abbrev revoked_lease : Lease
revoked_lease = record lease { revoked_at = 5; revision = 1 }

set_user_status-disabled_example : is_live 6 revoked_lease ≡ false
unfolding set_user_status revoke_user_leases revoke_relays revoke_each live_leases_for_user lookup
    insert bytes_eq bytes_le sort_by place filter values same is_live sorted_unique unique contains
    row put_row put_lease
set_user_status-disabled_example =
    set_user_status-disabled with_lease b [] 5 6 a revoked_lease with_lease-KeyedById (omega arith)
      (omega arith) (λ e. cc) refl refl

abbrev window : EnrollmentWindow
window = record { name = a; limit = 3; window = 10 }

with_lease_keyed :
    (id : Bytes)
    → lookup bytes_eq a with_lease.user_ids_by_key ≡ some id
    → (user_or_zero with_lease id).id ≡ id
unfolding lookup bytes_eq user_or_zero
with_lease_keyed id h = ground arith

authenticate_user-new_example :
    ((any (exceeded (counters_of with_lease b) 4) (window ∷ []) ≡ true)
      × ((n : ℕ) × (authenticate_user with_lease b b (window ∷ []) none (some a) 4
            ≡ (with_lease, err (enrollment_limited (suc n))))))
    ⊎ ((any (exceeded (counters_of with_lease b) 4) (window ∷ []) ≡ false)
        × Enrolls b a (authenticate_user with_lease b b (window ∷ []) none (some a) 4))
unfolding lookup bytes_eq charge counters_of
authenticate_user-new_example =
    authenticate_user-new with_lease b b (window ∷ []) a 4 refl (omega arith, tt)

abbrev advert : Advert
advert = record {
  label = [];
  operator_contact = [];
  protocol = [];
  reality_public_key = [];
  short_id = [];
  server_name = [];
  flow = [];
  exit_mode = [];
  max_mbps = 0;
  relay_version = [];
  punch_capable = false;
  punch_endpoint = [];
  wss_fronts = [];
}

-- A registration of a volunteer with an identity.
abbrev request : RegisterRequest
request = record {
  identity_public_key = a;
  access_leases = true;
  node_class = [];
  public_host = a;
  public_port = 443;
  exit_host = a;
  access_host = [];
  client_id = b;
  max_sessions = 8;
  transport = [];
  advert = advert;
}

abbrev crypto : RelayCrypto
crypto = record {
  verify_identity = λ q now. ok (some q.identity_public_key);
  verify_wss_capability = λ q now. none;
  derive_relay_id = λ k. k;
}

abbrev pub registered : Descriptor
registered = record {
  id = a;
  identity_public_key = a;
  lease_token = b;
  lease_capable = true;
  node_class = 118 ∷ 111 ∷ 108 ∷ 117 ∷ 110 ∷ 116 ∷ 101 ∷ 101 ∷ 114 ∷ [];
  public_host = a;
  public_port = 443;
  exit_host = a;
  access_host = [];
  client_id = b;
  transport = 100 ∷ 105 ∷ 114 ∷ 101 ∷ 99 ∷ 116 ∷ [];
  max_sessions = 8;
  advert = advert;
  geo = no_location;
  reachable = false;
  reachability_checked_at = 0;
  access_reachable = false;
  access_reachability_checked_at = 0;
  registered_at = 1;
  last_heartbeat_at = 1;
  expires_at = 11;
}

abbrev with_relay : Store
with_relay = (register crypto new_store request 1 10 none (some b)).0

register_runs : register crypto new_store request 1 10 none (some b) ≡ (with_relay, ok registered)
unfolding register register_checked install descriptor_of replaced located normalize_node_class
    normalize_transport is_empty new_store
register_runs = refl

register-Sole_example :
    (relay_at with_relay a ≡ some registered)
    × ((j : Bytes) (x : Descriptor)
        → relay_at with_relay j ≡ some x
        → same_endpoint x registered ≡ true
        → j ≡ a)
register-Sole_example =
    register-Sole crypto new_store with_relay request 1 10 none (some b) registered register_runs

register-supersedes_example :
    ((e : Error) × (heartbeat with_relay a a [] [] 2 10 ≡ (with_relay, err e)))
    × (update_geo with_relay a a no_location ≡ (with_relay, some relay_not_found))
    × (update_reachability with_relay a a true 2 ≡ (with_relay, some relay_not_found))
    × (update_access_reachability with_relay a a true 2 ≡ (with_relay, some relay_not_found))
    × (relay_lease_set with_relay a a 2 ≡ err relay_not_found)
    × (ack_lease_revision with_relay a a 7 ≡ (with_relay, some relay_not_found))
register-supersedes_example =
    register-supersedes crypto new_store with_relay request 1 10 none (some b) registered a [] [] 2
      10 7 no_location true register_runs (λ e. cc) (λ e. cc)

abbrev foundation_relay : Descriptor
foundation_relay = record registered { node_class = node_class_foundation }

abbrev with_foundation : Store
with_foundation = record with_lease { relays = (b, foundation_relay) ∷ [] }

register-keeps_foundation_example :
    (e : Error) × (register crypto with_foundation request 2 10 none (some b)
      ≡ (with_foundation, err e))
unfolding lookup bytes_eq is_foundation same normalize_node_class is_empty
register-keeps_foundation_example =
    register-keeps_foundation crypto with_foundation request 2 10 none (some b) b foundation_relay
      refl refl (omega arith) refl refl

relay_by_id-prune_example :
    relay_by_id (prune with_foundation 5).0 b 20 ≡ relay_by_id with_foundation b 20
unfolding lookup
relay_by_id-prune_example = relay_by_id-prune with_foundation 5 20 b (refl, tt) (omega arith)

abbrev issue_request : Normalized
issue_request = record {
  user_id = b;
  relay_ids = b ∷ [];
  ttl = 10;
  max_per_user = 1;
  max_per_relay = 5;
}

abbrev plan : LeaseIssuePlan
plan = record {
  extend = [];
  create = b ∷ [];
  candidates = lease ∷ [];
  live_count = 1;
  max_per_user = 1;
  affected = a ∷ b ∷ [];
}

plan_runs : plan_lease_issue issue_request (lease ∷ []) ≡ ok plan
unfolding plan_lease_issue by_relay divide sort_by place filter sorted_unique unique contains same
    bytes_eq bytes_le lookup insert
plan_runs = refl

one_lease : OnePerRelay (lease ∷ [])
unfolding count same
one_lease id = ground arith

length-victims_example :
    length (victims plan (b ∷ []))
    ≡ length (lease ∷ []) + count (λ id. contains id (b ∷ [])) (b ∷ []) - 1
length-victims_example = length-victims issue_request (lease ∷ []) plan (b ∷ []) one_lease plan_runs

perform_all-Advances_example :
    ((row with_lease.lease_states a).revision
      ≤ (row
          (perform_all with_lease
            (set_status b (some disabled) [] 5 ∷ acknowledge a b 3 ∷ [])).lease_states
          a).revision)
    × ((row with_lease.lease_states a).applied
        ≤ (row
            (perform_all with_lease
              (set_status b (some disabled) [] 5 ∷ acknowledge a b 3 ∷ [])).lease_states
            a).applied)
perform_all-Advances_example =
    perform_all-Advances with_lease (set_status b (some disabled) [] 5 ∷ acknowledge a b 3 ∷ []) a
