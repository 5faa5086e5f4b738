-- ===== src/Broker/Access.antt =====
-- internal/broker/access.go and client_access.go: access leases as users, relays and operators ask
-- for them. The handlers share one state, the `World`; the JSON of a request is decoded by its
-- caller, and an answer is a value.
pub mod Stats
pub mod Candidates
pub mod Await
pub mod Reply
pub mod Handler
pub mod Polls
pub mod Selection
pub mod Reserved
pub mod Granted
pub mod IssuedFor
pub mod Relays
pub mod Records
pub mod Denied
mod Tests
pub mod Authorized
pub mod Acknowledged
pub mod Ends
use openrung.Base.{
  ℕ, zero, suc, ◌+◌, Bool, true, false, not, ◌&&◌, ◌||◌, List, [], ◌∷◌, Option, none, some, ltb,
  leb, ◌==◌, min, if◌then◌else◌, length,
}
use openrung.Base.Bytes.{Bytes}
use openrung.Base.Int.{ℤ, pos, negsuc}
use openrung.Broker.Notifier.{Notifier, broadcast}
use openrung.Broker.Store.{Store, User, UserStatus, Lease, Error, Result, ok, err}
use openrung.Broker.Store.Users.{set_user_status}
use openrung.Broker.Store.Issue.{LeaseIssueRequest, LeaseIssueResult, issue_leases}
use openrung.Broker.Access.Stats.{AccessStats}

-- accessService: its configuration.
pub record AccessService : Type 0 where
  pub lease_ttl : ℕ
  pub max_leases_per_user : ℕ
  pub max_leases_per_relay : ℕ

-- What the handlers share: the store, the two maps of the leaseNotifier, and the counters.
pub record World : Type 0 where
  pub store : Store
  pub changed : Notifier
  pub applied : Notifier
  pub stats : AccessStats

-- The fields of Config that concern access; 0 stands for the default.
pub record Config : Type 0 where
  pub access_lease_ttl : ℕ
  pub max_leases_per_user : ℤ
  pub max_leases_per_relay : ℤ

-- A cap with its default, none where the code panics.
unfoldable pub cap_or : ℤ → ℕ → Option ℕ
cap_or (pos zero) default = some default
cap_or (pos (suc n)) default = some (suc n)
cap_or (negsuc n) default = none

-- `newAccessService`, none where it panics.
unfoldable pub new_access_service : Config → Option AccessService
new_access_service c =
    let ttl = if c.access_lease_ttl == 0 then 3_600_000_000_000 else c.access_lease_ttl in
    if ltb ttl 60_000_000_000 || ltb 86_400_000_000_000 ttl
    then none
    else (elim (cap_or c.max_leases_per_user 10) [
      | none ↦ none
      | some per_user ↦ elim (cap_or c.max_leases_per_relay 2000) [
        | none ↦ none
        | some per_relay ↦ some (record {
          lease_ttl = ttl;
          max_leases_per_user = per_user;
          max_leases_per_relay = per_relay;
        })
      ]
    ])

-- The LeaseIssueRequest that the service makes.
unfoldable pub issue_request : AccessService → Bytes → List Bytes → LeaseIssueRequest
issue_request a user_id relay_ids = record {
  user_id = user_id;
  relay_ids = relay_ids;
  ttl = pos a.lease_ttl;
  max_per_user = pos a.max_leases_per_user;
  max_per_relay = pos a.max_leases_per_relay;
}

-- What the service does with the store's answer.
unfoldable pub wake_changed : World → Store × Result LeaseIssueResult → World × Result (List Lease)
wake_changed w (s, err e) = (record w { store = s }, err e)
wake_changed w (s, ok r) =
    (record w { store = s; changed = broadcast w.changed r.changed_relay_ids }, ok r.leases)

-- `issueLeases`
unfoldable pub issue :
    AccessService
    → World
    → Bytes
    → List Bytes
    → ℕ
    → List (Option (Bytes × Bytes))
    → World × Result (List Lease)
issue a w user_id relay_ids now random =
    wake_changed w (issue_leases w.store (issue_request a user_id relay_ids) now random)

-- `setUserStatus`, once the store has answered.
unfoldable pub wake_revoked : World → Store × Result (User × List Bytes) → World × Result User
wake_revoked w (s, err e) = (record w { store = s }, err e)
wake_revoked w (s, ok (u, ids)) = (record w { store = s; changed = broadcast w.changed ids }, ok u)

-- `setUserStatus`
unfoldable pub change_status : World → Bytes → Option UserStatus → Bytes → ℕ → World × Result User
change_status w id status reason now = wake_revoked w (set_user_status w.store id status reason now)
