-- ===== src/Engine/LeaseSync/Tests.antt =====
-- The synchronisation of leases on concrete responses.
use openrung.Base.{◌≡◌, refl, ◌⊎◌, true, [], ◌∷◌, Option, none, some, any}
use openrung.Base.Bytes.{Bytes, bytes_eq}
use openrung.Base.Map.{lookup, insert}
use openrung.Engine.LeaseSync.{
  LeaseSync, LeaseSyncResponse, BrokerError, new_lease_sync, install, install_all, add, add_user,
  succeeds, next, desired, installed_ids, has, same_name, remove_others, reconcile, failed, cycle,
  begin_cycle, poll, apply_set, ack,
}
use openrung.Engine.LeaseSync.Reconcile.{installed_at}
use openrung.Engine.LeaseSync.Target.{target, reconcile-target}
use openrung.Engine.LeaseSync.Cycle.{CaughtUp, Unchanged, cycle-CaughtUp}

abbrev a : Bytes
a = 0 ∷ []

abbrev b : Bytes
b = 1 ∷ []

-- A live lease and an expired one.
abbrev response : LeaseSyncResponse
response = record {
  revision = 3;
  server_time = 10;
  leases =
      record { id = a; credential = b; expires_at = 15 }
      ∷ record { id = b; credential = a; expires_at = 9 }
      ∷ [];
}

abbrev before : LeaseSync
before = new_lease_sync (true ∷ [])

abbrev after : LeaseSync
after = (reconcile before response 100).0

reconcile_runs : reconcile before response 100 ≡ (after, true)
unfolding reconcile install_all install add add_user succeeds next desired installed_ids has any
    same_name remove_others lookup insert bytes_eq new_lease_sync
reconcile_runs = refl

reconcile-target_example :
    installed_at after a ≡ lookup bytes_eq a (target 100 10 response.leases [])
reconcile-target_example = reconcile-target before after response 100 a reconcile_runs

-- A cycle of a new session: the set is polled in full, installed and acknowledged.
abbrev caught_up : LeaseSync
caught_up = (cycle before 1 none (some response) failed 100 none).0

cycle_runs : cycle before 1 none (some response) failed 100 none ≡ (caught_up, true)
unfolding cycle begin_cycle poll apply_set ack reconcile install_all install add add_user succeeds
    next desired installed_ids has any same_name remove_others lookup insert bytes_eq new_lease_sync
cycle_runs = refl

cycle-CaughtUp_example :
    CaughtUp response 100 caught_up
    × (Unchanged before 1 response
        ⊎ ((◌≡◌ {A = Option BrokerError} none none) × (caught_up.announced ≡ true)))
cycle-CaughtUp_example = cycle-CaughtUp before caught_up 1 none response failed 100 none cycle_runs
