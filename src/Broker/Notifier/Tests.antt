-- ===== src/Broker/Notifier/Tests.antt =====
-- internal/broker/leases.go, `leaseNotifier`: wake-ups at concrete inputs.
use openrung.Base.{◌≡◌, refl, List, [], ◌∷◌, All}
use openrung.Base.Bytes.{Bytes, bytes_eq}
use openrung.Base.Map.{lookup, insert, remove}
use openrung.Broker.Notifier.{
  new_lease_notifier, set_at, subscribe, nth, mark, drop_ref, release, broadcast,
}
use openrung.Broker.Notifier.Broadcasts.{
  Action, subscribes, releases, perform, perform_all, Woken, broadcast-Woken,
}

abbrev a : Bytes
a = 97 ∷ []

abbrev b : Bytes
b = 98 ∷ []

abbrev actions : List Action
actions = subscribes a ∷ subscribes b ∷ subscribes a ∷ releases 0 ∷ releases 0 ∷ []

-- The second release of one subscription changes nothing, so the other one of the key is kept.
keeps_other : (perform_all new_lease_notifier actions).waiters ≡ (a, 0) ∷ (b, 1) ∷ []
unfolding perform_all perform new_lease_notifier set_at subscribe nth mark drop_ref release lookup
    insert remove bytes_eq
keeps_other = refl

-- When its last subscription is released, a key is forgotten.
forgets : (perform_all new_lease_notifier (subscribes a ∷ releases 0 ∷ [])).waiters ≡ []
unfolding perform_all perform new_lease_notifier set_at subscribe nth mark drop_ref release lookup
    insert remove bytes_eq
forgets = refl

broadcast-Woken_example :
    (let n = broadcast (perform_all new_lease_notifier actions) (a ∷ []) in
      All (Woken (a ∷ []) n.closed) n.subscriptions)
broadcast-Woken_example = broadcast-Woken actions (a ∷ [])
