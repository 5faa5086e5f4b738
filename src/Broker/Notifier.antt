-- ===== src/Broker/Notifier.antt =====
-- internal/broker/leases.go, `leaseNotifier`: the wake-ups of long polls and of ack waiters, for one of
-- its two maps. A pointer to a generation of subscribers is its number, and a channel is a Boolean
-- that says whether it is closed. A subscription's handle is its place among the newer ones.
pub mod Wakes
pub mod Broadcasts
mod Tests
use openrung.Base.{
  ℕ, zero, suc, ◌+◌, ◌-◌, Bool, true, false, not, ◌&&◌, List, [], ◌∷◌, Option, none, some, ◌==◌,
  if◌then◌else◌,
}
use openrung.Base.Bytes.{Bytes, bytes_eq}
use openrung.Base.Map.{lookup, insert, remove}

-- leaseSubscription, with what `release` closes over.
pub record Subscription : Type 0 where
  pub key : Bytes
  pub generation : ℕ
  pub released : Bool

-- A map of leaseNotifier with the generations (leaseWaiters) that were ever made, and the
-- subscriptions, newest first.
pub record Notifier : Type 0 where
  pub waiters : List (Bytes × ℕ)
  pub refs : ℕ → ℕ
  pub closed : ℕ → Bool
  pub made : ℕ
  pub subscriptions : List Subscription

-- `newLeaseNotifier`
unfoldable pub new_lease_notifier : Notifier
new_lease_notifier = record {
  waiters = [];
  refs = λ g. 0;
  closed = λ g. false;
  made = 0;
  subscriptions = [];
}

-- A field of one generation is set.
unfoldable pub set_at {ℓ} : {A : Type ℓ} → (ℕ → A) → ℕ → A → ℕ → A
set_at f g a h = if h == g then a else f h

-- `subscribe`
unfoldable pub subscribe : Notifier → Bytes → Notifier
subscribe n key = elim (lookup bytes_eq key n.waiters) [
  | some g ↦ record n {
    refs = set_at n.refs g (n.refs g + 1);
    subscriptions = record { key = key; generation = g; released = false } ∷ n.subscriptions;
  }
  | none ↦ record {
    waiters = insert bytes_eq key n.made n.waiters;
    refs = set_at n.refs n.made 1;
    closed = set_at n.closed n.made false;
    made = n.made + 1;
    subscriptions = record { key = key; generation = n.made; released = false } ∷ n.subscriptions;
  }
]

unfoldable pub nth : ℕ → List Subscription → Option Subscription
nth i [] = none
nth zero (s ∷ ss) = some s
nth (suc i) (s ∷ ss) = nth i ss

-- released = true
unfoldable pub mark : ℕ → List Subscription → List Subscription
mark i [] = []
mark zero (s ∷ ss) = record s { released = true } ∷ ss
mark (suc i) (s ∷ ss) = s ∷ mark i ss

abbrev pub registered : Option ℕ → ℕ → Bool
registered none g = false
registered (some h) g = h == g

-- The body of `release`, of a subscription that is not released.
unfoldable pub drop_ref : Notifier → Bytes → ℕ → Notifier
drop_ref n key g =
    let u : Notifier = record n { refs = set_at n.refs g (n.refs g - 1) } in
    if (n.refs g - 1) == 0 && registered (lookup bytes_eq key n.waiters) g
    then record u { waiters = remove bytes_eq key n.waiters }
    else u

-- `release`
unfoldable pub release : Notifier → ℕ → Notifier
release n i = elim (nth i n.subscriptions) [
  | none ↦ n
  | some s ↦
      if s.released
      then n
      else drop_ref (record n { subscriptions = mark i n.subscriptions }) s.key s.generation
]

-- `broadcast`
unfoldable pub broadcast : Notifier → List Bytes → Notifier
broadcast n [] = n
broadcast n (key ∷ keys) = elim (lookup bytes_eq key n.waiters) [
  | none ↦ broadcast n keys
  | some g ↦
      broadcast
        (record n { closed = set_at n.closed g true; waiters = remove bytes_eq key n.waiters }) keys
]
