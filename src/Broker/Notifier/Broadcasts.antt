-- ===== src/Broker/Notifier/Broadcasts.antt =====
-- internal/broker/leases.go, `leaseNotifier`: no subscriber misses a broadcast.
use openrung.Base.{
  ℕ, ◌≡◌, refl, ap, ◌∙◌, inl, inr, Bool, true, false, List, [], ◌∷◌, none, arith, ite, All,
  Option-cases,
}
use openrung.Base.Bytes.{Bytes, bytes_eq}
use openrung.Base.Map.{lookup, remove, lookup-remove}
use openrung.Broker.Notifier.{
  Subscription, Notifier, new_lease_notifier, set_at, subscribe, release, broadcast,
}
use openrung.Broker.Notifier.Wakes.{
  Waits, IsSound, All-mono, subscribe-IsSound, release-IsSound, broadcast_one,
}

broadcast-IsSound : (n : Notifier) (keys : List Bytes) → IsSound n → IsSound (broadcast n keys)
unfolding broadcast
broadcast-IsSound n [] v = v
broadcast-IsSound n (key ∷ keys) v = elim (Option-cases (lookup bytes_eq key n.waiters)) [
  | inl z ↦ rw (z, broadcast) (broadcast-IsSound n keys v)
  | inr (g, f) ↦
      rw (f, broadcast)
        (broadcast-IsSound
          (record n { closed = set_at n.closed g true; waiters = remove bytes_eq key n.waiters })
          keys (broadcast_one n key g v f))
]

-- What happens to a notifier.
pub data Action : Type 0 where
  subscribes : Bytes → Action
  releases : ℕ → Action
  broadcasts : List Bytes → Action

unfoldable pub perform : Notifier → Action → Notifier
perform n (subscribes key) = subscribe n key
perform n (releases i) = release n i
perform n (broadcasts keys) = broadcast n keys

unfoldable pub perform_all : Notifier → List Action → Notifier
perform_all n [] = n
perform_all n (a ∷ actions) = perform_all (perform n a) actions

perform-IsSound : (n : Notifier) (a : Action) → IsSound n → IsSound (perform n a)
unfolding perform
perform-IsSound n (subscribes key) v = subscribe-IsSound n key v
perform-IsSound n (releases i) v = release-IsSound n i v
perform-IsSound n (broadcasts keys) v = broadcast-IsSound n keys v

perform_all-IsSound :
    (n : Notifier) (actions : List Action) → IsSound n → IsSound (perform_all n actions)
unfolding perform_all
perform_all-IsSound n [] v = v
perform_all-IsSound n (a ∷ actions) v =
    perform_all-IsSound (perform n a) actions (perform-IsSound n a v)

new-IsSound : IsSound new_lease_notifier
unfolding new_lease_notifier lookup
new-IsSound = record { counts = λ g. refl; made = λ k g e. absurd cc; waits = tt }

-- Whether a key is among those of a broadcast.
abbrev pub among : Bytes → List Bytes → Bool
among k [] = false
among k (key ∷ keys) = ite (bytes_eq k key) true (among k keys)

broadcast-none :
    (n : Notifier) (keys : List Bytes) (k : Bytes)
    → lookup bytes_eq k n.waiters ≡ none
    → lookup bytes_eq k (broadcast n keys).waiters ≡ none
unfolding broadcast
broadcast-none n [] k h = h
broadcast-none n (key ∷ keys) k h = elim (Option-cases (lookup bytes_eq key n.waiters)) [
  | inl z ↦ rw (z, broadcast) (broadcast-none n keys k h)
  | inr (g, f) ↦
      rw (f, broadcast)
        (broadcast-none
          (record n { closed = set_at n.closed g true; waiters = remove bytes_eq key n.waiters })
          keys k (ground (arith, lookup-remove bytes_eq key k n.waiters)))
]

broadcast_cleared :
    (n : Notifier) (keys : List Bytes) (k : Bytes)
    → among k keys ≡ true
    → lookup bytes_eq k (broadcast n keys).waiters ≡ none
unfolding broadcast
broadcast_cleared n [] k h = absurd (ground arith)
broadcast_cleared n (key ∷ keys) k h = elim (Option-cases (lookup bytes_eq key n.waiters)) [
  | inl z ↦
      rw (z, broadcast)
        (elim (bytes_eq k key) [
          | yes p ↦ broadcast-none n keys k (ap (λ x. lookup bytes_eq x n.waiters) p ∙ z)
          | no p ↦ broadcast_cleared n keys k (ground arith)
        ])
  | inr (g, f) ↦
      let u : Notifier = record n {
        closed = set_at n.closed g true;
        waiters = remove bytes_eq key n.waiters;
      } in
      rw (f, broadcast)
        (elim (bytes_eq k key) [
          | yes p ↦ broadcast-none u keys k (ground (arith, lookup-remove bytes_eq key k n.waiters))
          | no p ↦ broadcast_cleared u keys k (ground arith)
        ])
]

-- A subscription that is not released, of a key that was broadcast, has a closed channel.
abbrev pub Woken : List Bytes → (ℕ → Bool) → Subscription → Type 0
Woken keys closed s = s.released ≡ false → among s.key keys ≡ true → closed s.generation ≡ true

-- After any subscriptions, releases and broadcasts from a new notifier, a broadcast of some keys
-- leaves no subscriber asleep: the channel of each subscription of one of the keys that is not
-- released is closed.
pub broadcast-Woken :
    (actions : List Action) (keys : List Bytes)
    → (let n = broadcast (perform_all new_lease_notifier actions) keys in
        All (Woken keys n.closed) n.subscriptions)
broadcast-Woken actions keys =
    let m = perform_all new_lease_notifier actions in
    let n = broadcast m keys in
    let v = broadcast-IsSound m keys (perform_all-IsSound new_lease_notifier actions new-IsSound) in
    All-mono (Waits n.waiters n.closed n.made) (Woken keys n.closed) n.subscriptions
      (λ s h r a. elim (h.1 r) [
        | inl c ↦ c
        | inr e ↦ absurd (ground (arith, e, broadcast_cleared m keys s.key a))
      ])
      v.waits
