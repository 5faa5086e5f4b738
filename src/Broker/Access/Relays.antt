-- ===== src/Broker/Access/Relays.antt =====
-- internal/broker/access.go: what relays get of the poll for leases.
use openrung.Base.{
  ℕ, ◌<◌, ◌≡◌, ◌⊎◌, refl, inl, inr, Bool, true, false, ◌||◌, List, [], ◌∷◌, arith, ltb, length,
  Bool-cases, if_elim, All,
}
use openrung.Base.Bytes.{Bytes}
use openrung.Base.Member.{Empty}
use openrung.Broker.Notifier.{subscribe}
use openrung.Broker.Store.LeaseSets.{LeaseSet, lease_relay_authorized, relay_lease_set}
use openrung.Broker.Access.{World}
use openrung.Broker.Access.Await.{woken, timed_out, cancelled}
use openrung.Broker.Access.Polls.{
  Poll, not_found, bad_revision, unreadable_leases, left, pending_poll, synced, After, no_after,
  bad_after, after, Hold, Turn, answer, go_on, read_set, let_go, turn, turn_of, wait_turn,
  read_turn, poll_rounds, poll_with, presents, lease_poll, lease_sync_response,
}

-- An answer that has no leases.
abbrev pub Refused : World → World × Poll → Type 0
Refused w (v, synced r) = Empty
Refused w (v, _) = v ≡ w

-- A reading without the relay's token gives no set.
read_set-unauthorized :
    (w : World) (id token : Bytes) (now : ℕ) (readable : Bool)
    → lease_relay_authorized w.store id token ≡ false
    → (read_set w id token now readable ≡ inl not_found)
      ⊎ (read_set w id token now readable ≡ inl unreadable_leases)
unfolding read_set relay_lease_set
read_set-unauthorized w id token now false h = inr refl
read_set-unauthorized w id token now true h = inl (rw (h, read_set, relay_lease_set) refl)

-- A poll without the relay's token, whatever it asks for, is refused, and leaves nothing behind: no
-- subscription is made.
pub lease_poll-Refused :
    (w : World) (id token : Bytes) (a : After) (now : ℕ) (readable : Bool) (rs : List Hold)
    → lease_relay_authorized w.store id token ≡ false
    → Refused w (lease_poll w id token a now readable rs)
unfolding lease_poll poll_with
lease_poll-Refused w id token bad_after now readable rs h =
    if_elim (λ (p : Poll). Refused w (w, p)) (presents id token) (λ _. refl) (λ _. refl)
lease_poll-Refused w id token no_after now readable rs h =
    if_elim (Refused w) (presents id token)
      (λ _. elim (read_set-unauthorized w id token now readable h) [
        | inl e ↦ rw (e, poll_with) refl
        | inr e ↦ rw (e, poll_with) refl
      ])
      (λ _. refl)
lease_poll-Refused w id token (after n) now readable rs h =
    if_elim (Refused w) (presents id token)
      (λ _. elim (read_set-unauthorized w id token now readable h) [
        | inl e ↦ rw (e, poll_with) refl
        | inr e ↦ rw (e, poll_with) refl
      ])
      (λ _. refl)

-- An answer with leases is past a revision.
abbrev pub IsPast : ℕ → World × Poll → Type 0
IsPast n (v, synced r) = n < r.revision
IsPast n (v, _) = Unit

-- A reading, or a turn, that ends a poll has no leases.
abbrev NoLeases : Poll ⊎ LeaseSet → Type 0
NoLeases (inl (synced r)) = Empty
NoLeases (inl _) = Unit
NoLeases (inr set) = Unit

abbrev Bare : World × Turn → Type 0
Bare (v, answer (synced r)) = Empty
Bare (v, answer _) = Unit
Bare (v, go_on set now) = Unit

read_set-NoLeases :
    (w : World) (id token : Bytes) (now : ℕ) (readable : Bool)
    → NoLeases (read_set w id token now readable)
unfolding read_set relay_lease_set
read_set-NoLeases w id token now false = tt
read_set-NoLeases w id token now true =
    elim (Bool-cases (lease_relay_authorized w.store id token)) [
      | inl y ↦ rw (y, read_set, relay_lease_set) tt
      | inr n ↦ rw (n, read_set, relay_lease_set) tt
    ]

turn_of-Bare : (v : World) (r : Poll ⊎ LeaseSet) (now : ℕ) → NoLeases r → Bare (v, turn_of r now)
unfolding turn_of
turn_of-Bare v (inl not_found) now h = tt
turn_of-Bare v (inl bad_revision) now h = tt
turn_of-Bare v (inl unreadable_leases) now h = tt
turn_of-Bare v (inl left) now h = tt
turn_of-Bare v (inl pending_poll) now h = tt
turn_of-Bare v (inl (synced r)) now h = elim h [ ]
turn_of-Bare v (inr set) now h = tt

wait_turn-Bare : (w : World) (id token : Bytes) (k : ℕ) (r : Hold) → Bare (wait_turn w id token k r)
unfolding wait_turn
wait_turn-Bare w id token k r =
    let v = let_go (r.others_waiting w) k in
    let last = read_set v id token r.woken_at r.readable_again in
    let again =
      turn_of-Bare v last r.woken_at (read_set-NoLeases v id token r.woken_at r.readable_again) in
    elim r.wake
      as (λ x. Bare (elim x as (λ _. World × Turn) [
        | cancelled ↦ (v, answer left)
        | _ ↦ (v, turn_of last r.woken_at)
      ])) [ cancelled ↦ tt | woken ↦ again | timed_out ↦ again ]

read_turn-Bare :
    (w : World) (id token : Bytes) (n k : ℕ) (r : Hold) (x : Poll ⊎ LeaseSet)
    → NoLeases x
    → Bare (read_turn w id token n k r x)
unfolding read_turn
read_turn-Bare w id token n k r (inl not_found) h = tt
read_turn-Bare w id token n k r (inl bad_revision) h = tt
read_turn-Bare w id token n k r (inl unreadable_leases) h = tt
read_turn-Bare w id token n k r (inl left) h = tt
read_turn-Bare w id token n k r (inl pending_poll) h = tt
read_turn-Bare w id token n k r (inl (synced x)) h = elim h [ ]
read_turn-Bare w id token n k r (inr set) h =
    if_elim Bare (ltb n set.revision) (λ _. tt) (λ _. wait_turn-Bare w id token k r)

turn-Bare : (w : World) (id token : Bytes) (n : ℕ) (r : Hold) → Bare (turn w id token n r)
unfolding turn
turn-Bare w id token n r =
    let v = r.others_reading (record w { changed = subscribe w.changed id }) in
    read_turn-Bare v id token n (length w.changed.subscriptions) r
      (read_set v id token r.read_at r.readable) (read_set-NoLeases v id token r.read_at r.readable)

-- The end of one turn of the loop.
turn-IsPast :
    (n : ℕ) (id token : Bytes) (rs : List Hold) (v : World) (t : Turn)
    → Bare (v, t)
    → ((set : LeaseSet) (now : ℕ) → IsPast n (poll_rounds v id token n set now rs))
    → IsPast n (elim t as (λ _. World × Poll) [
      | answer p ↦ (v, p)
      | go_on next at ↦ poll_rounds v id token n next at rs
    ])
turn-IsPast n id token rs v (answer not_found) b h = tt
turn-IsPast n id token rs v (answer bad_revision) b h = tt
turn-IsPast n id token rs v (answer unreadable_leases) b h = tt
turn-IsPast n id token rs v (answer left) b h = tt
turn-IsPast n id token rs v (answer pending_poll) b h = tt
turn-IsPast n id token rs v (answer (synced r)) b h = elim b [ ]
turn-IsPast n id token rs v (go_on next at) b h = h next at

-- A poll after a revision that answers with leases before its hold is over has a later revision, so
-- an unchanged set is not sent again at once, whatever other requests do meanwhile.
pub poll_rounds-IsPast :
    (w : World) (id token : Bytes) (n : ℕ) (set : LeaseSet) (now : ℕ) (rs : List Hold)
    → All (λ (r : Hold). r.elapsed ≡ false) rs
    → IsPast n (poll_rounds w id token n set now rs)
unfolding poll_rounds lease_sync_response
poll_rounds-IsPast w id token n set now [] a =
    if_elim (λ (p : Poll). IsPast n (w, p)) (ltb n set.revision) (λ y. ground (arith, y)) (λ _. tt)
poll_rounds-IsPast w id token n set now (r ∷ rs) a =
    let t = turn w id token n r in
    if_elim (IsPast n) (ltb n set.revision || r.elapsed) (λ y. ground (arith, y, a.0))
      (λ _.
        turn-IsPast n id token rs t.0 t.1 (turn-Bare w id token n r)
          (λ next at. poll_rounds-IsPast t.0 id token n next at rs a.1))
