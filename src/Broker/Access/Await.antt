-- ===== src/Broker/Access/Await.antt =====
-- internal/broker/client_access.go: the wait for relays to acknowledge issued leases. What happens
-- between two steps of the wait is a list of rounds, each with what other requests do meanwhile; the
-- wait ends with the first round past the deadline, or is left unfinished where the rounds run out.
use openrung.Base.{
  ℕ, suc, ◌+◌, ◌-◌, Bool, true, false, not, ◌||◌, List, [], ◌∷◌, Option, none, some, ltb, leb,
  if◌then◌else◌, length,
}
use openrung.Base.Bytes.{Bytes, bytes_eq}
use openrung.Base.Map.{lookup, insert}
use openrung.Broker.Notifier.{Notifier, subscribe, release}
use openrung.Broker.Store.{Store, Lease, ok, err}
use openrung.Broker.Store.Leases.{contains}
use openrung.Broker.Store.LeaseSets.{applied_lease_revisions}
use openrung.Broker.Store.Lookups.{relay_by_id}
use openrung.Broker.Access.{World}
use openrung.Broker.Access.Stats.{AccessCounts, add}

-- How the select of a round ends.
pub data Wake : Type 0 where
  woken timed_out cancelled : Wake

-- What other requests do before the round's reading and while it waits, and whether the store can be
-- read.
pub record Round : Type 0 where
  pub others_reading : World → World
  pub readable : Bool
  pub others_waiting : World → World
  pub wake : Wake

-- The relays that acknowledged, or how else the wait ended.
pub data Waited : Type 0 where
  acknowledged : List Bytes → Waited
  unreadable abandoned unfinished : Waited

-- m[id] of a map of revisions.
unfoldable pub revision_of : List (Bytes × ℕ) → Bytes → ℕ
revision_of m id = elim (lookup bytes_eq id m) [ none ↦ 0 | some n ↦ n ]

-- The loop that fills `want`.
unfoldable pub wanted : List Lease → List (Bytes × ℕ) → List (Bytes × ℕ)
wanted [] m = m
wanted (l ∷ ls) m = wanted ls (
    if ltb (revision_of m l.relay_id) l.revision
    then insert bytes_eq l.relay_id l.revision m
    else m)

-- The loop that fills `pending`.
unfoldable pub pending : List (Bytes × ℕ) → List Bytes → List Bytes
pending [] applied = []
pending ((id, n) ∷ m) applied =
    let rest = pending m applied in if contains id applied then rest else id ∷ rest

-- The loop over the revisions that were read: the relays that applied theirs, and `waiting`.
unfoldable pub take_in :
    List (Bytes × ℕ) → List (Bytes × ℕ) → List Bytes → List Bytes → List Bytes × Bool
take_in want revisions applied [] = (applied, false)
take_in want revisions applied (id ∷ ids) =
    let (rest, waiting) = take_in want revisions applied ids in
    if leb (revision_of want id) (revision_of revisions id)
    then (id ∷ rest, waiting)
    else (rest, true)

-- appliedC of each relay, with how many subscriptions were older.
unfoldable pub subscribe_all : Notifier → List Bytes → Notifier × List ℕ
subscribe_all n [] = (n, [])
subscribe_all n (id ∷ ids) =
    let (m, handles) = subscribe_all (subscribe n id) ids in (m, length n.subscriptions ∷ handles)

-- `release` in the loop
unfoldable pub release_all : Notifier → List ℕ → Notifier
release_all n [] = n
release_all n (k ∷ ks) = release_all (release n (length n.subscriptions - suc k)) ks

unfoldable pub is_deadline : Wake → Bool
is_deadline timed_out = true
is_deadline _ = false

-- A round's subscriptions are released.
unfoldable pub released : World → List ℕ → World
released w handles = record w { applied = release_all w.applied handles }

-- The loop of `awaitApplied`.
unfoldable pub await_rounds :
    World → List (Bytes × ℕ) → List Bytes → Bool → List Round → World × Waited
await_rounds w want applied final [] = (w, unfinished)
await_rounds w want applied final (r ∷ rs) =
    let ids = pending want applied in
    let (subscribed, handles) = subscribe_all w.applied ids in
    let v = r.others_reading (record w { applied = subscribed }) in
    let (known, waiting) = take_in want (applied_lease_revisions v.store ids) applied ids in
    let u = released (r.others_waiting v) handles in
    let next = await_rounds u want known (is_deadline r.wake) rs in
    if not r.readable
    then (released v handles, unreadable)
    else (if not waiting || final
        then (released v handles, acknowledged known)
        else (elim r.wake [ cancelled ↦ (u, abandoned) | _ ↦ next ]))

-- `awaitApplied`
unfoldable pub await_applied : World → List Lease → List Round → World × Waited
await_applied w leases rounds = await_rounds w (wanted leases []) [] false rounds

abbrev pub relay_heartbeat_interval : ℕ
relay_heartbeat_interval = 30_000_000_000

-- `anyRelayAlive`, none where a lookup fails; `answers` says for which relays the store answers.
unfoldable pub any_relay_alive : (Bytes → Bool) → Store → List Lease → ℕ → Option Bool
any_relay_alive answers s [] now = some false
any_relay_alive answers s (l ∷ ls) now =
    let rest = any_relay_alive answers s ls now in
    if not (answers l.relay_id) then none else (elim (relay_by_id s l.relay_id now) [
      | err e ↦ rest
      | ok d ↦ if leb now (d.last_heartbeat_at + relay_heartbeat_interval) then some true else rest
    ])

-- s.extended++
unfoldable pub count_extended : AccessCounts → AccessCounts
count_extended c = record c { extended = c.extended + 1 }

-- What a wait meets: the rounds of the first wait and of its extension, the time between them, and
-- the relays whose lookup the store answers.
pub record Delays : Type 0 where
  pub first : List Round
  pub checked_at : ℕ
  pub answers : Bytes → Bool
  pub second : List Round

-- The extension, if a relay is alive.
unfoldable pub extend_wait : World → List Lease → Delays → Option Bool → World × Waited
extend_wait w leases t none = (w, unreadable)
extend_wait w leases t (some false) = (w, acknowledged [])
extend_wait w leases t (some true) =
    await_applied (record w { stats = add t.checked_at count_extended w.stats }) leases t.second

-- The rest of `awaitIssued`, of the first wait's end.
unfoldable pub after_wait : List Lease → Delays → World × Waited → World × Waited
after_wait leases t (w, acknowledged []) =
    extend_wait w leases t (any_relay_alive t.answers w.store leases t.checked_at)
after_wait leases t (w, result) = (w, result)

-- `awaitIssued`
unfoldable pub await_issued : World → List Lease → Delays → World × Waited
await_issued w leases t = after_wait leases t (await_applied w leases t.first)
