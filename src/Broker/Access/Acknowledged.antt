-- ===== src/Broker/Access/Acknowledged.antt =====
-- internal/broker/client_access.go: what a wait for acknowledgements tells: the relays that it
-- reports have acknowledged the revisions of the leases.
use openrung.Base.{
  ℕ, ◌≤◌, Bool, true, false, not, ◌||◌, List, [], ◌∷◌, Option, none, some, arith, ltb, leb, All,
  if_elim,
}
use openrung.Base.Bytes.{Bytes, bytes_eq}
use openrung.Base.Map.{lookup, insert, lookup-insert}
use openrung.Broker.Store.{Store, Lease}
use openrung.Broker.Store.Leases.{row}
use openrung.Broker.Store.LeaseSets.{applied_lease_revisions}
use openrung.Broker.Access.{World}
use openrung.Broker.Access.Stats.{add}
use openrung.Broker.Access.Await.{
  woken, timed_out, cancelled, Round, Waited, acknowledged, unreadable, abandoned, unfinished,
  revision_of, wanted, pending, take_in, subscribe_all, released, is_deadline, await_rounds,
  await_applied, any_relay_alive, Delays, extend_wait, after_wait, await_issued, count_extended,
}

-- The revision that a relay has acknowledged.
abbrev pub acked : World → Bytes → ℕ
acked w j = (row w.store.lease_states j).applied

-- No relay's acknowledged revision falls.
abbrev pub KeepsAcks : World → World → Type 0
KeepsAcks w v = (j : Bytes) → acked w j ≤ acked v j

-- What other requests do in a round keeps the acknowledgements.
abbrev pub Steady : Round → Type 0
Steady r = (w : World) → KeepsAcks w (r.others_reading w) × KeepsAcks w (r.others_waiting w)

abbrev pub Acked : List (Bytes × ℕ) → World → Bytes → Type 0
Acked want w j = revision_of want j ≤ acked w j

-- The relays that a wait reports have acknowledged what was wanted.
abbrev pub Reports : List (Bytes × ℕ) → World × Waited → Type 0
Reports want (w, acknowledged ids) = All (Acked want w) ids
Reports want (w, _) = Unit

-- A revision that is read is no more than the acknowledged one.
revision_of-applied :
    (s : Store) (ids : List Bytes) (j : Bytes)
    → revision_of (applied_lease_revisions s ids) j ≤ (row s.lease_states j).applied
unfolding revision_of applied_lease_revisions lookup
revision_of-applied s [] j = omega arith
revision_of-applied s (id ∷ ids) j = ground (
  arith,
  lookup-insert bytes_eq id j (row s.lease_states id).applied (applied_lease_revisions s ids),
  revision_of-applied s ids j,
)

take_in-Acked :
    (want : List (Bytes × ℕ)) (w : World) (read applied ids : List Bytes)
    → All (Acked want w) applied
    → All (Acked want w) (take_in want (applied_lease_revisions w.store read) applied ids).0
unfolding take_in
take_in-Acked want w read applied [] a = a
take_in-Acked want w read applied (id ∷ ids) a =
    let rest = take_in-Acked want w read applied ids a in
    if_elim (λ (r : List Bytes × Bool). All (Acked want w) r.0)
      (leb (revision_of want id) (revision_of (applied_lease_revisions w.store read) id))
      (λ y. (ground (arith, revision_of-applied w.store read id), rest)) (λ _. rest)

Acked-later :
    (want : List (Bytes × ℕ)) (w v : World) (ids : List Bytes)
    → KeepsAcks w v
    → All (Acked want w) ids
    → All (Acked want v) ids
Acked-later want w v [] k a = tt
Acked-later want w v (id ∷ ids) k a = (omega (arith, k id, a.0), Acked-later want w v ids k a.1)

-- The store is not touched by subscriptions, so the acknowledgements of a world are those of its
-- store.
await_rounds-Reports :
    (w : World) (want : List (Bytes × ℕ)) (applied : List Bytes) (final : Bool)
    (rounds : List Round)
    → All Steady rounds
    → All (Acked want w) applied
    → Reports want (await_rounds w want applied final rounds)
unfolding await_rounds released
await_rounds-Reports w want applied final [] s a = tt
await_rounds-Reports w want applied final (r ∷ rs) s a =
    let ids = pending want applied in
    let x : World = record w { applied = (subscribe_all w.applied ids).0 } in
    let handles = (subscribe_all w.applied ids).1 in
    let v = r.others_reading x in
    let known = take_in want (applied_lease_revisions v.store ids) applied ids in
    let here = take_in-Acked want v ids applied ids (Acked-later want x v applied (s.0 x).0 a) in
    let u = released (r.others_waiting v) handles in
    let later =
      await_rounds-Reports u want known.0 (is_deadline r.wake) rs s.1
        (Acked-later want v u known.0 (s.0 v).1 here) in
    if_elim (Reports want) (not r.readable) (λ _. tt)
      (λ _.
        if_elim (Reports want) (not known.1 || final) (λ _. here)
          (λ _.
            elim r.wake
              as (λ k. Reports want (elim k as (λ _. World × Waited) [
                | cancelled ↦ (u, abandoned)
                | _ ↦ await_rounds u want known.0 (is_deadline r.wake) rs
              ])) [ cancelled ↦ tt | woken ↦ later | timed_out ↦ later ]))

await_applied-Reports :
    (w : World) (leases : List Lease) (rounds : List Round)
    → All Steady rounds
    → Reports (wanted leases []) (await_applied w leases rounds)
unfolding await_applied
await_applied-Reports w leases rounds s =
    await_rounds-Reports w (wanted leases []) [] false rounds s tt

extend_wait-Reports :
    (w : World) (leases : List Lease) (t : Delays) (o : Option Bool)
    → All Steady t.second
    → Reports (wanted leases []) (extend_wait w leases t o)
unfolding extend_wait
extend_wait-Reports w leases t none s = tt
extend_wait-Reports w leases t (some false) s = tt
extend_wait-Reports w leases t (some true) s =
    await_applied-Reports (record w { stats = add t.checked_at count_extended w.stats }) leases
      t.second s

after_wait-Reports :
    (leases : List Lease) (t : Delays) (w : World) (r : Waited)
    → All Steady t.second
    → Reports (wanted leases []) (w, r)
    → Reports (wanted leases []) (after_wait leases t (w, r))
unfolding after_wait
after_wait-Reports leases t w (acknowledged []) s a =
    extend_wait-Reports w leases t (any_relay_alive t.answers w.store leases t.checked_at) s
after_wait-Reports leases t w (acknowledged (id ∷ ids)) s a = a
after_wait-Reports leases t w unreadable s a = tt
after_wait-Reports leases t w abandoned s a = tt
after_wait-Reports leases t w unfinished s a = tt

-- What a wait and its extension report: if what other requests do meanwhile never lowers an
-- acknowledged revision, each relay that is reported has, in the store at the end, acknowledged the
-- highest revision of its leases.
pub await_issued-Reports :
    (w : World) (leases : List Lease) (t : Delays)
    → All Steady t.first
    → All Steady t.second
    → Reports (wanted leases []) (await_issued w leases t)
unfolding await_issued
await_issued-Reports w leases t a b =
    let first = await_applied w leases t.first in
    after_wait-Reports leases t first.0 first.1 b (await_applied-Reports w leases t.first a)

-- The wanted revisions only grow, and are those of the leases at least.
wanted-ge :
    (ls : List Lease) (m : List (Bytes × ℕ)) (j : Bytes)
    → revision_of m j ≤ revision_of (wanted ls m) j
unfolding wanted revision_of
wanted-ge [] m j = omega arith
wanted-ge (l ∷ ls) m j =
    if_elim (λ (k : List (Bytes × ℕ)). revision_of m j ≤ revision_of (wanted ls k) j)
      (ltb (revision_of m l.relay_id) l.revision)
      (λ y. ground (
        arith,
        wanted-ge ls (insert bytes_eq l.relay_id l.revision m) j,
        lookup-insert bytes_eq l.relay_id j l.revision m,
        y,
      ))
      (λ _. wanted-ge ls m j)

pub wanted-covers :
    (ls : List Lease) (m : List (Bytes × ℕ))
    → All (λ (l : Lease). l.revision ≤ revision_of (wanted ls m) l.relay_id) ls
unfolding wanted revision_of
wanted-covers [] m = tt
wanted-covers (l ∷ ls) m =
    if_elim
      (λ (k : List (Bytes × ℕ)).
        All (λ (x : Lease). x.revision ≤ revision_of (wanted ls k) x.relay_id) (l ∷ ls))
      (ltb (revision_of m l.relay_id) l.revision)
      (λ y. (
        ground (
          arith,
          wanted-ge ls (insert bytes_eq l.relay_id l.revision m) l.relay_id,
          lookup-insert bytes_eq l.relay_id l.relay_id l.revision m,
        ),
        wanted-covers ls (insert bytes_eq l.relay_id l.revision m),
      ))
      (λ n. (ground (arith, wanted-ge ls m l.relay_id, n), wanted-covers ls m))
