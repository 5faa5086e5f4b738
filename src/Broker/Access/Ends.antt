-- ===== src/Broker/Access/Ends.antt =====
-- internal/broker/client_access.go: the end of a wait for acknowledgements.
use openrung.Base.{ℕ, ◌≡◌, refl, Bool, true, false, not, ◌||◌, List, [], ◌∷◌, ◌++◌, arith, if_elim}
use openrung.Base.Bytes.{Bytes}
use openrung.Broker.Store.LeaseSets.{applied_lease_revisions}
use openrung.Broker.Access.{World}
use openrung.Broker.Access.Await.{
  woken, timed_out, cancelled, Round, Waited, abandoned, unfinished, pending, take_in,
  subscribe_all, released, is_deadline, await_rounds,
}

-- The wait was left unfinished.
abbrev pub is_unfinished : Waited → Bool
is_unfinished unfinished = true
is_unfinished _ = false

-- A round past the deadline ends the wait.
final-ends :
    (w : World) (want : List (Bytes × ℕ)) (applied : List Bytes) (r : Round) (rs : List Round)
    → is_unfinished (await_rounds w want applied true (r ∷ rs)).1 ≡ false
unfolding await_rounds
final-ends w want applied r rs = ground arith

-- A round ends a wait, or the next rounds do.
round-ends :
    (w : World) (want : List (Bytes × ℕ)) (applied : List Bytes) (final : Bool) (r : Round)
    (rs : List Round)
    → ((u : World) (known : List Bytes)
        → is_unfinished (await_rounds u want known (is_deadline r.wake) rs).1 ≡ false)
    → is_unfinished (await_rounds w want applied final (r ∷ rs)).1 ≡ false
unfolding await_rounds
round-ends w want applied final r rs h =
    let ids = pending want applied in
    let x : World = record w { applied = (subscribe_all w.applied ids).0 } in
    let handles = (subscribe_all w.applied ids).1 in
    let v = r.others_reading x in
    let known = take_in want (applied_lease_revisions v.store ids) applied ids in
    let u = released (r.others_waiting v) handles in
    let P : World × Waited → Type 0 = λ o. is_unfinished o.1 ≡ false in
    if_elim P (not r.readable) (λ _. refl)
      (λ _.
        if_elim P (not known.1 || final) (λ _. refl)
          (λ _.
            elim r.wake
              as (λ k. P (elim k as (λ _. World × Waited) [
                | cancelled ↦ (u, abandoned)
                | _ ↦ await_rounds u want known.0 (is_deadline r.wake) rs
              ])) [ cancelled ↦ refl | woken ↦ h u known.0 | timed_out ↦ h u known.0 ]))

-- A wait ends with the first round that starts after its deadline, whatever rounds come before, and
-- whatever was acknowledged.
pub await_rounds-ends :
    (w : World) (want : List (Bytes × ℕ)) (applied : List Bytes) (final : Bool)
    (before after : List Round) (r last : Round)
    → r.wake ≡ timed_out
    → is_unfinished (await_rounds w want applied final (before ++ (r ∷ last ∷ after))).1 ≡ false
unfolding is_deadline
await_rounds-ends w want applied final [] after r last e =
    round-ends w want applied final r (last ∷ after)
      (λ u known. rw e (final-ends u want known last after))
await_rounds-ends w want applied final (b ∷ before) after r last e =
    round-ends w want applied final b (before ++ (r ∷ last ∷ after))
      (λ u known. await_rounds-ends u want known (is_deadline b.wake) before after r last e)
