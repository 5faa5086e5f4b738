-- ===== src/Broker/Store/Issued.antt =====
-- internal/broker/store_leases.go: what a successful issue returns: leases of the user that asked,
-- valid for the requested time.
use mathlib.Core.Path.{subst}
use openrung.Base.{
  ℕ, ◌+◌, ◌≡◌, refl, ap, ◌∙◌, inl, inr, true, not, List, [], ◌∷◌, Option, none, some, arith, ltb,
  ◌&&◌, filter, length, All, All-filter, All-take, Option-cases, if_elim,
}
use openrung.Base.Bytes.{Bytes, bytes_eq, bytes_le}
use openrung.Base.Map.{lookup, insert, insert-All, lookup-All, Unique}
use openrung.Base.Member.{values}
use openrung.Base.Sort.{sort_by-All}
use openrung.Broker.Store.{Store, Lease, Result, ok, err}
use openrung.Broker.Store.Leases.{same, contains, is_live, live_leases_for_user}
use openrung.Broker.Store.Issue.{
  LeaseIssueRequest, LeaseIssueResult, Normalized, LeaseIssuePlan, by_relay, divide, renewed_before,
  plan_lease_issue, victims, mint, current, eligible_relays, carry_out, normalized, issue_leases,
}
use openrung.Broker.Store.Revisions.{status_cases}
use openrung.Broker.Store.Ownership.{Belongs, Owns, current-lookup, owner, issue_each-Belongs}

-- Every lease is stored under its own ID, and no ID has two.
abbrev pub IsKeyed : Store → Type 0
IsKeyed s = Unique bytes_eq s.leases × All (λ (e : Bytes × Lease). e.1.id ≡ e.0) s.leases

-- The leases of a result, if it has any.
abbrev pub Leases : (Lease → Type 0) → Result LeaseIssueResult → Type 0
Leases P (err e) = Unit
Leases P (ok r) = All P r.leases

module _ (user_id : Bytes) where
  -- Where the leases of a map are the user's.
  abbrev Extends : Store → List (Bytes × Lease) → Type 0
  Extends s m = All (λ (e : Bytes × Lease). Owns user_id s e.1) m

  by_relay-Extends :
      (s : Store) (ls : List Lease) (m : List (Bytes × Lease))
      → All (Owns user_id s) ls
      → Extends s m
      → Extends s (by_relay ls m)
  unfolding by_relay
  by_relay-Extends s [] m a x = x
  by_relay-Extends s (l ∷ ls) m a x =
      by_relay-Extends s ls (insert bytes_eq l.relay_id l m) a.1
        (insert-All bytes_eq (λ (e : Bytes × Lease). Owns user_id s e.1) l.relay_id l m a.0 x)

  divide-Extends :
      (s : Store) (m : List (Bytes × Lease)) (ids : List Bytes)
      → Extends s m
      → Extends s (divide m ids).0
  unfolding divide
  divide-Extends s m [] x = tt
  divide-Extends s m (id ∷ ids) x = elim (Option-cases (lookup bytes_eq id m)) [
    | inl n ↦ rw (n, divide) (divide-Extends s m ids x)
    | inr (l, e) ↦
        rw (e, divide)
          (
            lookup-All bytes_eq (λ (e : Bytes × Lease). Owns user_id s e.1) id l m e x,
            divide-Extends s m ids x,
          )
  ]

  -- The leases that a plan extends, and those that it may evict.
  abbrev Planned : Store → Result LeaseIssuePlan → Type 0
  Planned s (err e) = Unit
  Planned s (ok p) = Extends s p.extend × All (Owns user_id s) p.candidates

  plan_lease_issue-Planned :
      (s : Store) (q : Normalized) (live : List Lease)
      → All (Owns user_id s) live
      → Planned s (plan_lease_issue q live)
  unfolding plan_lease_issue
  plan_lease_issue-Planned s q live a =
      let kept = filter (λ l. not (contains l.relay_id q.relay_ids)) live in
      if_elim (Planned s) (ltb q.max_per_user (length q.relay_ids)) (λ _. tt)
        (λ _. (
          divide-Extends s (by_relay live []) q.relay_ids (by_relay-Extends s live [] a tt),
          sort_by-All renewed_before (Owns user_id s) kept
              (All-filter (Owns user_id s) (λ l. not (contains l.relay_id q.relay_ids)) live a),
        ))

-- What is found under other IDs is found past one more entry.
still_found :
    (id : Bytes) (x : Lease) (m : List (Bytes × Lease)) (ls : List Lease)
    → lookup bytes_eq id m ≡ none
    → All (λ (l : Lease). lookup bytes_eq l.id m ≡ some l) ls
    → All (λ (l : Lease). lookup bytes_eq l.id ((id, x) ∷ m) ≡ some l) ls
unfolding lookup
still_found id x m [] n a = tt
still_found id x m (l ∷ ls) n a = (ground (arith, n, a.0), still_found id x m ls n a.1)

-- Each lease of a map is found under its ID.
values-found :
    (m : List (Bytes × Lease))
    → Unique bytes_eq m
    → All (λ (e : Bytes × Lease). e.1.id ≡ e.0) m
    → All (λ (l : Lease). lookup bytes_eq l.id m ≡ some l) (values m)
unfolding values lookup
values-found [] u k = tt
values-found ((id, l) ∷ m) u k =
    (rw k.0 (ground arith), still_found id l m (values m) u.0 (values-found m u.1 k.1))

is_user :
    (s : Store) (user_id : Bytes) (now : ℕ) (l : Lease)
    → (same l.user_id user_id && is_live now l) ≡ true
    → l.user_id ≡ user_id
unfolding same
is_user s user_id now l y = ground arith

-- A lease that passes the test is the user's.
owned :
    (s : Store) (user_id : Bytes) (now : ℕ) (ls : List Lease)
    → All (λ (l : Lease). lookup bytes_eq l.id s.leases ≡ some l) ls
    → All (Owns user_id s) (filter (λ l. same l.user_id user_id && is_live now l) ls)
unfolding filter current same
owned s user_id now [] a = tt
owned s user_id now (l ∷ ls) a =
    if_elim (All (Owns user_id s)) (same l.user_id user_id && is_live now l)
      (λ y. (
        ap (λ (k : Lease). k.user_id) (current-lookup s l)
            ∙ ap owner a.0
            ∙ is_user s user_id now l y,
        owned s user_id now ls a.1,
      ))
      (λ _. owned s user_id now ls a.1)

live_leases_for_user-Owns :
    (s : Store) (user_id : Bytes) (now : ℕ)
    → IsKeyed s
    → All (Owns user_id s) (live_leases_for_user s user_id now)
unfolding live_leases_for_user
live_leases_for_user-Owns s user_id now k =
    let mine = filter (λ l. same l.user_id user_id && is_live now l) (values s.leases) in
    sort_by-All (λ a b. bytes_le a.id b.id) (Owns user_id s) mine
      (owned s user_id now (values s.leases) (values-found s.leases k.0 k.1))

-- The leases that are minted.
abbrev Minted : Bytes → ℕ → Option (List (Bytes × Lease)) → Type 0
Minted user_id expiry none = Unit
Minted user_id expiry (some m) = All (λ (e : Bytes × Lease). Belongs user_id expiry e.1) m

mint-Minted :
    (q : Normalized) (now : ℕ) (ids : List Bytes) (random : List (Option (Bytes × Bytes)))
    → Minted q.user_id (now + q.ttl) (mint q now ids random)
unfolding mint
mint-Minted q now [] random = tt
mint-Minted q now (id ∷ ids) [] = tt
mint-Minted q now (id ∷ ids) (none ∷ random) = tt
mint-Minted q now (id ∷ ids) (some (lease_id, credential) ∷ random) =
    elim (Option-cases (mint q now ids random)) [
      | inl n ↦ rw (n, mint) tt
      | inr (m, e) ↦
          rw (e, mint)
            ((refl, refl), subst (Minted q.user_id (now + q.ttl)) e (mint-Minted q now ids random))
    ]

carry_out-Belongs :
    (s : Store) (q : Normalized) (now : ℕ) (random : List (Option (Bytes × Bytes)))
    (p : LeaseIssuePlan)
    → All (λ (e : Bytes × Lease). Owns q.user_id s e.1) p.extend
    → All (Owns q.user_id s) p.candidates
    → Leases (Belongs q.user_id (now + q.ttl)) (carry_out s q now random p).1
unfolding carry_out victims
carry_out-Belongs s q now random p x c = elim (Option-cases (mint q now p.create random)) [
  | inl n ↦ rw (n, carry_out) tt
  | inr (m, e) ↦
      let eligible = eligible_relays s q now p.create in
      rw (e, carry_out)
        (issue_each-Belongs q.user_id q now s p (victims p eligible) m eligible p.affected
          (All-take (Owns q.user_id s) _ p.candidates c) x
          (subst (Minted q.user_id (now + q.ttl)) e (mint-Minted q now p.create random)))
]

plan-Leases :
    (s : Store) (q : Normalized) (now : ℕ) (random : List (Option (Bytes × Bytes)))
    (r : Result LeaseIssuePlan)
    → Planned q.user_id s r
    → Leases
        (Belongs q.user_id (now + q.ttl))
        (elim r as (λ _. Store × Result LeaseIssueResult) [
          | err e ↦ (s, err e)
          | ok p ↦ carry_out s q now random p
        ]).1
plan-Leases s q now random (err e) a = tt
plan-Leases s q now random (ok p) a = carry_out-Belongs s q now random p a.0 a.1

-- Every lease that an issue returns, made or extended, is of the user that asked and expires a
-- lifetime from now, if the store's leases are each under their own ID.
pub issue_leases-Belongs :
    (s : Store) (request : LeaseIssueRequest) (now : ℕ) (random : List (Option (Bytes × Bytes)))
    → IsKeyed s
    → Leases
        (Belongs request.user_id (now + (normalized request).ttl))
        (issue_leases s request now random).1
unfolding issue_leases normalized
issue_leases-Belongs s request now random k =
    let q = normalized request in
    elim (Option-cases (lookup bytes_eq q.user_id s.users)) [
      | inl n ↦ rw (n, issue_leases) tt
      | inr (u, e) ↦ elim (status_cases u.status) [
        | inl d ↦ rw (e, d, issue_leases) tt
        | inr f ↦
            rw (e, f, issue_leases)
              (plan-Leases s q now random
                (plan_lease_issue q (live_leases_for_user s q.user_id now))
                (plan_lease_issue-Planned q.user_id s q (live_leases_for_user s q.user_id now)
                  (live_leases_for_user-Owns s q.user_id now k)))
      ]
    ]
