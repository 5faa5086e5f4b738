-- ===== src/Broker/Store/Cap.antt =====
-- The cap on a user's live leases: the plan of an issue always finds enough leases to evict.
use mathlib.Core.Path.{subst}
use openrung.Base.{
  ℕ, ◌+◌, ◌-◌, ◌≤◌, ◌≡◌, refl, inl, inr, Bool, false, not, List, [], ◌∷◌, none, arith, ltb,
  if◌then◌else◌, filter, count, length, length-take, Option-cases, Bool-cases,
}
use openrung.Base.Bytes.{Bytes, bytes_eq}
use openrung.Base.Map.{lookup, insert, lookup-insert}
use openrung.Base.Sort.{sort_by, place}
use openrung.Broker.Store.{Lease, Result, ok, err}
use openrung.Broker.Store.Leases.{same, contains}
use openrung.Broker.Store.Issue.{
  Normalized, LeaseIssuePlan, by_relay, divide, renewed_before, plan_lease_issue, over_cap, victims,
}

-- The leases on a relay.
abbrev on : Bytes → List Lease → ℕ
on id ls = count (λ (l : Lease). same l.relay_id id) ls

-- No two leases are on one relay.
abbrev pub OnePerRelay : List Lease → Type 0
OnePerRelay ls = (id : Bytes) → on id ls ≤ 1

by_relay-none :
    (id : Bytes) (ls : List Lease) (m : List (Bytes × Lease))
    → lookup bytes_eq id (by_relay ls m) ≡ none
    → (lookup bytes_eq id m ≡ none) × (on id ls ≡ 0)
unfolding by_relay count same
by_relay-none id [] m h = (h, refl)
by_relay-none id (l ∷ ls) m h =
    let (a, b) = by_relay-none id ls (insert bytes_eq l.relay_id l m) h in
    ground (arith, a, b, lookup-insert bytes_eq l.relay_id id l m)

-- The leases on one more relay.
count-contains :
    (id : Bytes) (ids : List Bytes) (ls : List Lease)
    → count (λ (l : Lease). contains l.relay_id (id ∷ ids)) ls
      ≤ on id ls + count (λ (l : Lease). contains l.relay_id ids) ls
unfolding count contains
count-contains id ids [] = omega arith
count-contains id ids (l ∷ ls) = ground (arith, count-contains id ids ls)

count-contains_none : (ls : List Lease) → count (λ (l : Lease). contains l.relay_id []) ls ≡ 0
unfolding count contains
count-contains_none [] = refl
count-contains_none (l ∷ ls) = count-contains_none ls

-- The user's leases on requested relays are among those to extend.
extended_enough :
    (ls : List Lease) (ids : List Bytes)
    → OnePerRelay ls
    → count (λ (l : Lease). contains l.relay_id ids) ls ≤ length (divide (by_relay ls []) ids).0
unfolding divide
extended_enough ls [] one = omega (arith, count-contains_none ls)
extended_enough ls (id ∷ ids) one = elim (Option-cases (lookup bytes_eq id (by_relay ls []))) [
  | inl n ↦
      rw (n, divide)
        (omega (
          arith,
          count-contains id ids ls,
          extended_enough ls ids one,
          (by_relay-none id ls [] n).1,
        ))
  | inr (l, e) ↦
      rw (e, divide) (omega (arith, count-contains id ids ls, extended_enough ls ids one, one id))
]

length-divide :
    (m : List (Bytes × Lease)) (ids : List Bytes)
    → length (divide m ids).0 + length (divide m ids).1 ≡ length ids
unfolding divide
length-divide m [] = refl
length-divide m (id ∷ ids) = elim (Option-cases (lookup bytes_eq id m)) [
  | inl n ↦ rw (n, divide) (omega (arith, length-divide m ids))
  | inr (l, e) ↦ rw (e, divide) (omega (arith, length-divide m ids))
]

at_most : (a b : ℕ) → ltb a b ≡ false → b ≤ a
at_most a b h = ground arith

count-le : {A : Type 0} (p : A → Bool) (xs : List A) → count p xs ≤ length xs
unfolding count
count-le p [] = omega arith
count-le p (x ∷ xs) = ground (arith, count-le p xs)

count-filter :
    {A : Type 0} (p : A → Bool) (xs : List A)
    → count p xs + length (filter (λ x. not (p x)) xs) ≡ length xs
unfolding count filter
count-filter p [] = refl
count-filter p (x ∷ xs) = ground (arith, count-filter p xs)

length-place :
    {A : Type 0} (le : A → A → Bool) (x : A) (xs : List A) → length (place le x xs) ≡ length xs + 1
unfolding place
length-place le x [] = refl
length-place le x (y ∷ ys) = ground (arith, length-place le x ys)

length-sort_by : {A : Type 0} (le : A → A → Bool) (xs : List A) → length (sort_by le xs) ≡ length xs
unfolding sort_by
length-sort_by le [] = refl
length-sort_by le (x ∷ xs) = omega (arith, length-place le x (sort_by le xs), length-sort_by le xs)

-- A plan has as many candidates as it may have to evict.
abbrev Fits : List Bytes → Normalized → List Lease → Result LeaseIssuePlan → Type 0
Fits eligible q live (ok p) =
    (p.live_count ≡ length live)
    × (p.max_per_user ≡ q.max_per_user)
    × (p.live_count + count (λ id. contains id eligible) p.create
        ≤ p.max_per_user + length p.candidates)
Fits eligible q live (err e) = Unit

plan-Fits :
    (eligible : List Bytes) (q : Normalized) (live : List Lease)
    → OnePerRelay live
    → Fits eligible q live (plan_lease_issue q live)
unfolding plan_lease_issue
plan-Fits eligible q live one = elim (Bool-cases (ltb q.max_per_user (length q.relay_ids))) [
  | inl y ↦ rw (y, plan_lease_issue) tt
  | inr n ↦
      let wanted = λ (l : Lease). contains l.relay_id q.relay_ids in
      rw (n, plan_lease_issue)
        (
          refl,
          refl,
          omega (
            arith,
            extended_enough live q.relay_ids one,
            length-divide (by_relay live []) q.relay_ids,
            count-le (λ id. contains id eligible) (divide (by_relay live []) q.relay_ids).1,
            count-filter wanted live,
            length-sort_by renewed_before (filter (λ l. not (wanted l)) live),
            at_most _ _ n,
          ),
        )
]

-- Where the user has at most one live lease on each relay, an issue evicts exactly as many leases
-- as the live and the newly issued ones together exceed the user's cap by: the branch for too few
-- candidates is never taken.
pub length-victims :
    (q : Normalized) (live : List Lease) (p : LeaseIssuePlan) (eligible : List Bytes)
    → OnePerRelay live
    → plan_lease_issue q live ≡ ok p
    → length (victims p eligible)
      ≡ length live + count (λ id. contains id eligible) p.create - q.max_per_user
unfolding victims over_cap
length-victims q live p eligible one h =
    let (a, b, c) = subst (Fits eligible q live) h (plan-Fits eligible q live one) in
    ground (
      arith,
      a,
      b,
      c,
      length-take
          (if ltb (length p.candidates) (over_cap p eligible)
            then length p.candidates
            else over_cap p eligible)
          p.candidates,
    )
