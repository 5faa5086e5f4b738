-- ===== src/Broker/Store/Ownership.antt =====
-- internal/broker/store_leases.go: whose the leases of an issue are: those that it makes, and those
-- that it extends.
use openrung.Base.{
  ℕ, ◌+◌, ◌≡◌, refl, sym, ap, ◌∙◌, inl, inr, not, List, [], ◌∷◌, Option, none, some, ◌==◌, ite,
  filter, length, All, All-append, All-filter, Option-cases, if_elim,
}
use openrung.Base.Bytes.{Bytes, bytes_eq}
use openrung.Base.Map.{lookup, lookup-insert, lookup-All}
use openrung.Broker.Store.{Store, Lease}
use openrung.Broker.Store.Leases.{row, put_row, put_lease, same, contains}
use openrung.Broker.Store.Issue.{
  Normalized, LeaseIssuePlan, current, evict, extend_lease, create_lease, minted_for, issue_on,
  issue_each, zero_lease,
}

-- A user's lease, with its expiry.
abbrev pub Belongs : Bytes → ℕ → Lease → Type 0
Belongs user_id expiry l = (l.user_id ≡ user_id) × (l.expires_at ≡ expiry)

-- Of an option, if it has a value.
abbrev OfSome {ℓ κ} : {A : Type ℓ} → (A → Type κ) → Option A → Type κ
OfSome P none = Unit
OfSome P (some a) = P a

abbrev pub lease_or_zero : Option Lease → Lease
lease_or_zero none = zero_lease
lease_or_zero (some l) = l

pub current-lookup :
    (s : Store) (l : Lease) → current s l ≡ lease_or_zero (lookup bytes_eq l.id s.leases)
unfolding current
current-lookup s l = elim (Option-cases (lookup bytes_eq l.id s.leases)) [
  | inl n ↦ rw (n, current) refl
  | inr (x, e) ↦ rw (e, current) refl
]

-- The owner that a lookup gives.
abbrev pub owner : Option Lease → Bytes
owner o = (lease_or_zero o).user_id

-- What is looked up among entries.
found :
    (P : Lease → Type 0) (m : List (Bytes × Lease)) (id : Bytes)
    → All (λ (e : Bytes × Lease). P e.1) m
    → OfSome P (lookup bytes_eq id m)
found P m id a = elim (Option-cases (lookup bytes_eq id m)) [
  | inl n ↦ rw n tt
  | inr (l, e) ↦ rw e (lookup-All bytes_eq (λ (e : Bytes × Lease). P e.1) id l m e a)
]

module _ (user_id : Bytes) where
  -- The lease that the store has under a lease's ID is the user's.
  abbrev pub Owns : Store → Lease → Type 0
  Owns s l = (current s l).user_id ≡ user_id

  -- No such lease is lost.
  abbrev Keeps : Store → Store → Type 0
  Keeps s t = (l : Lease) → Owns s l → Owns t l

  put_lease-Keeps : (s : Store) (x : Lease) → x.user_id ≡ user_id → Keeps s (put_lease s x)
  unfolding put_lease current
  put_lease-Keeps s x e l h =
      ap (λ (k : Lease). k.user_id) (current-lookup (put_lease s x) l)
      ∙ ap owner (lookup-insert bytes_eq x.id l.id x s.leases)
      ∙ elim (bytes_eq l.id x.id)
          as (λ d. owner (ite d (some x) (lookup bytes_eq l.id s.leases)) ≡ user_id) [
            | yes p ↦ e
            | no n ↦ ap (λ (k : Lease). k.user_id) (sym (current-lookup s l)) ∙ h
          ]

  Owns-later : (s t : Store) (ls : List Lease) → Keeps s t → All (Owns s) ls → All (Owns t) ls
  Owns-later s t [] k a = tt
  Owns-later s t (l ∷ ls) k a = (k l a.0, Owns-later s t ls k a.1)

  OfSome-later :
      (s t : Store) (o : Option Lease) → Keeps s t → OfSome (Owns s) o → OfSome (Owns t) o
  OfSome-later s t none k a = tt
  OfSome-later s t (some l) k a = k l a

  evict-Keeps :
      (s : Store) (now n : ℕ) (ls : List Lease) → All (Owns s) ls → Keeps s (evict s now n ls)
  unfolding evict
  evict-Keeps s now n [] a l h = h
  evict-Keeps s now n (x ∷ xs) a l h =
      let y : Lease = record (current s x) { revoked_at = now; revision = n } in
      let k = put_lease-Keeps s y a.0 in
      evict-Keeps (put_lease s y) now n xs (Owns-later s (put_lease s y) xs k a.1) l (k l h)

  module _ (q : Normalized) (now : ℕ) where
    extend_lease-Keeps :
        (s : Store) (n : ℕ) (o : Option Lease)
        → OfSome (Owns s) o
        → Keeps s (extend_lease s q now n o).0
          × All (Belongs user_id (now + q.ttl)) (extend_lease s q now n o).1
    unfolding extend_lease
    extend_lease-Keeps s n none a = (λ l h. h, tt)
    extend_lease-Keeps s n (some x) a =
        let y : Lease = record (current s x) {
          renewed_at = now;
          expires_at = now + q.ttl;
          revision = n;
        } in
        (put_lease-Keeps s y a, ((a, refl), tt))

    create_lease-Keeps :
        (s : Store) (n : ℕ) (o : Option Lease)
        → OfSome (Belongs user_id (now + q.ttl)) o
        → Keeps s (create_lease s n o).0
          × All (Belongs user_id (now + q.ttl)) (create_lease s n o).1
    unfolding create_lease
    create_lease-Keeps s n none a = (λ l h. h, tt)
    create_lease-Keeps s n (some x) a =
        (put_lease-Keeps s (record x { revision = n }) a.0, ((a.0, a.1), tt))

    -- A minted lease, found and with room.
    minted_for-Belongs :
        (minted : List (Bytes × Lease)) (eligible : List Bytes) (id : Bytes)
        → All (λ (e : Bytes × Lease). Belongs user_id (now + q.ttl) e.1) minted
        → OfSome (Belongs user_id (now + q.ttl)) (minted_for minted eligible id)
    unfolding minted_for
    minted_for-Belongs minted eligible id a =
        if_elim (OfSome (Belongs user_id (now + q.ttl))) (contains id eligible)
          (λ _. found (Belongs user_id (now + q.ttl)) minted id a) (λ _. tt)

    -- One round of an issue.
    issue_on-Keeps :
        (s : Store) (p : LeaseIssuePlan) (out : List Lease) (minted : List (Bytes × Lease))
        (eligible : List Bytes) (id : Bytes)
        → All (Owns s) out
        → All (λ (e : Bytes × Lease). Owns s e.1) p.extend
        → All (λ (e : Bytes × Lease). Belongs user_id (now + q.ttl) e.1) minted
        → Keeps s (issue_on s q now p out minted eligible id).0
          × All (Belongs user_id (now + q.ttl)) (issue_on s q now p out minted eligible id).1
    unfolding issue_on put_row current
    issue_on-Keeps s p out minted eligible id o x m =
        let r = row s.lease_states id in
        let n = r.revision + 1 in
        let evicted = filter (λ l. same l.relay_id id) out in
        let s0 = put_row s id r in
        let s1 = evict s0 now n evicted in
        let to_extend = lookup bytes_eq id p.extend in
        let s2 = (extend_lease s1 q now n to_extend).0 in
        let to_create = minted_for minted eligible id in
        let s3 = (create_lease s2 n to_create).0 in
        let k1 =
          evict-Keeps s0 now n evicted (All-filter (Owns s) (λ l. same l.relay_id id) out o) in
        let e =
          extend_lease-Keeps s1 n to_extend
            (OfSome-later s s1 to_extend k1 (found (Owns s) p.extend id x)) in
        let c = create_lease-Keeps s2 n to_create (minted_for-Belongs minted eligible id m) in
        let extended = (extend_lease s1 q now n to_extend).1 in
        let created = (create_lease s2 n to_create).1 in
        (
          if_elim (Keeps s) (not (length evicted + length extended + length created == 0))
              (λ _ l h. c.0 l (e.0 l (k1 l h))) (λ _ l h. c.0 l (e.0 l (k1 l h))),
          All-append (Belongs user_id (now + q.ttl)) extended created e.1 c.1,
        )

    Entries-later :
        (s t : Store) (m : List (Bytes × Lease))
        → Keeps s t
        → All (λ (e : Bytes × Lease). Owns s e.1) m
        → All (λ (e : Bytes × Lease). Owns t e.1) m
    Entries-later s t [] k a = tt
    Entries-later s t (e ∷ m) k a = (k e.1 a.0, Entries-later s t m k a.1)

    pub issue_each-Belongs :
        (s : Store) (p : LeaseIssuePlan) (out : List Lease) (minted : List (Bytes × Lease))
        (eligible ids : List Bytes)
        → All (Owns s) out
        → All (λ (e : Bytes × Lease). Owns s e.1) p.extend
        → All (λ (e : Bytes × Lease). Belongs user_id (now + q.ttl) e.1) minted
        → All
            (Belongs user_id (now + q.ttl))
            (issue_each s q now p out minted eligible ids).1.leases
    unfolding issue_each
    issue_each-Belongs s p out minted eligible [] o x m = tt
    issue_each-Belongs s p out minted eligible (id ∷ ids) o x m =
        let (t, here, changed) = issue_on s q now p out minted eligible id in
        let (k, b) = issue_on-Keeps s p out minted eligible id o x m in
        All-append (Belongs user_id (now + q.ttl)) here
          (issue_each t q now p out minted eligible ids).1.leases b
          (issue_each-Belongs t p out minted eligible ids (Owns-later s t out k o)
            (Entries-later s t p.extend k x) m)
