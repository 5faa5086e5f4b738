-- ===== src/Broker/Store/Revocation.antt =====
-- What `revokeUserLeasesLocked` leaves of a user's leases.
use mathlib.Core.Path.{subst}
use openrung.Base.{
  ℕ, ◌+◌, ◌≤◌, ◌<◌, ◌≡◌, refl, sym, ◌⊎◌, inl, inr, true, false, List, [], ◌∷◌, Option, some, arith,
  ite, filter, map, Bool-cases,
}
use openrung.Base.Bytes.{Bytes, bytes_eq, bytes_le}
use openrung.Base.Map.{lookup, lookup-insert}
use openrung.Base.Member.{Member, Member-filter, Member-map, Member-values, values}
use openrung.Base.Sort.{Member-sort_by}
use openrung.Broker.Store.{Store, Lease, LeaseState}
use openrung.Broker.Store.Leases.{
  is_live, same, row, put_lease, put_row, live_leases_for_user, contains, unique, sorted_unique,
  revoke_each, revoke_relays, revoke_user_leases,
}

-- The lease that the store holds under an ID.
abbrev pub lease_at : Store → Bytes → Option Lease
lease_at s id = lookup bytes_eq id s.leases

pub lease_at-put_lease :
    (s : Store) (l : Lease) (j : Bytes)
    → lease_at (put_lease s l) j ≡ ite (bytes_eq j l.id) (some l) (lease_at s j)
unfolding put_lease
lease_at-put_lease s l j = lookup-insert bytes_eq l.id j l s.leases

pub lease_at-put_row :
    (s : Store) (id : Bytes) (r : LeaseState) (j : Bytes)
    → lease_at (put_row s id r) j ≡ lease_at s j
unfolding put_row
lease_at-put_row s id r j = refl

pub same_refl : (a : Bytes) → same a a ≡ true
unfolding same
same_refl a = ground arith

-- A lease is under its own ID.
abbrev pub KeyedById : Store → Type 0
KeyedById s = (j : Bytes) (l : Lease) → lease_at s j ≡ some l → l.id ≡ j

-- Where leases of a store differ from those of another one, they were revoked at a time.
abbrev Revokes : ℕ → Store → Store → Type 0
Revokes now s t =
    (j : Bytes) (l : Lease) → lease_at t j ≡ some l → (l.revoked_at ≡ now) ⊎ (lease_at s j ≡ some l)

-- No lease under an ID but one revoked at a time.
abbrev Gone : ℕ → Store → Bytes → Type 0
Gone now s j = (l : Lease) → lease_at s j ≡ some l → l.revoked_at ≡ now

abbrev revoked : ℕ → ℕ → Lease → Lease
revoked now revision l = record l { revoked_at = now; revision = revision }

put_revoked-Gone :
    (now n : ℕ) (s : Store) (x : Lease) (j : Bytes)
    → Gone now s j
    → Gone now (put_lease s (revoked now n x)) j
put_revoked-Gone now n s x j g l h = ground (arith, lease_at-put_lease s (revoked now n x) j, g l)

put_revoked-Gone_self :
    (now n : ℕ) (s : Store) (x : Lease) → Gone now (put_lease s (revoked now n x)) x.id
put_revoked-Gone_self now n s x l h = ground (arith, lease_at-put_lease s (revoked now n x) x.id)

module _ (now : ℕ) where
  revoke_each-Revokes :
      (n : ℕ) (s : Store) (ls : List Lease) → Revokes now s (revoke_each now n s ls)
  unfolding revoke_each
  revoke_each-Revokes n s [] j l h = inr h
  revoke_each-Revokes n s (x ∷ xs) j l h = ground (
    arith,
    revoke_each-Revokes n (put_lease s (revoked now n x)) xs j l h,
    lease_at-put_lease s (revoked now n x) j,
  )

  revoke_each-keeps-Gone :
      (n : ℕ) (s : Store) (ls : List Lease) (j : Bytes)
      → Gone now s j
      → Gone now (revoke_each now n s ls) j
  unfolding revoke_each
  revoke_each-keeps-Gone n s [] j g = g
  revoke_each-keeps-Gone n s (x ∷ xs) j g =
      revoke_each-keeps-Gone n (put_lease s (revoked now n x)) xs j (put_revoked-Gone now n s x j g)

  revoke_each-Gone :
      (n : ℕ) (s : Store) (ls : List Lease) (x : Lease)
      → Member x ls
      → Gone now (revoke_each now n s ls) x.id
  unfolding revoke_each
  revoke_each-Gone n s [] x m = elim m [ ]
  revoke_each-Gone n s (y ∷ ys) x (inl e) = rw e (
      revoke_each-keeps-Gone n (put_lease s (revoked now n y)) ys y.id
        (put_revoked-Gone_self now n s y))
  revoke_each-Gone n s (y ∷ ys) x (inr m) =
      revoke_each-Gone n (put_lease s (revoked now n y)) ys x m

  -- One round of the loop over the relays.
  abbrev round : List Lease → Store → Bytes → Store
  round live s id =
      let r = row s.lease_states id in
      revoke_each now (r.revision + 1) (put_row s id (record r { revision = r.revision + 1 }))
        (filter (λ l. same l.relay_id id) live)

  round-Revokes : (live : List Lease) (s : Store) (id : Bytes) → Revokes now s (round live s id)
  round-Revokes live s id j l h =
      let r = row s.lease_states id in
      let t = put_row s id (record r { revision = r.revision + 1 }) in
      rw (← lease_at-put_row s id (record r { revision = r.revision + 1 }) j)
        (revoke_each-Revokes (r.revision + 1) t (filter (λ l. same l.relay_id id) live) j l h)

  round-keeps-Gone :
      (live : List Lease) (s : Store) (id j : Bytes) → Gone now s j → Gone now (round live s id) j
  unfolding put_row
  round-keeps-Gone live s id j g = revoke_each-keeps-Gone _ _ _ j g

  revoke_relays-Revokes :
      (live : List Lease) (s : Store) (ids : List Bytes)
      → Revokes now s (revoke_relays now live s ids)
  unfolding revoke_relays
  revoke_relays-Revokes live s [] j l h = inr h
  revoke_relays-Revokes live s (id ∷ ids) j l h =
      ground
        (arith, revoke_relays-Revokes live (round live s id) ids j l h, round-Revokes live s id j l)

  revoke_relays-keeps-Gone :
      (live : List Lease) (s : Store) (ids : List Bytes) (j : Bytes)
      → Gone now s j
      → Gone now (revoke_relays now live s ids) j
  unfolding revoke_relays
  revoke_relays-keeps-Gone live s [] j g = g
  revoke_relays-keeps-Gone live s (id ∷ ids) j g =
      revoke_relays-keeps-Gone live (round live s id) ids j (round-keeps-Gone live s id j g)

  revoke_relays-Gone :
      (live : List Lease) (s : Store) (ids : List Bytes) (x : Lease)
      → Member x live
      → Member x.relay_id ids
      → Gone now (revoke_relays now live s ids) x.id
  unfolding revoke_relays
  revoke_relays-Gone live s [] x m k = elim k [ ]
  revoke_relays-Gone live s (id ∷ ids) x m (inl e) =
      revoke_relays-keeps-Gone live (round live s id) ids x.id (
        revoke_each-Gone _ _ (filter (λ l. same l.relay_id id) live) x
          (Member-filter (λ l. same l.relay_id id) x live (rw e (same_refl id)) m))
  revoke_relays-Gone live s (id ∷ ids) x m (inr k) =
      revoke_relays-Gone live (round live s id) ids x m k

contains_or : (a : Bytes) (xs : List Bytes) → contains a xs ≡ true → Member a xs
unfolding contains same
contains_or a [] h = cc
contains_or a (x ∷ xs) h = elim (bytes_eq a x) [
  | yes p ↦ inl p
  | no p ↦ inr (contains_or a xs (ground arith))
]

Member-unique : (a : Bytes) (xs : List Bytes) → Member a xs → Member a (unique xs)
unfolding unique
Member-unique a [] m = m
Member-unique a (x ∷ xs) (inl e) = elim (Bool-cases (contains x (unique xs))) [
  | inl t ↦ rw (t, e) (contains_or x (unique xs) t)
  | inr f ↦ rw f (inl e)
]
Member-unique a (x ∷ xs) (inr m) = elim (Bool-cases (contains x (unique xs))) [
  | inl t ↦ rw t (Member-unique a xs m)
  | inr f ↦ rw f (inr (Member-unique a xs m))
]

pub Member-sorted_unique : (a : Bytes) (xs : List Bytes) → Member a xs → Member a (sorted_unique xs)
unfolding sorted_unique
Member-sorted_unique a xs m = Member-sort_by bytes_le a (unique xs) (Member-unique a xs m)

live_leases-has :
    (s : Store) (user : Bytes) (now : ℕ) (j : Bytes) (l : Lease)
    → lease_at s j ≡ some l
    → l.user_id ≡ user
    → is_live now l ≡ true
    → Member l (live_leases_for_user s user now)
unfolding live_leases_for_user
live_leases-has s user now j l h e v = Member-sort_by _ l _ (
    Member-filter _ l (values s.leases) (ground (arith, same_refl user))
      (Member-values bytes_eq j l s.leases h))

is_live_earlier :
    (l : Lease) (now later : ℕ)
    → now ≤ later
    → is_live later l ≡ true
    → (l.revoked_at ≡ 0) × (is_live now l ≡ true)
unfolding is_live
is_live_earlier l now later le h = ground arith

-- After a user's leases are revoked at a time, no lease of that user is live then or later.
pub revoke_user_leases-none_live :
    (s : Store) (user : Bytes) (now later : ℕ) (j : Bytes) (l : Lease)
    → KeyedById s
    → 0 < now
    → now ≤ later
    → lease_at (revoke_user_leases s user now).0 j ≡ some l
    → l.user_id ≡ user
    → is_live later l ≡ false
unfolding revoke_user_leases
revoke_user_leases-none_live s user now later j l keyed pos le h e =
    let live = live_leases_for_user s user now in
    let ids = sorted_unique (map (λ (l : Lease). l.relay_id) live) in
    elim (Bool-cases (is_live later l)) [
      | inr dead ↦ dead
      | inl alive ↦
          let (unrevoked, was) = is_live_earlier l now later le alive in
          elim (revoke_relays-Revokes now live s ids j l h) [
            | inl r ↦ absurd (omega arith)
            | inr h0 ↦
                let m = live_leases-has s user now j l h0 e was in
                let gone = revoke_relays-Gone now live s ids l m (
                  Member-sorted_unique l.relay_id _
                    (Member-map (λ (l : Lease). l.relay_id) l live m)) in
                absurd (
                  omega (
                    arith,
                    gone l (
                        subst (λ k. lease_at (revoke_user_leases s user now).0 k ≡ some l)
                          (sym (keyed j l h0)) h),
                  ))
          ]
    ]
