-- ===== src/Engine/LeaseSync/Reconcile.antt =====
-- The installed map after one call of Xray, and the applied revision.
use openrung.Base.{
  ℕ, ◌+◌, ◌-◌, ◌≡◌, refl, ◌∙◌, inl, inr, Bool, List, [], ◌∷◌, Option, none, some, ltb, ite,
  Option-cases, Bool-cases, if_elim,
}
use openrung.Base.Bytes.{Bytes, bytes_eq}
use openrung.Base.Map.{lookup, lookup-insert, lookup-remove}
use openrung.Engine.LeaseSync.{
  LeaseSync, LeaseEntry, LeaseSyncResponse, InstalledLease, same_name, succeeds, next, add_user,
  remove_user, add, install, remove_lease, install_all, has, remove_others, reconcile,
}

-- The lease that is installed under an ID.
abbrev pub installed_at : LeaseSync → Bytes → Option InstalledLease
installed_at s j = lookup bytes_eq j s.installed

pub next_lem : (s : LeaseSync) → (next s).installed ≡ s.installed
unfolding next
next_lem s =
    elim s.outcomes
      as (λ o.
        (elim o as (λ x. LeaseSync) [ [] ↦ s | b ∷ bs ↦ record s { outcomes = bs } ]).installed
        ≡ s.installed) [ [] ↦ refl | b ∷ bs ↦ refl ]

pub add_user-installed :
    (s : LeaseSync) (e : LeaseEntry) (expiry : ℕ) (j : Bytes)
    → installed_at (add_user s e expiry) j
      ≡ ite
          (bytes_eq j e.id)
          (some (record { credential = e.credential; expires_at = expiry }))
          (installed_at s j)
unfolding add_user
add_user-installed s e expiry j = lookup-insert bytes_eq e.id j _ s.installed

pub remove_user-installed :
    (s : LeaseSync) (id j : Bytes)
    → installed_at (remove_user s id) j ≡ ite (bytes_eq j id) none (installed_at s j)
unfolding remove_user
remove_user-installed s id j = lookup-remove bytes_eq id j s.installed

-- A reconciliation leaves the applied revision as it is.
abbrev Keeps : LeaseSync → LeaseSync → Type 0
Keeps s t = t.applied ≡ s.applied

next-Keeps : (s : LeaseSync) → Keeps s (next s)
unfolding next
next-Keeps s =
    elim s.outcomes
      as (λ o.
        (elim o as (λ x. LeaseSync) [ [] ↦ s | b ∷ bs ↦ record s { outcomes = bs } ]).applied
        ≡ s.applied) [ [] ↦ refl | b ∷ bs ↦ refl ]

add-Keeps : (s : LeaseSync) (e : LeaseEntry) (expiry : ℕ) → Keeps s (add s e expiry).0
unfolding add add_user
add-Keeps s e expiry =
    if_elim (λ (r : LeaseSync × Bool). Keeps s r.0) (succeeds s) (λ _. next-Keeps s)
      (λ _. next-Keeps s)

install-Keeps : (s : LeaseSync) (e : LeaseEntry) (expiry : ℕ) → Keeps s (install s e expiry).0
unfolding install remove_user
install-Keeps s e expiry = elim (Option-cases (lookup bytes_eq e.id s.installed)) [
  | inl n ↦ rw (n, install) (add-Keeps s e expiry)
  | inr (x, f) ↦ elim (Bool-cases (same_name x.credential e.credential)) [
    | inl y ↦ rw (f, y, install) refl
    | inr n ↦ elim (Bool-cases (succeeds s)) [
      | inl y ↦
          rw (f, n, y, install) (add-Keeps (remove_user (next s) e.id) e expiry ∙ next-Keeps s)
      | inr z ↦ rw (f, n, z, install) (next-Keeps s)
    ]
  ]
]

remove_lease-Keeps : (s : LeaseSync) (id : Bytes) → Keeps s (remove_lease s id).0
unfolding remove_lease remove_user
remove_lease-Keeps s id = elim (Option-cases (lookup bytes_eq id s.installed)) [
  | inl n ↦ rw (n, remove_lease) refl
  | inr (x, f) ↦ elim (Bool-cases (succeeds s)) [
    | inl y ↦ rw (f, y, remove_lease) (next-Keeps s)
    | inr z ↦ rw (f, z, remove_lease) (next-Keeps s)
  ]
]

install_all-Keeps :
    (s : LeaseSync) (now server_time : ℕ) (es : List LeaseEntry)
    → Keeps s (install_all s now server_time es).0
unfolding install_all
install_all-Keeps s now server_time [] = refl
install_all-Keeps s now server_time (e ∷ es) = elim (Bool-cases (ltb server_time e.expires_at)) [
  | inr n ↦ rw (n, install_all) (install_all-Keeps s now server_time es)
  | inl y ↦
      let expiry = now + (e.expires_at - server_time) in
      rw (y, install_all)
        (install_all-Keeps (install s e expiry).0 now server_time es ∙ install-Keeps s e expiry)
]

remove_others-Keeps :
    (s : LeaseSync) (wanted ids : List Bytes) → Keeps s (remove_others s wanted ids).0
unfolding remove_others
remove_others-Keeps s wanted [] = refl
remove_others-Keeps s wanted (id ∷ ids) = elim (Bool-cases (has id wanted)) [
  | inl y ↦ rw (y, remove_others) (remove_others-Keeps s wanted ids)
  | inr n ↦
      rw (n, remove_others)
        (remove_others-Keeps (remove_lease s id).0 wanted ids ∙ remove_lease-Keeps s id)
]

pub reconcile-applied :
    (s : LeaseSync) (resp : LeaseSyncResponse) (now : ℕ)
    → (reconcile s resp now).0.applied ≡ s.applied
unfolding reconcile
reconcile-applied s resp now =
    remove_others-Keeps _ _ _ ∙ install_all-Keeps s now resp.server_time resp.leases
