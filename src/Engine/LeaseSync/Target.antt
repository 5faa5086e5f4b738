-- ===== src/Engine/LeaseSync/Target.antt =====
-- The set that a reconciliation which reports success has installed.
use mathlib.Core.Path.{subst}
use openrung.Base.{
  ℕ, ◌+◌, ◌-◌, ◌≡◌, refl, sym, ap, ◌∙◌, ◌⊎◌, inl, inr, Bool, true, false, not, ◌&&◌, List, [], ◌∷◌,
  Option, none, some, arith, ltb, if◌then◌else◌, ite, any, Option-cases, Bool-cases,
}
use openrung.Base.Bytes.{Bytes, bytes_eq}
use openrung.Base.Map.{lookup, insert, lookup-insert}
use openrung.Engine.LeaseSync.{
  LeaseSync, LeaseEntry, LeaseSyncResponse, InstalledLease, same_name, succeeds, next, remove_user,
  add, install, remove_lease, install_all, desired, installed_ids, has, remove_others, reconcile,
}
use openrung.Engine.LeaseSync.Reconcile.{
  installed_at, next_lem, add_user-installed, remove_user-installed,
}

abbrev Installed : Type 0
Installed = List (Bytes × InstalledLease)

-- The map that a response describes: its leases that are live by the broker's clock, each until its
-- remaining time has passed on the relay's clock; of two entries with one ID the later one counts.
abbrev pub target : ℕ → ℕ → List LeaseEntry → Installed → Installed
target now server_time [] m = m
target now server_time (e ∷ es) m = target now server_time es (
    if ltb server_time e.expires_at
    then insert bytes_eq e.id
        (record { credential = e.credential; expires_at = now + (e.expires_at - server_time) }) m
    else m)

next-installed : (s : LeaseSync) (j : Bytes) → installed_at (next s) j ≡ installed_at s j
next-installed s j = ap (lookup bytes_eq j) (next_lem s)

add-installed :
    (s : LeaseSync) (e : LeaseEntry) (expiry : ℕ) (j : Bytes)
    → (add s e expiry).1 ≡ true
    → installed_at (add s e expiry).0 j
      ≡ ite
          (bytes_eq j e.id)
          (some (record { credential = e.credential; expires_at = expiry }))
          (installed_at s j)
unfolding add
add-installed s e expiry j h =
    ground (arith, add_user-installed (next s) e expiry j, next-installed s j)

same_name-eq : (a b : Bytes) → same_name a b ≡ true → a ≡ b
unfolding same_name
same_name-eq a b h = ground arith

same_name_refl : (a : Bytes) → same_name a a ≡ true
unfolding same_name
same_name_refl a = ground arith

install-installed :
    (s : LeaseSync) (e : LeaseEntry) (expiry : ℕ) (j : Bytes)
    → (install s e expiry).1 ≡ true
    → installed_at (install s e expiry).0 j
      ≡ ite
          (bytes_eq j e.id)
          (some (record { credential = e.credential; expires_at = expiry }))
          (installed_at s j)
unfolding install
install-installed s e expiry j h = elim (Option-cases (lookup bytes_eq e.id s.installed)) [
  | inl n ↦ rw (n, install) (add-installed s e expiry j (rw (n, install) at h))
  | inr (x, f) ↦ elim (Bool-cases (same_name x.credential e.credential)) [
    | inl y ↦
        rw (f, y, install)
          (rw (← same_name-eq x.credential e.credential y) (
            lookup-insert bytes_eq e.id j
              (record { credential = x.credential; expires_at = expiry }) s.installed))
    | inr n ↦ elim (Bool-cases (succeeds s)) [
      | inl y ↦
          rw (f, n, y, install)
            (ground (
              arith,
              add-installed (remove_user (next s) e.id) e expiry j (rw (f, n, y, install) at h),
              remove_user-installed (next s) e.id j,
              next-installed s j,
            ))
      | inr z ↦ absurd (ground (arith, rw (f, n, z, install) at h))
    ]
  ]
]

-- Maps with the same entries.
abbrev Same : Installed → Installed → Type 0
Same m n = (j : Bytes) → lookup bytes_eq j m ≡ lookup bytes_eq j n

added-Same :
    (b : Bool) (id : Bytes) (x : InstalledLease) (m n : Installed)
    → Same m n
    → Same (if b then insert bytes_eq id x m else m) (if b then insert bytes_eq id x n else n)
added-Same true id x m n h j =
    ground (arith, h j, lookup-insert bytes_eq id j x m, lookup-insert bytes_eq id j x n)
added-Same false id x m n h j = h j

target-Same :
    (now server_time : ℕ) (es : List LeaseEntry) (m n : Installed)
    → Same m n
    → Same (target now server_time es m) (target now server_time es n)
target-Same now server_time [] m n h j = h j
target-Same now server_time (e ∷ es) m n h j =
    target-Same now server_time es _ _ (added-Same (ltb server_time e.expires_at) e.id _ m n h) j

-- The results of the two operations, both successful.
and_true : (a b : Bool) → (a && b) ≡ true → (a ≡ true) × (b ≡ true)
and_true a b h = ground arith

install_all-target :
    (s : LeaseSync) (now server_time : ℕ) (es : List LeaseEntry)
    → (install_all s now server_time es).1 ≡ true
    → Same (install_all s now server_time es).0.installed (target now server_time es s.installed)
unfolding install_all
install_all-target s now server_time [] h j = refl
install_all-target s now server_time (e ∷ es) h j =
    elim (Bool-cases (ltb server_time e.expires_at)) [
      | inr n ↦
          rw (n, install_all) (install_all-target s now server_time es (rw (n, install_all) at h) j)
      | inl y ↦
          let expiry = now + (e.expires_at - server_time) in
          let x : InstalledLease = record { credential = e.credential; expires_at = expiry } in
          let (first, rest) = and_true _ _ (rw (y, install_all) at h) in
          rw (y, install_all)
            (install_all-target (install s e expiry).0 now server_time es rest j
              ∙ target-Same now server_time es (install s e expiry).0.installed
                  (insert bytes_eq e.id x s.installed)
                  (λ k.
                    install-installed s e expiry k first
                    ∙ sym (lookup-insert bytes_eq e.id k x s.installed))
                  j)
    ]

-- A wanted ID has the same entry whatever the map was; another one keeps its entry.
target-desired :
    (now server_time : ℕ) (es : List LeaseEntry) (m n : Installed) (j : Bytes)
    → (lookup bytes_eq j m ≡ lookup bytes_eq j n) ⊎ (has j (desired server_time es) ≡ true)
    → lookup bytes_eq j (target now server_time es m)
      ≡ lookup bytes_eq j (target now server_time es n)
unfolding has any desired same_name
target-desired now server_time [] m n j (inl h) = h
target-desired now server_time [] m n j (inr h) = absurd (ground arith)
target-desired now server_time (e ∷ es) m n j h =
    target-desired now server_time es _ _ j (elim (Bool-cases (ltb server_time e.expires_at)) [
      | inr a ↦ elim h [ inl k ↦ inl (rw a k) | inr k ↦ inr (ground arith) ]
      | inl a ↦
          let x : InstalledLease = record {
            credential = e.credential;
            expires_at = now + (e.expires_at - server_time);
          } in
          elim (bytes_eq j e.id) [
            | yes p ↦ inl (
                rw a (
                  lookup-insert bytes_eq e.id j x m
                  ∙ ground arith
                  ∙ sym (lookup-insert bytes_eq e.id j x n)))
            | no p ↦ elim h [
              | inl k ↦ inl (
                  rw a (
                    lookup-insert bytes_eq e.id j x m
                    ∙ ground arith
                    ∙ sym (lookup-insert bytes_eq e.id j x n)))
              | inr k ↦ inr (ground arith)
            ]
          ]
    ])

target-kept :
    (now server_time : ℕ) (es : List LeaseEntry) (m : Installed) (j : Bytes)
    → has j (desired server_time es) ≡ false
    → lookup bytes_eq j (target now server_time es m) ≡ lookup bytes_eq j m
unfolding has any desired same_name
target-kept now server_time [] m j h = refl
target-kept now server_time (e ∷ es) m j h = elim (Bool-cases (ltb server_time e.expires_at)) [
  | inl y ↦
      let x : InstalledLease = record {
        credential = e.credential;
        expires_at = now + (e.expires_at - server_time);
      } in
      rw y (
        target-kept now server_time es (insert bytes_eq e.id x m) j (ground arith)
        ∙ ground (arith, lookup-insert bytes_eq e.id j x m))
  | inr n ↦ rw n (target-kept now server_time es m j (ground arith))
]

-- A removal that succeeds takes its own ID out.
remove_lease-installed :
    (s : LeaseSync) (id j : Bytes)
    → (remove_lease s id).1 ≡ true
    → installed_at (remove_lease s id).0 j ≡ ite (bytes_eq j id) none (installed_at s j)
unfolding remove_lease
remove_lease-installed s id j h = elim (Option-cases (lookup bytes_eq id s.installed)) [
  | inl n ↦ rw (n, remove_lease) (ground arith)
  | inr (x, f) ↦ elim (Bool-cases (succeeds s)) [
    | inl y ↦
        rw (f, y, remove_lease)
          (ground (arith, remove_user-installed (next s) id j, next-installed s j))
    | inr z ↦ absurd (ground (arith, rw (f, z, remove_lease) at h))
  ]
]

remove_others-installed :
    (s : LeaseSync) (wanted ids : List Bytes) (j : Bytes)
    → (remove_others s wanted ids).1 ≡ true
    → installed_at (remove_others s wanted ids).0 j
      ≡ (if not (has j wanted) && has j ids then none else installed_at s j)
unfolding remove_others has any same_name
remove_others-installed s wanted [] j h = ground arith
remove_others-installed s wanted (id ∷ ids) j h = elim (Bool-cases (has id wanted)) [
  | inl y ↦
      rw (y, remove_others)
        (remove_others-installed s wanted ids j (rw (y, remove_others) at h)
          ∙ elim (bytes_eq j id) [
            | yes p ↦ ground (arith, subst (λ k. has k wanted ≡ true) (sym p) y)
            | no p ↦ ground arith
          ])
  | inr n ↦
      let (first, rest) =
        and_true (remove_lease s id).1 (remove_others (remove_lease s id).0 wanted ids).1
          (rw (n, remove_others) at h) in
      rw (n, remove_others)
        (remove_others-installed (remove_lease s id).0 wanted ids j rest ∙ elim (bytes_eq j id) [
          | yes p ↦ ground (
            arith,
            subst (λ k. has k wanted ≡ false) (sym p) n,
            remove_lease-installed s id j first,
          )
          | no p ↦ ground (arith, remove_lease-installed s id j first)
        ])
]

-- A lease that is installed is among the installed IDs.
installed_ids-has :
    (j : Bytes) (m : Installed) → has j (installed_ids m) ≡ false → lookup bytes_eq j m ≡ none
unfolding has any same_name installed_ids lookup
installed_ids-has j [] h = refl
installed_ids-has j ((id, x) ∷ m) h = ground (arith, installed_ids-has j m)

-- What the removal of the other installed leases leaves of one of them.
gone :
    (o : Option InstalledLease) (b : Bool) → (b ≡ false → o ≡ none) → (if b then none else o) ≡ none
gone o true h = refl
gone o false h = h refl

nothing : (j : Bytes) → none ≡ lookup {V = InstalledLease} bytes_eq j []
unfolding lookup
nothing j = refl

-- A reconciliation that reports success has installed exactly the response's live leases, each
-- with its credential and its expiry on the relay's clock: no other lease is left.
pub reconcile-target :
    (s t : LeaseSync) (resp : LeaseSyncResponse) (now : ℕ) (j : Bytes)
    → reconcile s resp now ≡ (t, true)
    → installed_at t j ≡ lookup bytes_eq j (target now resp.server_time resp.leases [])
unfolding reconcile
reconcile-target s t resp now j h =
    let server_time = resp.server_time in
    let es = resp.leases in
    let u = (install_all s now server_time es).0 in
    let (installs, removes) = and_true _ _ (ap (λ r. r.1) h) in
    let first = install_all-target s now server_time es installs j in
    let second =
      remove_others-installed u (desired server_time es) (installed_ids u.installed) j removes in
    sym (ap (λ r. installed_at r.0 j) h)
    ∙ second
    ∙ elim (Bool-cases (has j (desired server_time es))) [
      | inl y ↦ rw y (first ∙ target-desired now server_time es s.installed [] j (inr y))
      | inr n ↦ rw n (
          gone (installed_at u j) (has j (installed_ids u.installed))
            (installed_ids-has j u.installed)
          ∙ nothing j
          ∙ sym (target-kept now server_time es [] j n))
    ]
