-- ===== src/Broker/Store/Enrollment.antt =====
-- What enrollment promises: stable identities, and the budget of a source.
use mathlib.Core.Path.{subst}
use openrung.Base.{
  ℕ, zero, suc, ◌+◌, ◌-◌, ◌≤◌, ◌<◌, ◌≡◌, ◌≢◌, refl, sym, ap, ◌∙◌, ◌⊎◌, inl, inr, Bool, true, false,
  ◌||◌, List, [], ◌∷◌, Option, none, some, arith, ltb, if◌then◌else◌, any, All, Option-cases,
  Bool-cases,
}
use openrung.Base.Int.{ℤ, pos, negsuc, sub_ℕ, less, is_zero}
use openrung.Base.Bytes.{Bytes, bytes_eq}
use openrung.Base.Map.{lookup, insert, lookup-insert}
use openrung.Broker.Store.{
  Store, User, enabled, disabled, Lease, Error, Result, ok, err, enrollment_limited,
}
use openrung.Broker.Store.Leases.{is_live}
use openrung.Broker.Store.Revocation.{KeyedById, lease_at, revoke_user_leases-none_live}
use openrung.Broker.Store.Users.{
  EnrollmentWindow, Counters, charge, charge_all, user_or_zero, enroll, settle, authenticate_user,
  set_user_status, counters_of,
}

-- Whether a window is exceeded by one more enrollment.
abbrev pub exceeded : Counters → ℕ → EnrollmentWindow → Bool
exceeded counters now w = ltb w.limit (charge counters now w).count

-- The window that counts an enrollment ends after it.
abbrev pub Open : Counters → ℕ → EnrollmentWindow → Type 0
Open counters now w = let c = charge counters now w in now < c.window_start + c.window

-- The wait after one window.
abbrev wait_after : Counters → ℕ → EnrollmentWindow → ℤ → ℤ
wait_after counters now w retry =
    let c = charge counters now w in
    let wait = sub_ℕ (c.window_start + c.window) now in
    if ltb w.limit c.count
    then (if is_zero retry || less wait retry then wait else retry)
    else retry

sub_ℕ-lt : (a b : ℕ) → b < a → (m : ℕ) × (sub_ℕ a b ≡ pos m) × (0 < m)
sub_ℕ-lt a b h = (a - b, ground arith, omega arith)

wait_after-IsPositive :
    (counters : Counters) (now : ℕ) (w : EnrollmentWindow) (n : ℕ)
    → Open counters now w
    → (m : ℕ) × (wait_after counters now w (pos n) ≡ pos m)
      × (ltb 0 m ≡ (ltb 0 n || exceeded counters now w))
wait_after-IsPositive counters now w zero o =
    let c = charge counters now w in
    let (k, e, k_pos) = sub_ℕ-lt (c.window_start + c.window) now o in
    elim (Bool-cases (exceeded counters now w)) [
      | inr f ↦ (0, rw f refl, rw f refl)
      | inl t ↦ (k, rw (t, e) refl, rw t (ground (arith, k_pos)))
    ]
wait_after-IsPositive counters now w (suc n) o =
    let c = charge counters now w in
    let (k, e, k_pos) = sub_ℕ-lt (c.window_start + c.window) now o in
    elim (Bool-cases (exceeded counters now w)) [
      | inr f ↦ (suc n, rw f refl, rw f (ground arith))
      | inl t ↦ (
        if ltb k (suc n) then k else suc n,
        rw (t, e) (ground arith),
        rw t (ground (arith, k_pos)),
      )
    ]

-- The wait that the loop ends with is positive exactly where it was before or a window is exceeded.
charge_all-IsPositive :
    (counters : Counters) (now : ℕ) (ws : List EnrollmentWindow) (n : ℕ) (next : Counters)
    → All (Open counters now) ws
    → (m : ℕ) × (nx : Counters) × (charge_all counters now ws (pos n) next ≡ (pos m, nx))
      × (ltb 0 m ≡ (ltb 0 n || any (exceeded counters now) ws))
unfolding charge_all any
charge_all-IsPositive counters now [] n next o = (n, next, refl, ground arith)
charge_all-IsPositive counters now (w ∷ ws) n next o =
    let nx = insert bytes_eq w.name (charge counters now w) next in
    let (k, e, h) = wait_after-IsPositive counters now w n o.0 in
    let (m, ny, f, g) = charge_all-IsPositive counters now ws k nx o.1 in
    (m, ny, ap (λ z. charge_all counters now ws z nx) e ∙ f, ground arith)

settle_limited :
    (s : Store) (key source : Bytes) (minted : Option Bytes) (now m : ℕ) (nx : Counters)
    → 0 < m
    → (n : ℕ) × (settle s key source minted now (pos m, nx) ≡ (s, err (enrollment_limited (suc n))))
unfolding settle
settle_limited s key source minted now zero nx h = absurd (omega arith)
settle_limited s key source minted now (suc n) nx h = (n, refl)

-- What the enrollment of a key under a minted ID gives.
abbrev pub Enrolls : Bytes → Bytes → Store × Result (User × Bool) → Type 0
Enrolls key id r =
    (t : Store) × (u : User) × (r ≡ (t, ok (u, true)))
    × (u.id ≡ id)
    × (u.public_key ≡ key)
    × (u.status ≡ enabled)
    × (lookup bytes_eq key t.user_ids_by_key ≡ some id)
    × (lookup bytes_eq id t.users ≡ some u)

lookup-insert_self :
    {V : Type 0} (k : Bytes) (v : V) (m : List (Bytes × V))
    → lookup bytes_eq k (insert bytes_eq k v m) ≡ some v
lookup-insert_self k v m = ground (arith, lookup-insert bytes_eq k k v m)

settle_open :
    (s : Store) (key source id : Bytes) (now m : ℕ) (nx : Counters)
    → ltb 0 m ≡ false
    → Enrolls key id (settle s key source (some id) now (pos m, nx))
unfolding settle enroll
settle_open s key source id now zero nx h =
    (_, _, refl, refl, refl, refl, lookup-insert_self key id _, lookup-insert_self id _ _)
settle_open s key source id now (suc n) nx h = absurd (ground arith)

unknown_key :
    (s : Store) (key source : Bytes) (ws : List EnrollmentWindow) (minted : Option Bytes) (now : ℕ)
    → lookup bytes_eq key s.user_ids_by_key ≡ none
    → authenticate_user s key source ws none minted now
      ≡ settle s key source minted now (charge_all (counters_of s source) now ws (pos 0) [])
unfolding authenticate_user
unknown_key s key source ws minted now h = rw (h, authenticate_user) refl

-- A key that has no user yet, on a source whose windows are open and with no other refusal: it is
-- refused, with the store unchanged, exactly where one more enrollment exceeds some window;
-- otherwise the key gets a new, enabled user under the minted ID, and is found under it afterwards.
pub authenticate_user-new :
    (s : Store) (key source : Bytes) (ws : List EnrollmentWindow) (id : Bytes) (now : ℕ)
    → lookup bytes_eq key s.user_ids_by_key ≡ none
    → All (Open (counters_of s source) now) ws
    → ((any (exceeded (counters_of s source) now) ws ≡ true)
        × ((n : ℕ) × (authenticate_user s key source ws none (some id) now
              ≡ (s, err (enrollment_limited (suc n))))))
      ⊎ ((any (exceeded (counters_of s source) now) ws ≡ false)
          × Enrolls key id (authenticate_user s key source ws none (some id) now))
authenticate_user-new s key source ws id now h o =
    let (m, nx, e, g) = charge_all-IsPositive (counters_of s source) now ws 0 [] o in
    let step =
      unknown_key s key source ws (some id) now h ∙ ap (settle s key source (some id) now) e in
    elim (Bool-cases (any (exceeded (counters_of s source) now) ws)) [
      | inl t ↦
          let (n, l) = settle_limited s key source (some id) now m nx (ground arith) in
          inl (t, (n, step ∙ l))
      | inr f ↦ inr (
        f,
        subst (Enrolls key id) (sym step) (settle_open s key source id now m nx (ground arith)),
      )
    ]

-- A sign-in that succeeds leaves the key and the ID of its user in the store.
abbrev Signed : Bytes → Store × Result (User × Bool) → Type 0
Signed key (t, ok (u, created)) =
    (lookup bytes_eq key t.user_ids_by_key ≡ some u.id) × (lookup bytes_eq u.id t.users ≡ some u)
Signed key (t, err e) = Unit

enroll-Signed :
    (s : Store) (key : Bytes) (minted : Option Bytes) (now : ℕ)
    → Signed key (enroll s key minted now)
unfolding enroll
enroll-Signed s key none now = tt
enroll-Signed s key (some id) now = (lookup-insert_self key id _, lookup-insert_self id _ _)

settle-Signed :
    (s : Store) (key source : Bytes) (minted : Option Bytes) (now : ℕ) (wait : ℤ) (nx : Counters)
    → Signed key (settle s key source minted now (wait, nx))
unfolding settle
settle-Signed s key source minted now (pos zero) nx = enroll-Signed _ key minted now
settle-Signed s key source minted now (pos (suc n)) nx = tt
settle-Signed s key source minted now (negsuc n) nx = enroll-Signed _ key minted now

authenticate_user-Signed :
    (s : Store) (key source : Bytes) (ws : List EnrollmentWindow) (refuse : Option Error)
    (minted : Option Bytes) (now : ℕ)
    → ((id : Bytes) → lookup bytes_eq key s.user_ids_by_key ≡ some id → (user_or_zero s id).id ≡ id)
    → Signed key (authenticate_user s key source ws refuse minted now)
unfolding authenticate_user
authenticate_user-Signed s key source ws refuse minted now keyed =
    elim (Option-cases (lookup bytes_eq key s.user_ids_by_key)) [
      | inr (id, e) ↦ rw (e, keyed id e, authenticate_user) (e, lookup-insert_self id _ s.users)
      | inl e ↦ elim (Option-cases refuse) [
        | inr (x, r) ↦ rw (e, r, authenticate_user) tt
        | inl r ↦ rw (e, r, authenticate_user) (settle-Signed s key source minted now _ _)
      ]
    ]

-- Two sign-ins with one key give one identity: after a successful sign-in, the next one succeeds
-- with the same user ID, makes no user, and needs no room in any window.
pub authenticate_user-again :
    (s : Store) (key source next_source : Bytes) (ws next_ws : List EnrollmentWindow)
    (refuse next_refuse : Option Error) (minted next_minted : Option Bytes) (now later : ℕ)
    (t : Store) (u : User) (created : Bool)
    → ((id : Bytes) → lookup bytes_eq key s.user_ids_by_key ≡ some id → (user_or_zero s id).id ≡ id)
    → authenticate_user s key source ws refuse minted now ≡ (t, ok (u, created))
    → ((authenticate_user t key next_source next_ws next_refuse next_minted later).1
        ≡ ok (record u { last_auth_at = later }, false))
unfolding authenticate_user user_or_zero
authenticate_user-again s key source next_source ws next_ws refuse next_refuse minted next_minted
      now later t u created keyed h =
    let g =
      subst (Signed key) h (authenticate_user-Signed s key source ws refuse minted now keyed) in
    rw (g.0, g.1, authenticate_user, user_or_zero) refl

-- After a user that the store knows is disabled, no lease of that user is live, then or later. The
-- store's leases are under their own IDs, and the time is not the zero time.
pub set_user_status-disabled :
    (s : Store) (id reason : Bytes) (now later : ℕ) (j : Bytes) (l : Lease)
    → KeyedById s
    → 0 < now
    → now ≤ later
    → lookup bytes_eq id s.users ≢ none
    → lease_at (set_user_status s id (some disabled) reason now).0 j ≡ some l
    → l.user_id ≡ id
    → is_live later l ≡ false
unfolding set_user_status
set_user_status-disabled s id reason now later j l keyed p le known h e =
    elim (Option-cases (lookup bytes_eq id s.users)) [
      | inl n ↦ absurd (known n)
      | inr (u, f) ↦
          revoke_user_leases-none_live s id now later j l keyed p le (rw (f, set_user_status) at h)
            e
    ]
