-- ===== src/Engine/Credentials/Announced.antt =====
-- internal/relayruntime/engine/credentials.go: what a relay announces is accepted: no exchange
-- retires it, nor what the broker serves.
use mathlib.Core.Path.{subst}
use openrung.Base.{
  ℕ, ◌≡◌, ◌⊎◌, refl, sym, inl, inr, Bool, true, not, ◌||◌, List, [], ◌∷◌, none, some, arith,
  Option-cases, if_elim,
}
use openrung.Base.Bytes.{Bytes, bytes_eq}
use openrung.Base.Map.{lookup, lookup-insert}
use openrung.Engine.Credentials.Schedule.{
  Derivation, Credential, CredentialSchedule, current_credential, previous_credential,
}
use openrung.Engine.Credentials.{
  CredentialRotation, ensure, confirm, keep_confirmed, announced, announce, is_kept, retire_each,
  retire, Reply, serving, unknown_relay, no_contact, Beat, settle_reply, exchange,
}

-- A credential that is kept stays registered.
pub lookup-retire_each :
    (d : Derivation) (c : CredentialRotation) (now : ℕ) (removed : Bytes → Bool) (email : Bytes)
    (x : Credential) (m : List (Bytes × Credential))
    → lookup bytes_eq email m ≡ some x
    → is_kept d c now email x ≡ true
    → lookup bytes_eq email (retire_each d c now removed m) ≡ some x
unfolding lookup retire_each
lookup-retire_each d c now removed email x [] l k = cc
lookup-retire_each d c now removed email x ((j, y) ∷ m) l k =
    let P : List (Bytes × Credential) → Type 0 = λ r. lookup bytes_eq email r ≡ some x in
    if_elim P (is_kept d c now j y || not (removed j))
      (λ t. ground (arith, l, k, lookup-retire_each d c now removed email x m))
      (λ f. ground (arith, l, k, f, lookup-retire_each d c now removed email x m))

-- What is registered stays so when another is ensured.
lookup-ensure :
    (c : CredentialRotation) (y : Credential) (added : Bool) (email : Bytes) (x : Credential)
    → lookup bytes_eq email c.registered ≡ some x
    → lookup bytes_eq email (ensure c y added).0.registered ≡ some x
unfolding ensure
lookup-ensure c y added email x l = elim (Option-cases (lookup bytes_eq y.email c.registered)) [
  | inr (z, e) ↦ rw (e, ensure) l
  | inl n ↦
      rw (n, ensure)
        (if_elim (λ (r : CredentialRotation × Bool). lookup bytes_eq email r.0.registered ≡ some x)
          added (λ _. ground (arith, l, n, lookup-insert bytes_eq y.email email y c.registered))
          (λ _. l))
]

-- An answer changes no registration.
settle_reply-registered :
    (c : CredentialRotation) (now : ℕ) (r : Reply)
    → ((settle_reply c now r).registered ≡ c.registered)
      × ((settle_reply c now r).schedule ≡ c.schedule)
unfolding settle_reply confirm
settle_reply-registered c now (serving []) = (refl, refl)
settle_reply-registered c now (serving (b ∷ bs)) = (refl, refl)
settle_reply-registered c now (unknown_relay none) = (refl, refl)
settle_reply-registered c now (unknown_relay (some [])) = (refl, refl)
settle_reply-registered c now (unknown_relay (some (b ∷ bs))) = (refl, refl)
settle_reply-registered c now no_contact = (refl, refl)

-- A credential of this ID is registered for the present or the previous period.
abbrev pub IsAccepted : Derivation → CredentialRotation → ℕ → Bytes → Type 0
IsAccepted d c now id =
    (x : Credential) × (email : Bytes) × (lookup bytes_eq email c.registered ≡ some x)
    × ((email ≡ (current_credential d c.schedule now).email)
        ⊎ (email ≡ (previous_credential d c.schedule now).email))
    × (x.id ≡ id)

announced-IsAccepted :
    (d : Derivation) (c : CredentialRotation) (now : ℕ)
    → (announced d c now ≡ []) ⊎ IsAccepted d c now (announced d c now)
unfolding announced
announced-IsAccepted d c now =
    let current = (current_credential d c.schedule now).email in
    let previous = (previous_credential d c.schedule now).email in
    elim (Option-cases (lookup bytes_eq current c.registered)) [
      | inr (x, e) ↦ inr (x, current, e, inl refl, rw (e, announced) refl)
      | inl n ↦ elim (Option-cases (lookup bytes_eq previous c.registered)) [
        | inr (x, e) ↦ inr (x, previous, e, inr refl, rw (n, e, announced) refl)
        | inl m ↦ inl (rw (n, m, announced) refl)
      ]
    ]

-- The emails of the present and of the previous period.
abbrev IsRecent : Derivation → CredentialSchedule → ℕ → Bytes → Type 0
IsRecent d s now email =
    (email ≡ (current_credential d s now).email) ⊎ (email ≡ (previous_credential d s now).email)

is_kept-IsRecent :
    (d : Derivation) (c : CredentialRotation) (now : ℕ) (email : Bytes) (x : Credential)
    → IsRecent d c.schedule now email
    → is_kept d c now email x ≡ true
unfolding is_kept
is_kept-IsRecent d c now email x (inl p) = ground (arith, p)
is_kept-IsRecent d c now email x (inr p) = ground (arith, p)

-- The credential that an exchange announces to the broker is registered when it ends, for the present
-- or the previous period, whatever Xray and the broker answer; unless none is announced.
pub exchange-IsAccepted :
    (d : Derivation) (c : CredentialRotation) (b : Beat)
    → ((exchange d c b).1 ≡ []) ⊎ IsAccepted d (exchange d c b).0 b.now (exchange d c b).1
unfolding exchange announce retire
exchange-IsAccepted d c b =
    let e = (ensure c (current_credential d c.schedule b.now) b.added).0 in
    let s = settle_reply e b.now b.reply in
    let (same_users, same_schedule) = settle_reply-registered e b.now b.reply in
    elim (announced-IsAccepted d e b.now) [
      | inl n ↦ inl n
      | inr (x, email, l, recent, i) ↦
          let still : IsRecent d s.schedule b.now email =
            subst (λ q. IsRecent d q b.now email) (sym same_schedule) recent in
          let there : lookup bytes_eq email s.registered ≡ some x = rw same_users l in
          inr (
            x,
            email,
            lookup-retire_each d s b.now b.removed email x s.registered there
                (is_kept-IsRecent d s b.now email x still),
            still,
            i,
          )
    ]

-- The broker is within its silence, and serves this credential.
is_kept-confirmed :
    (d : Derivation) (c : CredentialRotation) (now : ℕ) (email : Bytes) (x : Credential)
    → keep_confirmed c now ≡ true
    → x.id ≡ c.confirmed
    → is_kept d c now email x ≡ true
unfolding is_kept
is_kept-confirmed d c now email x k p = ground (arith, k, p)

-- A registered credential that the broker serves, as it last said, stays registered by an exchange, as
-- long as the broker was heard within the grace period.
pub exchange-keeps_confirmed :
    (d : Derivation) (c : CredentialRotation) (b : Beat) (email : Bytes) (x : Credential)
    → lookup bytes_eq email c.registered ≡ some x
    → x.id ≡ (exchange d c b).0.confirmed
    → keep_confirmed (exchange d c b).0 b.now ≡ true
    → lookup bytes_eq email (exchange d c b).0.registered ≡ some x
unfolding exchange announce retire keep_confirmed
exchange-keeps_confirmed d c b email x l p k =
    let e = (ensure c (current_credential d c.schedule b.now) b.added).0 in
    let s = settle_reply e b.now b.reply in
    let there : lookup bytes_eq email s.registered ≡ some x =
      rw (settle_reply-registered e b.now b.reply).0
        (lookup-ensure c (current_credential d c.schedule b.now) b.added email x l) in
    lookup-retire_each d s b.now b.removed email x s.registered there
      (is_kept-confirmed d s b.now email x k p)
