-- ===== src/Engine/Credentials/Retired.antt =====
-- internal/relayruntime/engine/credentials.go: what a relay no longer accepts: the credentials of
-- past periods, and all but two when the broker is silent.
use openrung.Base.{
  ℕ, ◌+◌, ◌≤◌, ◌<◌, ◌≡◌, ◌⊎◌, refl, ◌∙◌, inl, inr, Bool, true, false, not, ◌||◌, List, [], ◌∷◌,
  none, some, arith, All, Option-cases, Bool-cases, if_elim,
}
use openrung.Base.Bytes.{Bytes, bytes_eq}
use openrung.Base.Map.{lookup}
use openrung.Engine.Credentials.Schedule.{
  Derivation, Credential, current_credential, previous_credential,
}
use openrung.Engine.Credentials.{
  CredentialRotation, ensure, keep_confirmed, announce, is_kept, retire_each, retire, Reply,
  serving, unknown_relay, no_contact, Beat, settle_reply, exchange,
}

-- The test of a registration that is left.
abbrev Stays : Derivation → CredentialRotation → ℕ → (Bytes → Bool) → Bytes × Credential → Type 0
Stays d c now removed e = (is_kept d c now e.0 e.1 || not (removed e.0)) ≡ true

retire_each-Stays :
    (d : Derivation) (c : CredentialRotation) (now : ℕ) (removed : Bytes → Bool)
    (m : List (Bytes × Credential))
    → All (Stays d c now removed) (retire_each d c now removed m)
unfolding retire_each
retire_each-Stays d c now removed [] = tt
retire_each-Stays d c now removed ((email, x) ∷ m) =
    if_elim (All (Stays d c now removed)) (is_kept d c now email x || not (removed email))
      (λ t. (t, retire_each-Stays d c now removed m)) (λ _. retire_each-Stays d c now removed m)

-- A user that Xray still accepts: of the present or the previous period, one that the broker serves
-- and was heard of within the grace period, or one that Xray did not remove.
abbrev pub Remains :
    Derivation → CredentialRotation → ℕ → (Bytes → Bool) → Bytes × Credential → Type 0
Remains d c now removed e =
    (e.0 ≡ (current_credential d c.schedule now).email)
    ⊎ ((e.0 ≡ (previous_credential d c.schedule now).email)
        ⊎ (((e.1.id ≡ c.confirmed)
              × (0 < c.last_contact)
              × (now ≤ c.last_contact + 3_600_000_000_000))
            ⊎ (removed e.0 ≡ false)))

Stays-Remains :
    (d : Derivation) (c : CredentialRotation) (now : ℕ) (removed : Bytes → Bool)
    (e : Bytes × Credential)
    → Stays d c now removed e
    → Remains d c now removed e
unfolding is_kept keep_confirmed
Stays-Remains d c now removed (email, x) h =
    elim (bytes_eq email (current_credential d c.schedule now).email) [
      | yes p ↦ inl p
      | no n ↦ elim (bytes_eq email (previous_credential d c.schedule now).email) [
        | yes p ↦ inr (inl p)
        | no m ↦ elim (Bool-cases (removed email)) [
          | inr f ↦ inr (inr (inr f))
          | inl t ↦ elim (bytes_eq x.id c.confirmed) [
            | yes p ↦ inr (inr (inl (p, ground arith, ground arith)))
            | no k ↦ ground arith
          ]
        ]
      ]
    ]

weaken :
    (d : Derivation) (c : CredentialRotation) (now : ℕ) (removed : Bytes → Bool)
    (m : List (Bytes × Credential))
    → All (Stays d c now removed) m
    → All (Remains d c now removed) m
weaken d c now removed [] a = tt
weaken d c now removed (e ∷ m) a =
    (Stays-Remains d c now removed e a.0, weaken d c now removed m a.1)

-- After an exchange, Xray accepts only credentials of the present and the previous period, the one that
-- the broker serves if it was heard within the hour, and those that could not be removed.
pub exchange-Remains :
    (d : Derivation) (c : CredentialRotation) (b : Beat)
    → All (Remains d (exchange d c b).0 b.now b.removed) (exchange d c b).0.registered
unfolding exchange announce retire
exchange-Remains d c b =
    let e = (ensure c (current_credential d c.schedule b.now) b.added).0 in
    let s = settle_reply e b.now b.reply in
    weaken d s b.now b.removed (retire_each d s b.now b.removed s.registered)
      (retire_each-Stays d s b.now b.removed s.registered)

-- The broker was not reached.
abbrev pub is_silent : Reply → Bool
is_silent (serving id) = false
is_silent (unknown_relay none) = true
is_silent (unknown_relay (some id)) = false
is_silent no_contact = true

abbrev pub exchange_all : Derivation → CredentialRotation → List Beat → CredentialRotation
exchange_all d c [] = c
exchange_all d c (b ∷ bs) = exchange_all d (exchange d c b).0 bs

ensure-last_contact :
    (c : CredentialRotation) (x : Credential) (added : Bool)
    → (ensure c x added).0.last_contact ≡ c.last_contact
unfolding ensure
ensure-last_contact c x added = elim (Option-cases (lookup bytes_eq x.email c.registered)) [
  | inr (z, e) ↦ rw (e, ensure) refl
  | inl n ↦
      rw (n, ensure)
        (if_elim (λ (r : CredentialRotation × Bool). r.0.last_contact ≡ c.last_contact) added
          (λ _. refl) (λ _. refl))
]

settle_reply-silent :
    (c : CredentialRotation) (now : ℕ) (r : Reply)
    → is_silent r ≡ true
    → (settle_reply c now r).last_contact ≡ c.last_contact
unfolding settle_reply
settle_reply-silent c now (serving id) h = cc
settle_reply-silent c now (unknown_relay none) h = refl
settle_reply-silent c now (unknown_relay (some id)) h = cc
settle_reply-silent c now no_contact h = refl

exchange-silent :
    (d : Derivation) (c : CredentialRotation) (b : Beat)
    → is_silent b.reply ≡ true
    → (exchange d c b).0.last_contact ≡ c.last_contact
unfolding exchange announce retire
exchange-silent d c b h =
    let x = current_credential d c.schedule b.now in
    settle_reply-silent (ensure c x b.added).0 b.now b.reply h ∙ ensure-last_contact c x b.added

exchange_all-silent :
    (d : Derivation) (c : CredentialRotation) (bs : List Beat)
    → All (λ (b : Beat). is_silent b.reply ≡ true) bs
    → (exchange_all d c bs).last_contact ≡ c.last_contact
exchange_all-silent d c [] a = refl
exchange_all-silent d c (b ∷ bs) a =
    exchange_all-silent d (exchange d c b).0 bs a.1 ∙ exchange-silent d c b a.0

-- A user of the present or the previous period.
abbrev pub Recent : Derivation → CredentialRotation → ℕ → Bytes × Credential → Type 0
Recent d c now e =
    (e.0 ≡ (current_credential d c.schedule now).email)
    ⊎ (e.0 ≡ (previous_credential d c.schedule now).email)

drop_past :
    (d : Derivation) (c : CredentialRotation) (now : ℕ) (removed : Bytes → Bool)
    (m : List (Bytes × Credential))
    → ((email : Bytes) → removed email ≡ true)
    → c.last_contact + 3_600_000_000_000 < now
    → All (Remains d c now removed) m
    → All (Recent d c now) m
drop_past d c now removed [] r o a = tt
drop_past d c now removed (e ∷ m) r o (inl p, a) = (inl p, drop_past d c now removed m r o a)
drop_past d c now removed (e ∷ m) r o (inr (inl p), a) = (inr p, drop_past d c now removed m r o a)
drop_past d c now removed (e ∷ m) r o (inr (inr (inl (p, q, t))), a) =
    (ground (arith, o, t), drop_past d c now removed m r o a)
drop_past d c now removed (e ∷ m) r o (inr (inr (inr f)), a) = ground (arith, r e.0, f)

-- While the broker is silent, an exchange more than an hour after it was last heard leaves only
-- credentials of the present and the previous period, if Xray removes the rest.
pub exchange_all-Recent :
    (d : Derivation) (c : CredentialRotation) (bs : List Beat) (b : Beat)
    → All (λ (x : Beat). is_silent x.reply ≡ true) bs
    → is_silent b.reply ≡ true
    → ((email : Bytes) → b.removed email ≡ true)
    → c.last_contact + 3_600_000_000_000 < b.now
    → All
        (Recent d (exchange d (exchange_all d c bs) b).0 b.now)
        (exchange d (exchange_all d c bs) b).0.registered
exchange_all-Recent d c bs b a h r o =
    let e = exchange_all d c bs in
    drop_past d (exchange d e b).0 b.now b.removed (exchange d e b).0.registered r
      (omega (arith, exchange-silent d e b h, exchange_all-silent d c bs a, o))
      (exchange-Remains d e b)
