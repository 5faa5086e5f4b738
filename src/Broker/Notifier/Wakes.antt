-- ===== src/Broker/Notifier/Wakes.antt =====
-- internal/broker/leases.go, `leaseNotifier`: what every operation keeps of the subscriptions.
use openrung.Base.{
  ℕ, zero, suc, ◌+◌, ◌-◌, ◌<◌, ◌≡◌, refl, ap, ◌⊎◌, inl, inr, Bool, true, false, not, ◌&&◌, List, [],
  ◌∷◌, Option, none, some, arith, ◌==◌, if◌then◌else◌, All, Option-cases, if_elim,
}
use openrung.Base.Bytes.{Bytes, bytes_eq}
use openrung.Base.Map.{lookup, insert, remove, lookup-insert, lookup-remove}
use openrung.Broker.Notifier.{
  Subscription, Notifier, set_at, subscribe, nth, mark, registered, drop_ref, release,
}

-- How many subscriptions of a generation are not released.
abbrev pub live : ℕ → List Subscription → ℕ
live g [] = 0
live g (s ∷ ss) = (if not s.released && (s.generation == g) then 1 else 0) + live g ss

-- A subscription that is not released is woken, or the next broadcast of its key wakes it.
abbrev pub Waits : List (Bytes × ℕ) → (ℕ → Bool) → ℕ → Subscription → Type 0
Waits waiters closed made s =
    (s.generation < made)
    × (s.released ≡ false
        → (closed s.generation ≡ true) ⊎ (lookup bytes_eq s.key waiters ≡ some s.generation))

pub record IsSound (n : Notifier) : Type 0 where
  pub counts : (g : ℕ) → n.refs g ≡ live g n.subscriptions
  pub made : (key : Bytes) (g : ℕ) → lookup bytes_eq key n.waiters ≡ some g → g < n.made
  pub waits : All (Waits n.waiters n.closed n.made) n.subscriptions

pub All-mono :
    (P Q : Subscription → Type 0) (ss : List Subscription)
    → ((s : Subscription) → P s → Q s)
    → All P ss
    → All Q ss
All-mono P Q [] f h = tt
All-mono P Q (s ∷ ss) f h = (f s h.0, All-mono P Q ss f h.1)

unmade_live :
    (w : List (Bytes × ℕ)) (c : ℕ → Bool) (m : ℕ) (ss : List Subscription)
    → All (Waits w c m) ss
    → live m ss ≡ 0
unmade_live w c m [] h = refl
unmade_live w c m (s ∷ ss) h = ground (arith, unmade_live w c m ss h.1, h.0.0)

insert_cases :
    (key k : Bytes) (v : ℕ) (m : List (Bytes × ℕ)) (g : ℕ)
    → lookup bytes_eq k (insert bytes_eq key v m) ≡ some g
    → (v ≡ g) ⊎ (lookup bytes_eq k m ≡ some g)
insert_cases key k v m g e = elim (bytes_eq k key) [
  | yes p ↦ inl (ground (arith, lookup-insert bytes_eq key k v m))
  | no p ↦ inr (ground (arith, lookup-insert bytes_eq key k v m))
]

lookup-insert_self :
    (key : Bytes) (v : ℕ) (m : List (Bytes × ℕ))
    → lookup bytes_eq key (insert bytes_eq key v m) ≡ some v
lookup-insert_self key v m = ground (arith, lookup-insert bytes_eq key key v m)

Waits-insert :
    (n : Notifier) (key : Bytes) (s : Subscription)
    → lookup bytes_eq key n.waiters ≡ none
    → Waits n.waiters n.closed n.made s
    → Waits (insert bytes_eq key n.made n.waiters) (set_at n.closed n.made false) (n.made + 1) s
unfolding set_at
Waits-insert n key s f (lt, h) = (
  omega (arith, lt),
  λ r. elim (h r) [
    | inl c ↦ inl (ground (arith, c, lt))
    | inr e ↦ inr (ground (arith, lookup-insert bytes_eq key s.key n.made n.waiters))
  ],
)

pub subscribe-IsSound : (n : Notifier) (key : Bytes) → IsSound n → IsSound (subscribe n key)
unfolding subscribe set_at
subscribe-IsSound n key v = elim (Option-cases (lookup bytes_eq key n.waiters)) [
  | inr (g, f) ↦
      rw (f, subscribe)
        (record {
          counts = λ h. ground (arith, v.counts h, v.counts g);
          made = v.made;
          waits = ((v.made key g f, λ _. inr f), v.waits);
        })
  | inl f ↦
      rw (f, subscribe)
        (record {
          counts = λ h.
              ground
                (arith, v.counts h, unmade_live n.waiters n.closed n.made n.subscriptions v.waits);
          made = λ k g e. elim (insert_cases key k n.made n.waiters g e) [
            | inl p ↦ omega (arith, p)
            | inr p ↦ omega (arith, v.made k g p)
          ];
          waits = (
            (omega arith, λ _. inr (lookup-insert_self key n.made n.waiters)),
            All-mono (Waits n.waiters n.closed n.made)
                (Waits (insert bytes_eq key n.made n.waiters) (set_at n.closed n.made false)
                  (n.made + 1))
                n.subscriptions (λ s h. Waits-insert n key s f h) v.waits,
          );
        })
]

live-mark :
    (i : ℕ) (ss : List Subscription) (s : Subscription) (g : ℕ)
    → nth i ss ≡ some s
    → s.released ≡ false
    → live g (mark i ss) + (if s.generation == g then 1 else 0) ≡ live g ss
unfolding nth mark
live-mark i [] s g e r = absurd cc
live-mark zero (x ∷ ss) s g e r = ground (
  arith,
  ap (λ (o : Option Subscription). elim o as (λ _. ℕ) [ none ↦ 0 | some y ↦ y.generation ]) e,
  ap (λ (o : Option Subscription). elim o as (λ _. Bool) [ none ↦ true | some y ↦ y.released ]) e,
)
live-mark (suc i) (x ∷ ss) s g e r = omega (arith, live-mark i ss s g e r)

remove-some :
    (key k : Bytes) (m : List (Bytes × ℕ)) (g : ℕ)
    → lookup bytes_eq k (remove bytes_eq key m) ≡ some g
    → lookup bytes_eq k m ≡ some g
remove-some key k m g e = elim (bytes_eq k key) [
  | yes p ↦ absurd (ground (arith, lookup-remove bytes_eq key k m))
  | no p ↦ ground (arith, lookup-remove bytes_eq key k m)
]

pub broadcast_one :
    (n : Notifier) (key : Bytes) (g : ℕ)
    → IsSound n
    → lookup bytes_eq key n.waiters ≡ some g
    → IsSound
        (record n { closed = set_at n.closed g true; waiters = remove bytes_eq key n.waiters })
unfolding set_at
broadcast_one n key g v f = record {
  counts = v.counts;
  made = λ k h e. v.made k h (remove-some key k n.waiters h e);
  waits =
      All-mono (Waits n.waiters n.closed n.made)
        (Waits (remove bytes_eq key n.waiters) (set_at n.closed g true) n.made) n.subscriptions
        (λ s h. (
          h.0,
          λ r. elim (h.1 r) [
            | inl c ↦ inl (ground (arith, c))
            | inr e ↦ elim (bytes_eq s.key key) [
              | yes p ↦ inl (ground (arith, e, f))
              | no p ↦ inr (ground (arith, lookup-remove bytes_eq key s.key n.waiters))
            ]
          ],
        ))
        v.waits;
}

mark-Waits :
    (w : List (Bytes × ℕ)) (c : ℕ → Bool) (m i : ℕ) (ss : List Subscription)
    → All (Waits w c m) ss
    → All (Waits w c m) (mark i ss)
unfolding mark
mark-Waits w c m i [] h = tt
mark-Waits w c m zero (s ∷ ss) h = ((h.0.0, λ r. absurd cc), h.1)
mark-Waits w c m (suc i) (s ∷ ss) h = (h.0, mark-Waits w c m i ss h.1)

-- A generation that nobody waits for may be dropped.
remove-Waits :
    (w : List (Bytes × ℕ)) (c : ℕ → Bool) (m g : ℕ) (key : Bytes) (ss : List Subscription)
    → lookup bytes_eq key w ≡ some g
    → live g ss ≡ 0
    → All (Waits w c m) ss
    → All (Waits (remove bytes_eq key w) c m) ss
remove-Waits w c m g key [] f z h = tt
remove-Waits w c m g key (s ∷ ss) f z h = (
  (
    h.0.0,
    λ r. elim (h.0.1 r) [
      | inl d ↦ inl d
      | inr e ↦ elim (bytes_eq s.key key) [
        | yes p ↦ absurd (ground (arith, e, f, z, r))
        | no p ↦ inr (ground (arith, lookup-remove bytes_eq key s.key w))
      ]
    ],
  ),
  remove-Waits w c m g key ss f (ground (arith, z)) h.1,
)

registered_lem : (o : Option ℕ) (g : ℕ) → registered o g ≡ true → o ≡ some g
registered_lem none g h = absurd (ground arith)
registered_lem (some h) g e = ap some (ground arith)

pub release-IsSound : (n : Notifier) (i : ℕ) → IsSound n → IsSound (release n i)
unfolding release drop_ref set_at
release-IsSound n i v = elim (Option-cases (nth i n.subscriptions)) [
  | inl z ↦ rw (z, release) v
  | inr (s, f) ↦
      rw (f, release)
        (if_elim IsSound s.released (λ _. v)
          (λ r.
            let counted : (g : ℕ)
                → set_at n.refs s.generation (n.refs s.generation - 1) g
                  ≡ live g (mark i n.subscriptions) =
              λ g.
                ground
                  (arith, v.counts g, v.counts s.generation, live-mark i n.subscriptions s g f r) in
            let waits = mark-Waits n.waiters n.closed n.made i n.subscriptions v.waits in
            if_elim IsSound
              ((n.refs s.generation - 1) == 0
                && registered (lookup bytes_eq s.key n.waiters) s.generation)
              (λ y. record {
                counts = counted;
                made = λ k g e. v.made k g (remove-some s.key k n.waiters g e);
                waits =
                    remove-Waits n.waiters n.closed n.made s.generation s.key
                      (mark i n.subscriptions)
                      (registered_lem (lookup bytes_eq s.key n.waiters) s.generation (ground arith))
                      (ground (arith, counted s.generation)) waits;
              })
              (λ _. record { counts = counted; made = v.made; waits = waits })))
]
