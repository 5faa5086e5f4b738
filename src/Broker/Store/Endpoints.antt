-- ===== src/Broker/Store/Endpoints.antt =====
-- What a registration leaves of the directory: its endpoint, its token, and the other relays.
use mathlib.Core.Path.{subst}
use openrung.Base.{
  ℕ, ◌<◌, ◌≡◌, ◌≢◌, refl, sym, ap, ◌∙◌, ◌⊎◌, inl, inr, Bool, true, false, ◌&&◌, List, [], ◌∷◌,
  Option, none, some, arith, ◌==◌, ite, Option-cases, Bool-cases,
}
use openrung.Base.Bytes.{Bytes, bytes_eq}
use openrung.Base.Map.{lookup, insert, remove, lookup-insert, lookup-remove}
use openrung.Base.Member.{Member}
use openrung.Broker.Store.{
  Store, Descriptor, GeoLocation, Error, Result, ok, err, node_class_forbidden, mint_failed,
}
use openrung.Broker.Store.Leases.{same, put_row}
use openrung.Broker.Store.Directory.{
  is_foundation, same_endpoint, seizes, preserve, replaced, remove_all, located, reset_applied,
  install, RegisterRequest, RelayCrypto, register, register_checked, descriptor_of,
  normalize_node_class,
}

-- The relay that the store holds under an ID.
abbrev pub relay_at : Store → Bytes → Option Descriptor
relay_at s id = lookup bytes_eq id s.relays

-- The loop refuses, or has an ID among those to replace.
abbrev Covers : Bytes → Option (List Bytes × Option (GeoLocation × ℕ)) → Type 0
Covers j none = Unit
Covers j (some (ids, h)) = Member j ids

Covers-next :
    (j id : Bytes) (o : Option (List Bytes × Option (GeoLocation × ℕ)))
    → (j ≡ id) ⊎ Covers j o
    → Covers j (elim o [ none ↦ none | some (ids, h) ↦ some (id ∷ ids, h) ])
Covers-next j id none c = tt
Covers-next j id (some (ids, h)) c = c

-- Every relay on the endpoint is among those to replace.
replaced-Covers :
    (d : Descriptor) (now : ℕ) (m : List (Bytes × Descriptor)) (g : Option (GeoLocation × ℕ))
    (j : Bytes) (x : Descriptor)
    → lookup bytes_eq j m ≡ some x
    → same_endpoint x d ≡ true
    → Covers j (replaced d now m g)
unfolding replaced lookup
replaced-Covers d now [] g j x f p = absurd (ground arith)
replaced-Covers d now ((id, y) ∷ m) g j x f p = elim (Bool-cases (same_endpoint y d)) [
  | inr n ↦ rw (n, replaced) (replaced-Covers d now m g j x (ground arith) p)
  | inl s ↦ elim (Bool-cases (seizes d y now)) [
    | inl z ↦ rw (s, z, replaced) tt
    | inr z ↦
        rw (s, z, replaced)
          (Covers-next j id (replaced d now m (preserve d y g)) (elim (bytes_eq j id) [
            | yes e ↦ inl e
            | no e ↦ inr (replaced-Covers d now m (preserve d y g) j x (ground arith) p)
          ]))
  ]
]

-- A relay that the registration would seize makes the loop refuse.
replaced-refuses :
    (d : Descriptor) (now : ℕ) (m : List (Bytes × Descriptor)) (g : Option (GeoLocation × ℕ))
    (j : Bytes) (x : Descriptor)
    → lookup bytes_eq j m ≡ some x
    → same_endpoint x d ≡ true
    → seizes d x now ≡ true
    → replaced d now m g ≡ none
unfolding replaced lookup
replaced-refuses d now [] g j x f p q = absurd (ground arith)
replaced-refuses d now ((id, y) ∷ m) g j x f p q =
    ground (arith, replaced-refuses d now m g j x, replaced-refuses d now m (preserve d y g) j x)

lookup-remove_all :
    (j : Bytes) (ids : List Bytes) (m : List (Bytes × Descriptor))
    → (lookup bytes_eq j (remove_all ids m) ≡ none)
      ⊎ (lookup bytes_eq j (remove_all ids m) ≡ lookup bytes_eq j m)
unfolding remove_all
lookup-remove_all j [] m = inr refl
lookup-remove_all j (id ∷ ids) m =
    ground (arith, lookup-remove_all j ids (remove bytes_eq id m), lookup-remove bytes_eq id j m)

lookup-remove_all-none :
    (j : Bytes) (ids : List Bytes) (m : List (Bytes × Descriptor))
    → lookup bytes_eq j m ≡ none
    → lookup bytes_eq j (remove_all ids m) ≡ none
lookup-remove_all-none j ids m h = ground (arith, lookup-remove_all j ids m)

lookup-remove_all-Member :
    (j : Bytes) (ids : List Bytes) (m : List (Bytes × Descriptor))
    → Member j ids
    → lookup bytes_eq j (remove_all ids m) ≡ none
unfolding remove_all
lookup-remove_all-Member j [] m k = elim k [ ]
lookup-remove_all-Member j (id ∷ ids) m (inl e) =
    lookup-remove_all-none j ids (remove bytes_eq id m)
      (ground (arith, lookup-remove bytes_eq id j m))
lookup-remove_all-Member j (id ∷ ids) m (inr k) =
    lookup-remove_all-Member j ids (remove bytes_eq id m) k

reset_applied-relays : (s : Store) (id token : Bytes) → (reset_applied s id token).relays ≡ s.relays
unfolding reset_applied put_row
reset_applied-relays s id [] = refl
reset_applied-relays s id (c ∷ token) = refl

relay_at-installed :
    (s : Store) (d e : Descriptor) (ids : List Bytes) (token j : Bytes)
    → relay_at
        (reset_applied
          (record s { relays = insert bytes_eq d.id e (remove_all ids s.relays) })
          d.id
          token)
        j
      ≡ ite (bytes_eq j d.id) (some e) (lookup bytes_eq j (remove_all ids s.relays))
relay_at-installed s d e ids token j =
    ap (lookup bytes_eq j) (
      reset_applied-relays (record s { relays = insert bytes_eq d.id e (remove_all ids s.relays) })
        d.id token)
    ∙ lookup-insert bytes_eq d.id j e (remove_all ids s.relays)

-- A relay on the endpoint is not left by the removal.
endpoint_cleared :
    (s : Store) (d : Descriptor) (now : ℕ) (ids : List Bytes) (g : Option (GeoLocation × ℕ))
    (j : Bytes) (x : Descriptor)
    → replaced d now s.relays none ≡ some (ids, g)
    → same_endpoint x d ≡ true
    → lookup bytes_eq j (remove_all ids s.relays) ≢ some x
endpoint_cleared s d now ids g j x e p h = elim (lookup-remove_all j ids s.relays) [
  | inl n ↦ cc
  | inr k ↦
      let c = subst (Covers j) e (replaced-Covers d now s.relays none j x (sym k ∙ h) p) in
      absurd (ground (arith, lookup-remove_all-Member j ids s.relays c))
]

-- What a registration that succeeds leaves: the relay under its ID, and no other on its endpoint.
abbrev pub Sole : Store × Result Descriptor → Type 0
Sole (t, ok e) =
    (relay_at t e.id ≡ some e)
    × ((j : Bytes) (x : Descriptor) → relay_at t j ≡ some x → same_endpoint x e ≡ true → j ≡ e.id)
Sole (t, err e) = Unit

located_lem :
    (d : Descriptor) (g : Option (GeoLocation × ℕ))
    → ((located d g).id ≡ d.id)
      × ((x : Descriptor) → same_endpoint x (located d g) ≡ same_endpoint x d)
unfolding located same_endpoint
located_lem d none = (refl, λ x. refl)
located_lem d (some (g, at)) = (refl, λ x. refl)

install-Sole : (s : Store) (d : Descriptor) (now : ℕ) → Sole (install s d now)
unfolding install
install-Sole s d now = elim (Option-cases (replaced d now s.relays none)) [
  | inl n ↦ rw (n, install) tt
  | inr ((ids, g), e) ↦
      let at = relay_at-installed s d (located d g) ids d.lease_token in
      let (same_id, same_place) = located_lem d g in
      rw (e, install)
        (
          ground (arith, at d.id, same_id, at (located d g).id),
          λ j x h p. elim (bytes_eq j d.id) [
            | yes q ↦ q ∙ sym same_id
            | no q ↦ absurd (
                endpoint_cleared s d now ids g j x e (sym (same_place x) ∙ p)
                  (ground (arith, at j)))
          ],
        )
]

-- The endpoint of a live foundation relay refuses another class.
install_refuses :
    (s : Store) (d : Descriptor) (now : ℕ) (j : Bytes) (x : Descriptor)
    → relay_at s j ≡ some x
    → same_endpoint x d ≡ true
    → seizes d x now ≡ true
    → install s d now ≡ (s, err node_class_forbidden)
unfolding install
install_refuses s d now j x h p q =
    rw (replaced-refuses d now s.relays none j x h p q, install) refl

-- A registration refuses and changes nothing, or installs the descriptor of its request.
module _ (P : Store × Result Descriptor → Type 0) (crypto : RelayCrypto) (s : Store)
    (q : RegisterRequest) (now ttl : ℕ) (refuses : (e : Error) → P (s, err e))
    (installs : (key : Option Bytes) (id token : Bytes)
      → P (install s (descriptor_of q key id token now ttl) now)) where
  register_checked_elim :
      (r : Result (Option Bytes)) (w : Option Error) (minted_id minted_token : Option Bytes)
      → P (register_checked crypto s q now ttl r w minted_id minted_token)
  unfolding register_checked
  register_checked_elim (err e) w i t = refuses e
  register_checked_elim (ok key) (some e) i t = refuses e
  register_checked_elim (ok (some k)) none i none = refuses mint_failed
  register_checked_elim (ok (some k)) none i (some token) = installs (some k) _ token
  register_checked_elim (ok none) none none t = refuses mint_failed
  register_checked_elim (ok none) none (some id) t = installs none id []

  pub register_elim :
      (minted_id minted_token : Option Bytes)
      → P (register crypto s q now ttl minted_id minted_token)
  unfolding register
  register_elim minted_id minted_token = register_checked_elim _ _ minted_id minted_token

-- A registration that succeeds is stored under its ID, and no other relay is left on its endpoint.
pub register-Sole :
    (crypto : RelayCrypto) (s t : Store) (q : RegisterRequest) (now ttl : ℕ)
    (minted_id minted_token : Option Bytes) (d : Descriptor)
    → register crypto s q now ttl minted_id minted_token ≡ (t, ok d)
    → (relay_at t d.id ≡ some d)
      × ((j : Bytes) (x : Descriptor) → relay_at t j ≡ some x → same_endpoint x d ≡ true → j ≡ d.id)
register-Sole crypto s t q now ttl minted_id minted_token d h = subst Sole h (
    register_elim Sole crypto s q now ttl (λ e. tt)
      (λ key id token. install-Sole s (descriptor_of q key id token now ttl) now) minted_id
      minted_token)

-- Whether a relay is on the endpoint that a request asks for.
abbrev pub asks_for : RegisterRequest → Descriptor → Bool
asks_for q x = same x.public_host q.public_host && x.public_port == q.public_port

-- While a foundation relay is live on an endpoint, a registration of another class on it is refused
-- and leaves the store unchanged.
pub register-keeps_foundation :
    (crypto : RelayCrypto) (s : Store) (q : RegisterRequest) (now ttl : ℕ)
    (minted_id minted_token : Option Bytes) (j : Bytes) (x : Descriptor)
    → relay_at s j ≡ some x
    → is_foundation x.node_class ≡ true
    → now < x.expires_at
    → asks_for q x ≡ true
    → is_foundation (normalize_node_class q.node_class) ≡ false
    → (e : Error) × (register crypto s q now ttl minted_id minted_token ≡ (s, err e))
unfolding same_endpoint descriptor_of seizes
register-keeps_foundation crypto s q now ttl minted_id minted_token j x h foundation live asks
      other =
    register_elim (λ r. (e : Error) × (r ≡ (s, err e))) crypto s q now ttl (λ e. (e, refl))
      (λ key id token.
        let d = descriptor_of q key id token now ttl in
        (
          node_class_forbidden,
          install_refuses s d now j x h asks (rw (other, foundation) (ground arith)),
        ))
      minted_id minted_token
