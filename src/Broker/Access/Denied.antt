-- ===== src/Broker/Access/Denied.antt =====
-- internal/broker/access.go and client_access.go: what an operator's decision on a user does to the
-- user's access.
use mathlib.Core.Path.{subst, sym}
use openrung.Base.{
  ℕ, ◌≡◌, refl, inl, inr, Bool, true, false, not, ◌&&◌, Option, none, some, arith, Option-cases,
  if_elim,
}
use openrung.Base.Bytes.{Bytes, bytes_eq}
use openrung.Base.Map.{lookup, insert, lookup-insert}
use openrung.Base.Space.{trim_space}
use openrung.Broker.SignIn.AccessToken.{verify_token}
use openrung.Broker.Store.{User, disabled, ok}
use openrung.Broker.Store.Users.{user_by_id, set_user_status}
use openrung.Broker.Store.Leases.{revoke_user_leases}
use openrung.Broker.Store.Telemetry.{is_empty}
use openrung.Broker.Access.{World, wake_revoked, change_status}
use openrung.Broker.Access.Handler.{
  AccessRequest, Settings, Circumstances, Answer, relays, authorize, with_limit, with_request,
  access, limit_of, valid_country,
}

-- The answer has relays.
abbrev pub has_relays : Answer → Bool
has_relays (relays body) = true
has_relays _ = false

-- A request that is refused, and leaves everything as it was.
abbrev pub IsRefused : World → World × Answer → Type 0
IsRefused w r = (r.0 ≡ w) × (has_relays r.1 ≡ false)

-- The status of a user that the store knows.
abbrev IsDisabled : World → Bytes → Type 0
IsDisabled w id = (u : User) × (lookup bytes_eq id w.store.users ≡ some u) × (u.status ≡ disabled)

module _ (h : Settings) (w : World) (c : Circumstances) (id : Bytes) (d : IsDisabled w id) where
  authorize-IsRefused :
      (relay_id country : Bytes) (limit : ℕ)
      → IsRefused w (authorize h w c id relay_id country limit)
  unfolding authorize user_by_id
  authorize-IsRefused relay_id country limit = rw (d.1, d.2, authorize, user_by_id) (refl, refl)

  with_request-IsRefused : (q : AccessRequest) → IsRefused w (with_request h w c id q)
  unfolding with_request with_limit
  with_request-IsRefused q = elim (Option-cases (limit_of q.limit)) [
    | inl n ↦ rw (n, with_request) (refl, refl)
    | inr (limit, f) ↦
        let relay_id = trim_space q.relay_id in
        let country = trim_space q.country in
        rw (f, with_request, with_limit)
          (if_elim (IsRefused w) (not (is_empty relay_id) && not (is_empty country))
            (λ _. (refl, refl))
            (λ _.
              if_elim (IsRefused w) (not (valid_country country)) (λ _. (refl, refl))
                (λ _. authorize-IsRefused relay_id country limit)))
  ]

  access-IsRefused :
      (request : Option AccessRequest)
      → verify_token h.codes h.tokens c.bearer c.now ≡ some id
      → IsRefused w (access h w c request)
  unfolding access
  access-IsRefused none e = rw (e, access) (refl, refl)
  access-IsRefused (some q) e = rw (e, access) (with_request-IsRefused q)

-- The decision is stored.
change_status-IsDisabled :
    (w : World) (id reason : Bytes) (t : ℕ) (u : User)
    → lookup bytes_eq id w.store.users ≡ some u
    → IsDisabled (change_status w id (some disabled) reason t).0 id
unfolding change_status wake_revoked set_user_status
change_status-IsDisabled w id reason t u e =
    let (s, ids) = revoke_user_leases w.store id t in
    let v : User = record u { status = disabled; disabled_at = t; disabled_reason = reason } in
    let m = insert bytes_eq id v s.users in
    let stored : set_user_status w.store id (some disabled) reason t
        ≡ (record s { users = m }, ok (v, ids)) =
      rw (e, set_user_status) refl in
    let there : lookup bytes_eq id m ≡ some v =
      ground (arith, lookup-insert bytes_eq id id v s.users) in
    subst (λ r. IsDisabled (wake_revoked w r).0 id) (sym stored) (v, there, refl)

-- Once an operator has disabled a user that the store knows, a token of that user, however long it is
-- still valid, gets no relays: the handler refuses every request, and issues and changes nothing.
pub access-change_status :
    (h : Settings) (w : World) (id reason : Bytes) (t : ℕ) (u : User) (c : Circumstances)
    (request : Option AccessRequest)
    → lookup bytes_eq id w.store.users ≡ some u
    → verify_token h.codes h.tokens c.bearer c.now ≡ some id
    → IsRefused
        (change_status w id (some disabled) reason t).0
        (access h (change_status w id (some disabled) reason t).0 c request)
access-change_status h w id reason t u c request e f =
    access-IsRefused h (change_status w id (some disabled) reason t).0 c id
      (change_status-IsDisabled w id reason t u e) request f
