-- ===== src/Broker/Access/Authorized.antt =====
-- internal/broker/client_access.go: who is granted what, the answers of POST /api/v1/access, whole.
use openrung.Base.{
  ◌≡◌, refl, inl, inr, ℕ, not, ◌&&◌, List, Option, none, some, Option-cases, if_elim,
}
use openrung.Base.Bytes.{Bytes, bytes_eq}
use openrung.Base.Map.{lookup}
use openrung.Base.Space.{trim_space}
use openrung.Broker.SignIn.AccessToken.{verify_token}
use openrung.Broker.Store.{Descriptor, User, enabled}
use openrung.Broker.Store.Users.{user_by_id}
use openrung.Broker.Store.Telemetry.{is_empty}
use openrung.Broker.Store.Revisions.{status_cases}
use openrung.Broker.Store.Issued.{IsKeyed}
use openrung.Broker.Access.{World}
use openrung.Broker.Access.Selection.{page_of-All}
use openrung.Broker.Access.IssuedFor.{IsSteady, Sound, with_page-Sound}
use openrung.Broker.Access.Handler.{
  AccessRequest, Settings, Circumstances, Answer, relays, no_list, page_of, with_page, with_user,
  authorize, with_limit, with_request, access, limit_of, valid_country,
}

-- What an answer with a relay was made of: the page of the ranked relays for the request, and what
-- `IssuedFor` says of it.
abbrev pub Granted :
    Settings → World → Circumstances → AccessRequest → Bytes → World × Answer → Type 0
Granted h w c q user_id r =
    (limit : ℕ) × (ranked : List Descriptor) × (limit_of q.limit ≡ some limit)
    × (c.ranked ≡ some ranked)
    × Sound h c (trim_space q.relay_id) (trim_space q.country) user_id
        (page_of h ranked (trim_space q.relay_id) (trim_space q.country) limit) w r

-- Whom an answer with relays was given: the user that the token names, who is enabled, for the
-- request as it was decoded.
abbrev pub Authorized :
    Settings → World → Circumstances → Option AccessRequest → World × Answer → Type 0
Authorized h w c request (v, relays body) =
    (q : AccessRequest) × (user_id : Bytes) × (u : User) × (request ≡ some q)
    × (verify_token h.codes h.tokens c.bearer c.now ≡ some user_id)
    × (lookup bytes_eq user_id w.store.users ≡ some u)
    × (u.status ≡ enabled)
    × Granted h w c q user_id (v, relays body)
Authorized h w c request (v, _) = Unit

module _ (h : Settings) (w : World) (c : Circumstances) (k : IsKeyed w.store) (s : IsSteady c) where
  module _ (q : AccessRequest) (user_id : Bytes) (limit : ℕ)
      (e : verify_token h.codes h.tokens c.bearer c.now ≡ some user_id)
      (f : limit_of q.limit ≡ some limit) where
    granted_to :
        (u : User) (ranked : List Descriptor) (r : World × Answer)
        → lookup bytes_eq user_id w.store.users ≡ some u
        → u.status ≡ enabled
        → c.ranked ≡ some ranked
        → Sound h c
            (trim_space q.relay_id)
            (trim_space q.country)
            user_id
            (page_of h ranked (trim_space q.relay_id) (trim_space q.country) limit)
            w
            r
        → Authorized h w c (some q) r
    granted_to u ranked (v, relays body) g n l a =
        (q, user_id, u, refl, e, g, n, (limit, ranked, f, l, a))
    granted_to u ranked (v, _) g n l a = tt

    with_ranked :
        (u : User) (r : Option (List Descriptor))
        → lookup bytes_eq user_id w.store.users ≡ some u
        → u.status ≡ enabled
        → c.ranked ≡ r
        → Authorized h w c (some q) (elim r as (λ _. World × Answer) [
          | none ↦ (w, no_list)
          | some ranked ↦
              with_page h w c user_id
                (trim_space q.relay_id)
                (page_of h ranked (trim_space q.relay_id) (trim_space q.country) limit)
        ])
    with_ranked u none g n l = tt
    with_ranked u (some ranked) g n l =
        let relay_id = trim_space q.relay_id in
        let country = trim_space q.country in
        let page = page_of h ranked relay_id country limit in
        granted_to u ranked (with_page h w c user_id relay_id page) g n l (
          with_page-Sound h c relay_id country user_id page w k s
            (page_of-All h ranked relay_id country limit))

    with_user-Authorized :
        (u : User)
        → lookup bytes_eq user_id w.store.users ≡ some u
        → u.status ≡ enabled
        → Authorized h w c
            (some q)
            (with_user h w c user_id (trim_space q.relay_id) (trim_space q.country) limit)
    unfolding with_user
    with_user-Authorized u g n = with_ranked u c.ranked g n refl

    authorize-Authorized :
        Authorized h w c
          (some q)
          (authorize h w c user_id (trim_space q.relay_id) (trim_space q.country) limit)
    unfolding authorize user_by_id
    authorize-Authorized = elim (Option-cases (lookup bytes_eq user_id w.store.users)) [
      | inl n ↦ rw (n, authorize, user_by_id) tt
      | inr (u, g) ↦ elim (status_cases u.status) [
        | inl d ↦ rw (g, d, authorize, user_by_id) tt
        | inr n ↦ rw (g, n, authorize, user_by_id) (with_user-Authorized u g n)
      ]
    ]

  with_request-Authorized :
      (q : AccessRequest) (user_id : Bytes)
      → verify_token h.codes h.tokens c.bearer c.now ≡ some user_id
      → Authorized h w c (some q) (with_request h w c user_id q)
  unfolding with_request with_limit
  with_request-Authorized q user_id e = elim (Option-cases (limit_of q.limit)) [
    | inl n ↦ rw (n, with_request) tt
    | inr (limit, f) ↦
        let relay_id = trim_space q.relay_id in
        let country = trim_space q.country in
        rw (f, with_request, with_limit)
          (if_elim (Authorized h w c (some q)) (not (is_empty relay_id) && not (is_empty country))
            (λ _. tt)
            (λ _.
              if_elim (Authorized h w c (some q)) (not (valid_country country)) (λ _. tt)
                (λ _. authorize-Authorized q user_id limit e f)))
  ]

-- Where POST /api/v1/access answers with relays, the bearer is a token of a user that is enabled;
-- and unless the answer has no relay, leases were issued to the user for the page of the ranked
-- relays, relays acknowledged in the wait, and each relay of the answer stands for one of the page
-- that may serve the request and is among those that acknowledged, and for one of the issued
-- leases, which is the user's, on that relay, valid for the configured lifetime from the issue, and
-- of a revision that the relay acknowledged. What is answered is the relay's descriptor with the
-- lease's credential as its client ID, with the access host where that may be used, and with its
-- times cut to seconds. The store's leases are each under their own ID, and other requests never
-- lower an acknowledged revision during the waits.
pub access-Authorized :
    (h : Settings) (w : World) (c : Circumstances) (request : Option AccessRequest)
    → IsKeyed w.store
    → IsSteady c
    → Authorized h w c request (access h w c request)
unfolding access
access-Authorized h w c request k s =
    elim (Option-cases (verify_token h.codes h.tokens c.bearer c.now)) [
      | inl n ↦ rw (n, access) tt
      | inr (user_id, e) ↦ elim request as (λ r. Authorized h w c r (access h w c r)) [
        | none ↦ rw (e, access) tt
        | some q ↦ rw (e, access) (with_request-Authorized h w c k s q user_id e)
      ]
    ]
