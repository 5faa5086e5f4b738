-- ===== src/Broker/SignIn/Grants.antt =====
-- internal/broker/users.go, `authHandler`: what a token is given for, and that a challenge buys one.
use mathlib.Core.Path.{subst}
use openrung.Base.{ℕ, ◌≡◌, refl, ap, Bool, true, List, none, some, if_elim}
use openrung.Base.Bytes.{Bytes}
use openrung.Broker.Challenges.{consume}
use openrung.Broker.Store.{
  User, enabled, disabled, Error, Result, ok, err, datacenter_source, source_unclassified,
  enrollment_limited, relay_not_found, node_class_forbidden, user_not_found, user_disabled,
  invalid_user_status, lease_not_found, lease_cap_exceeded, mint_failed, identity_refused,
  wss_refused,
}
use openrung.Broker.Store.Users.{EnrollmentWindow, authenticate_user}
use openrung.Broker.SignIn.AccessToken.{Codes, AccessTokenCodec, issue_token}
use openrung.Broker.SignIn.{
  Identity, UserAuthRequest, Service, Surroundings, Response, granted, token_failed, not_enabled,
  invalid_key, refusal, valid_user_challenge, enrollment_refusal, canonical_user_public_key,
  parse_user_public_key, verify_user_auth, answer, authenticate, attempt, sign_in,
}
use openrung.Base.Space.{trim_space}

module _ (i : Identity) (k : Codes) (tokens : AccessTokenCodec)
    (windows : List EnrollmentWindow) where
  -- What the store and the codec gave for an answer.
  abbrev Issued : Surroundings → Result (User × Bool) → Response → Type 0
  Issued w result (granted id token expires_at) =
      (u : User) × (created : Bool) × (result ≡ ok (u, created))
      × (u.status ≡ enabled)
      × (u.id ≡ id)
      × (issue_token k tokens id w.now w.nonce ≡ some (token, expires_at))
  Issued w result _ = Unit

  refusal-Issued :
      (w : Surroundings) (result : Result (User × Bool)) (e : Error) → Issued w result (refusal e)
  unfolding refusal
  refusal-Issued w result relay_not_found = tt
  refusal-Issued w result node_class_forbidden = tt
  refusal-Issued w result user_not_found = tt
  refusal-Issued w result user_disabled = tt
  refusal-Issued w result invalid_user_status = tt
  refusal-Issued w result lease_not_found = tt
  refusal-Issued w result lease_cap_exceeded = tt
  refusal-Issued w result mint_failed = tt
  refusal-Issued w result identity_refused = tt
  refusal-Issued w result datacenter_source = tt
  refusal-Issued w result source_unclassified = tt
  refusal-Issued w result wss_refused = tt
  refusal-Issued w result (enrollment_limited wait) = tt

  answer-Issued :
      (w : Surroundings) (result : Result (User × Bool))
      → Issued w result (answer i k tokens windows w result)
  unfolding answer
  answer-Issued w (err e) = refusal-Issued w (err e) e
  answer-Issued w (ok (u, created)) =
      elim u.status
          as (λ x.
            u.status ≡ x
            → Issued w (ok (u, created)) (elim x as (λ _. Response) [
              | enabled ↦ elim (issue_token k tokens u.id w.now w.nonce) as (λ _. Response) [
                | none ↦ token_failed
                | some x ↦ granted u.id x.0 x.1
              ]
              | disabled ↦ not_enabled u.id
            ])) [
              | enabled ↦ λ p.
                  elim (issue_token k tokens u.id w.now w.nonce)
                      as (λ t.
                        issue_token k tokens u.id w.now w.nonce ≡ t
                        → Issued w (ok (u, created)) (elim t as (λ _. Response) [
                          | none ↦ token_failed
                          | some x ↦ granted u.id x.0 x.1
                        ])) [
                          | none ↦ λ q. tt
                          | some (token, expires_at) ↦ λ q. (u, created, refl, p, refl, q)
                        ]
                    refl
              | disabled ↦ λ p. tt
            ]
        refl

  -- What a token is given for: a key and a signature of it over the challenge, a challenge that was
  -- outstanding and no longer is, and an enabled user of the key.
  abbrev pub Earned :
      Surroundings → Service → UserAuthRequest → Service → Bytes → Bytes → ℕ → Type 0
  Earned w s request u id token expires_at =
      let challenge = trim_space request.challenge in
      (key : Bytes) × (canonical : Bytes) × (parse_user_public_key i request.public_key ≡ some key)
      × (canonical_user_public_key i key ≡ some canonical)
      × (verify_user_auth i key challenge request.signature ≡ true)
      × (consume s.challenges challenge w.now ≡ (u.challenges, true))
      × Issued w
          (authenticate_user s.store canonical w.source windows (enrollment_refusal w.class)
            w.minted w.now).1
          (granted id token expires_at)

  abbrev Outcome : Surroundings → Service → UserAuthRequest → Service × Response → Type 0
  Outcome w s request (u, response) =
      (id token : Bytes) (expires_at : ℕ)
      → response ≡ granted id token expires_at
      → Earned w s request u id token expires_at

  attempt-Earned :
      (w : Surroundings) (s : Service) (request : UserAuthRequest) (key canonical : Bytes)
      → parse_user_public_key i request.public_key ≡ some key
      → canonical_user_public_key i key ≡ some canonical
      → Outcome w s request (
          attempt i k tokens windows w s
            (trim_space request.challenge)
            key
            canonical
            request.signature)
  unfolding attempt authenticate
  attempt-Earned w s request key canonical p q =
      let challenge = trim_space request.challenge in
      let (challenges, accepted) = consume s.challenges challenge w.now in
      if_elim (Outcome w s request) accepted
        (λ yes.
          if_elim (Outcome w s request) (verify_user_auth i key challenge request.signature)
            (λ v id token expires_at e. (
              key,
              canonical,
              p,
              q,
              v,
              ap (λ b. (challenges, b)) yes,
              (let result =
                    (authenticate_user s.store canonical w.source windows
                      (enrollment_refusal w.class) w.minted w.now).1 in
                  subst (Issued w result) e (answer-Issued w result)),
            ))
            (λ _ id token expires_at e. cc))
        (λ _ id token expires_at e. cc)

  -- A token is given for a well-formed request alone whose key is parsed and whose signature over
  -- the challenge and that key is verified; the challenge was outstanding and has been consumed; the
  -- store gave an enabled user of the key, whose ID the answer names; and the token with its expiry
  -- is what the codec issues for that user.
  pub sign_in-Earned :
      (w : Surroundings) (s : Service) (request : UserAuthRequest) (id token : Bytes)
      (expires_at : ℕ)
      → (sign_in i k tokens windows w s (some request)).1 ≡ granted id token expires_at
      → Earned w s request (sign_in i k tokens windows w s (some request)).0 id token expires_at
  unfolding sign_in
  sign_in-Earned w s request =
      if_elim (Outcome w s request) (valid_user_challenge (trim_space request.challenge))
        (λ _.
          elim (parse_user_public_key i request.public_key)
              as (λ o.
                parse_user_public_key i request.public_key ≡ o
                → Outcome w s request (elim o as (λ _. Service × Response) [
                  | none ↦ (s, invalid_key)
                  | some key ↦ elim (canonical_user_public_key i key) as (λ _. Service × Response) [
                    | none ↦ (s, invalid_key)
                    | some canonical ↦
                        attempt i k tokens windows w s (trim_space request.challenge) key canonical
                          request.signature
                  ]
                ])) [
                  | none ↦ λ _ id token expires_at e. cc
                  | some key ↦ λ p.
                      elim (canonical_user_public_key i key)
                          as (λ o.
                            canonical_user_public_key i key ≡ o
                            → Outcome w s request (elim o as (λ _. Service × Response) [
                              | none ↦ (s, invalid_key)
                              | some canonical ↦
                                  attempt i k tokens windows w s (trim_space request.challenge) key
                                    canonical request.signature
                            ])) [
                              | none ↦ λ _ id token expires_at e. cc
                              | some canonical ↦ λ q. attempt-Earned w s request key canonical p q
                            ]
                        refl
                ]
            refl)
        (λ _ id token expires_at e. cc)
