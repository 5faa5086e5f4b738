-- ===== src/Broker/SignIn/Once.antt =====
-- internal/broker/users.go, `authHandler`: a challenge buys one token.
use mathlib.Core.Path.{subst}
use openrung.Base.{
  ℕ, ◌≡◌, ◌≢◌, refl, ap, Bool, true, false, List, [], ◌∷◌, Option, none, some, arith, inl, inr,
  Option-cases, if_elim,
}
use openrung.Base.Bytes.{Bytes, bytes_eq}
use openrung.Base.Map.{lookup, lookup-remove}
use openrung.Broker.Challenges.{ChallengeTable, consume}
use openrung.Broker.Store.Users.{EnrollmentWindow}
use openrung.Broker.SignIn.AccessToken.{Codes, AccessTokenCodec}
use openrung.Broker.SignIn.{
  Identity, UserAuthRequest, Service, Surroundings, Response, granted, invalid_key,
  valid_user_challenge, canonical_user_public_key, parse_user_public_key, verify_user_auth,
  authenticate, attempt, sign_in,
}
use openrung.Base.Space.{trim_space}
use openrung.Broker.SignIn.Grants.{sign_in-Earned}

abbrev pub IsSpent : Bytes → Service → Type 0
IsSpent challenge s = lookup bytes_eq challenge s.challenges.entries ≡ none

consume-IsSpent :
    (t : ChallengeTable) (c d : Bytes) (now : ℕ)
    → lookup bytes_eq c t.entries ≡ none
    → lookup bytes_eq c (consume t d now).0.entries ≡ none
unfolding consume
consume-IsSpent t c d now h = elim (Option-cases (lookup bytes_eq d t.entries)) [
  | inl n ↦ rw (n, consume) h
  | inr (x, f) ↦ rw (f, consume) (ground (arith, lookup-remove bytes_eq d c t.entries))
]

consume_spends :
    (t : ChallengeTable) (c : Bytes) (now : ℕ)
    → (consume t c now).1 ≡ true
    → lookup bytes_eq c (consume t c now).0.entries ≡ none
unfolding consume
consume_spends t c now h = elim (Option-cases (lookup bytes_eq c t.entries)) [
  | inl n ↦ rw (n, consume) n
  | inr (x, f) ↦ rw (f, consume) (ground (arith, lookup-remove bytes_eq c c t.entries))
]

consume_spent :
    (t : ChallengeTable) (c : Bytes) (now : ℕ)
    → lookup bytes_eq c t.entries ≡ none
    → (consume t c now).1 ≡ false
unfolding consume
consume_spent t c now h = rw (h, consume) refl

module _ (i : Identity) (k : Codes) (tokens : AccessTokenCodec)
    (windows : List EnrollmentWindow) where
  -- The sign-ins that a broker serves one after the other.
  unfoldable pub sign_in_all : Service → List (Surroundings × Option UserAuthRequest) → Service
  sign_in_all s [] = s
  sign_in_all s ((w, request) ∷ rs) = sign_in_all (sign_in i k tokens windows w s request).0 rs

  attempt-IsSpent :
      (w : Surroundings) (s : Service) (c challenge key canonical signature : Bytes)
      → IsSpent c s
      → IsSpent c (attempt i k tokens windows w s challenge key canonical signature).0
  unfolding attempt authenticate
  attempt-IsSpent w s c challenge key canonical signature h =
      let (challenges, accepted) = consume s.challenges challenge w.now in
      let g = consume-IsSpent s.challenges c challenge w.now h in
      if_elim (λ (r : Service × Response). IsSpent c r.0) accepted
        (λ _.
          if_elim (λ (r : Service × Response). IsSpent c r.0)
            (verify_user_auth i key challenge signature) (λ _. g) (λ _. g))
        (λ _. g)

  sign_in-IsSpent :
      (w : Surroundings) (s : Service) (request : Option UserAuthRequest) (c : Bytes)
      → IsSpent c s
      → IsSpent c (sign_in i k tokens windows w s request).0
  unfolding sign_in
  sign_in-IsSpent w s none c h = h
  sign_in-IsSpent w s (some request) c h =
      let challenge = trim_space request.challenge in
      if_elim (λ (r : Service × Response). IsSpent c r.0) (valid_user_challenge challenge)
        (λ _.
          elim (parse_user_public_key i request.public_key)
            as (λ o.
              IsSpent c
                (elim o as (λ _. Service × Response) [
                  | none ↦ (s, invalid_key)
                  | some key ↦ elim (canonical_user_public_key i key) as (λ _. Service × Response) [
                    | none ↦ (s, invalid_key)
                    | some canonical ↦
                        attempt i k tokens windows w s challenge key canonical request.signature
                  ]
                ]).0) [
                  | none ↦ h
                  | some key ↦
                      elim (canonical_user_public_key i key)
                        as (λ o.
                          IsSpent c
                            (elim o as (λ _. Service × Response) [
                              | none ↦ (s, invalid_key)
                              | some canonical ↦
                                  attempt i k tokens windows w s challenge key canonical
                                    request.signature
                            ]).0) [
                              | none ↦ h
                              | some canonical ↦
                                  attempt-IsSpent w s c challenge key canonical request.signature h
                            ]
                ])
        (λ _. h)

  sign_in_all-IsSpent :
      (s : Service) (rs : List (Surroundings × Option UserAuthRequest)) (c : Bytes)
      → IsSpent c s
      → IsSpent c (sign_in_all s rs)
  unfolding sign_in_all
  sign_in_all-IsSpent s [] c h = h
  sign_in_all-IsSpent s ((w, request) ∷ rs) c h =
      sign_in_all-IsSpent (sign_in i k tokens windows w s request).0 rs c
        (sign_in-IsSpent w s request c h)

  -- Once a sign-in has been given a token, then after any further sign-ins, at any times, no request
  -- with the same challenge (up to spaces around it) is given a token.
  pub sign_in-once :
      (w : Surroundings) (s : Service) (request : UserAuthRequest) (id token : Bytes)
      (expires_at : ℕ) (rs : List (Surroundings × Option UserAuthRequest)) (later : Surroundings)
      (again : UserAuthRequest) (id1 token1 : Bytes) (expires_at1 : ℕ)
      → (sign_in i k tokens windows w s (some request)).1 ≡ granted id token expires_at
      → trim_space again.challenge ≡ trim_space request.challenge
      → (sign_in i k tokens windows later
          (sign_in_all (sign_in i k tokens windows w s (some request)).0 rs)
          (some again)).1
        ≢ granted id1 token1 expires_at1
  sign_in-once w s request id token expires_at rs later again id1 token1 expires_at1 h
        same_challenge g =
      let c = trim_space request.challenge in
      let u = (sign_in i k tokens windows w s (some request)).0 in
      let t = sign_in_all u rs in
      let (key, canonical, p, q, v, spent, issued) =
        sign_in-Earned i k tokens windows w s request id token expires_at h in
      let (key1, canonical1, p1, q1, v1, taken, issued1) =
        sign_in-Earned i k tokens windows later t again id1 token1 expires_at1 g in
      let none_left : IsSpent c u =
        subst (λ (r : ChallengeTable × Bool). lookup bytes_eq c r.0.entries ≡ none) spent
          (consume_spends s.challenges c w.now (ap (λ (r : ChallengeTable × Bool). r.1) spent)) in
      let refused : (consume t.challenges c later.now).1 ≡ false =
        consume_spent t.challenges c later.now (sign_in_all-IsSpent u rs c none_left) in
      let accepted : (consume t.challenges c later.now).1 ≡ true =
        subst (λ x. (consume t.challenges x later.now).1 ≡ true) same_challenge
          (ap (λ (r : ChallengeTable × Bool). r.1) taken) in
      cc
