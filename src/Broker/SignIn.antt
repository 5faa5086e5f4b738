-- ===== src/Broker/SignIn.antt =====
-- internal/broker/users.go with brokerapi/users.go: the sign-in of users. The keys and signatures of
-- crypto/ecdsa and crypto/x509 are the interface `Identity`. The statistics of refusals are left out,
-- and the response is a value.
pub mod AccessToken
pub mod RoundTrip
pub mod Grants
pub mod Once
pub mod Tests
use openrung.Base.{
  ℕ, zero, suc, ◌+◌, ◌-◌, ◌/◌, Bool, true, false, not, ◌&&◌, ◌||◌, List, [], ◌∷◌, ◌++◌, Option,
  none, some, ltb, leb, ◌==◌, if◌then◌else◌, length,
}
use openrung.Base.Space.{trim_space}
use openrung.Base.Bytes.{Bytes}
use openrung.Broker.Challenges.{ChallengeTable, consume}
use openrung.Broker.Store.{
  Store, User, UserStatus, enabled, disabled, Error, Result, ok, err, datacenter_source,
  source_unclassified, enrollment_limited,
}
use openrung.Broker.Store.Users.{EnrollmentWindow, authenticate_user}
use openrung.Broker.SignIn.AccessToken.{Codes, AccessTokenCodec, second, issue_token}

pub record Identity : Type 0 where
  -- The point of a P-256 key in DER, and of a key its uncompressed bytes.
  pub parse_key : Bytes → Option Bytes
  pub point_bytes : Bytes → Option Bytes
  -- The standard base64.
  pub encode_std : Bytes → Bytes
  pub decode_std : Bytes → Option Bytes
  -- ecdsa.Verify over the SHA-256 of a statement, of the raw r and s.
  pub verify : Bytes → Bytes → Bytes → Bool

-- brokerapi.UserAuthRequest
pub record UserAuthRequest : Type 0 where
  pub challenge : Bytes
  pub public_key : Bytes
  pub signature : Bytes

pub data SourceClass : Type 0 where
  datacenter unclassified ordinary : SourceClass

-- userAuthService: the state that the handler changes.
pub record Service : Type 0 where
  pub challenges : ChallengeTable
  pub store : Store

-- What a request meets: the time, its source's bucket and class (none without a classifier), and
-- the random user ID and nonce, none where they cannot be drawn.
pub record Surroundings : Type 0 where
  pub now : ℕ
  pub source : Bytes
  pub class : Option SourceClass
  pub minted : Option Bytes
  pub nonce : Option Bytes

pub data Response : Type 0 where
  invalid_json invalid_challenge invalid_key : Response
  unknown_challenge invalid_signature : Response
  from_datacenter store_unavailable token_failed : Response
  unclassified_source too_many : ℕ → Response
  not_enabled : Bytes → Response
  -- The user, the token and its expiry.
  granted : Bytes → Bytes → ℕ → Response

unfoldable pub printable : Bytes → Bool
printable [] = true
printable (c ∷ cs) = let rest = printable cs in if leb c 32 || ltb 126 c then false else rest

-- `ValidUserChallenge`
unfoldable pub valid_user_challenge : Bytes → Bool
valid_user_challenge challenge =
    if length challenge == 0 || ltb 128 (length challenge) then false else printable challenge

-- "openrung-user-auth-v1"
abbrev pub user_auth_spec : Bytes
user_auth_spec =
    111 ∷ 112 ∷ 101 ∷ 110 ∷ 114 ∷ 117 ∷ 110 ∷ 103 ∷ 45 ∷ 117 ∷ 115 ∷ 101 ∷ 114 ∷ 45 ∷ 97 ∷ 117 ∷ 116
    ∷ 104 ∷ 45 ∷ 118 ∷ 49 ∷ []

-- `UserAuthStatement`
unfoldable pub user_auth_statement : Bytes → Bytes → Bytes
user_auth_statement challenge canonical = user_auth_spec ++ (10 ∷ (challenge ++ (10 ∷ canonical)))

-- `enrollmentRefusal`
unfoldable pub enrollment_refusal : Option SourceClass → Option Error
enrollment_refusal none = none
enrollment_refusal (some datacenter) = some datacenter_source
enrollment_refusal (some unclassified) = some source_unclassified
enrollment_refusal (some ordinary) = none

-- `retryAfterSeconds`, of a wait that is not negative.
unfoldable pub retry_after_seconds : ℕ → ℕ
retry_after_seconds wait =
    let seconds = (wait + second - 1) / second in if ltb seconds 1 then 1 else seconds

-- sourceUnclassifiedRetryAfter
abbrev pub source_unclassified_retry_after : ℕ
source_unclassified_retry_after = 300_000_000_000

-- The answer to an error of the store.
unfoldable pub refusal : Error → Response
refusal datacenter_source = from_datacenter
refusal source_unclassified =
    unclassified_source (retry_after_seconds source_unclassified_retry_after)
refusal (enrollment_limited wait) = too_many (retry_after_seconds wait)
refusal e = store_unavailable

module _ (i : Identity) where
  -- `CanonicalUserPublicKey`
  unfoldable pub canonical_user_public_key : Bytes → Option Bytes
  canonical_user_public_key key = elim (i.point_bytes key) [
    | none ↦ none
    | some point ↦ some (i.encode_std point)
  ]

  -- `ParseUserPublicKey`
  unfoldable pub parse_user_public_key : Bytes → Option Bytes
  parse_user_public_key encoded = elim (i.decode_std (trim_space encoded)) [
    | none ↦ none
    | some der ↦ i.parse_key der
  ]

  -- `VerifyUserAuth`
  unfoldable pub verify_user_auth : Bytes → Bytes → Bytes → Bool
  verify_user_auth key challenge signature =
      if valid_user_challenge challenge
      then (elim (canonical_user_public_key key) [
        | none ↦ false
        | some canonical ↦ elim (i.decode_std (trim_space signature)) [
          | none ↦ false
          | some raw ↦
              if length raw == 64
              then i.verify key (user_auth_statement challenge canonical) raw
              else false
        ]
      ])
      else false

  module _ (k : Codes) (tokens : AccessTokenCodec) (windows : List EnrollmentWindow) where
    -- The answer for a user that the store gave.
    unfoldable pub answer : Surroundings → Result (User × Bool) → Response
    answer w (err e) = refusal e
    answer w (ok (u, created)) = elim u.status [
      | disabled ↦ not_enabled u.id
      | enabled ↦ elim (issue_token k tokens u.id w.now w.nonce) [
        | none ↦ token_failed
        | some (token, expires_at) ↦ granted u.id token expires_at
      ]
    ]

    -- The handler once the challenge is consumed.
    unfoldable pub authenticate :
        Surroundings → Service → Bytes → Bytes → Bytes → Bytes → Service × Response
    authenticate w s challenge key canonical signature =
        if verify_user_auth key challenge signature
        then (let (store, result) =
              authenticate_user s.store canonical w.source windows (enrollment_refusal w.class)
                w.minted w.now in
            (record s { store = store }, answer w result))
        else (s, invalid_signature)

    -- The handler with a key: the challenge is consumed before the signature is checked.
    unfoldable pub attempt :
        Surroundings → Service → Bytes → Bytes → Bytes → Bytes → Service × Response
    attempt w s challenge key canonical signature =
        let (challenges, accepted) = consume s.challenges challenge w.now in
        let u : Service = record s { challenges = challenges } in
        if accepted
        then authenticate w u challenge key canonical signature
        else (u, unknown_challenge)

    -- `authHandler`, of a request's JSON, none where it is not one object of the expected form.
    unfoldable pub sign_in : Surroundings → Service → Option UserAuthRequest → Service × Response
    sign_in w s none = (s, invalid_json)
    sign_in w s (some request) =
        let challenge = trim_space request.challenge in
        if valid_user_challenge challenge
        then (elim (parse_user_public_key request.public_key) [
          | none ↦ (s, invalid_key)
          | some key ↦ elim (canonical_user_public_key key) [
            | none ↦ (s, invalid_key)
            | some canonical ↦ attempt w s challenge key canonical request.signature
          ]
        ])
        else (s, invalid_challenge)
