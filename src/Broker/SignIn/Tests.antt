-- ===== src/Broker/SignIn/Tests.antt =====
-- internal/broker/users.go: sign-ins at concrete inputs, where a signature is good if it begins with
-- the first byte of the key.
use openrung.Base.{
  ℕ, zero, suc, ◌≡◌, ◌≢◌, refl, [], ◌∷◌, ◌++◌, none, some, arith, ltb, if◌then◌else◌,
}
use openrung.Base.Bytes.{Bytes, bytes_eq}
use openrung.Base.Map.{lookup, insert, remove}
use openrung.Broker.Challenges.{consume}
use openrung.Broker.Store.{Store}
use openrung.Broker.Store.Users.{
  charge_all, counters_of, merge, put_counters, settle, enroll, user_or_zero, authenticate_user,
}
use openrung.Broker.SignIn.AccessToken.{
  Codes, IsLawful, AccessTokenCodec, same, big_endian, payload, issue_token, verify_token,
  new_access_token_codec,
}
use openrung.Broker.SignIn.RoundTrip.{verify_token-issue_token}
use openrung.Broker.SignIn.{
  Identity, UserAuthRequest, Service, Surroundings, granted, printable, valid_user_challenge,
  user_auth_statement, enrollment_refusal, canonical_user_public_key, parse_user_public_key,
  verify_user_auth, answer, authenticate, attempt, sign_in, retry_after_seconds,
}
use openrung.Base.Space.{
  trim_space, trim_start, trim_end, skip_spaces, space_at, space_before, reversed, is_space,
  is_space2, is_space3,
}
use openrung.Broker.SignIn.Grants.{Earned, sign_in-Earned}
use openrung.Broker.SignIn.Once.{sign_in_all, sign_in-once}

abbrev pub ones : ℕ → Bytes
ones zero = []
ones (suc n) = 1 ∷ ones n

abbrev pub plain_codes : Codes
plain_codes = record { hmac = λ key s. ones 32; encode_url = λ s. s; decode_url = some }

plain_codes-IsLawful : IsLawful plain_codes
plain_codes-IsLawful = record { length-hmac = λ key s. refl; decode-encode = λ s. refl }

abbrev first_byte : Bytes → Bytes
first_byte [] = []
first_byte (c ∷ cs) = c ∷ []

abbrev plain_identity : Identity
plain_identity = record {
  parse_key = some;
  point_bytes = some;
  encode_std = λ s. s;
  decode_std = some;
  verify = λ key statement raw. same (first_byte key) (first_byte raw);
}

abbrev pub codec : AccessTokenCodec
codec = record { key = ones 32; ttl = 60_000_000_000 }

abbrev no_users : Store
no_users = record {
  relays = [];
  sessions = [];
  observations = [];
  users = [];
  user_ids_by_key = [];
  enrollment = [];
  leases = [];
  lease_states = [];
}

abbrev service : Service
service = record {
  challenges = record { ttl = 10; max_entries = 4; entries = (66 ∷ [], 100) ∷ (67 ∷ [], 100) ∷ [] };
  store = no_users;
}

abbrev surroundings : Surroundings
surroundings = record {
  now = 50;
  source = 8 ∷ [];
  class = none;
  minted = some (85 ∷ []);
  nonce = some (ones 12);
}

abbrev request : UserAuthRequest
request = record { challenge = 32 ∷ 66 ∷ []; public_key = 1 ∷ 2 ∷ []; signature = ones 64 }

abbrev pub token : Bytes
token = 1 ∷ 1 ∷ 85 ∷ 0 ∷ 0 ∷ 0 ∷ 0 ∷ 0 ∷ 0 ∷ 0 ∷ 60 ∷ (ones 12 ++ ones 32)

-- A new user signs in.
signs_in :
    (sign_in plain_identity plain_codes codec [] surroundings service (some request)).1
    ≡ granted (85 ∷ []) token 60_000_000_000
unfolding sign_in attempt authenticate answer verify_user_auth canonical_user_public_key
    parse_user_public_key enrollment_refusal user_auth_statement valid_user_challenge printable
    trim_space trim_start trim_end skip_spaces space_at space_before reversed is_space is_space2
    is_space3 issue_token payload big_endian consume lookup insert remove bytes_eq authenticate_user
    user_or_zero enroll settle put_counters merge counters_of charge_all
signs_in = refl

issued : issue_token plain_codes codec (85 ∷ []) 50 (some (ones 12)) ≡ some (token, 60_000_000_000)
unfolding issue_token payload big_endian
issued = refl

-- A wait of one nanosecond is answered by one second.
waits_a_second : retry_after_seconds 1 ≡ 1
unfolding retry_after_seconds
waits_a_second = refl

-- A key of another length is refused.
refuses_key : new_access_token_codec (ones 31) 0 ≡ none
unfolding new_access_token_codec
refuses_key = refl

verify_token-issue_token_example :
    verify_token plain_codes codec token 70
    ≡ (if ltb 70 60_000_000_000 then some (85 ∷ []) else none)
verify_token-issue_token_example =
    verify_token-issue_token plain_codes plain_codes-IsLawful codec (85 ∷ []) (ones 12) token 50 70
      60_000_000_000 refl (omega arith) issued

sign_in-Earned_example :
    Earned plain_identity plain_codes codec [] surroundings service request
      (sign_in plain_identity plain_codes codec [] surroundings service (some request)).0
      (85 ∷ [])
      token
      60_000_000_000
sign_in-Earned_example =
    sign_in-Earned plain_identity plain_codes codec [] surroundings service request (85 ∷ []) token
      60_000_000_000 signs_in

sign_in-once_example :
    (sign_in plain_identity plain_codes codec []
      (record surroundings { now = 60 })
      (sign_in_all plain_identity plain_codes codec []
        (sign_in plain_identity plain_codes codec [] surroundings service (some request)).0
        ((surroundings, some (record request { challenge = 67 ∷ [] })) ∷ []))
      (some (record request { challenge = 66 ∷ [] }))).1
    ≢ granted (85 ∷ []) token 60_000_000_000
unfolding trim_space trim_start trim_end skip_spaces space_at space_before reversed is_space
    is_space2 is_space3
sign_in-once_example =
    sign_in-once plain_identity plain_codes codec [] surroundings service request (85 ∷ []) token
      60_000_000_000 ((surroundings, some (record request { challenge = 67 ∷ [] })) ∷ [])
      (record surroundings { now = 60 }) (record request { challenge = 66 ∷ [] }) (85 ∷ []) token
      60_000_000_000 signs_in refl

-- A no-break space before the text and a thin space after it are cut off.
trims_spaces : trim_space (194 ∷ 160 ∷ 65 ∷ 32 ∷ 66 ∷ 226 ∷ 128 ∷ 137 ∷ 10 ∷ []) ≡ 65 ∷ 32 ∷ 66 ∷ []
unfolding trim_space trim_start trim_end skip_spaces space_at space_before reversed is_space
    is_space2 is_space3
trims_spaces = refl
