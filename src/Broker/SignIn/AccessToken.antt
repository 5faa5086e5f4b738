-- ===== src/Broker/SignIn/AccessToken.antt =====
-- internal/broker/users.go, `accessTokenCodec`: the access tokens of users. HMAC-SHA256 and base64
-- are the interface `Codes`. Times are nanoseconds since 1970.
use openrung.Base.{
  ℕ, zero, suc, ◌+◌, ◌-◌, ◌*◌, ◌/◌, ◌%◌, ◌^◌, ◌≡◌, Bool, true, false, not, ◌&&◌, ◌||◌, [], ◌∷◌,
  ◌++◌, Option, none, some, ltb, ◌==◌, if◌then◌else◌, ite, length, take, drop,
}
use openrung.Base.Bytes.{Bytes, bytes_eq}

abbrev pub same : Bytes → Bytes → Bool
same a b = ite (bytes_eq a b) true false

pub record Codes : Type 0 where
  pub hmac : Bytes → Bytes → Bytes
  pub encode_url : Bytes → Bytes
  pub decode_url : Bytes → Option Bytes

-- What the tokens rely on: a code has 32 bytes, and base64 reads what it wrote.
pub record IsLawful (k : Codes) : Type 0 where
  pub length-hmac : (key s : Bytes) → length (k.hmac key s) ≡ 32
  pub decode-encode : (s : Bytes) → k.decode_url (k.encode_url s) ≡ some s

pub record AccessTokenCodec : Type 0 where
  pub key : Bytes
  pub ttl : ℕ

abbrev pub second : ℕ
second = 1_000_000_000

abbrev pub default_access_token_ttl : ℕ
default_access_token_ttl = 86_400_000_000_000

abbrev pub min_access_token_ttl : ℕ
min_access_token_ttl = 60_000_000_000

abbrev pub max_access_token_ttl : ℕ
max_access_token_ttl = 604_800_000_000_000

-- `newAccessTokenCodec`; the lifetime is not negative.
unfoldable pub new_access_token_codec : Bytes → ℕ → Option AccessTokenCodec
new_access_token_codec key requested =
    let ttl = if requested == 0 then default_access_token_ttl else requested in
    if not (length key == 32)
    then none
    else (if ltb ttl min_access_token_ttl || ltb max_access_token_ttl ttl
        then none
        else some (record { key = key; ttl = ttl }))

-- binary.BigEndian, of so many bytes.
unfoldable pub big_endian : ℕ → ℕ → Bytes
big_endian zero n = []
big_endian (suc k) n = big_endian k (n / 256) ++ (n % 256) ∷ []

unfoldable pub of_big_endian : ℕ → Bytes → ℕ
of_big_endian n [] = n
of_big_endian n (b ∷ bs) = of_big_endian (n * 256 + b) bs

-- The payload of a token: version, length, user, expiry in seconds and nonce.
unfoldable pub payload : Bytes → ℕ → Bytes → Bytes
payload user_id seconds nonce = 1 ∷ length user_id ∷ (user_id ++ (big_endian 8 seconds ++ nonce))

-- An expiry as verify reads it, where an int64 over 2^63 is before 1970.
unfoldable pub is_unexpired : ℕ → ℕ → Bool
is_unexpired seconds now = ltb seconds (2 ^ 63) && ltb now (seconds * second)

module _ (k : Codes) where
  -- `issue`; the nonce is an argument, none where it cannot be drawn.
  unfoldable pub issue_token : AccessTokenCodec → Bytes → ℕ → Option Bytes → Option (Bytes × ℕ)
  issue_token c user_id now nonce =
      let seconds = (now + c.ttl) / second in
      if length user_id == 0 || ltb 255 (length user_id) then none else (elim nonce [
        | none ↦ none
        | some n ↦
            let p = payload user_id seconds n in
            some (k.encode_url (p ++ k.hmac c.key p), seconds * second)
      ])

  -- `verify`, once the token is decoded.
  unfoldable pub verify_raw : AccessTokenCodec → Bytes → ℕ → Option Bytes
  verify_raw c (version ∷ id_len ∷ rest) now =
      let raw = version ∷ id_len ∷ rest in
      let body = length raw - 32 in
      if ltb (length raw) 54 || not (version == 1) || not (body == id_len + 22)
      then none
      else (if same (k.hmac c.key (take body raw)) (drop body raw)
          then (if is_unexpired (of_big_endian 0 (take 8 (drop id_len rest))) now
              then some (take id_len rest)
              else none)
          else none)
  verify_raw c _ now = none

  -- `verify`
  unfoldable pub verify_token : AccessTokenCodec → Bytes → ℕ → Option Bytes
  verify_token c token now = elim (k.decode_url token) [
    | none ↦ none
    | some raw ↦ verify_raw c raw now
  ]
