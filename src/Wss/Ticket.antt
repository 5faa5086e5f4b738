-- ===== src/Wss/Ticket.antt =====
-- internal/wssbridge/ticket.go: the tickets of the bridge. Ed25519, SHA-256, base64 and JSON are the
-- interface `Codecs`.
pub mod Accepted
pub mod RoundTrip
pub mod Keys
mod Tests
pub mod Policy
pub mod Dots
pub mod Later
use openrung.Base.{
  ℕ, zero, suc, ◌+◌, ◌-◌, ◌*◌, ◌/◌, ◌%◌, ◌^◌, Bool, true, false, not, ◌&&◌, ◌||◌, List, [], ◌∷◌,
  ◌++◌, Option, none, some, ltb, leb, ◌==◌, if◌then◌else◌, ite, length, take, any,
}
use openrung.Base.Bytes.{Bytes, bytes_eq}
use openrung.Base.Int.{ℤ, pos, negsuc}
use openrung.Base.Hex.{hex_encode}
use openrung.Base.Map.{lookup, insert, is_some}
use openrung.Broker.SignIn.AccessToken.{second}
use openrung.Wss.Replay.{valid_id}
use openrung.Wss.Ticket.Policy.{
  Claims, TicketOptions, max_ticket_lifetime, max_ticket_clock_skew, max_ticket_streams,
  normalized_options, ticket_audience, same, front_byte, all_front, is_alphanumeric, ends_well,
  starts_well, validate_front_id, natural, is_after, ClaimsVerdict, valid_names, valid_times,
  validate_claims, valid, invalid_ticket, expired_ticket,
}

pub record Codecs : Type 0 where
  -- The public key of a private one, a signature, and its test.
  pub public_of : Bytes → Bytes
  pub sign : Bytes → Bytes → Bytes
  pub verify : Bytes → Bytes → Bytes → Bool
  pub sha256 : Bytes → Bytes
  -- base64.RawURLEncoding and base64.StdEncoding
  pub encode_url : Bytes → Bytes
  pub decode_url : Bytes → Option Bytes
  pub decode_std : Bytes → Option Bytes
  -- json.Marshal of claims, and the decoder without unknown fields.
  pub marshal : Claims → Bytes
  pub unmarshal : Bytes → Option Claims

abbrev pub max_ticket_bytes : ℕ
max_ticket_bytes = 4096

-- "v1"
abbrev pub ticket_prefix : Bytes
ticket_prefix = 118 ∷ 49 ∷ []

-- "openrung-wss-bridge-ticket-v1\n"
abbrev pub ticket_signature_spec : Bytes
ticket_signature_spec =
    ticket_audience ++ (45 ∷ 116 ∷ 105 ∷ 99 ∷ 107 ∷ 101 ∷ 116 ∷ 45 ∷ 118 ∷ 49 ∷ 10 ∷ [])

-- strings.Split(token, ".")
unfoldable pub split_dots : Bytes → Bytes → List Bytes
split_dots part [] = part ∷ []
split_dots part (c ∷ cs) = elim (c == 46) [
  | true ↦ part ∷ split_dots [] cs
  | false ↦ split_dots (part ++ c ∷ []) cs
]

-- strings.Join of the four parts
unfoldable pub join_dots : Bytes → Bytes → Bytes → Bytes → Bytes
join_dots a b c d = a ++ (46 ∷ (b ++ (46 ∷ (c ++ (46 ∷ d)))))

-- `ticketStatement`
unfoldable pub ticket_statement : Bytes → Bytes
ticket_statement payload = ticket_signature_spec ++ payload

-- TicketSigner
pub record TicketSigner : Type 0 where
  pub key : Bytes
  pub key_id : Bytes
  pub opts : TicketOptions

-- TicketVerifier
pub record TicketVerifier : Type 0 where
  pub keys : List (Bytes × Bytes)
  pub local_relay_id : Bytes
  pub opts : TicketOptions

pub data Verified : Type 0 where
  accepted : Claims → Verified
  rejected expired : Verified

module _ (k : Codecs) where
  -- `TicketKeyID`
  unfoldable pub ticket_key_id : Bytes → Bytes
  ticket_key_id key = hex_encode (take 8 (k.sha256 key))

  -- `NewTicketSigner`, none where it fails.
  unfoldable pub new_ticket_signer : Bytes → TicketOptions → Option TicketSigner
  new_ticket_signer key o = if not (length key == 64) then none else (elim (normalized_options o) [
    | none ↦ none
    | some opts ↦ some (record { key = key; key_id = ticket_key_id (k.public_of key); opts = opts })
  ])

  -- The token of a payload.
  unfoldable pub token_of : TicketSigner → Bytes → Bytes
  token_of s payload =
      join_dots ticket_prefix s.key_id (k.encode_url payload)
        (k.encode_url (k.sign s.key (ticket_statement payload)))

  -- `Sign`, none where it fails.
  unfoldable pub sign_ticket : TicketSigner → ℕ → Claims → Option Bytes
  sign_ticket s now c = elim (validate_claims c now s.opts none) [
    | valid ↦
        let token = token_of s (k.marshal c) in
        if ltb max_ticket_bytes (length token) then none else some token
    | _ ↦ none
  ]

  -- The keys that a verifier accepts: each has 32 bytes, and its own ID.
  unfoldable pub valid_keys : List (Bytes × Bytes) → Bool
  valid_keys [] = true
  valid_keys ((id, key) ∷ m) =
      let rest = valid_keys m in
      if length key == 32 && same id (ticket_key_id key) then rest else false

  -- `NewTicketVerifier`, none where it fails.
  unfoldable pub new_ticket_verifier :
      List (Bytes × Bytes) → Bytes → TicketOptions → Option TicketVerifier
  new_ticket_verifier keys local o =
      if not (valid_id local 1 128) || length keys == 0
      then none
      else (elim (normalized_options o) [
        | none ↦ none
        | some opts ↦
            if valid_keys keys
            then some (record { keys = keys; local_relay_id = local; opts = opts })
            else none
      ])

  -- A base64 part in the one spelling that is written.
  unfoldable pub decode_part : Bytes → Option Bytes
  decode_part part = elim (k.decode_url part) [
    | none ↦ none
    | some raw ↦ if same (k.encode_url raw) part then some raw else none
  ]

  -- The payload of a token.
  unfoldable pub decode_payload : Bytes → Option Bytes
  decode_payload part = elim (decode_part part) [
    | none ↦ none
    | some raw ↦ if length raw == 0 || ltb max_ticket_bytes (length raw) then none else some raw
  ]

  -- The signature of a token.
  unfoldable pub decode_signature : Bytes → Option Bytes
  decode_signature part = elim (decode_part part) [
    | none ↦ none
    | some raw ↦ if length raw == 64 then some raw else none
  ]

  -- What follows the claims.
  unfoldable pub verdict_of : Claims → ClaimsVerdict → Verified
  verdict_of c valid = accepted c
  verdict_of c invalid_ticket = rejected
  verdict_of c expired_ticket = expired

  -- The rest of `Verify` with a payload whose signature is good.
  unfoldable pub verify_payload : TicketVerifier → ℕ → Bytes → Verified
  verify_payload v now payload = elim (k.unmarshal payload) [
    | none ↦ rejected
    | some c ↦
        if same (k.marshal c) payload
        then verdict_of c (validate_claims c now v.opts (some v.local_relay_id))
        else rejected
  ]

  -- The rest of `Verify` with a key.
  unfoldable pub verify_with : TicketVerifier → ℕ → Bytes → Bytes → Bytes → Verified
  verify_with v now key payload_part signature_part = elim (decode_payload payload_part) [
    | none ↦ rejected
    | some payload ↦ elim (decode_signature signature_part) [
      | none ↦ rejected
      | some signature ↦
          if k.verify key (ticket_statement payload) signature
          then verify_payload v now payload
          else rejected
    ]
  ]

  -- The rest of `Verify` with the parts of a token.
  unfoldable pub verify_parts : TicketVerifier → ℕ → List Bytes → Verified
  verify_parts v now (prefix ∷ id ∷ payload_part ∷ signature_part ∷ []) =
      if same prefix ticket_prefix
      then (elim (lookup bytes_eq id v.keys) [
        | none ↦ rejected
        | some key ↦ verify_with v now key payload_part signature_part
      ])
      else rejected
  verify_parts v now _ = rejected

  -- `Verify`
  unfoldable pub verify_ticket : TicketVerifier → ℕ → Bytes → Verified
  verify_ticket v now token =
      if length v.keys == 0 || (length token == 0 || ltb max_ticket_bytes (length token))
      then rejected
      else verify_parts v now (split_dots [] token)
