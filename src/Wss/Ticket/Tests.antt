-- ===== src/Wss/Ticket/Tests.antt =====
-- internal/wssbridge/ticket.go: a ticket at concrete claims, where a signature is 64 times 1 and every
-- code is the identity.
use openrung.Base.{ℕ, zero, suc, ◌≡◌, ◌*◌, refl, true, [], ◌∷◌, ◌++◌, some, arith, take}
use openrung.Base.Bytes.{Bytes, bytes_eq}
use openrung.Base.Int.{pos}
use openrung.Base.Hex.{hex_digit, hex_encode}
use openrung.Base.Map.{lookup, insert}
use openrung.Base.Space.{
  trim_space, trim_start, trim_end, skip_spaces, space_at, space_before, reversed, is_space,
  is_space2, is_space3,
}
use openrung.Wss.Replay.{valid_id, all_valid, valid_byte}
use openrung.Broker.SignIn.AccessToken.{second}
use openrung.Wss.Ticket.Policy.{
  Claims, TicketOptions, same, ticket_audience, natural, is_after, valid_names, valid_times,
  validate_claims, validate_front_id, starts_well, ends_well, is_alphanumeric, all_front,
  front_byte,
}
use openrung.Wss.Ticket.{
  Codecs, TicketSigner, TicketVerifier, accepted, expired, ticket_prefix, split_dots, join_dots,
  ticket_statement, ticket_key_id, token_of, sign_ticket, verify_ticket, verify_parts, verify_with,
  verify_payload, verdict_of, decode_part, decode_payload, decode_signature,
}
use openrung.Wss.Ticket.Accepted.{Genuine, verify_ticket-Genuine}
use openrung.Wss.Ticket.Dots.{NoDots}
use openrung.Wss.Ticket.RoundTrip.{IsLawful, verify_ticket-sign_ticket}
use openrung.Wss.Ticket.Keys.{
  split_commas, before_equals, entry_parts, add_key, parse_entry, parse_entries,
  parse_ticket_public_keys,
}

abbrev repeat : ℕ → ℕ → Bytes
repeat zero c = []
repeat (suc n) c = c ∷ repeat n c

abbrev claims : Claims
claims = record {
  version = pos 1;
  audience = ticket_audience;
  jti = repeat 16 97;
  relay_id = 114 ∷ [];
  front_id = 102 ∷ [];
  issued_at = pos 10;
  not_before = pos 10;
  expires_at = pos 100;
  max_streams = pos 4;
}

abbrev plain : Codecs
plain = record {
  public_of = take 32;
  sign = λ key s. repeat 64 1;
  verify = λ key s signature. same signature (repeat 64 1);
  sha256 = λ s. s;
  encode_url = λ s. s;
  decode_url = some;
  decode_std = some;
  marshal = λ c. 1 ∷ [];
  unmarshal = λ s. some claims;
}

abbrev options : TicketOptions
options = record { max_lifetime = 300_000_000_000; clock_skew = 0 }

abbrev private_key : Bytes
private_key = repeat 64 1

abbrev key_id : Bytes
key_id = 48 ∷ 49 ∷ 48 ∷ 49 ∷ 48 ∷ 49 ∷ 48 ∷ 49 ∷ 48 ∷ 49 ∷ 48 ∷ 49 ∷ 48 ∷ 49 ∷ 48 ∷ 49 ∷ []

abbrev signer : TicketSigner
signer = record { key = private_key; key_id = key_id; opts = options }

abbrev verifier : TicketVerifier
verifier = record { keys = (key_id, repeat 32 1) ∷ []; local_relay_id = 114 ∷ []; opts = options }

abbrev ticket : Bytes
ticket = ticket_prefix ++ (46 ∷ (key_id ++ (46 ∷ 1 ∷ 46 ∷ repeat 64 1)))

itself : same (repeat 64 1) (repeat 64 1) ≡ true
unfolding bytes_eq
itself = refl

repeat-NoDots : (n : ℕ) → NoDots (repeat n 1)
repeat-NoDots zero = tt
repeat-NoDots (suc n) = (refl, repeat-NoDots n)

plain-IsLawful : IsLawful plain private_key claims
plain-IsLawful = record {
  unmarshal-marshal = refl;
  marshal_some = omega arith;
  length-sign = refl;
  verify-sign = itself;
  payload_written = record { decode-encode = refl; dotless = (refl, tt); no_shorter = omega arith };
  signature_written = record {
    decode-encode = refl;
    dotless = repeat-NoDots 64;
    no_shorter = omega arith;
  };
}

signs : sign_ticket plain signer (20 * second) claims ≡ some ticket
unfolding sign_ticket validate_claims valid_names valid_times natural is_after validate_front_id
    starts_well ends_well is_alphanumeric all_front front_byte valid_id all_valid valid_byte
    token_of join_dots ticket_statement bytes_eq
signs = refl

verify_ticket-sign_ticket_example :
    verify_ticket plain verifier (30 * second) ticket ≡ accepted claims
unfolding lookup bytes_eq ticket_key_id hex_encode hex_digit natural
verify_ticket-sign_ticket_example =
    verify_ticket-sign_ticket plain signer verifier claims ticket (20 * second) (30 * second)
      plain-IsLawful refl refl signs refl (omega arith) (omega arith) (omega arith)

verify_ticket-Genuine_example :
    Genuine plain verifier
      (30 * second)
      (split_dots [] ticket)
      (verify_ticket plain verifier (30 * second) ticket)
verify_ticket-Genuine_example = verify_ticket-Genuine plain verifier (30 * second) ticket

parses : parse_ticket_public_keys plain (32 ∷ (repeat 32 1 ++ (44 ∷ []))) ≡ some verifier.keys
unfolding parse_ticket_public_keys parse_entries parse_entry add_key entry_parts before_equals
    split_commas trim_space trim_start trim_end skip_spaces space_at space_before reversed is_space
    is_space2 is_space3 lookup insert bytes_eq ticket_key_id hex_encode hex_digit
parses = refl

-- A ticket that has ended is told from one that is not valid.
expires : verify_ticket plain verifier (100 * second) ticket ≡ expired
unfolding lookup bytes_eq verify_ticket split_dots verify_parts verify_with decode_payload
    decode_signature decode_part verify_payload verdict_of validate_claims valid_names valid_times
    natural is_after validate_front_id starts_well ends_well is_alphanumeric all_front front_byte
    valid_id all_valid valid_byte ticket_statement
expires = refl
