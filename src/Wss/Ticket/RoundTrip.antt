-- ===== src/Wss/Ticket/RoundTrip.antt =====
-- internal/wssbridge/ticket.go: a ticket that a signer issues is accepted by a verifier that has
-- the signer's key.
use mathlib.Core.Path.{subst}
use openrung.Base.{
  ℕ, ◌+◌, ◌*◌, ◌≤◌, ◌<◌, ◌≡◌, refl, sym, true, false, ◌||◌, List, [], ◌∷◌, ◌++◌, Option, none, some,
  arith, ltb, ◌==◌, if◌then◌else◌, length, length-append, take, if_elim,
}
use openrung.Base.Bytes.{Bytes, bytes_eq}
use openrung.Base.Map.{lookup}
use openrung.Broker.SignIn.AccessToken.{second}
use openrung.Wss.Ticket.Policy.{
  Claims, valid, invalid_ticket, expired_ticket, same, natural, validate_claims,
}
use openrung.Wss.Ticket.{
  Codecs, TicketSigner, TicketVerifier, accepted, join_dots, ticket_prefix, ticket_statement,
  max_ticket_bytes, ticket_key_id, token_of, sign_ticket, decode_part, decode_payload,
  decode_signature, verdict_of, verify_payload, verify_with, verify_parts, verify_ticket,
}
use openrung.Wss.Ticket.Dots.{NoDots, split_dots-join_dots, hex_encode-NoDots}
use openrung.Wss.Ticket.Later.{validate_claims-later}

-- base64 writes a text without dots that is no shorter, and reads it back.
pub record IsWritten (k : Codecs) (s : Bytes) : Type 0 where
  pub decode-encode : k.decode_url (k.encode_url s) ≡ some s
  pub dotless : NoDots (k.encode_url s)
  pub no_shorter : length s ≤ length (k.encode_url s)

-- What JSON, Ed25519 and base64 give for the claims of a ticket and a key.
pub record IsLawful (k : Codecs) (key : Bytes) (c : Claims) : Type 0 where
  pub unmarshal-marshal : k.unmarshal (k.marshal c) ≡ some c
  pub marshal_some : 0 < length (k.marshal c)
  pub length-sign : length (k.sign key (ticket_statement (k.marshal c))) ≡ 64
  pub verify-sign :
      k.verify
        (k.public_of key)
        (ticket_statement (k.marshal c))
        (k.sign key (ticket_statement (k.marshal c)))
      ≡ true
  pub payload_written : IsWritten k (k.marshal c)
  pub signature_written : IsWritten k (k.sign key (ticket_statement (k.marshal c)))

lookup-some :
    (id key : Bytes) (m : List (Bytes × Bytes))
    → lookup bytes_eq id m ≡ some key
    → (length m == 0) ≡ false
unfolding lookup
lookup-some id key [] h = cc
lookup-some id key (e ∷ m) h = ground arith

module _ (k : Codecs) where
  decode_part-encode_url : (s : Bytes) → IsWritten k s → decode_part k (k.encode_url s) ≡ some s
  unfolding decode_part
  decode_part-encode_url s w =
      let itself : same (k.encode_url s) (k.encode_url s) ≡ true = ground arith in
      rw (w.decode-encode, itself, decode_part) refl

  module _ (s : TicketSigner) (c : Claims) (l : IsLawful k s.key c) where
    abbrev claims_text : Bytes
    claims_text = k.marshal c

    abbrev signature : Bytes
    signature = k.sign s.key (ticket_statement claims_text)

    length-payload : (n : ℕ) → length (token_of k s claims_text) ≤ n → length claims_text ≤ n
    unfolding token_of join_dots
    length-payload n h =
        let tail = 46 ∷ k.encode_url signature in
        omega (
          arith,
          h,
          length-append s.key_id (46 ∷ (k.encode_url claims_text ++ tail)),
          length-append (k.encode_url claims_text) tail,
          l.payload_written.no_shorter,
        )

    token_of-some : (length (token_of k s claims_text) == 0) ≡ false
    unfolding token_of join_dots
    token_of-some = ground arith

    verify_payload-sign :
        (v : TicketVerifier) (later : ℕ)
        → validate_claims c later v.opts (some v.local_relay_id) ≡ valid
        → verify_payload k v later claims_text ≡ accepted c
    unfolding verify_payload verdict_of
    verify_payload-sign v later h =
        let itself : same claims_text claims_text ≡ true = ground arith in
        rw (l.unmarshal-marshal, itself, h, verify_payload, verdict_of) refl

    verify_with-sign :
        (v : TicketVerifier) (later : ℕ)
        → length claims_text ≤ max_ticket_bytes
        → validate_claims c later v.opts (some v.local_relay_id) ≡ valid
        → verify_with k v later
            (k.public_of s.key)
            (k.encode_url claims_text)
            (k.encode_url signature)
          ≡ accepted c
    unfolding verify_with decode_payload decode_signature
    verify_with-sign v later n h =
        let fits : (length claims_text == 0 || ltb max_ticket_bytes (length claims_text)) ≡ false =
          ground (arith, l.marshal_some) in
        let full : (length signature == 64) ≡ true = ground (arith, l.length-sign) in
        rw
          (
            decode_part-encode_url claims_text l.payload_written,
            fits,
            decode_part-encode_url signature l.signature_written,
            full,
            l.verify-sign,
            verify_with,
            decode_payload,
            decode_signature,
          )
          (verify_payload-sign v later h)

    -- The token of the claims, with a key ID of this form.
    verify_ticket-token_of :
        (v : TicketVerifier) (later : ℕ)
        → s.key_id ≡ ticket_key_id k (k.public_of s.key)
        → lookup bytes_eq s.key_id v.keys ≡ some (k.public_of s.key)
        → length (token_of k s claims_text) ≤ max_ticket_bytes
        → validate_claims c later v.opts (some v.local_relay_id) ≡ valid
        → verify_ticket k v later (token_of k s claims_text) ≡ accepted c
    unfolding verify_ticket token_of verify_parts ticket_key_id lookup
    verify_ticket-token_of v later e f n h =
        let some_key = lookup-some s.key_id (k.public_of s.key) v.keys f in
        let token = token_of k s claims_text in
        let fits : (length v.keys == 0
              || (length token == 0 || ltb max_ticket_bytes (length token)))
            ≡ false =
          ground (arith, some_key, token_of-some, n) in
        let parts =
          split_dots-join_dots ticket_prefix s.key_id (k.encode_url claims_text)
            (k.encode_url signature) (refl, (refl, tt))
            (subst NoDots (sym e) (hex_encode-NoDots (take 8 (k.sha256 (k.public_of s.key)))))
            l.payload_written.dotless l.signature_written.dotless in
        let itself : same ticket_prefix ticket_prefix ≡ true = ground arith in
        rw (fits, parts, itself, f, verify_ticket, verify_parts)
          (verify_with-sign v later (length-payload max_ticket_bytes n) h)

-- What a signer issues: the token of the claims, which it checked.
abbrev Signed : Codecs → TicketSigner → ℕ → Claims → Option Bytes → Type 0
Signed k s now c none = Unit
Signed k s now c (some token) =
    (validate_claims c now s.opts none ≡ valid)
    × (token ≡ token_of k s (k.marshal c))
    × (length (token_of k s (k.marshal c)) ≤ max_ticket_bytes)

sign_ticket-Signed :
    (k : Codecs) (s : TicketSigner) (now : ℕ) (c : Claims)
    → Signed k s now c (sign_ticket k s now c)
unfolding sign_ticket
sign_ticket-Signed k s now c =
    let r = validate_claims c now s.opts none in
    let token = token_of k s (k.marshal c) in
    elim r
        as (λ x.
          r ≡ x
          → Signed k s now c (elim x as (λ _. Option Bytes) [
            | valid ↦ if ltb max_ticket_bytes (length token) then none else some token
            | _ ↦ none
          ])) [
            | valid ↦ λ e.
                if_elim (Signed k s now c) (ltb max_ticket_bytes (length token)) (λ _. tt)
                  (λ n. (e, refl, ground (arith, n)))
            | invalid_ticket ↦ λ e. tt
            | expired_ticket ↦ λ e. tt
          ]
      refl

-- A ticket that a signer issued is accepted, with its claims, by a verifier for their relay that has
-- the signer's key, from the time at which they begin until they end, each with the verifier's
-- skew, if its options allow their lifetime.
pub verify_ticket-sign_ticket :
    (k : Codecs) (s : TicketSigner) (v : TicketVerifier) (c : Claims) (token : Bytes)
    (now later : ℕ)
    → IsLawful k s.key c
    → s.key_id ≡ ticket_key_id k (k.public_of s.key)
    → lookup bytes_eq s.key_id v.keys ≡ some (k.public_of s.key)
    → sign_ticket k s now c ≡ some token
    → c.relay_id ≡ v.local_relay_id
    → natural c.expires_at * second ≤ natural c.issued_at * second + v.opts.max_lifetime
    → natural c.not_before * second ≤ later + v.opts.clock_skew
    → later < natural c.expires_at * second + v.opts.clock_skew
    → verify_ticket k v later token ≡ accepted c
verify_ticket-sign_ticket k s v c token now later l e f g r m x y =
    let (h, t, n) = subst (Signed k s now c) g (sign_ticket-Signed k s now c) in
    rw t (
      verify_ticket-token_of k s c l v later e f n
        (validate_claims-later c now later s.opts v.opts v.local_relay_id h r m x y))
