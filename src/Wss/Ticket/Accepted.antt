-- ===== src/Wss/Ticket/Accepted.antt =====
-- internal/wssbridge/ticket.go: what an accepted ticket is.
use mathlib.Core.Path.{subst}
use openrung.Base.{
  ℕ, ◌+◌, ◌-◌, ◌*◌, ◌≤◌, ◌<◌, ◌≡◌, refl, inl, inr, true, false, not, ◌&&◌, ◌||◌, List, [], ◌∷◌,
  Option, none, some, arith, ltb, ◌==◌, length, Option-cases, if_elim,
}
use openrung.Base.Bytes.{Bytes, bytes_eq}
use openrung.Base.Map.{lookup}
use openrung.Broker.SignIn.AccessToken.{second}
use openrung.Wss.Ticket.Policy.{
  Claims, TicketOptions, ClaimsVerdict, valid, invalid_ticket, expired_ticket, same, natural,
  is_after, valid_names, valid_times, validate_claims,
}
use openrung.Wss.Ticket.{
  Codecs, TicketVerifier, Verified, accepted, rejected, expired, split_dots, ticket_prefix,
  ticket_statement, max_ticket_bytes, decode_part, decode_payload, decode_signature, verdict_of,
  verify_payload, verify_with, verify_parts, verify_ticket,
}

-- Claims are in order and in time: they live for five minutes at most, they began, but for the
-- skew, and have not ended.
abbrev pub InTime : Claims → ℕ → TicketOptions → Type 0
InTime c now o =
    (natural c.issued_at ≤ natural c.not_before)
    × (natural c.not_before < natural c.expires_at)
    × (natural c.expires_at ≤ natural c.issued_at + 300)
    × (natural c.expires_at * second ≤ natural c.issued_at * second + o.max_lifetime)
    × (natural c.not_before * second ≤ now + o.clock_skew)
    × (now < natural c.expires_at * second + o.clock_skew)

-- Claims that a verifier finds valid.
abbrev Valid : Claims → ℕ → TicketOptions → Bytes → ClaimsVerdict → Type 0
Valid c now o local valid = (c.relay_id ≡ local) × (valid_names c ≡ true) × InTime c now o
Valid c now o local _ = Unit

same-eq : (a b : Bytes) → same a b ≡ true → a ≡ b
same-eq a b h = elim (bytes_eq a b) [ yes p ↦ p | no n ↦ ground arith ]

valid_times-order :
    (c : Claims) (o : TicketOptions)
    → valid_times c o ≡ true
    → (natural c.issued_at ≤ natural c.not_before)
      × (natural c.not_before < natural c.expires_at)
      × (natural c.expires_at ≤ natural c.issued_at + 300)
      × (natural c.expires_at * second ≤ natural c.issued_at * second + o.max_lifetime)
unfolding valid_times
valid_times-order c o h = (ground arith, ground arith, ground arith, ground arith)

in_time :
    (c : Claims) (now : ℕ) (o : TicketOptions)
    → (is_after (natural c.issued_at) (now + o.clock_skew)
        || is_after (natural c.not_before) (now + o.clock_skew))
      ≡ false
    → is_after (natural c.expires_at) (now - o.clock_skew) ≡ true
    → natural c.not_before < natural c.expires_at
    → (natural c.not_before * second ≤ now + o.clock_skew)
      × (now < natural c.expires_at * second + o.clock_skew)
unfolding is_after
in_time c now o f t h = (ground arith, ground arith)

validate_claims-Valid :
    (c : Claims) (now : ℕ) (o : TicketOptions) (local : Bytes)
    → Valid c now o local (validate_claims c now o (some local))
unfolding validate_claims
validate_claims-Valid c now o local =
    let P = Valid c now o local in
    if_elim P (not (valid_names c && (same c.relay_id local && valid_times c o))) (λ _. tt)
      (λ h.
        if_elim P
          (is_after (natural c.issued_at) (now + o.clock_skew)
            || is_after (natural c.not_before) (now + o.clock_skew))
          (λ _. tt)
          (λ f.
            if_elim P (is_after (natural c.expires_at) (now - o.clock_skew))
              (λ t.
                let (a, b, l, m) = valid_times-order c o (ground arith) in
                let (x, y) = in_time c now o f t b in
                (same-eq c.relay_id local (ground arith), ground arith, (a, b, l, m, x, y)))
              (λ _. tt)))

-- A ticket of these parts names its claims in one spelling, and was signed under a key of the
-- verifier; the claims are for its relay, and in time.
abbrev pub Genuine : Codecs → TicketVerifier → ℕ → List Bytes → Verified → Type 0
Genuine k v now parts (accepted c) =
    (id : Bytes) × (key : Bytes) × (signature : Bytes) × (parts
      ≡ ticket_prefix ∷ id ∷ k.encode_url (k.marshal c) ∷ k.encode_url signature ∷ [])
    × (lookup bytes_eq id v.keys ≡ some key)
    × (k.verify key (ticket_statement (k.marshal c)) signature ≡ true)
    × (c.relay_id ≡ v.local_relay_id)
    × (valid_names c ≡ true)
    × InTime c now v.opts
Genuine k v now parts _ = Unit

-- A part that is decoded is the one spelling of what it holds.
abbrev Spells : Codecs → Bytes → Option Bytes → Type 0
Spells k part none = Unit
Spells k part (some raw) = k.encode_url raw ≡ part

-- What is checked of the claims of a payload.
abbrev Checked : Codecs → TicketVerifier → ℕ → Bytes → Verified → Type 0
Checked k v now payload (accepted c) =
    (k.marshal c ≡ payload)
    × (c.relay_id ≡ v.local_relay_id)
    × (valid_names c ≡ true)
    × InTime c now v.opts
Checked k v now payload _ = Unit

module _ (k : Codecs) where
  decode_part-Spells : (part : Bytes) → Spells k part (decode_part k part)
  unfolding decode_part
  decode_part-Spells part = elim (Option-cases (k.decode_url part)) [
    | inl n ↦ rw (n, decode_part) tt
    | inr (raw, e) ↦
        rw (e, decode_part)
          (if_elim (Spells k part) (same (k.encode_url raw) part)
            (λ y. same-eq (k.encode_url raw) part y) (λ _. tt))
  ]

  decode_payload-Spells : (part : Bytes) → Spells k part (decode_payload k part)
  unfolding decode_payload
  decode_payload-Spells part = elim (Option-cases (decode_part k part)) [
    | inl n ↦ rw (n, decode_payload) tt
    | inr (raw, e) ↦
        rw (e, decode_payload)
          (if_elim (Spells k part) (length raw == 0 || ltb max_ticket_bytes (length raw)) (λ _. tt)
            (λ _. subst (Spells k part) e (decode_part-Spells part)))
  ]

  decode_signature-Spells : (part : Bytes) → Spells k part (decode_signature k part)
  unfolding decode_signature
  decode_signature-Spells part = elim (Option-cases (decode_part k part)) [
    | inl n ↦ rw (n, decode_signature) tt
    | inr (raw, e) ↦
        rw (e, decode_signature)
          (if_elim (Spells k part) (length raw == 64)
            (λ _. subst (Spells k part) e (decode_part-Spells part)) (λ _. tt))
  ]

  verdict_of-Checked :
      (v : TicketVerifier) (now : ℕ) (payload : Bytes) (c : Claims) (r : ClaimsVerdict)
      → k.marshal c ≡ payload
      → Valid c now v.opts v.local_relay_id r
      → Checked k v now payload (verdict_of k c r)
  unfolding verdict_of
  verdict_of-Checked v now payload c valid e h = (e, h.0, h.1, h.2)
  verdict_of-Checked v now payload c invalid_ticket e h = tt
  verdict_of-Checked v now payload c expired_ticket e h = tt

  verify_payload-Checked :
      (v : TicketVerifier) (now : ℕ) (payload : Bytes)
      → Checked k v now payload (verify_payload k v now payload)
  unfolding verify_payload
  verify_payload-Checked v now payload = elim (Option-cases (k.unmarshal payload)) [
    | inl n ↦ rw (n, verify_payload) tt
    | inr (c, e) ↦
        rw (e, verify_payload)
          (if_elim (Checked k v now payload) (same (k.marshal c) payload)
            (λ y.
              verdict_of-Checked v now payload c
                (validate_claims c now v.opts (some v.local_relay_id))
                (same-eq (k.marshal c) payload y)
                (validate_claims-Valid c now v.opts v.local_relay_id))
            (λ _. tt))
  ]

  -- The claims of a payload, with the parts that they came in.
  with_key :
      (v : TicketVerifier) (now : ℕ) (id key payload payload_part signature signature_part : Bytes)
      (r : Verified)
      → lookup bytes_eq id v.keys ≡ some key
      → k.encode_url payload ≡ payload_part
      → k.encode_url signature ≡ signature_part
      → k.verify key (ticket_statement payload) signature ≡ true
      → Checked k v now payload r
      → Genuine k v now (ticket_prefix ∷ id ∷ payload_part ∷ signature_part ∷ []) r
  with_key v now id key payload payload_part signature signature_part (accepted c) l p s g h =
      (id, key, signature, rw (h.0, p, s) refl, l, rw h.0 g, h.1, h.2, h.3)
  with_key v now id key payload payload_part signature signature_part rejected l p s g h = tt
  with_key v now id key payload payload_part signature signature_part expired l p s g h = tt

  verify_with-Genuine :
      (v : TicketVerifier) (now : ℕ) (id key payload_part signature_part : Bytes)
      → lookup bytes_eq id v.keys ≡ some key
      → Genuine k v now
          (ticket_prefix ∷ id ∷ payload_part ∷ signature_part ∷ [])
          (verify_with k v now key payload_part signature_part)
  unfolding verify_with
  verify_with-Genuine v now id key payload_part signature_part l =
      elim (Option-cases (decode_payload k payload_part)) [
        | inl n ↦ rw (n, verify_with) tt
        | inr (payload, e) ↦ elim (Option-cases (decode_signature k signature_part)) [
          | inl n ↦ rw (e, n, verify_with) tt
          | inr (signature, f) ↦
              let parts = ticket_prefix ∷ id ∷ payload_part ∷ signature_part ∷ [] in
              rw (e, f, verify_with)
                (if_elim (Genuine k v now parts) (k.verify key (ticket_statement payload) signature)
                  (λ g.
                    with_key v now id key payload payload_part signature signature_part
                      (verify_payload k v now payload) l
                      (subst (Spells k payload_part) e (decode_payload-Spells payload_part))
                      (subst (Spells k signature_part) f (decode_signature-Spells signature_part)) g
                      (verify_payload-Checked v now payload))
                  (λ _. tt))
        ]
      ]

  verify_parts-Genuine :
      (v : TicketVerifier) (now : ℕ) (parts : List Bytes)
      → Genuine k v now parts (verify_parts k v now parts)
  unfolding verify_parts
  verify_parts-Genuine v now [] = tt
  verify_parts-Genuine v now (a ∷ []) = tt
  verify_parts-Genuine v now (a ∷ b ∷ []) = tt
  verify_parts-Genuine v now (a ∷ b ∷ c ∷ []) = tt
  verify_parts-Genuine v now (a ∷ b ∷ c ∷ d ∷ e ∷ r) = tt
  verify_parts-Genuine v now (a ∷ id ∷ c ∷ d ∷ []) =
      if_elim (Genuine k v now (a ∷ id ∷ c ∷ d ∷ [])) (same a ticket_prefix)
        (λ y. elim (Option-cases (lookup bytes_eq id v.keys)) [
          | inl n ↦ rw n tt
          | inr (key, e) ↦
              rw (e, same-eq a ticket_prefix y) (verify_with-Genuine v now id key c d e)
        ])
        (λ _. tt)

  -- A ticket is accepted only if a key of the verifier signed the claims that it spells, which are for
  -- the verifier's relay, live for five minutes at most and no longer than its options allow, and, but
  -- for the skew of the clocks, have begun and have not ended.
  pub verify_ticket-Genuine :
      (v : TicketVerifier) (now : ℕ) (token : Bytes)
      → Genuine k v now (split_dots [] token) (verify_ticket k v now token)
  unfolding verify_ticket
  verify_ticket-Genuine v now token =
      if_elim (Genuine k v now (split_dots [] token))
        (length v.keys == 0 || (length token == 0 || ltb max_ticket_bytes (length token))) (λ _. tt)
        (λ _. verify_parts-Genuine v now (split_dots [] token))
