-- ===== src/Wss/Ticket/Later.antt =====
-- internal/wssbridge/ticket.go: from which time to which the claims of a ticket are valid.
use mathlib.Core.Path.{subst}
use openrung.Base.{
  ℕ, ◌+◌, ◌-◌, ◌*◌, ◌≤◌, ◌<◌, ◌≡◌, refl, true, false, not, ◌&&◌, ◌||◌, none, some, arith, if_elim,
}
use openrung.Base.Bytes.{Bytes}
use openrung.Broker.SignIn.AccessToken.{second}
use openrung.Wss.Ticket.Policy.{
  Claims, TicketOptions, ClaimsVerdict, valid, same, natural, is_after, valid_names, valid_times,
  validate_claims,
}

-- What a signer checked.
abbrev Signable : Claims → ℕ → TicketOptions → ClaimsVerdict → Type 0
Signable c now o valid =
    (valid_names c ≡ true) × (valid_times c o ≡ true) × (is_after (natural c.expires_at) now ≡ true)
Signable c now o _ = Unit

validate_claims-Signable :
    (c : Claims) (now : ℕ) (o : TicketOptions) → Signable c now o (validate_claims c now o none)
unfolding validate_claims
validate_claims-Signable c now o =
    let P = Signable c now o in
    if_elim P (not (valid_names c && valid_times c o)) (λ _. tt)
      (λ h.
        if_elim P (is_after (natural c.issued_at) (now + o.clock_skew)) (λ _. tt)
          (λ _.
            if_elim P (is_after (natural c.expires_at) now) (λ t. (ground arith, ground arith, t))
              (λ _. tt)))

-- A longer lifetime allows what a shorter one does.
valid_times-options :
    (c : Claims) (o p : TicketOptions)
    → valid_times c o ≡ true
    → natural c.expires_at * second ≤ natural c.issued_at * second + p.max_lifetime
    → valid_times c p ≡ true
unfolding valid_times
valid_times-options c o p h m = ground arith

-- What has begun is not after the present.
begun :
    (c : Claims) (o p : TicketOptions) (later : ℕ)
    → valid_times c o ≡ true
    → natural c.not_before * second ≤ later + p.clock_skew
    → (is_after (natural c.issued_at) (later + p.clock_skew)
        || is_after (natural c.not_before) (later + p.clock_skew))
      ≡ false
unfolding valid_times is_after
begun c o p later h x = ground arith

still_open :
    (c : Claims) (o p : TicketOptions) (now later : ℕ)
    → valid_times c o ≡ true
    → is_after (natural c.expires_at) now ≡ true
    → later < natural c.expires_at * second + p.clock_skew
    → is_after (natural c.expires_at) (later - p.clock_skew) ≡ true
unfolding valid_times is_after
still_open c o p now later h t y = ground arith

-- Claims that were signable are valid later, until they end.
pub validate_claims-later :
    (c : Claims) (now later : ℕ) (o p : TicketOptions) (local : Bytes)
    → validate_claims c now o none ≡ valid
    → c.relay_id ≡ local
    → natural c.expires_at * second ≤ natural c.issued_at * second + p.max_lifetime
    → natural c.not_before * second ≤ later + p.clock_skew
    → later < natural c.expires_at * second + p.clock_skew
    → validate_claims c later p (some local) ≡ valid
unfolding validate_claims
validate_claims-later c now later o p local h e m x y =
    let (names, times, ends) = subst (Signable c now o) h (validate_claims-Signable c now o) in
    let named : same c.relay_id local ≡ true = rw e (ground arith) in
    rw
      (
        names,
        named,
        valid_times-options c o p times m,
        begun c o p later times x,
        still_open c o p now later times ends y,
      )
      refl
