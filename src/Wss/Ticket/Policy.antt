-- ===== src/Wss/Ticket/Policy.antt =====
-- internal/wssbridge/ticket.go: the claims of a ticket, and their checks, with the IDs of fronts of
-- wsscore/front.go. Times are nanoseconds since 1970, and those of claims whole seconds.
use openrung.Base.{
  ℕ, ◌+◌, ◌-◌, ◌*◌, ◌/◌, ◌^◌, Bool, true, false, not, ◌&&◌, ◌||◌, [], ◌∷◌, Option, none, some, ltb,
  leb, ◌==◌, if◌then◌else◌, ite, length,
}
use openrung.Base.Bytes.{Bytes, bytes_eq}
use openrung.Base.Int.{ℤ, pos, negsuc}
use openrung.Broker.SignIn.AccessToken.{second}
use openrung.Wss.Replay.{valid_id}

-- Claims
pub record Claims : Type 0 where
  pub version : ℤ
  pub audience : Bytes
  pub jti : Bytes
  pub relay_id : Bytes
  pub front_id : Bytes
  pub issued_at : ℤ
  pub not_before : ℤ
  pub expires_at : ℤ
  pub max_streams : ℤ

-- TicketOptions without its clock; neither can be negative here.
pub record TicketOptions : Type 0 where
  pub max_lifetime : ℕ
  pub clock_skew : ℕ

abbrev pub max_ticket_lifetime : ℕ
max_ticket_lifetime = 300_000_000_000

abbrev pub max_ticket_clock_skew : ℕ
max_ticket_clock_skew = 120_000_000_000

abbrev pub max_ticket_streams : ℕ
max_ticket_streams = 1024

-- `normalized`, none where it fails.
unfoldable pub normalized_options : TicketOptions → Option TicketOptions
normalized_options o =
    let lifetime = if o.max_lifetime == 0 then max_ticket_lifetime else o.max_lifetime in
    if (ltb lifetime second || ltb max_ticket_lifetime lifetime)
      || ltb max_ticket_clock_skew o.clock_skew
    then none
    else some (record o { max_lifetime = lifetime })

-- "openrung-wss-bridge"
abbrev pub ticket_audience : Bytes
ticket_audience =
    111 ∷ 112 ∷ 101 ∷ 110 ∷ 114 ∷ 117 ∷ 110 ∷ 103 ∷ 45 ∷ 119 ∷ 115 ∷ 115 ∷ 45 ∷ 98 ∷ 114 ∷ 105 ∷ 100
    ∷ 103 ∷ 101 ∷ []

-- Equality of byte strings as a test.
abbrev pub same : Bytes → Bytes → Bool
same a b = ite (bytes_eq a b) true false

unfoldable pub front_byte : ℕ → Bool
front_byte c = (leb 97 c && leb c 122) || (leb 48 c && leb c 57) || c == 46 || c == 95 || c == 45

unfoldable pub all_front : Bytes → Bool
all_front [] = true
all_front (c ∷ cs) = let rest = all_front cs in if front_byte c then rest else false

unfoldable pub is_alphanumeric : ℕ → Bool
is_alphanumeric c = (leb 97 c && leb c 122) || (leb 48 c && leb c 57)

-- The last byte is a letter or a digit.
unfoldable pub ends_well : Bytes → Bool
ends_well [] = false
ends_well (c ∷ []) = is_alphanumeric c
ends_well (c ∷ d ∷ cs) = ends_well (d ∷ cs)

unfoldable pub starts_well : Bytes → Bool
starts_well [] = false
starts_well (c ∷ cs) = is_alphanumeric c

-- `ValidateFrontID`: a valid ID is its own lower case, and has no space to trim.
unfoldable pub validate_front_id : Bytes → Bool
validate_front_id value =
    if length value == 0 || ltb 64 (length value)
    then false
    else (starts_well value && (ends_well value && all_front value))

-- A number, 0 where it is negative.
unfoldable pub natural : ℤ → ℕ
natural (pos n) = n
natural (negsuc n) = 0

-- time.Unix(seconds, 0).After(t), whose sum with Go's zero time wraps for the largest int64.
unfoldable pub is_after : ℕ → ℕ → Bool
is_after seconds t = ltb seconds (2 ^ 63 - 62_135_596_800) && ltb t (seconds * second)

-- The errors of claims: ErrInvalidTicket and ErrExpiredTicket, or none.
pub data ClaimsVerdict : Type 0 where
  valid invalid_ticket expired_ticket : ClaimsVerdict

-- The tests of names and of the number of streams.
unfoldable pub valid_names : Claims → Bool
valid_names c =
    (natural c.version == 1 && same c.audience ticket_audience)
    && (valid_id c.jti 16 128
        && (valid_id c.relay_id 1 128
            && (validate_front_id c.front_id
                && (leb 1 (natural c.max_streams)
                    && leb (natural c.max_streams) max_ticket_streams))))

-- The tests of the order of times and of the lifetime.
unfoldable pub valid_times : Claims → TicketOptions → Bool
valid_times c o =
    let issued = natural c.issued_at in
    let starts = natural c.not_before in
    let ends = natural c.expires_at in
    (ltb 0 issued && (ltb 0 starts && ltb 0 ends))
    && ((ltb issued ends && (leb issued starts && ltb starts ends))
        && (leb (ends - issued) (o.max_lifetime / second)
            && leb (ends - issued) (max_ticket_lifetime / second)))

-- `validateClaims`; a local relay ID is given when verifying.
unfoldable pub validate_claims : Claims → ℕ → TicketOptions → Option Bytes → ClaimsVerdict
validate_claims c now o none =
    if not (valid_names c && valid_times c o)
    then invalid_ticket
    else (if is_after (natural c.issued_at) (now + o.clock_skew)
        then invalid_ticket
        else (if is_after (natural c.expires_at) now then valid else invalid_ticket))
validate_claims c now o (some local) =
    if not (valid_names c && (same c.relay_id local && valid_times c o))
    then invalid_ticket
    else (if is_after (natural c.issued_at) (now + o.clock_skew)
          || is_after (natural c.not_before) (now + o.clock_skew)
        then invalid_ticket
        else (if is_after (natural c.expires_at) (now - o.clock_skew)
            then valid
            else expired_ticket))
