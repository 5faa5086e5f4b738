-- ===== src/Broker/Access/Reply.antt =====
-- internal/broker/client_access.go: the relay list that answers an access request. Its signature, key
-- ID and channel are not part of this model. The parsers of addresses, which Go's net packages give,
-- are the interface `Addresses`.
use openrung.Base.{
  ℕ, ◌+◌, ◌*◌, ◌/◌, Bool, false, not, ◌&&◌, ◌||◌, List, [], ◌∷◌, Option, none, some, ltb, ◌==◌,
  if◌then◌else◌, length, map,
}
use openrung.Base.Bytes.{Bytes, bytes_eq}
use openrung.Base.Map.{lookup, insert}
use openrung.Base.Space.{trim_space}
use openrung.Broker.SignIn.AccessToken.{second}
use openrung.Broker.Store.{Descriptor, Lease}
use openrung.Broker.Store.Leases.{contains}
use openrung.Broker.Store.Telemetry.{is_empty}
use openrung.Broker.Access.{World}
use openrung.Broker.Access.Stats.{AccessCounts, add}
use openrung.Broker.Access.Candidates.{access_host_unreachable}

pub record Addresses : Type 0 where
  -- net.ParseIP, and whether the address has no IPv4 form.
  pub parse_ip : Bytes → Option Bool
  -- netip.ParseAddr, and whether the address is IPv6 once it is unmapped.
  pub parse_addr : Bytes → Option Bool

-- accessResponse; an expiry of 0 is left out.
pub record AccessResponse : Type 0 where
  pub count : ℕ
  pub server_time : ℕ
  pub not_after : ℕ
  pub relays : List Descriptor
  pub lease_expires_at : ℕ

-- strings.Trim of square brackets
unfoldable pub trim_brackets_start : Bytes → Bytes
trim_brackets_start [] = []
trim_brackets_start (c ∷ cs) =
    let rest = trim_brackets_start cs in if c == 91 || c == 93 then rest else c ∷ cs

unfoldable pub trim_brackets_end : Bytes → Bytes
trim_brackets_end [] = []
trim_brackets_end (c ∷ cs) = elim (trim_brackets_end cs) [
  | [] ↦ if c == 91 || c == 93 then [] else c ∷ []
  | d ∷ ds ↦ c ∷ d ∷ ds
]

-- `IsIPv6Host`
unfoldable pub is_ipv6_host : Addresses → Bytes → Bool
is_ipv6_host a host = elim (a.parse_ip (trim_brackets_end (trim_brackets_start host))) [
  | none ↦ false
  | some v6 ↦ v6
]

-- `requestOverIPv6`; there is no address without a resolver.
unfoldable pub request_over_ipv6 : Addresses → Option Bytes → Bool
request_over_ipv6 a none = false
request_over_ipv6 a (some address) = elim (a.parse_addr (trim_space address)) [
  | none ↦ false
  | some v6 ↦ v6
]

-- The loop that fills byRelay with the leases whose relay acknowledged.
unfoldable pub installed : List Bytes → List Lease → List (Bytes × Lease) → List (Bytes × Lease)
installed applied [] m = m
installed applied (l ∷ ls) m =
    installed applied ls (if contains l.relay_id applied then insert bytes_eq l.relay_id l m else m)

-- What decides on access addresses: the request came over IPv6, and failed probes count.
pub record Reach : Type 0 where
  pub over_ipv6 : Bool
  pub withhold_unreachable : Bool

module _ (a : Addresses) where
  -- The relay's access address is handed out.
  unfoldable pub uses_access_host : Reach → Descriptor → Bool
  uses_access_host r d =
      not (is_empty d.access_host)
      && ((r.over_ipv6 || not (is_ipv6_host a d.access_host))
          && not (r.withhold_unreachable && access_host_unreachable d))

  -- The relay as the answer has it.
  unfoldable pub hand_out : Reach → Descriptor → Lease → Descriptor
  hand_out r d l = record d {
    client_id = l.credential;
    public_host = if uses_access_host r d then d.access_host else d.public_host;
  }

  -- The loop over the page: the relays of the answer, and the earliest expiry.
  unfoldable pub compose : Reach → List (Bytes × Lease) → List Descriptor → ℕ → List Descriptor × ℕ
  compose r m [] expires_at = ([], expires_at)
  compose r m (d ∷ ds) expires_at = elim (lookup bytes_eq d.id m) [
    | none ↦ compose r m ds expires_at
    | some l ↦
        let (out, earliest) =
          compose r m ds
            (if expires_at == 0 || ltb l.expires_at expires_at then l.expires_at else expires_at) in
        (hand_out r d l ∷ out, earliest)
  ]

-- Truncate(time.Second)
unfoldable pub truncate : ℕ → ℕ
truncate t = t / second * second

unfoldable pub normalize_relay : Descriptor → Descriptor
normalize_relay d = record d {
  registered_at = truncate d.registered_at;
  last_heartbeat_at = truncate d.last_heartbeat_at;
  expires_at = truncate d.expires_at;
}

-- apiNotAfterWindow
abbrev pub api_not_after_window : ℕ
api_not_after_window = 1_800_000_000_000

-- The body, with `normalizeSignedRelayListTimes`.
unfoldable pub response_of : ℕ → List Descriptor → ℕ → AccessResponse
response_of now relays expires_at = record {
  count = length relays;
  server_time = truncate now;
  not_after = truncate (now + api_not_after_window);
  relays = map normalize_relay relays;
  lease_expires_at = truncate expires_at;
}

-- s.empty++ or s.granted++
unfoldable pub count_written : List Descriptor → AccessCounts → AccessCounts
count_written [] c = record c { empty = c.empty + 1 }
count_written (d ∷ ds) c = record c { granted = c.granted + 1 }

-- `writeAccess`
unfoldable pub write_access : World → ℕ → List Descriptor → ℕ → World × AccessResponse
write_access w now relays expires_at =
    (record w { stats = add now (count_written relays) w.stats }, response_of now relays expires_at)
