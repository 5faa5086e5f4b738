-- ===== src/Broker/Access/Candidates.antt =====
-- internal/broker/client_access.go, reachability.go and wss_ticket.go: the relays that an access
-- request may be given. Whether a relay's weight is 0 is an argument, since weights are floats.
use openrung.Base.{
  ℕ, Bool, true, false, not, ◌&&◌, ◌||◌, List, [], ◌∷◌, Option, none, some, leb, ◌==◌,
  if◌then◌else◌, length, take, drop, any, filter,
}
use openrung.Base.Bytes.{Bytes}
use openrung.Broker.Store.{Descriptor}
use openrung.Broker.Store.Leases.{same}
use openrung.Broker.Store.Telemetry.{is_empty}
use openrung.Broker.Store.Directory.{transport_direct, is_foundation}
use openrung.Base.Space.{trim_space, folded}

-- `relayUnreachable`
unfoldable pub relay_unreachable : Descriptor → Bool
relay_unreachable d = not (d.reachability_checked_at == 0) && not d.reachable

-- `accessHostUnreachable`
unfoldable pub access_host_unreachable : Descriptor → Bool
access_host_unreachable d = not (d.access_reachability_checked_at == 0) && not d.access_reachable

-- `withoutUnreachable`
unfoldable pub without_unreachable : Bool → List Descriptor → List Descriptor
without_unreachable false ds = ds
without_unreachable true ds = filter (λ d. not (relay_unreachable d)) ds

abbrev is_upper : ℕ → Bool
is_upper c = leb 65 c && leb c 90

abbrev is_lower : ℕ → Bool
is_lower c = leb 97 c && leb c 122

-- `asciiLetters`
unfoldable pub ascii_letters : Bytes → Bool
ascii_letters [] = true
ascii_letters (c ∷ cs) =
    let rest = ascii_letters cs in if is_lower c || is_upper c then rest else false

-- strings.EqualFold, where one of the two is of ASCII letters, as a request's country is.
unfoldable pub equal_fold : Bytes → Bytes → Bool
equal_fold a b = same (folded 0 a) (folded 0 b)

-- The registration can carry a lease.
unfoldable pub carries_leases : Descriptor → Bool
carries_leases d =
    d.lease_capable && not (is_empty d.identity_public_key) && same d.transport transport_direct

-- The relay is one that the request's target names, an empty string naming any.
unfoldable pub matches : Bytes → Bytes → Descriptor → Bool
matches relay_id country d =
    (is_empty relay_id || same d.id relay_id)
    && (is_empty country || equal_fold (trim_space d.geo.country_code) country)

-- `accessCandidates`
unfoldable pub access_candidates : List Descriptor → Bytes → Bytes → List Descriptor
access_candidates [] relay_id country = []
access_candidates (d ∷ ds) relay_id country =
    let rest = access_candidates ds relay_id country in
    if carries_leases d && matches relay_id country d then d ∷ rest else rest

-- `wssRelayEligible`
unfoldable pub wss_relay_eligible : Descriptor → Bool
wss_relay_eligible d =
    is_foundation d.node_class
    && (same d.transport transport_direct
        && (same d.advert.exit_mode transport_direct
            && (d.public_port == 443
                && (not (is_empty d.identity_public_key)
                    && not (length d.advert.wss_fronts == 0)))))

-- The first relay past the page that may take its last place; `drained` tests for a weight of 0.
unfoldable pub promoted : (Bytes → Bool) → List Descriptor → Option Descriptor
promoted drained [] = none
promoted drained (d ∷ ds) =
    let rest = promoted drained ds in
    if wss_relay_eligible d && not (drained d.id) then some d else rest

-- out[len(out)-1] = d
unfoldable pub set_last : List Descriptor → Descriptor → List Descriptor
set_last [] d = []
set_last (x ∷ []) d = d ∷ []
set_last (x ∷ y ∷ xs) d = x ∷ set_last (y ∷ xs) d

-- `reserveWSSCandidate`
unfoldable pub reserve_wss_candidate : (Bytes → Bool) → List Descriptor → ℕ → List Descriptor
reserve_wss_candidate drained relays limit =
    if limit == 0 || leb (length relays) limit
    then relays
    else (if any wss_relay_eligible (take limit relays)
        then take limit relays
        else (elim (promoted drained (drop limit relays)) [
          | none ↦ take limit relays
          | some d ↦ set_last (take limit relays) d
        ]))

-- A digit or a letter from a to f.
unfoldable pub lower_hex : Bytes → Bool
lower_hex [] = true
lower_hex (c ∷ cs) =
    let rest = lower_hex cs in
    if (leb 48 c && leb c 57) || (leb 97 c && leb c 102) then rest else false

-- "relay_"
abbrev pub relay_prefix : Bytes
relay_prefix = 114 ∷ 101 ∷ 108 ∷ 97 ∷ 121 ∷ 95 ∷ []

-- `WellFormedRelayID`
unfoldable pub well_formed_relay_id : Bytes → Bool
well_formed_relay_id id =
    (length id == 38 && same (take 6 id) relay_prefix) && lower_hex (drop 6 id)

-- `wellFormedLeaseID`
unfoldable pub well_formed_lease_id : Bytes → Bool
well_formed_lease_id id = length id == 32 && lower_hex id
