-- ===== src/Broker/Access/Handler.antt =====
-- internal/broker/client_access.go: POST /api/v1/access, whole.
use openrung.Base.{
  ℕ, zero, suc, ◌+◌, Bool, not, ◌&&◌, ◌||◌, List, [], Option, none, some, leb, ◌==◌, min,
  if◌then◌else◌, length, map,
}
use openrung.Base.Bytes.{Bytes}
use openrung.Base.Int.{ℤ, pos, negsuc}
use openrung.Base.Space.{trim_space}
use openrung.Broker.SignIn.AccessToken.{Codes, AccessTokenCodec, verify_token}
use openrung.Broker.Store.{
  Descriptor, Lease, enabled, disabled, Error, Result, ok, err, user_not_found, user_disabled,
}
use openrung.Broker.Store.Users.{user_by_id}
use openrung.Broker.Store.Telemetry.{is_empty}
use openrung.Broker.Access.{AccessService, World, issue}
use openrung.Broker.Access.Stats.{AccessCounts, add}
use openrung.Broker.Access.Candidates.{
  ascii_letters, without_unreachable, access_candidates, reserve_wss_candidate,
  well_formed_relay_id,
}
use openrung.Broker.Access.Await.{
  Waited, acknowledged, unreadable, abandoned, unfinished, Delays, await_issued,
}
use openrung.Broker.Access.Reply.{
  Addresses, AccessResponse, Reach, request_over_ipv6, installed, compose, write_access,
}

-- brokerapi.AccessRequest, as the body has it.
pub record AccessRequest : Type 0 where
  pub limit : ℤ
  pub relay_id : Bytes
  pub country : Bytes

-- The answers, by their status and message. `no_answer` is a request that the client left, and
-- `pending_answer` a wait whose rounds ran out.
pub data Answer : Type 0 where
  invalid_token disabled_user rate_limited : Answer
  invalid_json invalid_limit both_targets invalid_country : Answer
  no_authorization no_list no_issue no_confirmation : Answer
  not_installed no_answer pending_answer : Answer
  relays : AccessResponse → Answer

-- clientAccessHandler: what does not change.
pub record Settings : Type 0 where
  pub codes : Codes
  pub tokens : AccessTokenCodec
  pub access : AccessService
  pub addresses : Addresses
  pub withhold_unreachable : Bool
  -- The relays whose ranking weight is 0.
  pub drained : Bytes → Bool

-- What a request meets: the clock at each reading, the bearer, the client's address, the ranked
-- relays (none where the store cannot list them), the random lease IDs and credentials, and whether
-- the client has left when the issue, and when the wait, returns.
pub record Circumstances : Type 0 where
  pub now : ℕ
  pub issued_at : ℕ
  pub answered_at : ℕ
  pub bearer : Bytes
  pub client_ip : Option Bytes
  pub ranked : Option (List Descriptor)
  pub random : List (Option (Bytes × Bytes))
  pub gone_after_issue : Bool
  pub delays : Delays
  pub gone_after_wait : Bool

-- brokerapi.MaxAccessRelays
abbrev pub max_access_relays : ℕ
max_access_relays = 5

-- The limit of a request, none if it is out of range.
unfoldable pub limit_of : ℤ → Option ℕ
limit_of (pos zero) = some max_access_relays
limit_of (pos (suc n)) = if leb (suc n) max_access_relays then some (suc n) else none
limit_of (negsuc n) = none

unfoldable pub valid_country : Bytes → Bool
valid_country country = is_empty country || (length country == 2 && ascii_letters country)

module _ (h : Settings) where
  -- The page of relays for a target.
  unfoldable pub page_of : List Descriptor → Bytes → Bytes → ℕ → List Descriptor
  page_of ranked relay_id country limit =
      reserve_wss_candidate h.drained
        (access_candidates (without_unreachable h.withhold_unreachable ranked) relay_id country)
        (min limit h.access.max_leases_per_user)

  -- 200 with the relays.
  unfoldable pub answer_relays : World → ℕ → List Descriptor → ℕ → World × Answer
  answer_relays w now out expires_at =
      let (u, body) = write_access w now out expires_at in (u, relays body)

  unfoldable pub reach_of : Circumstances → Reach
  reach_of c = record {
    over_ipv6 = request_over_ipv6 h.addresses c.client_ip;
    withhold_unreachable = h.withhold_unreachable;
  }

  -- The answer once relays acknowledged.
  unfoldable pub answer_applied :
      World → Circumstances → List Descriptor → List Lease → List Bytes → World × Answer
  answer_applied w c page leases applied =
      let m = installed applied leases [] in
      if length m == 0
      then (w, not_installed)
      else (let (out, expires_at) = compose h.addresses (reach_of c) m page 0 in
          answer_relays w c.answered_at out expires_at)

  -- The answer to a wait's end.
  unfoldable pub after_await :
      Circumstances → List Descriptor → List Lease → World × Waited → World × Answer
  after_await c page leases (w, acknowledged applied) = answer_applied w c page leases applied
  after_await c page leases (w, unreadable) =
      (w, if c.gone_after_wait then no_answer else no_confirmation)
  after_await c page leases (w, abandoned) = (w, no_answer)
  after_await c page leases (w, unfinished) = (w, pending_answer)

  -- The answer to a failed issue.
  unfoldable pub issue_refusal : Circumstances → Error → Answer
  issue_refusal c user_disabled = disabled_user
  issue_refusal c user_not_found = invalid_token
  issue_refusal c e = if c.gone_after_issue then no_answer else no_issue

  -- The rest once leases are issued, or not; none may be, if all relays are full.
  unfoldable pub after_issue :
      Circumstances → List Descriptor → World × Result (List Lease) → World × Answer
  after_issue c page (w, err e) = (w, issue_refusal c e)
  after_issue c page (w, ok leases) =
      if c.gone_after_issue
      then (w, no_answer)
      else (if length leases == 0
          then answer_relays w c.now [] 0
          else after_await c page leases (await_issued w leases c.delays))

  -- The rest with the page.
  unfoldable pub with_page :
      World → Circumstances → Bytes → Bytes → List Descriptor → World × Answer
  with_page w c user_id relay_id page =
      if length page == 0 || (not (is_empty relay_id) && not (well_formed_relay_id relay_id))
      then answer_relays w c.now [] 0
      else after_issue c page
          (issue h.access w user_id (map (λ (d : Descriptor). d.id) page) c.issued_at c.random)

  -- The rest for a user that is enabled.
  unfoldable pub with_user : World → Circumstances → Bytes → Bytes → Bytes → ℕ → World × Answer
  with_user w c user_id relay_id country limit = elim c.ranked [
    | none ↦ (w, no_list)
    | some ranked ↦ with_page w c user_id relay_id (page_of ranked relay_id country limit)
  ]

  -- The user is looked up.
  unfoldable pub authorize : World → Circumstances → Bytes → Bytes → Bytes → ℕ → World × Answer
  authorize w c user_id relay_id country limit = elim (user_by_id w.store user_id) [
    | err user_not_found ↦ (w, invalid_token)
    | err _ ↦ (w, no_authorization)
    | ok u ↦ elim u.status [
      | disabled ↦ (w, disabled_user)
      | enabled ↦ with_user w c user_id relay_id country limit
    ]
  ]

  -- The checks of the request's target.
  unfoldable pub with_limit : World → Circumstances → Bytes → AccessRequest → ℕ → World × Answer
  with_limit w c user_id request limit =
      let relay_id = trim_space request.relay_id in
      let country = trim_space request.country in
      if not (is_empty relay_id) && not (is_empty country)
      then (w, both_targets)
      else (if not (valid_country country)
          then (w, invalid_country)
          else authorize w c user_id relay_id country limit)

  unfoldable pub with_request : World → Circumstances → Bytes → AccessRequest → World × Answer
  with_request w c user_id request = elim (limit_of request.limit) [
    | none ↦ (w, invalid_limit)
    | some limit ↦ with_limit w c user_id request limit
  ]

  -- `handler`, of a request's JSON, none where it is not one object of the expected form.
  unfoldable pub access : World → Circumstances → Option AccessRequest → World × Answer
  access w c request = elim (verify_token h.codes h.tokens c.bearer c.now) [
    | none ↦ (w, invalid_token)
    | some user_id ↦ elim request [ none ↦ (w, invalid_json) | some q ↦ with_request w c user_id q ]
  ]

-- The counter of an answer.
unfoldable pub count_answer : Answer → AccessCounts → AccessCounts
count_answer invalid_token k = record k { unauthorized = k.unauthorized + 1 }
count_answer disabled_user k = record k { denied = k.denied + 1 }
count_answer rate_limited k = record k { rate_limited = k.rate_limited + 1 }
count_answer invalid_json k = record k { bad_request = k.bad_request + 1 }
count_answer invalid_limit k = record k { bad_request = k.bad_request + 1 }
count_answer both_targets k = record k { bad_request = k.bad_request + 1 }
count_answer invalid_country k = record k { bad_request = k.bad_request + 1 }
count_answer not_installed k = record k { unapplied = k.unapplied + 1 }
count_answer no_answer k = record k { cancelled = k.cancelled + 1 }
count_answer no_authorization k = record k { failed = k.failed + 1 }
count_answer no_list k = record k { failed = k.failed + 1 }
count_answer no_issue k = record k { failed = k.failed + 1 }
count_answer no_confirmation k = record k { failed = k.failed + 1 }
count_answer pending_answer k = k
count_answer (relays body) k = k

-- `counted`, of the route's answer.
unfoldable pub counted : ℕ → World × Answer → World × Answer
counted now (w, pending_answer) = (w, pending_answer)
counted now (w, a) = (record w { stats = add now (count_answer a) w.stats }, a)
