-- ===== src/Broker/Access/Tests.antt =====
-- internal/broker: access requests, polls and acknowledgements at concrete inputs.
use openrung.Base.{
  ℕ, zero, suc, ◌+◌, ◌≡◌, ◌≤◌, refl, true, false, List, [], ◌∷◌, ◌++◌, none, some, arith, All, any,
  filter, count, length,
}
use openrung.Base.Bytes.{Bytes, bytes_eq, bytes_le}
use openrung.Base.Int.{pos}
use openrung.Base.Map.{lookup, insert, remove}
use openrung.Base.Member.{values}
use openrung.Base.Sort.{sort_by, place}
use openrung.Broker.Notifier.{
  new_lease_notifier, subscribe, release, nth, mark, drop_ref, set_at, broadcast,
}
use openrung.Base.Space.{
  trim_space, trim_start, trim_end, skip_spaces, space_at, space_before, reversed, is_space,
  is_space2, is_space3,
}
use openrung.Broker.SignIn.AccessToken.{verify_token, verify_raw, of_big_endian, is_unexpired}
use openrung.Broker.SignIn.Tests.{plain_codes, codec, token}
use openrung.Broker.Store.{disabled, Store, User, enabled, Descriptor}
use openrung.Broker.Store.Tests.{registered}
use openrung.Broker.Access.{
  change_status, World, new_access_service, issue, issue_request, wake_changed,
}
use openrung.Broker.Access.Stats.{no_counts, add}
use openrung.Broker.Access.Candidates.{
  relay_prefix, well_formed_relay_id, lower_hex, reserve_wss_candidate, relay_unreachable,
  without_unreachable, carries_leases, matches, access_candidates,
}
use openrung.Broker.Access.Await.{
  Round, Delays, timed_out, woken, await_rounds, revision_of, wanted, pending, take_in,
  subscribe_all, release_all, is_deadline, released, await_applied, any_relay_alive, count_extended,
  extend_wait, after_wait, await_issued,
}
use openrung.Broker.Access.Reply.{
  trim_brackets_start, trim_brackets_end, is_ipv6_host, request_over_ipv6, installed,
  uses_access_host, hand_out, compose, truncate, normalize_relay, response_of, count_written,
  write_access,
}
use openrung.Broker.Access.Handler.{
  AccessRequest, Settings, Circumstances, Answer, relays, access, page_of, limit_of, valid_country,
  answer_relays, reach_of, answer_applied, after_await, issue_refusal, after_issue, with_page,
  with_user, authorize, with_limit, with_request, count_answer, counted,
}
use openrung.Broker.Access.Polls.{
  lease_ack, lease_poll, poll_rounds, Hold, after, presents, after_ack,
}
use openrung.Broker.Access.Selection.{MayServe, page_of-MayServe}
use openrung.Broker.Access.Ends.{is_unfinished, await_rounds-ends}
use openrung.Broker.Access.Acknowledged.{Steady}
use openrung.Broker.Store.Ownership.{Belongs}
use openrung.Broker.Store.Issued.{Leases, issue_leases-Belongs}
use openrung.Broker.Access.Denied.{IsRefused, access-change_status}
use openrung.Broker.Access.Authorized.{Authorized, access-Authorized}
use openrung.Broker.Access.Relays.{Refused, lease_poll-Refused, IsPast, poll_rounds-IsPast}
use openrung.Broker.Access.Records.{lease_ack-KeepsAcks}
use openrung.Broker.Store.Issue.{
  normalized, by_relay, divide, renewed_before, plan_lease_issue, over_cap, victims, mint, current,
  evict, extend_lease, create_lease, minted_for, issue_on, issue_each, eligible_relays, carry_out,
  issue_leases,
}
use openrung.Broker.Store.Leases.{
  same, is_live, row, put_lease, put_row, live_leases_for_user, live_lease_count_for_relay,
  contains, unique, sorted_unique,
}
use openrung.Broker.Store.LeaseSets.{
  lease_relay_authorized, ack_lease_revision, applied_lease_revisions,
}
use openrung.Broker.Store.Lookups.{relay_by_id}
use openrung.Broker.Store.Users.{user_by_id}
use openrung.Broker.Store.Telemetry.{is_empty}

abbrev zeros : ℕ → Bytes
zeros zero = []
zeros (suc n) = 48 ∷ zeros n

abbrev relay_id : Bytes
relay_id = relay_prefix ++ zeros 32

abbrev relay : Descriptor
relay = record registered { id = relay_id }

abbrev user : User
user = record {
  id = 85 ∷ [];
  public_key = 1 ∷ [];
  status = enabled;
  created_at = 1;
  last_auth_at = 1;
  disabled_at = 0;
  disabled_reason = [];
}

abbrev first_store : Store
first_store = record {
  relays = (relay_id, relay) ∷ [];
  sessions = [];
  observations = [];
  users = (85 ∷ [], user) ∷ [];
  user_ids_by_key = [];
  enrollment = [];
  leases = [];
  lease_states = [];
}

abbrev world : World
world = record {
  store = first_store;
  changed = new_lease_notifier;
  applied = new_lease_notifier;
  stats = record { every = 600; since = 0; counts = no_counts };
}

abbrev settings : Settings
settings = record {
  codes = plain_codes;
  tokens = codec;
  access = record {
    lease_ttl = 60_000_000_000;
    max_leases_per_user = 10;
    max_leases_per_relay = 2000;
  };
  addresses = record { parse_ip = λ s. none; parse_addr = λ s. none };
  withhold_unreachable = true;
  drained = λ id. false;
}

-- The relay acknowledges the first revision while the request waits.
abbrev acknowledges : World → World
acknowledges w = (lease_ack w relay_id (1 ∷ []) (some (pos 1))).0

abbrev round : Round
round = record {
  others_reading = λ w. w;
  readable = true;
  others_waiting = acknowledges;
  wake = woken;
}

abbrev delays : Delays
delays = record { first = round ∷ round ∷ []; checked_at = 70; answers = λ id. true; second = [] }

abbrev circumstances : Circumstances
circumstances = record {
  now = 5;
  issued_at = 6;
  answered_at = 7;
  bearer = token;
  client_ip = none;
  ranked = some (relay ∷ []);
  random = some (2 ∷ [], 3 ∷ []) ∷ [];
  gone_after_issue = false;
  delays = delays;
  gone_after_wait = false;
}

abbrev request : AccessRequest
request = record { limit = pos 0; relay_id = relay_id; country = [] }

round-Steady : Steady round
round-Steady w = (λ j. omega arith, lease_ack-KeepsAcks w relay_id (1 ∷ []) (some (pos 1)))

access-Authorized_example :
    Authorized settings world circumstances
      (some request)
      (access settings world circumstances (some request))
access-Authorized_example =
    access-Authorized settings world circumstances (some request) (tt, tt)
      ((round-Steady, (round-Steady, tt)), tt)

-- The client IDs of an answer.
abbrev client_ids : List Descriptor → List Bytes
client_ids [] = []
client_ids (d ∷ ds) = d.client_id ∷ client_ids ds

abbrev answered_ids : Answer → List Bytes
answered_ids (relays body) = client_ids body.relays
answered_ids _ = []

-- The relay acknowledged the lease, so its credential is answered.
grants_credential :
    answered_ids (access settings world circumstances (some request)).1 ≡ (3 ∷ []) ∷ []
unfolding issue issue_request wake_changed add relay_unreachable without_unreachable carries_leases
    matches access_candidates reserve_wss_candidate lower_hex well_formed_relay_id revision_of
    wanted pending take_in subscribe_all release_all is_deadline released await_rounds await_applied
    any_relay_alive count_extended extend_wait after_wait await_issued trim_brackets_start
    trim_brackets_end is_ipv6_host request_over_ipv6 installed uses_access_host hand_out compose
    truncate normalize_relay response_of count_written write_access limit_of valid_country page_of
    answer_relays reach_of answer_applied after_await issue_refusal after_issue with_page with_user
    authorize with_limit with_request access count_answer counted normalized by_relay divide
    renewed_before plan_lease_issue over_cap victims mint current evict extend_lease create_lease
    minted_for issue_on issue_each eligible_relays carry_out issue_leases is_live same row put_lease
    put_row live_leases_for_user live_lease_count_for_relay contains unique sorted_unique
    lease_relay_authorized ack_lease_revision applied_lease_revisions relay_by_id user_by_id
    is_empty lease_ack after_ack presents trim_space trim_start trim_end skip_spaces space_at
    space_before reversed is_space is_space2 is_space3 verify_token verify_raw of_big_endian
    is_unexpired subscribe release nth mark drop_ref set_at broadcast filter count any lookup insert
    remove bytes_eq bytes_le values sort_by place
grants_credential = refl

page_of-MayServe_example :
    All (MayServe true relay_id []) (page_of settings (relay ∷ []) relay_id [] 5)
    × (length (page_of settings (relay ∷ []) relay_id [] 5) ≤ 5)
    × (length (page_of settings (relay ∷ []) relay_id [] 5) ≤ 10)
page_of-MayServe_example =
    page_of-MayServe settings (relay ∷ []) relay_id [] 5 (omega arith) (omega arith)

-- A foundation relay that carries tickets.
abbrev front : Descriptor
front = record relay {
  node_class = 102 ∷ 111 ∷ 117 ∷ 110 ∷ 100 ∷ 97 ∷ 116 ∷ 105 ∷ 111 ∷ 110 ∷ [];
  advert = record relay.advert { exit_mode = relay.transport; wss_fronts = (1 ∷ []) ∷ [] };
}

-- The deadline passes without an acknowledgement.
abbrev deadline : Round
deadline = record round { others_waiting = λ w. w; wake = timed_out }

await_rounds-ends_example :
    is_unfinished
      (await_rounds world
        ((relay_id, 1) ∷ [])
        []
        false
        ((record deadline { wake = woken } ∷ []) ++ (deadline ∷ round ∷ []))).1
    ≡ false
await_rounds-ends_example =
    await_rounds-ends world ((relay_id, 1) ∷ []) [] false (record deadline { wake = woken } ∷ []) []
      deadline round refl

-- A poll that an acknowledgement does not end.
abbrev hold : Hold
hold = record {
  elapsed = false;
  others_reading = acknowledges;
  read_at = 8;
  readable = true;
  others_waiting = λ w. w;
  wake = timed_out;
  woken_at = 9;
  readable_again = true;
}

lease_poll-Refused_example : Refused world (lease_poll world relay_id (9 ∷ []) (after 0) 7 true [])
unfolding lease_relay_authorized lookup same is_empty bytes_eq
lease_poll-Refused_example = lease_poll-Refused world relay_id (9 ∷ []) (after 0) 7 true [] refl

poll_rounds-IsPast_example : IsPast 0 (
    poll_rounds world relay_id
      (1 ∷ [])
      0
      (record { revision = 0; applied_revision = 0; leases = [] })
      7
      (hold ∷ []))
poll_rounds-IsPast_example =
    poll_rounds-IsPast world relay_id (1 ∷ []) 0
      (record { revision = 0; applied_revision = 0; leases = [] }) 7 (hold ∷ []) (refl, tt)

issue_leases-Belongs_example :
    Leases
      (Belongs (85 ∷ []) (6 + 60_000_000_000))
      (issue_leases first_store
        (issue_request settings.access (85 ∷ []) (relay_id ∷ []))
        6
        (some (2 ∷ [], 3 ∷ []) ∷ [])).1
unfolding normalized issue_request
issue_leases-Belongs_example =
    issue_leases-Belongs first_store (issue_request settings.access (85 ∷ []) (relay_id ∷ [])) 6
      (some (2 ∷ [], 3 ∷ []) ∷ []) (tt, tt)

-- A lifetime over a day is refused.
refuses_lifetime :
    new_access_service (record {
      access_lease_ttl = 86_400_000_000_001;
      max_leases_per_user = pos 1;
      max_leases_per_relay = pos 1;
    })
    ≡ none
unfolding new_access_service
refuses_lifetime = refl

names_user : verify_token plain_codes codec token 5 ≡ some (85 ∷ [])
unfolding verify_token verify_raw of_big_endian is_unexpired bytes_eq
names_user = refl

access-change_status_example : IsRefused (change_status world (85 ∷ []) (some disabled) [] 4).0 (
    access settings
      (change_status world (85 ∷ []) (some disabled) [] 4).0
      circumstances
      (some request))
unfolding lookup bytes_eq
access-change_status_example =
    access-change_status settings world (85 ∷ []) [] 4 user circumstances (some request) refl
      names_user
