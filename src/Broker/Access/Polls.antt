-- ===== src/Broker/Access/Polls.antt =====
-- internal/broker/access.go: the handlers that relays and operators call. The bearer is the token
-- that leaseBearer takes from the Authorization header, empty where there is none.
use openrung.Base.{
  ◌⊎◌, inl, inr, ℕ, suc, ◌-◌, Bool, true, false, not, ◌&&◌, ◌||◌, List, [], ◌∷◌, ◌++◌, Option, none,
  some, ltb, ◌==◌, if◌then◌else◌, length, map, take, drop,
}
use openrung.Base.Bytes.{Bytes}
use openrung.Base.Int.{ℤ, pos, negsuc}
use openrung.Broker.Notifier.{subscribe, release, broadcast}
use openrung.Broker.Store.{Store, Lease, Error, ok, err, relay_not_found, lease_not_found}
use openrung.Broker.Store.Leases.{same}
use openrung.Broker.Store.Telemetry.{is_empty}
use openrung.Broker.Store.LeaseSets.{LeaseSet, relay_lease_set, ack_lease_revision, lease_by_id}
use openrung.Broker.Access.{World}
use openrung.Broker.Access.Candidates.{well_formed_relay_id, well_formed_lease_id}
use openrung.Broker.Access.Await.{Wake, cancelled}

-- relay.LeaseEntry
pub record LeaseEntry : Type 0 where
  pub id : Bytes
  pub credential : Bytes
  pub expires_at : ℕ

-- relay.LeaseSyncResponse
pub record LeaseSyncResponse : Type 0 where
  pub server_time : ℕ
  pub revision : ℕ
  pub leases : List LeaseEntry

unfoldable pub lease_entry : Lease → LeaseEntry
lease_entry l = record { id = l.id; credential = l.credential; expires_at = l.expires_at }

-- `leaseSyncResponse`
unfoldable pub lease_sync_response : LeaseSet → ℕ → LeaseSyncResponse
lease_sync_response set now = record {
  server_time = now;
  revision = set.revision;
  leases = map lease_entry set.leases;
}

-- The `after` parameter: missing, a revision, or no such number.
pub data After : Type 0 where
  no_after bad_after : After
  after : ℕ → After

-- The answers of a poll; `left` is a request that ended, and `pending_poll` one whose rounds ran out.
pub data Poll : Type 0 where
  not_found bad_revision unreadable_leases left pending_poll : Poll
  synced : LeaseSyncResponse → Poll

-- One round of a poll: whether the hold is over when it starts, what others do before the reading
-- that follows the subscription, that reading's time and whether the store can be read, and the
-- same for the wait and its reading.
pub record Hold : Type 0 where
  pub elapsed : Bool
  pub others_reading : World → World
  pub read_at : ℕ
  pub readable : Bool
  pub others_waiting : World → World
  pub wake : Wake
  pub woken_at : ℕ
  pub readable_again : Bool

-- `readSet`: the set, or the answer.
unfoldable pub read_set : World → Bytes → Bytes → ℕ → Bool → Poll ⊎ LeaseSet
read_set w id token now false = inl unreadable_leases
read_set w id token now true = elim (relay_lease_set w.store id token now) [
  | ok set ↦ inr set
  | err relay_not_found ↦ inl not_found
  | err _ ↦ inl unreadable_leases
]

-- The handle is how many subscriptions are older.
unfoldable pub let_go : World → ℕ → World
let_go w k = record w { changed = release w.changed (length w.changed.subscriptions - suc k) }

-- What a round does with its outcome: the poll ends, or goes on with another set.
pub data Turn : Type 0 where
  answer : Poll → Turn
  go_on : LeaseSet → ℕ → Turn

-- A reading that ends the round.
unfoldable pub turn_of : Poll ⊎ LeaseSet → ℕ → Turn
turn_of (inl p) now = answer p
turn_of (inr set) now = go_on set now

-- The wait of a round, whose set has not passed the revision.
unfoldable pub wait_turn : World → Bytes → Bytes → ℕ → Hold → World × Turn
wait_turn w id token k r =
    let v = let_go (r.others_waiting w) k in
    elim r.wake [
      | cancelled ↦ (v, answer left)
      | _ ↦ (v, turn_of (read_set v id token r.woken_at r.readable_again) r.woken_at)
    ]

-- A round after its reading.
unfoldable pub read_turn : World → Bytes → Bytes → ℕ → ℕ → Hold → Poll ⊎ LeaseSet → World × Turn
read_turn w id token n k r (inl p) = (let_go w k, answer p)
read_turn w id token n k r (inr set) =
    if ltb n set.revision then (let_go w k, go_on set r.read_at) else wait_turn w id token k r

-- One turn of the loop, past its first test.
unfoldable pub turn : World → Bytes → Bytes → ℕ → Hold → World × Turn
turn w id token n r =
    let k = length w.changed.subscriptions in
    let v = r.others_reading (record w { changed = subscribe w.changed id }) in
    read_turn v id token n k r (read_set v id token r.read_at r.readable)

-- The loop of `leasePollHandler`, with `after`.
unfoldable pub poll_rounds : World → Bytes → Bytes → ℕ → LeaseSet → ℕ → List Hold → World × Poll
poll_rounds w id token n set now [] =
    (w, if ltb n set.revision then synced (lease_sync_response set now) else pending_poll)
poll_rounds w id token n set now (r ∷ rs) =
    if ltb n set.revision || r.elapsed
    then (w, synced (lease_sync_response set now))
    else (let (v, t) = turn w id token n r in
        elim t [ answer p ↦ (v, p) | go_on next at ↦ poll_rounds v id token n next at rs ])

-- The handler once the first reading is done.
unfoldable pub poll_with :
    World → Bytes → Bytes → After → ℕ → List Hold → Poll ⊎ LeaseSet → World × Poll
poll_with w id token a now rs (inl p) = (w, p)
poll_with w id token (after n) now rs (inr set) = poll_rounds w id token n set now rs
poll_with w id token _ now rs (inr set) = (w, synced (lease_sync_response set now))

-- The request names a relay and has a token.
unfoldable pub presents : Bytes → Bytes → Bool
presents id token = well_formed_relay_id id && not (is_empty token)

-- `leasePollHandler`, with the time of the first reading and whether the store could be read.
unfoldable pub lease_poll : World → Bytes → Bytes → After → ℕ → Bool → List Hold → World × Poll
lease_poll w id token bad_after now readable rs =
    (w, if presents id token then bad_revision else not_found)
lease_poll w id token a now readable rs =
    if presents id token
    then poll_with w id token a now rs (read_set w id token now readable)
    else (w, not_found)

-- The answers of an acknowledgement.
pub data Ack : Type 0 where
  no_relay bad_ack_json negative_revision no_record recorded : Ack

-- What follows the store's answer.
unfoldable pub after_ack : World → Bytes → Store × Option Error → World × Ack
after_ack w id (s, none) =
    (record w { store = s; applied = broadcast w.applied (id ∷ []) }, recorded)
after_ack w id (s, some relay_not_found) = (record w { store = s }, no_relay)
after_ack w id (s, some e) = (record w { store = s }, no_record)

-- `leaseAckHandler`; the revision is none where the body is not one object of the expected form.
unfoldable pub lease_ack : World → Bytes → Bytes → Option ℤ → World × Ack
lease_ack w id token revision =
    if presents id token
    then (elim revision [
      | none ↦ (w, bad_ack_json)
      | some (negsuc n) ↦ (w, negative_revision)
      | some (pos n) ↦ after_ack w id (ack_lease_revision w.store id token n)
    ])
    else (w, no_relay)

-- "lease-"
abbrev pub lease_email_prefix : Bytes
lease_email_prefix = 108 ∷ 101 ∷ 97 ∷ 115 ∷ 101 ∷ 45 ∷ []

pub data LeaseStatus : Type 0 where
  revoked expired live : LeaseStatus

-- leaseView; a time of revocation of 0 is left out.
pub record LeaseView : Type 0 where
  pub lease_id : Bytes
  pub label : Bytes
  pub user_id : Bytes
  pub relay_id : Bytes
  pub status : LeaseStatus
  pub created_at : ℕ
  pub renewed_at : ℕ
  pub expires_at : ℕ
  pub revoked_at : ℕ
  pub revision : ℕ

unfoldable pub lease_status : Lease → ℕ → LeaseStatus
lease_status l now =
    if not (l.revoked_at == 0) then revoked else (if ltb now l.expires_at then live else expired)

-- `leaseViewOf`
unfoldable pub lease_view_of : Lease → ℕ → LeaseView
lease_view_of l now = record {
  lease_id = l.id;
  label = lease_email_prefix ++ l.id;
  user_id = l.user_id;
  relay_id = l.relay_id;
  status = lease_status l now;
  created_at = l.created_at;
  renewed_at = l.renewed_at;
  expires_at = l.expires_at;
  revoked_at = l.revoked_at;
  revision = l.revision;
}

pub data Method : Type 0 where
  get head other_method : Method

pub data AdminAnswer : Type 0 where
  no_admin wrong_method no_lease lease_unreadable : AdminAnswer
  shown : LeaseView → AdminAnswer

-- strings.TrimPrefix of the label's prefix
unfoldable pub trim_email_prefix : Bytes → Bytes
trim_email_prefix id = if same (take 6 id) lease_email_prefix then drop 6 id else id

unfoldable pub is_read : Method → Bool
is_read other_method = false
is_read _ = true

-- `adminLeaseHandler`; whether the operational token matches is an argument.
unfoldable pub admin_lease : World → Bool → Method → Bytes → ℕ → AdminAnswer
admin_lease w authorized method path_id now =
    let id = trim_email_prefix path_id in
    if not authorized
    then no_admin
    else (if not (is_read method)
        then wrong_method
        else (if not (well_formed_lease_id id) then no_lease else (elim (lease_by_id w.store id) [
          | err lease_not_found ↦ no_lease
          | err _ ↦ lease_unreadable
          | ok l ↦ shown (lease_view_of l now)
        ])))
