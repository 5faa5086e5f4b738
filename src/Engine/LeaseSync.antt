-- ===== src/Engine/LeaseSync.antt =====
-- internal/relayruntime/engine/leases.go: the relay's synchronisation of access leases. Xray is
-- outside of the model: the list of outcomes says for each call of AddUser and RemoveUser to come
-- whether it returns no error, and nothing is said of what Xray holds after a call, which may fail and
-- still have had its effect. The state is the relay's own. The answers of the broker are arguments.
pub mod Reconcile
pub mod Target
pub mod Cycle
pub mod Tests
use openrung.Base.{
  ℕ, ◌+◌, ◌-◌, Bool, true, false, not, ◌&&◌, ◌||◌, List, [], ◌∷◌, Option, none, some, ltb, leb,
  ◌==◌, if◌then◌else◌, ite, any,
}
use openrung.Base.Bytes.{Bytes, bytes_eq}
use openrung.Base.Map.{lookup, insert, remove}

-- leaseSession; its channel is closed by every change of the generation.
pub record LeaseSession : Type 0 where
  pub id : Bytes
  pub token : Bytes
  pub generation : ℕ

unfoldable pub same_name : Bytes → Bytes → Bool
same_name a b = ite (bytes_eq a b) true false

-- The method `set`.
unfoldable pub set : LeaseSession → Bytes → Bytes → LeaseSession
set s id token =
    if same_name id s.id && same_name token s.token
    then s
    else record { id = id; token = token; generation = s.generation + 1 }

unfoldable pub superseded : LeaseSession → ℕ → Bool
superseded s generation = not (s.generation == generation)

-- installedLease
pub record InstalledLease : Type 0 where
  pub credential : Bytes
  pub expires_at : ℕ

-- relay.LeaseEntry
pub record LeaseEntry : Type 0 where
  pub id : Bytes
  pub credential : Bytes
  pub expires_at : ℕ

-- relay.LeaseSyncResponse
pub record LeaseSyncResponse : Type 0 where
  pub revision : ℕ
  pub server_time : ℕ
  pub leases : List LeaseEntry

-- leaseSync, with the outcomes of the calls of Xray to come; `activate` says whether its channel holds
-- a signal.
pub record LeaseSync : Type 0 where
  pub installed : List (Bytes × InstalledLease)
  pub outcomes : List Bool
  pub applied : ℕ
  pub pending_ack : Bool
  pub full : Bool
  pub generation : ℕ
  pub announced : Bool
  pub active : Bool
  pub activate : Bool

-- `newLeaseSync`
unfoldable pub new_lease_sync : List Bool → LeaseSync
new_lease_sync outcomes = record {
  installed = [];
  outcomes = outcomes;
  applied = 0;
  pending_ack = false;
  full = true;
  generation = 0;
  announced = false;
  active = false;
  activate = false;
}

-- `setActive`
unfoldable pub set_active : LeaseSync → Bool → LeaseSync
set_active s active =
    let changed = if s.active then not active else active in
    record s {
      active = active;
      full = active || s.full;
      pending_ack = not active && s.pending_ack;
      activate = changed || s.activate;
    }

-- Whether the next call of Xray returns no error.
unfoldable pub succeeds : LeaseSync → Bool
succeeds s = elim s.outcomes [ [] ↦ true | b ∷ bs ↦ b ]

unfoldable pub next : LeaseSync → LeaseSync
next s = elim s.outcomes [ [] ↦ s | b ∷ bs ↦ record s { outcomes = bs } ]

-- The entry of the installed map, which follows an AddUser that returns no error.
unfoldable pub add_user : LeaseSync → LeaseEntry → ℕ → LeaseSync
add_user s e expiry = record s {
  installed =
      insert bytes_eq e.id (record { credential = e.credential; expires_at = expiry }) s.installed;
}

-- The delete that follows a RemoveUser which returns no error.
unfoldable pub remove_user : LeaseSync → Bytes → LeaseSync
remove_user s id = record s { installed = remove bytes_eq id s.installed }

-- The call of AddUser in `install`.
unfoldable pub add : LeaseSync → LeaseEntry → ℕ → LeaseSync × Bool
add s e expiry = if succeeds s then (add_user (next s) e expiry, true) else (next s, false)

-- `install`
unfoldable pub install : LeaseSync → LeaseEntry → ℕ → LeaseSync × Bool
install s e expiry = elim (lookup bytes_eq e.id s.installed) [
  | none ↦ add s e expiry
  | some x ↦
      let moved = record s {
        installed =
            insert bytes_eq e.id (record { credential = x.credential; expires_at = expiry })
              s.installed;
      } in
      if same_name x.credential e.credential
      then (moved, true)
      else (if succeeds s then add (remove_user (next s) e.id) e expiry else (next s, false))
]

-- `remove`; its callers pass no condition.
unfoldable pub remove_lease : LeaseSync → Bytes → LeaseSync × Bool
remove_lease s id = elim (lookup bytes_eq id s.installed) [
  | none ↦ (s, true)
  | some x ↦ if succeeds s then (remove_user (next s) id, true) else (next s, false)
]

-- The first loop of `reconcile`.
unfoldable pub install_all : LeaseSync → ℕ → ℕ → List LeaseEntry → LeaseSync × Bool
install_all s now server_time [] = (s, true)
install_all s now server_time (e ∷ es) = elim (ltb server_time e.expires_at) [
  | false ↦ install_all s now server_time es
  | true ↦
      let (t, done) = install s e (now + (e.expires_at - server_time)) in
      let (u, rest) = install_all t now server_time es in (u, done && rest)
]

-- The IDs that it leaves in `desired`.
unfoldable pub desired : ℕ → List LeaseEntry → List Bytes
desired server_time [] = []
desired server_time (e ∷ es) =
    let rest = desired server_time es in if ltb server_time e.expires_at then e.id ∷ rest else rest

-- `installedIDs`
unfoldable pub installed_ids : List (Bytes × InstalledLease) → List Bytes
installed_ids [] = []
installed_ids ((id, x) ∷ m) = id ∷ installed_ids m

unfoldable pub has : Bytes → List Bytes → Bool
has id ids = any (same_name id) ids

-- The second loop of `reconcile`.
unfoldable pub remove_others : LeaseSync → List Bytes → List Bytes → LeaseSync × Bool
remove_others s wanted [] = (s, true)
remove_others s wanted (id ∷ ids) = elim (has id wanted) [
  | true ↦ remove_others s wanted ids
  | false ↦
      let (t, done) = remove_lease s id in
      let (u, rest) = remove_others t wanted ids in (u, done && rest)
]

-- `reconcile`
unfoldable pub reconcile : LeaseSync → LeaseSyncResponse → ℕ → LeaseSync × Bool
reconcile s resp now =
    let (t, installs) = install_all s now resp.server_time resp.leases in
    let (u, removes) =
      remove_others t (desired resp.server_time resp.leases) (installed_ids t.installed) in
    (u, installs && removes)

-- The loop of `expireLocal`, over the entries at its start.
unfoldable pub expire_each : LeaseSync → ℕ → List (Bytes × InstalledLease) → LeaseSync
expire_each s now [] = s
expire_each s now ((id, x) ∷ m) = elim (ltb now x.expires_at) [
  | true ↦ expire_each s now m
  | false ↦ expire_each (if succeeds s then remove_user (next s) id else next s) now m
]

-- `expireLocal`
unfoldable pub expire_local : LeaseSync → ℕ → LeaseSync
expire_local s now = expire_each s now s.installed

-- `removeAll`
unfoldable pub remove_all : LeaseSync → LeaseSync × Bool
remove_all s = remove_others s [] (installed_ids s.installed)

-- How a call of the broker fails; `interrupted` where the context has ended.
pub data BrokerError : Type 0 where
  not_found failed interrupted : BrokerError

-- `handleBrokerError`, less its waiting.
unfoldable pub handle_broker_error : LeaseSync → BrokerError → LeaseSync × Bool
handle_broker_error s not_found = (record s { full = true }, false)
handle_broker_error s failed = (s, false)
handle_broker_error s interrupted = (s, false)

-- `ack`, with the broker's answer.
unfoldable pub ack : LeaseSync → ℕ → Option BrokerError → LeaseSync × Bool
ack s revision (some e) = handle_broker_error s e
ack s revision none = (
  record s {
    pending_ack = if s.applied == revision then false else s.pending_ack;
    announced = true;
  },
  true,
)

-- The start of `cycle`.
unfoldable pub begin_cycle : LeaseSync → ℕ → LeaseSync
begin_cycle s generation =
    if generation == s.generation
    then s
    else record s { generation = generation; full = true; pending_ack = false }

-- What `cycle` does with the set that it polled; `s` is the state of its start.
unfoldable pub apply_set : LeaseSync → LeaseSyncResponse → ℕ → Option BrokerError → LeaseSync × Bool
apply_set s resp now acked =
    let (t, done) = reconcile s resp now in
    let pending = s.full || not (resp.revision == t.applied) || t.pending_ack in
    let u = record t { applied = resp.revision; pending_ack = pending; full = false } in
    elim done [
      | false ↦ (record t { full = true }, false)
      | true ↦ elim pending [ true ↦ ack u resp.revision acked | false ↦ (u, true) ]
    ]

-- `cycle` after its first acknowledgement, with the answer of the poll.
unfoldable pub poll :
    LeaseSync → Option LeaseSyncResponse → BrokerError → ℕ → Option BrokerError → LeaseSync × Bool
poll s none e now acked = handle_broker_error s e
poll s (some resp) e now acked = apply_set s resp now acked

-- `cycle`: the answers of the broker are the one to a pending acknowledgement, the polled set or the
-- poll's error, and the one to the set's acknowledgement.
unfoldable pub cycle :
    LeaseSync
    → ℕ
    → Option BrokerError
    → Option LeaseSyncResponse
    → BrokerError
    → ℕ
    → Option BrokerError
    → LeaseSync × Bool
cycle s generation first_acked answer e now acked =
    let t = begin_cycle s generation in
    elim (t.pending_ack && not t.full) [
      | false ↦ poll t answer e now acked
      | true ↦
          let (u, done) = ack t t.applied first_acked in
          elim done [ true ↦ poll u answer e now acked | false ↦ (u, false) ]
    ]
