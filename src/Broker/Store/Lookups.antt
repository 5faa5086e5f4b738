-- ===== src/Broker/Store/Lookups.antt =====
-- internal/broker/store.go: what is read of the directory, and its pruning.
use openrung.Base.{ℕ, ◌+◌, ◌-◌, not, List, [], ◌∷◌, none, some, ltb, if◌then◌else◌, count}
use openrung.Base.Bytes.{Bytes, bytes_eq}
use openrung.Base.Map.{lookup, insert, keep}
use openrung.Base.Member.{values}
use openrung.Broker.Store.{Store, Descriptor, Result, ok, err, relay_not_found}
use openrung.Broker.Store.Leases.{prune_leases}
use openrung.Broker.Store.Users.{prune_enrollment}
use openrung.Broker.Store.Telemetry.{prune_metrics, ranking_window}

-- `RelayByID`
unfoldable pub relay_by_id : Store → Bytes → ℕ → Result Descriptor
relay_by_id s id now = elim (lookup bytes_eq id s.relays) [
  | none ↦ err relay_not_found
  | some d ↦ if ltb now d.expires_at then ok d else err relay_not_found
]

-- `RelayNodeClasses`
unfoldable pub relay_node_classes : Store → List Bytes → ℕ → List (Bytes × Bytes)
relay_node_classes s [] now = []
relay_node_classes s (id ∷ ids) now =
    let rest = relay_node_classes s ids now in
    elim (relay_by_id s id now) [ err e ↦ rest | ok d ↦ insert bytes_eq id d.node_class rest ]

-- `Stats`: the relays that are not expired, and their advertised sessions.
unfoldable pub capacity : List Descriptor → ℕ → ℕ
capacity [] now = 0
capacity (d ∷ ds) now =
    let rest = capacity ds now in if ltb now d.expires_at then d.max_sessions + rest else rest

unfoldable pub stats : Store → ℕ → ℕ × ℕ
stats s now = (count (λ d. ltb now d.expires_at) (values s.relays), capacity (values s.relays) now)

-- `Prune`: the store and the descriptors that it dropped.
unfoldable pub prune : Store → ℕ → Store × List Descriptor
prune s now =
    let t = record s { relays = keep (λ d. ltb now d.expires_at) s.relays } in
    (
      prune_leases (prune_enrollment (prune_metrics t (now - ranking_window)) now) now,
      values (keep (λ d. not (ltb now d.expires_at)) s.relays),
    )
