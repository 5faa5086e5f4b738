-- ===== src/Broker/Store/Telemetry.antt =====
-- internal/broker/store.go and ranking.go: the sessions and observations that clients' telemetry
-- leaves in the store, and their pruning.
use openrung.Base.{
  ℕ, ◌-◌, Bool, true, false, not, ◌&&◌, ◌||◌, List, [], ◌∷◌, ◌++◌, none, some, ltb, ◌==◌,
  if◌then◌else◌, filter,
}
use openrung.Base.Bytes.{Bytes, bytes_eq}
use openrung.Base.Int.{ℤ, pos}
use openrung.Base.Map.{lookup, insert, keep}
use openrung.Broker.Store.{Store, Session, Observation}

-- The events that the store acts on; every other one is `other`.
pub data EventKind : Type 0 where
  session_heartbeat connection_succeeded relay_failover relay_attempt_failed : EventKind
  speed_test_completed connection_ended tunnel_stopped connection_failed other : EventKind

-- The measurements of an event that the store reads; 0 stands for a missing one, as in Go.
pub record Measurements : Type 0 where
  pub relay_tcp_ms : ℤ
  pub internet_probe_ms : ℤ
  pub time_to_first_byte_ms : ℤ
  pub download_mbps_milli : ℤ

-- TelemetryRecord, with its event.
pub record TelemetryRecord : Type 0 where
  pub received_at : ℕ
  pub occurred_at : ℕ
  pub kind : EventKind
  pub session_id : Bytes
  pub relay_id : Bytes
  pub client_id : Bytes
  pub measurements : Measurements

unfoldable pub is_empty : Bytes → Bool
is_empty [] = true
is_empty (x ∷ s) = false

-- `firstNonEmpty`; `is_blank` says whether strings.TrimSpace leaves nothing of a string.
unfoldable pub first_non_empty : (Bytes → Bool) → Bytes → Bytes → Bytes
first_non_empty is_blank a b = if is_blank a then (if is_blank b then [] else b) else a

unfoldable pub observed_at : TelemetryRecord → ℕ → ℕ
observed_at r now =
    if r.received_at == 0
    then (if r.occurred_at == 0 then now else r.occurred_at)
    else r.received_at

abbrev pub zero_session : Session
zero_session = record {
  client_id = [];
  relay_id = [];
  last_heartbeat_at = 0;
  terminal_at = 0;
  last_metric_event_at = 0;
}

unfoldable pub session_or_zero : Store → Bytes → Session
session_or_zero s id = elim (lookup bytes_eq id s.sessions) [ none ↦ zero_session | some x ↦ x ]

unfoldable pub put_session : Store → Bytes → Session → Store
put_session s id x = record s { sessions = insert bytes_eq id x s.sessions }

-- An append to the observations, unless the event names no relay.
unfoldable pub observe : Store → Observation → Store
observe s o =
    if is_empty o.relay_id then s else record s { observations = s.observations ++ (o ∷ []) }

unfoldable pub heartbeat_session : Store → TelemetryRecord → ℕ → Store
heartbeat_session s r at =
    let existing = session_or_zero s r.session_id in
    if is_empty r.session_id || is_empty r.relay_id
    then s
    else put_session s r.session_id (record {
      client_id = r.client_id;
      relay_id = r.relay_id;
      last_heartbeat_at = at;
      terminal_at =
          if not (existing.terminal_at == 0) && not (ltb existing.terminal_at at)
          then existing.terminal_at
          else 0;
      last_metric_event_at = at;
    })

unfoldable pub end_session : (Bytes → Bool) → Store → TelemetryRecord → ℕ → Store
end_session is_blank s r at =
    let x = session_or_zero s r.session_id in
    if is_empty r.session_id
    then s
    else put_session s r.session_id (record x {
      client_id = first_non_empty is_blank x.client_id r.client_id;
      relay_id = if is_empty x.relay_id then r.relay_id else x.relay_id;
      terminal_at = at;
      last_metric_event_at = at;
    })

abbrev pub blank : ℕ → Bytes → Observation
blank at relay_id = record {
  observed_at = at;
  relay_id = relay_id;
  success = false;
  failure = false;
  tcp_ms = pos 0;
  internet_probe_ms = pos 0;
  ttfb_ms = pos 0;
  download_mbps_milli = pos 0;
  includes_speed_test = false;
}

unfoldable pub success_of : TelemetryRecord → ℕ → Observation
success_of r at = record (blank at r.relay_id) {
  success = true;
  tcp_ms = r.measurements.relay_tcp_ms;
  internet_probe_ms = r.measurements.internet_probe_ms;
}

-- `recordRelayTelemetryLocked`
unfoldable pub record_relay_telemetry_locked : (Bytes → Bool) → Store → TelemetryRecord → ℕ → Store
record_relay_telemetry_locked is_blank s r now =
    let at = observed_at r now in
    elim r.kind [
      | session_heartbeat ↦ heartbeat_session s r at
      | connection_succeeded ↦ observe s (success_of r at)
      | relay_failover ↦ observe s (success_of r at)
      | relay_attempt_failed ↦ observe s (record (blank at r.relay_id) { failure = true })
      | speed_test_completed ↦ observe s (record (blank at r.relay_id) {
        ttfb_ms = r.measurements.time_to_first_byte_ms;
        download_mbps_milli = r.measurements.download_mbps_milli;
        includes_speed_test = true;
      })
      | connection_ended ↦ end_session is_blank s r at
      | tunnel_stopped ↦ end_session is_blank s r at
      | connection_failed ↦ end_session is_blank s r at
      | other ↦ s
    ]

abbrev pub ranking_window : ℕ
ranking_window = 1_800_000_000_000

-- `pruneMetricsLocked`
unfoldable pub prune_metrics : Store → ℕ → Store
prune_metrics s cutoff = record s {
  observations = filter (λ o. not (ltb o.observed_at cutoff)) s.observations;
  sessions = keep (λ x. x.terminal_at == 0 || not (ltb x.terminal_at cutoff)) s.sessions;
}

unfoldable pub record_all : (Bytes → Bool) → Store → List TelemetryRecord → ℕ → Store
record_all is_blank s [] now = s
record_all is_blank s (r ∷ rs) now =
    record_all is_blank (record_relay_telemetry_locked is_blank s r now) rs now

-- `RecordRelayTelemetry`. A cutoff before the zero time prunes nothing, as 0 does.
unfoldable pub record_relay_telemetry : (Bytes → Bool) → Store → List TelemetryRecord → ℕ → Store
record_relay_telemetry is_blank s rs now =
    prune_metrics (record_all is_blank s rs now) (now - ranking_window)
