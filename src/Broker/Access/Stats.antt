-- ===== src/Broker/Access/Stats.antt =====
-- internal/broker/client_access.go, `accessStats`: the counters of access answers and of refused
-- enrollments. The line that is logged is not part of this model.
use openrung.Base.{ℕ, ◌+◌, ltb, ◌==◌, if◌then◌else◌}

-- accessCounts
pub record AccessCounts : Type 0 where
  pub granted : ℕ
  pub empty : ℕ
  pub bad_request : ℕ
  pub unauthorized : ℕ
  pub denied : ℕ
  pub rate_limited : ℕ
  pub unapplied : ℕ
  pub failed : ℕ
  pub other : ℕ
  pub cancelled : ℕ
  pub extended : ℕ
  pub enroll_datacenter : ℕ
  pub enroll_unclassified : ℕ

abbrev pub no_counts : AccessCounts
no_counts = record {
  granted = 0;
  empty = 0;
  bad_request = 0;
  unauthorized = 0;
  denied = 0;
  rate_limited = 0;
  unapplied = 0;
  failed = 0;
  other = 0;
  cancelled = 0;
  extended = 0;
  enroll_datacenter = 0;
  enroll_unclassified = 0;
}

-- accessStats; `since` is 0 until something is counted.
pub record AccessStats : Type 0 where
  pub every : ℕ
  pub since : ℕ
  pub counts : AccessCounts

-- `add`: past the interval, the window's counters start again.
unfoldable pub add : ℕ → (AccessCounts → AccessCounts) → AccessStats → AccessStats
add now bump s =
    let since = if s.since == 0 then now else s.since in
    if ltb now (since + s.every)
    then record s { since = since; counts = bump s.counts }
    else record s { since = now; counts = no_counts }
