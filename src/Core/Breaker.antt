-- ===== src/Core/Breaker.antt =====
-- connectcore/punchbreaker.go: the circuit breaker that stops hole punching to a relay whose
-- direct path keeps collapsing. Times and durations are nanoseconds; each test `<= 0` of the code
-- takes a negative duration where it takes 0, so durations are natural numbers.
pub mod Delay
pub mod Circuit
mod Tests
use openrung.Base.{
  ℕ, zero, suc, ◌+◌, ◌-◌, ◌*◌, ◌/◌, Bool, true, false, not, ◌&&◌, List, [], ◌∷◌, Option, none, some,
  ltb, leb, ◌==◌, if◌then◌else◌,
}
use openrung.Base.Bytes.{Bytes, bytes_eq}
use openrung.Base.Map.{lookup, insert}

abbrev pub punch_stable_path : ℕ
punch_stable_path = 300_000_000_000

abbrev pub punch_max_rapid_failures : ℕ
punch_max_rapid_failures = 3

abbrev pub punch_initial_backoff : ℕ
punch_initial_backoff = 2_000_000_000

abbrev pub punch_max_backoff : ℕ
punch_max_backoff = 30_000_000_000

abbrev pub punch_jitter_divisor : ℕ
punch_jitter_divisor = 5

pub record Decision : Type 0 where
  pub use_relay_hub : Bool
  pub delay : ℕ
  pub rapid_failures : ℕ
  pub direct_uptime : ℕ
  pub counted : Bool

pub record Config : Type 0 where
  pub stable_path : ℕ
  pub max_rapid : ℕ
  pub initial_backoff : ℕ
  pub max_backoff : ℕ
  -- `none` is the nil function.
  pub pick_jittered_delay : Option (ℕ → ℕ → ℕ)

-- `withDefaults`, the delay's choice left to `pick`.
unfoldable pub with_defaults : Config → Config
with_defaults c =
    let initial = if c.initial_backoff == 0 then punch_initial_backoff else c.initial_backoff in
    record {
      stable_path = if c.stable_path == 0 then punch_stable_path else c.stable_path;
      max_rapid = if c.max_rapid == 0 then punch_max_rapid_failures else c.max_rapid;
      initial_backoff = initial;
      max_backoff = if ltb c.max_backoff initial then punch_max_backoff else c.max_backoff;
      pick_jittered_delay = c.pick_jittered_delay;
    }

-- The function that `withDefaults` puts for nil. `int63n n` is rand.Int63n.
unfoldable pub pick : (ℕ → ℕ) → Config → ℕ → ℕ → ℕ
pick int63n c lo hi = elim c.pick_jittered_delay [
  | some choose ↦ choose lo hi
  | none ↦ if leb hi lo then lo else lo + int63n (hi - lo + 1)
]

-- The body of the loop of `backoffDelay`, and the loop with its rounds.
unfoldable pub escalate_once : ℕ → ℕ → ℕ
escalate_once max nominal =
    if leb (max / 2) nominal then max else if ltb max (nominal * 2) then max else nominal * 2

unfoldable pub escalate : ℕ → ℕ → ℕ → ℕ
unfolding escalate_once
escalate max zero nominal = nominal
escalate max (suc rounds) nominal = escalate max rounds (escalate_once max nominal)

-- The end of `backoffDelay`: the jitter round the nominal delay, and the clamp.
unfoldable pub jittered : (ℕ → ℕ) → Config → ℕ → ℕ
jittered int63n c nominal =
    let jitter = nominal / punch_jitter_divisor in
    let lo = if ltb (nominal - jitter) 1 then 1 else nominal - jitter in
    let hi = if ltb c.max_backoff (nominal + jitter) then c.max_backoff else nominal + jitter in
    let delay = pick int63n c lo hi in
    let raised = if ltb delay lo then lo else delay in if ltb hi raised then hi else raised

-- `backoffDelay`
unfoldable pub backoff_delay : (ℕ → ℕ) → Config → ℕ → ℕ
unfolding escalate pick jittered
backoff_delay int63n c failure_count =
    jittered int63n c (escalate c.max_backoff (failure_count - 1) c.initial_backoff)

pub record RelayState : Type 0 where
  pub rapid_failures : ℕ
  pub connected_at : ℕ
  pub has_connected_at : Bool
  pub open_circuit : Bool

pub record Breaker : Type 0 where
  pub config : Config
  pub relays : List (Bytes × RelayState)

abbrev pub fresh : RelayState
fresh = record {
  rapid_failures = 0;
  connected_at = 0;
  has_connected_at = false;
  open_circuit = false;
}

-- `stateLocked`, which makes a missing state.
unfoldable pub state : Breaker → Bytes → RelayState
unfolding lookup bytes_eq
state b id = elim (lookup bytes_eq id b.relays) [ none ↦ fresh | some s ↦ s ]

unfoldable pub put : Breaker → Bytes → RelayState → Breaker
unfolding insert bytes_eq
put b id s = record b { relays = insert bytes_eq id s b.relays }

-- `markDirectConnected`
unfoldable pub mark_direct_connected : Breaker → Bytes → ℕ → Breaker
mark_direct_connected b [] now = b
mark_direct_connected b (c ∷ id) now =
    put b (c ∷ id) (record (state b (c ∷ id)) { connected_at = now; has_connected_at = true })

-- `allowsDirectPunch`
unfoldable pub allows_direct_punch : Breaker → Bytes → Bool
unfolding lookup bytes_eq
allows_direct_punch b id = elim (lookup bytes_eq id b.relays) [
  | none ↦ true
  | some s ↦ not s.open_circuit
]

unfoldable pub uptime : RelayState → ℕ → ℕ
uptime s now = if s.has_connected_at && ltb s.connected_at now then now - s.connected_at else 0

-- The state after the stable-path test, before the loss is counted.
unfoldable pub settle : Config → RelayState → ℕ → RelayState
unfolding uptime
settle c s now =
    if leb c.stable_path (uptime s now)
    then record s { has_connected_at = false; rapid_failures = 0; open_circuit = false }
    else record s { has_connected_at = false }

-- `onDirectPathLost` on the relay's state; `c` is the configuration with its defaults.
unfoldable pub lose : (ℕ → ℕ) → Config → RelayState → ℕ → Bool → RelayState × Decision
unfolding settle uptime
lose int63n c s now count_toward_breaker =
    let up = uptime s now in
    let t = settle c s now in
    let failures = t.rapid_failures + 1 in
    let tripped = leb c.max_rapid failures in
    if not count_toward_breaker
    then (
      t,
      record {
        use_relay_hub = false;
        delay = 0;
        rapid_failures = t.rapid_failures;
        direct_uptime = up;
        counted = false;
      },
    )
    else (
      record t {
        rapid_failures = failures;
        open_circuit = if tripped then true else t.open_circuit;
      },
      record {
        use_relay_hub = tripped;
        delay = backoff_delay int63n c failures;
        rapid_failures = failures;
        direct_uptime = up;
        counted = true;
      },
    )

-- `onDirectPathLost`
unfoldable pub on_direct_path_lost : (ℕ → ℕ) → Breaker → Bytes → ℕ → Bool → Breaker × Decision
on_direct_path_lost int63n b id now count_toward_breaker =
    let (s, decision) =
      lose int63n (with_defaults b.config) (state b id) now count_toward_breaker in
    (put b id s, decision)
