-- ===== src/Core/Breaker/Circuit.antt =====
-- When the circuit opens and closes, over any sequence of connects and losses.
use openrung.Base.{
  ℕ, ◌+◌, ◌≤◌, ◌<◌, ◌≡◌, ◌≢◌, refl, ◌∙◌, Bool, true, not, List, [], ◌∷◌, arith, ltb, leb, ite,
  length, All, if◌then◌else◌,
}
use openrung.Base.Bytes.{Bytes, bytes_eq}
use openrung.Base.Map.{lookup, lookup-insert}
use openrung.Core.Breaker.{
  Config, with_defaults, RelayState, Breaker, fresh, state, put, mark_direct_connected,
  allows_direct_punch, lose, on_direct_path_lost,
}

-- What the engine reports to the breaker.
pub data Event : Type 0 where
  connected : Bytes → ℕ → Event
  lost : Bytes → ℕ → Bool → Event

unfoldable pub step : (ℕ → ℕ) → Breaker → Event → Breaker
step r b (connected id now) = mark_direct_connected b id now
step r b (lost id now counted) = (on_direct_path_lost r b id now counted).0

unfoldable pub run : (ℕ → ℕ) → Breaker → List Event → Breaker
unfolding step
run r b [] = b
run r b (e ∷ es) = run r (step r b e) es

state-put :
    (b : Breaker) (id j : Bytes) (s : RelayState)
    → state (put b id s) j ≡ ite (bytes_eq j id) s (state b j)
unfolding state put
state-put b id j s = ground (arith, lookup-insert bytes_eq id j s b.relays)

state-put_self : (b : Breaker) (id : Bytes) (s : RelayState) → state (put b id s) id ≡ s
state-put_self b id s = ground (arith, state-put b id id s)

lose_failures :
    (r : ℕ → ℕ) (c : Config) (s : RelayState) (t up : ℕ)
    → s.has_connected_at ≡ true
    → s.connected_at ≡ t
    → (lose r c s (t + up) true).0.rapid_failures
      ≡ (if leb c.stable_path up then 1 else s.rapid_failures + 1)
unfolding lose
lose_failures r c s t up h e = ground arith

allows-state : (b : Breaker) (id : Bytes) → allows_direct_punch b id ≡ not (state b id).open_circuit
unfolding allows_direct_punch state
allows-state b id = ground arith

-- The circuit of a relay is open exactly when its streak has reached the threshold.
pub record Consistent (c : Config) (s : RelayState) : Type 0 where
  pub tripped : s.open_circuit ≡ leb c.max_rapid s.rapid_failures

with_defaults_pos : (c : Config) → 1 ≤ (with_defaults c).max_rapid
unfolding with_defaults
with_defaults_pos c = ground arith

fresh-Consistent : (c : Config) → 1 ≤ c.max_rapid → Consistent c fresh
fresh-Consistent c h = ground arith

lose-Consistent :
    (r : ℕ → ℕ) (c : Config) (s : RelayState) (now : ℕ) (counted : Bool)
    → 1 ≤ c.max_rapid
    → Consistent c s
    → Consistent c (lose r c s now counted).0
unfolding lose
lose-Consistent r c s now counted pos h = ground arith

abbrev pub AllConsistent : Breaker → Type 0
AllConsistent b = (id : Bytes) → Consistent (with_defaults b.config) (state b id)

put-Consistent :
    (b : Breaker) (id j : Bytes) (s : RelayState)
    → AllConsistent b
    → Consistent (with_defaults b.config) s
    → Consistent (with_defaults b.config) (state (put b id s) j)
put-Consistent b id j s h k = elim (bytes_eq j id) [
  | yes p ↦ ground (arith, state-put b id j s)
  | no p ↦ ground (arith, state-put b id j s, h j)
]

step-AllConsistent :
    (r : ℕ → ℕ) (b : Breaker) (e : Event) → AllConsistent b → AllConsistent (step r b e)
unfolding step mark_direct_connected on_direct_path_lost put
step-AllConsistent r b (connected [] now) h j = h j
step-AllConsistent r b (connected (x ∷ id) now) h j =
    put-Consistent b (x ∷ id) j _ h (record { tripped = (h (x ∷ id)).tripped })
step-AllConsistent r b (lost id now counted) h j = put-Consistent b id j _ h (
    lose-Consistent r (with_defaults b.config) (state b id) now counted (with_defaults_pos b.config)
      (h id))

run-AllConsistent :
    (r : ℕ → ℕ) (b : Breaker) (es : List Event) → AllConsistent b → AllConsistent (run r b es)
unfolding run
run-AllConsistent r b [] h = h
run-AllConsistent r b (e ∷ es) h = run-AllConsistent r (step r b e) es (step-AllConsistent r b e h)

-- The breaker of a new connection.
unfoldable pub new_breaker : Config → Breaker
new_breaker c = record { config = c; relays = [] }

new_breaker-AllConsistent : (c : Config) → AllConsistent (new_breaker c)
unfolding new_breaker state lookup
new_breaker-AllConsistent c j = fresh-Consistent (with_defaults c) (with_defaults_pos c)

new_breaker_failures : (c : Config) (id : Bytes) → (state (new_breaker c) id).rapid_failures ≡ 0
unfolding new_breaker state lookup
new_breaker_failures c id = refl

step-config : (r : ℕ → ℕ) (b : Breaker) (e : Event) → (step r b e).config ≡ b.config
unfolding step mark_direct_connected on_direct_path_lost put
step-config r b (connected [] now) = refl
step-config r b (connected (x ∷ id) now) = refl
step-config r b (lost id now counted) = refl

run-config : (r : ℕ → ℕ) (b : Breaker) (es : List Event) → (run r b es).config ≡ b.config
unfolding run
run-config r b [] = refl
run-config r b (e ∷ es) = run-config r (step r b e) es ∙ step-config r b e

-- After any sequence of connects and losses on a new breaker, a relay may be punched exactly
-- when its streak of counted losses is below the configured threshold.
pub allows-run :
    (r : ℕ → ℕ) (c : Config) (es : List Event) (id : Bytes)
    → let b = run r (new_breaker c) es in
      allows_direct_punch b id ≡ ltb (state b id).rapid_failures (with_defaults c).max_rapid
unfolding new_breaker
allows-run r c es id = ground (
  arith,
  allows-state (run r (new_breaker c) es) id,
  run-config r (new_breaker c) es,
  run-AllConsistent r (new_breaker c) es (new_breaker-AllConsistent c) id,
)

-- A direct path to a relay that came up at a time and lived for a while.
abbrev pub cycles : Bytes → List (ℕ × ℕ) → List Event
cycles id [] = []
cycles id ((t, up) ∷ ps) = connected id t ∷ lost id (t + up) true ∷ cycles id ps

cycle_failures :
    (r : ℕ → ℕ) (b : Breaker) (id : Bytes) (t up : ℕ)
    → id ≢ []
    → (state (step r (step r b (connected id t)) (lost id (t + up) true)) id).rapid_failures
      ≡ (if leb (with_defaults b.config).stable_path up then 1 else (state b id).rapid_failures + 1)
unfolding step mark_direct_connected on_direct_path_lost put
cycle_failures r b [] t up h = absurd (h refl)
cycle_failures r b (x ∷ id) t up h =
    rw (state-put_self, state-put_self)
      (lose_failures r (with_defaults b.config)
        (record (state b (x ∷ id)) { connected_at = t; has_connected_at = true }) t up refl refl)

cycles_failures :
    (r : ℕ → ℕ) (b : Breaker) (id : Bytes) (ps : List (ℕ × ℕ))
    → id ≢ []
    → All (λ p. p.1 < (with_defaults b.config).stable_path) ps
    → (state (run r b (cycles id ps)) id).rapid_failures ≡ (state b id).rapid_failures + length ps
unfolding run
cycles_failures r b id [] h a = omega arith
cycles_failures r b id ((t, up) ∷ ps) h a =
    let b' = step r (step r b (connected id t)) (lost id (t + up) true) in
    let e : b'.config ≡ b.config =
      step-config r _ (lost id (t + up) true) ∙ step-config r b (connected id t) in
    ground (arith, cycle_failures r b id t up h, cycles_failures r b' id ps h (rw e a.1))

-- On a new breaker, after any number of direct paths to one relay in a row that were each lost
-- before the stable-path time, the relay may be punched exactly if there were fewer of them than
-- the threshold.
pub allows-cycles :
    (r : ℕ → ℕ) (c : Config) (id : Bytes) (ps : List (ℕ × ℕ))
    → id ≢ []
    → All (λ p. p.1 < (with_defaults c).stable_path) ps
    → allows_direct_punch (run r (new_breaker c) (cycles id ps)) id
      ≡ ltb (length ps) (with_defaults c).max_rapid
unfolding new_breaker
allows-cycles r c id ps h a = ground (
  arith,
  allows-run r c (cycles id ps) id,
  cycles_failures r (new_breaker c) id ps h a,
  new_breaker_failures c id,
)
