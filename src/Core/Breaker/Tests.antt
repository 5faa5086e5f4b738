-- ===== src/Core/Breaker/Tests.antt =====
-- The breaker with the built-in constants.
use openrung.Base.{ℕ, ◌≡◌, refl, true, false, List, [], ◌∷◌, none, arith}
use openrung.Base.Bytes.{Bytes}
use openrung.Core.Breaker.{Config, with_defaults, allows_direct_punch}
use openrung.Core.Breaker.Circuit.{Event, connected, lost, run, new_breaker, cycles, allows-cycles}

abbrev zero_config : Config
zero_config = record {
  stable_path = 0;
  max_rapid = 0;
  initial_backoff = 0;
  max_backoff = 0;
  pick_jittered_delay = none;
}

abbrev built_in : Config
built_in = record {
  stable_path = 300_000_000_000;
  max_rapid = 3;
  initial_backoff = 2_000_000_000;
  max_backoff = 30_000_000_000;
  pick_jittered_delay = none;
}

abbrev relay_id : Bytes
relay_id = 114 ∷ 49 ∷ []

zero_config_defaults : with_defaults zero_config ≡ built_in
unfolding with_defaults
zero_config_defaults = refl

abbrev two_losses : List Event
two_losses = connected relay_id 10 ∷ lost relay_id 20 true ∷ lost relay_id 30 true ∷ []

abbrev short_paths : List (ℕ × ℕ)
short_paths = (10, 5) ∷ (20, 5) ∷ (30, 5) ∷ []

allows-cycles_example :
    allows_direct_punch (run (λ n. 0) (new_breaker built_in) (cycles relay_id short_paths)) relay_id
    ≡ false
unfolding with_defaults
allows-cycles_example = allows-cycles (λ n. 0) built_in relay_id short_paths (λ e. cc) (omega arith)
