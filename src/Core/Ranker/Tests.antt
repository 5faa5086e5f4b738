-- ===== src/Core/Ranker/Tests.antt =====
-- The ranking on concrete probes.
use openrung.Base.{ℕ, Bool, List, [], ◌∷◌, Option, none, some, ◌==◌, if◌then◌else◌}
use openrung.Base.Bytes.{Bytes}
use openrung.Base.Int.{pos}
use openrung.Core.Ranker.{Relay, rank_by_tcp_latency}
use openrung.Core.Ranker.Order.{Ladder, rank_by_tcp_latency-Ladder}

abbrev relay_on : ℕ → Relay
relay_on port = record { id = []; public_host = []; public_port = port }

abbrev relays : List Relay
relays = relay_on 1 ∷ relay_on 2 ∷ relay_on 3 ∷ []

-- The second relay fails, and the third is nearer than the first.
abbrev probe : Bytes → ℕ → Option ℕ
probe host port = if port == 2 then none else some (if port == 3 then 10 else 70)

abbrev on_port : Relay → Bool
on_port r = r.public_port == 2

rank_by_tcp_latency-Ladder_example : Ladder 30 (rank_by_tcp_latency relays 8 (pos 30) probe)
rank_by_tcp_latency-Ladder_example = rank_by_tcp_latency-Ladder relays 8 (pos 30) probe
