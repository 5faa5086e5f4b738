-- ===== src/Core/Ranker.antt =====
-- connectcore/ranker.go: the order in which a client tries relays. A relay is its ID and endpoint;
-- what a probe of it gives, a latency in milliseconds or nothing, is an argument.
pub mod Kept
pub mod Order
pub mod Tests
use openrung.Base.{
  ℕ, ◌+◌, ◌/◌, Bool, true, false, not, ◌&&◌, ◌||◌, List, [], ◌∷◌, ◌++◌, Option, none, some, ltb,
  leb, ◌==◌, if◌then◌else◌, length, take, drop, filter, map,
}
use openrung.Base.Bytes.{Bytes}
use openrung.Base.Int.{ℤ, pos, positive_or}
use openrung.Base.Map.{is_some}
use openrung.Base.Sort.{sort_by}

-- brokerapi.RelayDescriptor, as far as the ranker reads it.
pub record Relay : Type 0 where
  pub id : Bytes
  pub public_host : Bytes
  pub public_port : ℕ

-- rankedRelay
pub record RankedRelay : Type 0 where
  pub relay : Relay
  pub probe_ms : Option ℕ

-- `unranked`
unfoldable pub unranked : List Relay → List RankedRelay
unranked [] = []
unranked (r ∷ rs) = record { relay = r; probe_ms = none } ∷ unranked rs

-- The fan-out of the probes, with the index of each candidate.
unfoldable pub probed : (Bytes → ℕ → Option ℕ) → ℕ → List Relay → List (ℕ × RankedRelay)
probed probe i [] = []
probed probe i (r ∷ rs) =
    (i, record { relay = r; probe_ms = probe r.public_host r.public_port })
    ∷ probed probe (i + 1) rs

unfoldable pub reachable : ℕ × RankedRelay → Bool
reachable (i, r) = is_some r.probe_ms

-- A latency's bucket; only reachable relays have one.
unfoldable pub bucket : ℕ → RankedRelay → ℕ
bucket width r = elim r.probe_ms [ none ↦ 0 | some ms ↦ ms / width ]

-- By bucket, then by the broker's order.
unfoldable pub before : ℕ → ℕ × RankedRelay → ℕ × RankedRelay → Bool
before width (i, r) (j, s) =
    ltb (bucket width r) (bucket width s) || (bucket width r == bucket width s && leb i j)

unfoldable pub ranked_of : List (ℕ × RankedRelay) → List RankedRelay
ranked_of [] = []
ranked_of ((i, r) ∷ rs) = r ∷ ranked_of rs

-- The order of the probed head: the reachable relays by bucket, then the failed ones.
unfoldable pub rank_head : ℕ → List (ℕ × RankedRelay) → List RankedRelay
rank_head width rs =
    ranked_of (sort_by (before width) (filter reachable rs))
    ++ ranked_of (filter (λ r. not (reachable r)) rs)

-- `rankByTCPLatency`
unfoldable pub rank_by_tcp_latency : List Relay → ℕ → ℤ → (Bytes → ℕ → Option ℕ) → List RankedRelay
rank_by_tcp_latency cands max_probes bucket_ms probe =
    let width = positive_or bucket_ms 1 in
    if ltb (length cands) 2
    then unranked cands
    else (if ltb max_probes (length cands)
        then rank_head width (probed probe 0 (take max_probes cands))
          ++ unranked (drop max_probes cands)
        else rank_head width (probed probe 0 cands))

abbrev relay_rank_max_probes : ℕ
relay_rank_max_probes = 8

abbrev relay_rank_bucket_ms : ℕ
relay_rank_bucket_ms = 30

-- The method `candidates` of a ladder's order.
unfoldable pub candidates : List RankedRelay → List Relay
candidates [] = []
candidates (r ∷ rs) = r.relay ∷ candidates rs

-- `rankLadder`, of a target that is an identity or not.
unfoldable pub rank_ladder : List Relay → Bool → (Bytes → ℕ → Option ℕ) → List RankedRelay
rank_ladder cands identity probe =
    if identity || ltb (length cands) 2
    then unranked cands
    else rank_by_tcp_latency cands relay_rank_max_probes (pos relay_rank_bucket_ms) probe
