-- ===== src/Broker/RelayCap/Tests.antt =====
-- A cap of two registrations in a window of 100.
use openrung.Base.{ℕ, ◌≤◌, ◌≡◌, refl, false, List, [], ◌∷◌, none, some, arith, length, filter}
use openrung.Base.Int.{pos}
use openrung.Base.Bytes.{Bytes}
use openrung.Broker.RelayCap.{RelayCap, is_live, stamps, tracked, put, sweep, reserve_key, release}
use openrung.Broker.RelayCap.Window.{live}
use openrung.Broker.RelayCap.Trailing.{run, granted, granted_within_limit, release-reserve_key}

abbrev source : Bytes
source = 115 ∷ []

abbrev empty_cap : RelayCap
empty_cap = record { limit = pos 2; window = 100; max_keys = 10; sources = [] }

abbrev requests : List (Bytes × ℕ)
requests = (source, 200) ∷ (source, 210) ∷ (source, 220) ∷ []

third_refused :
    (run empty_cap 2 requests).1
    ≡ some (record { key = source; stamp = 200; released = false })
      ∷ some (record { key = source; stamp = 210; released = false })
      ∷ none
      ∷ []
unfolding run reserve_key is_live stamps tracked put sweep filter
third_refused = refl

granted_within_limit_example :
    length (filter (is_live 100 230) (granted source (run empty_cap 2 requests).1)) ≤ 2
granted_within_limit_example =
    granted_within_limit empty_cap 2 230 requests source refl (omega arith)

release-reserve_key_example :
    live
      (release
        (reserve_key empty_cap 2 source 200).0
        (record { key = source; stamp = 200; released = false })).0
      250
      source
    ≡ live empty_cap 250 source
unfolding reserve_key is_live stamps tracked put sweep filter
release-reserve_key_example =
    release-reserve_key empty_cap 2 source source 200 250
      (record { key = source; stamp = 200; released = false }) tt refl (omega arith)
