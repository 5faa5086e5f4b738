-- ===== src/Broker/RelayCap/Trailing.antt =====
-- What the cap promises over a history of requests, and what a release gives back.
use mathlib.Core.List.{append-nil, append_assoc}
use openrung.Base.{
  ℕ, ◌+◌, ◌≤◌, ◌≡◌, ◌≢◌, sym, ap, ◌∙◌, Bool, true, false, not, ◌&&◌, List, [], ◌∷◌, ◌++◌, Option,
  some, arith, leb, ◌==◌, if_elim, length, filter, any, length-append, length-filter-le,
  filter-append,
}
use openrung.Base.Bytes.{Bytes, bytes_eq}
use openrung.Base.Map.{Unique, insert-Unique, keep-Unique, lookup}
use openrung.Broker.RelayCap.{
  RelayCap, Reservation, is_live, sweep, stamps, tracked, put, reserve_key, remove_last, release,
}
use openrung.Broker.RelayCap.Window.{live, gain, live-later, live-put, stamps-put, live-reserve_key}

put-Unique :
    (c : RelayCap) (k : Bytes) (xs : List ℕ)
    → Unique bytes_eq c.sources
    → Unique bytes_eq (put c k xs).sources
unfolding put
put-Unique c k xs u = insert-Unique bytes_eq k xs c.sources u

reserve_key-Unique :
    (c : RelayCap) (limit : ℕ) (k : Bytes) (now : ℕ)
    → Unique bytes_eq c.sources
    → Unique bytes_eq (reserve_key c limit k now).0.sources
unfolding reserve_key sweep
reserve_key-Unique c limit k now u =
    let v = keep-Unique bytes_eq (any (is_live c.window now)) c.sources u in
    let kept = filter (is_live c.window now) (stamps c k) in
    if_elim P (leb limit (length kept)) (λ _. put-Unique c k kept u)
      (λ _.
        if_elim P (not (tracked c k) && leb c.max_keys (length c.sources))
          (λ _.
            if_elim P (leb c.max_keys (length (sweep c.window now c.sources))) (λ _. v)
              (λ _.
                put-Unique (record c { sources = sweep c.window now c.sources }) k
                  (kept ++ now ∷ []) v))
          (λ _. put-Unique c k (kept ++ now ∷ []) u))
  where
    P : RelayCap × Option Reservation × Bool → Type 0
    P r = Unique bytes_eq r.0.sources

reserve_key-window :
    (c : RelayCap) (limit : ℕ) (k : Bytes) (now : ℕ)
    → (reserve_key c limit k now).0.window ≡ c.window
unfolding reserve_key put
reserve_key-window c limit k now = ground arith

gain_room :
    (c : RelayCap) (limit : ℕ) (k j : Bytes) (now : ℕ)
    → length (live c now j) ≤ limit
    → length (live c now j)
        + length (filter (is_live c.window now) (gain (reserve_key c limit k now).1 j))
      ≤ limit
unfolding reserve_key filter
gain_room c limit k j now h = ground arith

-- Requests for accounting keys at times, oldest first, and the stamps granted to a key.
unfoldable pub run : RelayCap → ℕ → List (Bytes × ℕ) → RelayCap × List (Option Reservation)
run c limit [] = (c, [])
run c limit ((k, now) ∷ rs) =
    let (c', r, ok) = reserve_key c limit k now in let (d, log) = run c' limit rs in (d, r ∷ log)

unfoldable pub granted : Bytes → List (Option Reservation) → List ℕ
granted j [] = []
granted j (r ∷ rs) = gain r j ++ granted j rs

-- The times of the requests do not fall, from `t` up to a time `until`.
abbrev pub InOrder : ℕ → List (Bytes × ℕ) → ℕ → Type 0
InOrder t [] until = t ≤ until
InOrder t ((k, now) ∷ rs) until = (t ≤ now) × InOrder now rs until

InOrder-le : (t : ℕ) (rs : List (Bytes × ℕ)) (until : ℕ) → InOrder t rs until → t ≤ until
InOrder-le t [] until h = h
InOrder-le t ((k, now) ∷ rs) until h = omega (arith, h.0, InOrder-le now rs until h.1)

live-run :
    (c : RelayCap) (limit t until : ℕ) (rs : List (Bytes × ℕ)) (j : Bytes)
    → Unique bytes_eq c.sources
    → InOrder t rs until
    → live (run c limit rs).0 until j
      ≡ live c until j ++ filter (is_live c.window until) (granted j (run c limit rs).1)
unfolding run granted filter
live-run c limit t until [] j u h = sym (append-nil (live c until j))
live-run c limit t until ((k, now) ∷ rs) j u h =
    let c' = (reserve_key c limit k now).0 in
    let e = live-reserve_key c limit k j now until u (InOrder-le now rs until h.1) in
    let w = reserve_key-window c limit k now in
    live-run c' limit now until rs j (reserve_key-Unique c limit k now u) h.1
    ∙ cc (
      e,
      w,
      filter-append (is_live c.window until) (gain (reserve_key c limit k now).1 j)
          (granted j (run c' limit rs).1),
      append_assoc (live c until j)
          (filter (is_live c.window until) (gain (reserve_key c limit k now).1 j))
          (filter (is_live c.window until) (granted j (run c' limit rs).1)),
    )

live_shrinks :
    (c : RelayCap) (t later : ℕ) (j : Bytes)
    → t ≤ later
    → length (live c later j) ≤ length (live c t j)
live_shrinks c t later j le =
    rw (← live-later c t later (stamps c j) le)
      (length-filter-le (is_live c.window later) (live c t j))

length-live-reserve_key :
    (c : RelayCap) (limit t now : ℕ) (k j : Bytes)
    → Unique bytes_eq c.sources
    → t ≤ now
    → length (live c t j) ≤ limit
    → length (live (reserve_key c limit k now).0 now j) ≤ limit
length-live-reserve_key c limit t now k j u le l =
    rw (live-reserve_key c limit k j now now u (omega arith)) (
      omega (
        arith,
        live_shrinks c t now j le,
        length-append (live c now j)
            (filter (is_live c.window now) (gain (reserve_key c limit k now).1 j)),
        gain_room c limit k j now (omega (arith, live_shrinks c t now j le)),
      ))

length-live-run :
    (c : RelayCap) (limit t until : ℕ) (rs : List (Bytes × ℕ)) (j : Bytes)
    → Unique bytes_eq c.sources
    → InOrder t rs until
    → length (live c t j) ≤ limit
    → length (live (run c limit rs).0 until j) ≤ limit
unfolding run
length-live-run c limit t until [] j u h l = omega (arith, live_shrinks c t until j h)
length-live-run c limit t until ((k, now) ∷ rs) j u h l =
    length-live-run (reserve_key c limit k now).0 limit now until rs j
      (reserve_key-Unique c limit k now u) h.1 (length-live-reserve_key c limit t now k j u h.0 l)

live_of_no_sources : (c : RelayCap) (at : ℕ) (j : Bytes) → c.sources ≡ [] → live c at j ≡ []
unfolding stamps lookup filter
live_of_no_sources c at j e = ground arith

-- Over any requests in the order of their times, on a cap that starts with no stamps, one
-- source is granted at most `limit` recorded reservations in the window that ends at any time
-- from the last request on.
pub granted_within_limit :
    (c : RelayCap) (limit until : ℕ) (rs : List (Bytes × ℕ)) (j : Bytes)
    → c.sources ≡ []
    → InOrder 0 rs until
    → length (filter (is_live c.window until) (granted j (run c limit rs).1)) ≤ limit
granted_within_limit c limit until rs j e h =
    let u : Unique bytes_eq c.sources = rw e tt in
    omega (
      arith,
      ap length (live-run c limit 0 until rs j u h),
      length-append (live c until j)
          (filter (is_live c.window until) (granted j (run c limit rs).1)),
      length-live-run c limit 0 until rs j u h
          (omega (arith, ap length (live_of_no_sources c 0 j e))),
    )

any-snoc : (at : ℕ) (xs : List ℕ) → any (λ y. y == at) (xs ++ at ∷ []) ≡ true
unfolding any
any-snoc at [] = ground arith
any-snoc at (x ∷ xs) = ground (arith, any-snoc at xs)

remove_last-snoc : (at : ℕ) (xs : List ℕ) → remove_last at (xs ++ at ∷ []) ≡ xs
unfolding remove_last
remove_last-snoc at [] = ground arith
remove_last-snoc at (x ∷ xs) = ground (arith, remove_last-snoc at xs, any-snoc at xs)

abbrev unit_of : Bytes → ℕ → Reservation
unit_of k now = record { key = k; stamp = now; released = false }

-- What a recorded request leaves behind.
reserve_key_recorded :
    (c : RelayCap) (limit : ℕ) (k : Bytes) (now : ℕ) (r : Reservation)
    → (reserve_key c limit k now).1 ≡ some r
    → (r ≡ unit_of k now) × (stamps (reserve_key c limit k now).0 k ≡ live c now k ++ now ∷ [])
unfolding reserve_key
reserve_key_recorded c limit k now r e = ground (
  arith,
  stamps-put c k k (live c now k ++ now ∷ []),
  stamps-put (record c { sources = sweep c.window now c.sources }) k k (live c now k ++ now ∷ []),
)

live-release :
    (c d : RelayCap) (k j : Bytes) (now later : ℕ)
    → d.window ≡ c.window
    → now ≤ later
    → stamps d k ≡ live c now k ++ now ∷ []
    → (j ≢ k → live d later j ≡ live c later j)
    → live (release d (unit_of k now)).0 later j ≡ live c later j
unfolding release
live-release c d k j now later w le e other = elim (bytes_eq j k) [
  | yes p ↦ ground (
    arith,
    live-put d k j (remove_last now (stamps d k)) later,
    any-snoc now (live c now k),
    remove_last-snoc now (live c now k),
    live-later c now later (stamps c k) le,
  )
  | no p ↦ ground (
    arith,
    live-put d k j (remove_last now (stamps d k)) later,
    any-snoc now (live c now k),
    other p,
  )
]

live-reserve_key_ne :
    (c : RelayCap) (limit : ℕ) (k j : Bytes) (now later : ℕ)
    → Unique bytes_eq c.sources
    → now ≤ later
    → (reserve_key c limit k now).1 ≡ some (unit_of k now)
    → j ≢ k
    → live (reserve_key c limit k now).0 later j ≡ live c later j
unfolding filter
live-reserve_key_ne c limit k j now later u le e ne =
    ground (arith, live-reserve_key c limit k j now later u le, append-nil (live c later j))

-- When a registration fails, calling the release of its reservation leaves in the window of every
-- source what was there before, at every time from the request on.
pub release-reserve_key :
    (c : RelayCap) (limit : ℕ) (k j : Bytes) (now later : ℕ) (r : Reservation)
    → Unique bytes_eq c.sources
    → (reserve_key c limit k now).1 ≡ some r
    → now ≤ later
    → live (release (reserve_key c limit k now).0 r).0 later j ≡ live c later j
release-reserve_key c limit k j now later r u e le =
    let (is_unit, held) = reserve_key_recorded c limit k now r e in
    rw is_unit (
      live-release c (reserve_key c limit k now).0 k j now later (reserve_key-window c limit k now)
        le held (live-reserve_key_ne c limit k j now later u le (e ∙ ap some is_unit)))

-- A release that is called again changes nothing.
pub release-release :
    (c : RelayCap) (r : Reservation) → release (release c r).0 (release c r).1 ≡ release c r
unfolding release
release-release c r = ground arith
