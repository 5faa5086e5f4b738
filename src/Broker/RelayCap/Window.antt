-- ===== src/Broker/RelayCap/Window.antt =====
-- The cap is an exact sliding window: what a source's list holds, and what it has been granted.
use mathlib.Core.List.{append-nil}
use openrung.Base.{
  ℕ, ◌≤◌, ◌≡◌, refl, sym, ap, ◌∙◌, Bool, not, ◌&&◌, List, [], ◌∷◌, ◌++◌, Option, none, some, arith,
  leb, ltb, if◌then◌else◌, if_elim, ite, length, filter, any, filter-append, filter-filter,
  filter-eq-nil,
}
use openrung.Base.Bytes.{Bytes, bytes_eq}
use openrung.Base.Map.{lookup-insert, lookup-keep, Unique}
use openrung.Broker.RelayCap.{
  RelayCap, Reservation, is_live, sweep, stamps, tracked, put, reserve_key,
}

-- The stamps of a source that lie in the window that ends at a time.
abbrev pub live : RelayCap → ℕ → Bytes → List ℕ
live c now k = filter (is_live c.window now) (stamps c k)

pub stamps-put :
    (c : RelayCap) (k j : Bytes) (xs : List ℕ)
    → stamps (put c k xs) j ≡ ite (bytes_eq j k) xs (stamps c j)
unfolding stamps put
stamps-put c k j xs = ground (arith, lookup-insert bytes_eq k j xs c.sources)

pub put-window : (c : RelayCap) (k : Bytes) (xs : List ℕ) → (put c k xs).window ≡ c.window
unfolding put
put-window c k xs = refl

pub live-put :
    (c : RelayCap) (k j : Bytes) (xs : List ℕ) (at : ℕ)
    → live (put c k xs) at j ≡ ite (bytes_eq j k) (filter (is_live c.window at) xs) (live c at j)
live-put c k j xs at = elim (bytes_eq j k) [
  | yes p ↦ ground (arith, stamps-put c k j xs, put-window c k xs)
  | no p ↦ ground (arith, stamps-put c k j xs, put-window c k xs)
]

pub live-later :
    (c : RelayCap) (now later : ℕ) (xs : List ℕ)
    → now ≤ later
    → filter (is_live c.window later) (filter (is_live c.window now) xs)
      ≡ filter (is_live c.window later) xs
unfolding is_live
live-later c now later xs le = filter-filter _ _ xs (λ x h. ground arith)

abbrev swept : RelayCap → ℕ → RelayCap
swept c now = record c { sources = sweep c.window now c.sources }

stamps-swept :
    (c : RelayCap) (now : ℕ) (j : Bytes)
    → Unique bytes_eq c.sources
    → stamps (swept c now) j ≡ (if any (is_live c.window now) (stamps c j) then stamps c j else [])
unfolding stamps sweep
stamps-swept c now j u =
    ground (arith, lookup-keep bytes_eq (any (is_live c.window now)) j c.sources u)

live-swept :
    (c : RelayCap) (now later : ℕ) (j : Bytes)
    → Unique bytes_eq c.sources
    → now ≤ later
    → live (swept c now) later j ≡ live c later j
unfolding filter
live-swept c now later j u le = ground (
  arith,
  stamps-swept c now j u,
  live-later c now later (stamps c j) le,
  filter-eq-nil (is_live c.window now) (stamps c j),
)

-- What a reservation adds to the stamps of a source.
abbrev pub gain : Option Reservation → Bytes → List ℕ
gain none j = []
gain (some r) j = ite (bytes_eq j r.key) (r.stamp ∷ []) []

live-refuse :
    (c : RelayCap) (k j : Bytes) (now later : ℕ)
    → now ≤ later
    → live (put c k (live c now k)) later j ≡ live c later j ++ []
live-refuse c k j now later le = elim (bytes_eq j k) [
  | yes p ↦ ground (
    arith,
    live-put c k j (live c now k) later,
    live-later c now later (stamps c k) le,
    append-nil (live c later j),
  )
  | no p ↦ ground (arith, live-put c k j (live c now k) later, append-nil (live c later j))
]

live-grant :
    (d : RelayCap) (k j : Bytes) (kept : List ℕ) (now later : ℕ)
    → filter (is_live d.window later) kept ≡ live d later k
    → live (put d k (kept ++ now ∷ [])) later j
      ≡ live d later j ++ filter (is_live d.window later) (ite (bytes_eq j k) (now ∷ []) [])
unfolding filter
live-grant d k j kept now later h = elim (bytes_eq j k) [
  | yes p ↦ ground (
    arith,
    live-put d k j (kept ++ now ∷ []) later,
    filter-append (is_live d.window later) kept (now ∷ []),
    h,
  )
  | no p ↦ ground (arith, live-put d k j (kept ++ now ∷ []) later, append-nil (live d later j))
]

abbrev Adds : RelayCap → ℕ → Bytes → RelayCap × Option Reservation × Bool → Type 0
Adds c later j r = live r.0 later j ≡ live c later j ++ filter (is_live c.window later) (gain r.1 j)

-- A request adds its own stamp to its source's window if it is recorded, and changes no window
-- otherwise: neither of that source nor of another one.
pub live-reserve_key :
    (c : RelayCap) (limit : ℕ) (k j : Bytes) (now later : ℕ)
    → Unique bytes_eq c.sources
    → now ≤ later
    → live (reserve_key c limit k now).0 later j
      ≡ live c later j ++ filter (is_live c.window later) (gain (reserve_key c limit k now).1 j)
unfolding reserve_key filter
live-reserve_key c limit k j now later u le =
    let kept = live c now k in
    let same : filter (is_live c.window later) kept ≡ live c later k =
      live-later c now later (stamps c k) le in
    if_elim (Adds c later j) (leb limit (length kept)) (λ _. live-refuse c k j now later le)
      (λ _.
        if_elim (Adds c later j) (not (tracked c k) && leb c.max_keys (length c.sources))
          (λ _.
            if_elim (Adds c later j) (leb c.max_keys (length (swept c now).sources))
              (λ _. live-swept c now later j u le ∙ sym (append-nil (live c later j)))
              (λ _.
                live-grant (swept c now) k j kept now later
                  (same ∙ sym (live-swept c now later k u le))
                ∙ ap
                    (λ xs. xs ++ filter (is_live c.window later) (ite (bytes_eq j k) (now ∷ []) []))
                    (live-swept c now later j u le)))
          (λ _. live-grant c k j kept now later same))

-- Whatever a source asks, it is refused exactly when its window is full.
pub reserve_key-verdict :
    (c : RelayCap) (limit : ℕ) (k : Bytes) (now : ℕ)
    → (reserve_key c limit k now).2 ≡ ltb (length (live c now k)) limit
unfolding reserve_key
reserve_key-verdict c limit k now = ground arith
