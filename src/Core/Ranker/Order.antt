-- ===== src/Core/Ranker/Order.antt =====
-- The order of the ladder: reachable relays first, by latency bucket.
use mathlib.Core.Path.{subst}
use mathlib.Core.List.{append_assoc, append-nil}
use openrung.Base.{
  ℕ, ◌≡◌, refl, sym, Bool, true, false, not, ◌&&◌, ◌||◌, List, [], ◌∷◌, ◌++◌, Option, arith, ltb,
  leb, length, take, drop, filter, if_elim,
}
use openrung.Base.Bytes.{Bytes}
use openrung.Base.Int.{ℤ, positive_or}
use openrung.Base.Map.{is_some}
use openrung.Base.Sort.{sort_by, place}
use openrung.Core.Ranker.{
  Relay, RankedRelay, unranked, probed, reachable, bucket, before, ranked_of, rank_head,
  rank_by_tcp_latency,
}

abbrev Entry : Type 0
Entry = ℕ × RankedRelay

module _ (width : ℕ) where
  -- A relay may stand directly before another one: none that failed or was not probed before a
  -- reachable one, and of two reachable ones none of a higher bucket first.
  abbrev pub may_precede : RankedRelay → RankedRelay → Bool
  may_precede r s =
      not (is_some s.probe_ms) || (is_some r.probe_ms && leb (bucket width r) (bucket width s))

  abbrev Precedes : RankedRelay → List RankedRelay → Type 0
  Precedes r [] = Unit
  Precedes r (s ∷ rs) = may_precede r s ≡ true

  -- Each relay of a ladder may precede the next one.
  abbrev pub Ladder : List RankedRelay → Type 0
  Ladder [] = Unit
  Ladder (r ∷ rs) = Precedes r rs × Ladder rs

  abbrev Lower : Entry → List Entry → Type 0
  Lower e [] = Unit
  Lower e (f ∷ fs) = before width e f ≡ true

  abbrev Sorted : List Entry → Type 0
  Sorted [] = Unit
  Sorted (e ∷ es) = Lower e es × Sorted es

  before_total : (e f : Entry) → before width e f ≡ false → before width f e ≡ true
  unfolding before
  before_total (i, r) (j, s) h = ground arith

  place-Lower :
      (e f : Entry) (fs : List Entry)
      → before width e f ≡ true
      → Lower e fs
      → Lower e (place (before width) f fs)
  unfolding place
  place-Lower e f [] h k = h
  place-Lower e f (g ∷ gs) h k =
      if_elim (λ (xs : List Entry). Lower e xs) (before width f g) (λ _. h) (λ _. k)

  place-Sorted : (e : Entry) (es : List Entry) → Sorted es → Sorted (place (before width) e es)
  unfolding place
  place-Sorted e [] h = (tt, tt)
  place-Sorted e (f ∷ fs) h =
      if_elim Sorted (before width e f) (λ y. (y, h))
        (λ n. (place-Lower f e fs (before_total e f n) h.0, place-Sorted e fs h.1))

  sort_by-Sorted : (es : List Entry) → Sorted (sort_by (before width) es)
  unfolding sort_by
  sort_by-Sorted [] = tt
  sort_by-Sorted (e ∷ es) = place-Sorted e (sort_by (before width) es) (sort_by-Sorted es)

  abbrev AllReachable : List Entry → Type 0
  AllReachable [] = Unit
  AllReachable (e ∷ es) = (reachable e ≡ true) × AllReachable es

  abbrev NoneReachable : List RankedRelay → Type 0
  NoneReachable [] = Unit
  NoneReachable (r ∷ rs) = (is_some r.probe_ms ≡ false) × NoneReachable rs

  filter-AllReachable : (es : List Entry) → AllReachable (filter reachable es)
  unfolding filter
  filter-AllReachable [] = tt
  filter-AllReachable (e ∷ es) =
      if_elim AllReachable (reachable e) (λ y. (y, filter-AllReachable es))
        (λ _. filter-AllReachable es)

  place-AllReachable :
      (e : Entry) (es : List Entry)
      → reachable e ≡ true
      → AllReachable es
      → AllReachable (place (before width) e es)
  unfolding place
  place-AllReachable e [] h k = (h, tt)
  place-AllReachable e (f ∷ fs) h k =
      if_elim AllReachable (before width e f) (λ _. (h, k))
        (λ _. (k.0, place-AllReachable e fs h k.1))

  sort_by-AllReachable :
      (es : List Entry) → AllReachable es → AllReachable (sort_by (before width) es)
  unfolding sort_by
  sort_by-AllReachable [] h = tt
  sort_by-AllReachable (e ∷ es) h =
      place-AllReachable e (sort_by (before width) es) h.0 (sort_by-AllReachable es h.1)

  filter-NoneReachable :
      (es : List Entry) → NoneReachable (ranked_of (filter (λ r. not (reachable r)) es))
  unfolding filter ranked_of reachable
  filter-NoneReachable [] = tt
  filter-NoneReachable ((i, r) ∷ es) =
      if_elim (λ (xs : List Entry). NoneReachable (ranked_of xs)) (not (is_some r.probe_ms))
        (λ y. (ground arith, filter-NoneReachable es)) (λ _. filter-NoneReachable es)

  unranked-NoneReachable : (rs : List Relay) → NoneReachable (unranked rs)
  unfolding unranked
  unranked-NoneReachable [] = tt
  unranked-NoneReachable (r ∷ rs) = (refl, unranked-NoneReachable rs)

  NoneReachable-append :
      (xs ys : List RankedRelay) → NoneReachable xs → NoneReachable ys → NoneReachable (xs ++ ys)
  NoneReachable-append [] ys h k = k
  NoneReachable-append (x ∷ xs) ys h k = (h.0, NoneReachable-append xs ys h.1 k)

  Precedes-failed : (r : RankedRelay) (ys : List RankedRelay) → NoneReachable ys → Precedes r ys
  Precedes-failed r [] k = tt
  Precedes-failed r (y ∷ ys) k = ground arith

  NoneReachable-Ladder : (ys : List RankedRelay) → NoneReachable ys → Ladder ys
  NoneReachable-Ladder [] k = tt
  NoneReachable-Ladder (y ∷ ys) k = (Precedes-failed y ys k.1, NoneReachable-Ladder ys k.1)

  before_ordered :
      (i j : ℕ) (r s : RankedRelay)
      → before width (i, r) (j, s) ≡ true
      → reachable (i, r) ≡ true
      → may_precede r s ≡ true
  unfolding before reachable
  before_ordered i j r s h k = ground arith

  -- Reachable relays in order, and then others.
  Sorted-Ladder :
      (es : List Entry) (ys : List RankedRelay)
      → Sorted es
      → AllReachable es
      → NoneReachable ys
      → Ladder (ranked_of es ++ ys)
  unfolding ranked_of
  Sorted-Ladder [] ys h k n = NoneReachable-Ladder ys n
  Sorted-Ladder ((i, r) ∷ []) ys h k n = (Precedes-failed r ys n, NoneReachable-Ladder ys n)
  Sorted-Ladder ((i, r) ∷ (j, s) ∷ es) ys h k n =
      (before_ordered i j r s h.0 k.0, Sorted-Ladder ((j, s) ∷ es) ys h.1 k.1 n)

  -- The probed head with a tail that nothing in it was reachable.
  rank_head-Ladder :
      (es : List Entry) (ys : List RankedRelay)
      → NoneReachable ys
      → Ladder (rank_head width es ++ ys)
  unfolding rank_head
  rank_head-Ladder es ys n =
      let front = sort_by (before width) (filter reachable es) in
      let back = ranked_of (filter (λ r. not (reachable r)) es) in
      subst Ladder (sym (append_assoc (ranked_of front) back ys)) (
        Sorted-Ladder front (back ++ ys) (sort_by-Sorted (filter reachable es))
          (sort_by-AllReachable (filter reachable es) (filter-AllReachable es))
          (NoneReachable-append back ys (filter-NoneReachable es) n))

-- The ranking tries reachable relays by increasing latency bucket, and every relay that failed its
-- probe or was not probed only after them.
pub rank_by_tcp_latency-Ladder :
    (cands : List Relay) (max_probes : ℕ) (bucket_ms : ℤ) (probe : Bytes → ℕ → Option ℕ)
    → Ladder (positive_or bucket_ms 1) (rank_by_tcp_latency cands max_probes bucket_ms probe)
unfolding rank_by_tcp_latency
rank_by_tcp_latency-Ladder cands max_probes bucket_ms probe =
    let width = positive_or bucket_ms 1 in
    if_elim (Ladder width) (ltb (length cands) 2)
      (λ _. NoneReachable-Ladder width (unranked cands) (unranked-NoneReachable width cands))
      (λ _.
        if_elim (Ladder width) (ltb max_probes (length cands))
          (λ _.
            rank_head-Ladder width (probed probe 0 (take max_probes cands))
              (unranked (drop max_probes cands))
              (unranked-NoneReachable width (drop max_probes cands)))
          (λ _.
            subst (Ladder width) (append-nil (rank_head width (probed probe 0 cands)))
              (rank_head-Ladder width (probed probe 0 cands) [] tt)))
