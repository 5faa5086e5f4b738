-- ===== src/Core/Ranker/Kept.antt =====
-- What the ranking keeps: every candidate, and the probed order of the reachable ones.
use openrung.Base.{
  ℕ, zero, suc, ◌+◌, ◌≡◌, refl, ap, ◌∙◌, Bool, not, ◌||◌, List, [], ◌∷◌, ◌++◌, Option, arith, ltb,
  length, take, drop, filter, count, if_elim,
}
use openrung.Base.Bytes.{Bytes}
use openrung.Base.Int.{ℤ, pos, positive_or}
use openrung.Base.Sort.{sort_by, place}
use openrung.Core.Ranker.{
  Relay, RankedRelay, unranked, probed, reachable, before, ranked_of, rank_head,
  rank_by_tcp_latency, candidates, rank_ladder,
}

module _ {A : Type 0} (p : A → Bool) where
  count-append : (xs ys : List A) → count p (xs ++ ys) ≡ count p xs + count p ys
  unfolding count
  count-append [] ys = omega arith
  count-append (x ∷ xs) ys = ground (arith, count-append xs ys)

  count-take-drop : (n : ℕ) (xs : List A) → count p (take n xs) + count p (drop n xs) ≡ count p xs
  unfolding count
  count-take-drop zero xs = omega arith
  count-take-drop (suc n) [] = omega arith
  count-take-drop (suc n) (x ∷ xs) = ground (arith, count-take-drop n xs)

-- How many relays of a ranked list pass a test.
module _ (p : Relay → Bool) where
  abbrev tally : List (ℕ × RankedRelay) → ℕ
  tally rs = count p (candidates (ranked_of rs))

  candidates-append :
      (xs ys : List RankedRelay)
      → count p (candidates (xs ++ ys)) ≡ count p (candidates xs) + count p (candidates ys)
  unfolding candidates count
  candidates-append [] ys = omega arith
  candidates-append (x ∷ xs) ys = ground (arith, candidates-append xs ys)

  tally-place :
      (le : ℕ × RankedRelay → ℕ × RankedRelay → Bool) (x : ℕ × RankedRelay)
      (xs : List (ℕ × RankedRelay))
      → tally (place le x xs) ≡ tally (x ∷ xs)
  unfolding place candidates ranked_of count
  tally-place le x [] = refl
  tally-place le x (y ∷ ys) = ground (arith, tally-place le x ys)

  tally-sort_by :
      (le : ℕ × RankedRelay → ℕ × RankedRelay → Bool) (xs : List (ℕ × RankedRelay))
      → tally (sort_by le xs) ≡ tally xs
  unfolding sort_by candidates ranked_of count
  tally-sort_by le [] = refl
  tally-sort_by le (x ∷ xs) = tally-place le x (sort_by le xs) ∙ ground (arith, tally-sort_by le xs)

  tally-filter :
      (q : ℕ × RankedRelay → Bool) (xs : List (ℕ × RankedRelay))
      → tally (filter q xs) + tally (filter (λ x. not (q x)) xs) ≡ tally xs
  unfolding filter candidates ranked_of count
  tally-filter q [] = refl
  tally-filter q ((i, x) ∷ xs) = ground (arith, tally-filter q xs)

  tally-probed :
      (probe : Bytes → ℕ → Option ℕ) (i : ℕ) (rs : List Relay)
      → tally (probed probe i rs) ≡ count p rs
  unfolding probed candidates ranked_of count
  tally-probed probe i [] = refl
  tally-probed probe i (r ∷ rs) = ground (arith, tally-probed probe (i + 1) rs)

  candidates-unranked : (rs : List Relay) → candidates (unranked rs) ≡ rs
  unfolding candidates unranked
  candidates-unranked [] = refl
  candidates-unranked (r ∷ rs) = ap (λ xs. r ∷ xs) (candidates-unranked rs)

  count-rank_head :
      (width : ℕ) (xs : List (ℕ × RankedRelay))
      → count p (candidates (rank_head width xs)) ≡ tally xs
  unfolding rank_head
  count-rank_head width xs =
      candidates-append (ranked_of (sort_by (before width) (filter reachable xs)))
        (ranked_of (filter (λ r. not (reachable r)) xs))
      ∙ omega (arith, tally-sort_by (before width) (filter reachable xs), tally-filter reachable xs)

  count-rank_by_tcp_latency :
      (cands : List Relay) (max_probes : ℕ) (bucket_ms : ℤ) (probe : Bytes → ℕ → Option ℕ)
      → count p (candidates (rank_by_tcp_latency cands max_probes bucket_ms probe)) ≡ count p cands
  unfolding rank_by_tcp_latency
  count-rank_by_tcp_latency cands max_probes bucket_ms probe =
      let width = positive_or bucket_ms 1 in
      let head = take max_probes cands in
      let tail = drop max_probes cands in
      let goal = λ (xs : List RankedRelay). count p (candidates xs) ≡ count p cands in
      if_elim goal (ltb (length cands) 2) (λ _. ap (count p) (candidates-unranked cands))
        (λ _.
          if_elim goal (ltb max_probes (length cands))
            (λ _.
              candidates-append (rank_head width (probed probe 0 head)) (unranked tail)
              ∙ omega (
                arith,
                count-rank_head width (probed probe 0 head),
                tally-probed probe 0 head,
                ap (count p) (candidates-unranked tail),
                count-take-drop p max_probes cands,
              ))
            (λ _. count-rank_head width (probed probe 0 cands) ∙ tally-probed probe 0 cands))

-- The ladder has every candidate, as often as the broker's list has it: whatever the probes give, a
-- test of relays passes on as many of the ladder as of the broker's list.
pub count-rank_ladder :
    (p : Relay → Bool) (cands : List Relay) (identity : Bool) (probe : Bytes → ℕ → Option ℕ)
    → count p (candidates (rank_ladder cands identity probe)) ≡ count p cands
unfolding rank_ladder
count-rank_ladder p cands identity probe =
    if_elim (λ (xs : List RankedRelay). count p (candidates xs) ≡ count p cands)
      (identity || ltb (length cands) 2) (λ _. ap (count p) (candidates-unranked p cands))
      (λ _. count-rank_by_tcp_latency p cands 8 (pos 30) probe)
