-- ===== src/Base/Sort.antt =====
-- Sorting by insertion, for the code's sorts of distinct members by a total order.
use mathlib.Core.Logic.{inl, inr}
use mathlib.Core.Bool.{Bool}
use mathlib.Core.List.{List, [], ◌∷◌}
use openrung.Base.Tests.{if◌then◌else◌, Bool-cases, if_elim}
use openrung.Base.Lists.{All}
use openrung.Base.Member.{Member}

module _ {ℓ} {A : Type ℓ} (le : A → A → Bool) where
  unfoldable pub place : A → List A → List A
  place a [] = a ∷ []
  place a (x ∷ xs) = let rest = place a xs in if le a x then a ∷ x ∷ xs else x ∷ rest

  unfoldable pub sort_by : List A → List A
  unfolding place
  sort_by [] = []
  sort_by (x ∷ xs) = place x (sort_by xs)

  pub Member-place : (a b : A) (xs : List A) → Member b (a ∷ xs) → Member b (place a xs)
  unfolding place
  Member-place a b [] m = m
  Member-place a b (x ∷ xs) m = elim (Bool-cases (le a x)) [
    | inl t ↦ rw t m
    | inr f ↦ rw f (later m (Member-place a b xs))
  ]
    where
      later :
          Member b (a ∷ x ∷ xs)
          → (Member b (a ∷ xs) → Member b (place a xs))
          → Member b (x ∷ place a xs)
      later (inl e) ih = inr (ih (inl e))
      later (inr (inl e)) ih = inl e
      later (inr (inr m)) ih = inr (ih (inr m))

  pub Member-sort_by : (b : A) (xs : List A) → Member b xs → Member b (sort_by xs)
  unfolding sort_by
  Member-sort_by b [] m = m
  Member-sort_by b (x ∷ xs) (inl e) = Member-place x b (sort_by xs) (inl e)
  Member-sort_by b (x ∷ xs) (inr m) = Member-place x b (sort_by xs) (inr (Member-sort_by b xs m))

  place-All {κ} : (P : A → Type κ) (a : A) (xs : List A) → P a → All P xs → All P (place a xs)
  unfolding place
  place-All P a [] p h = (p, tt)
  place-All P a (x ∷ xs) p h =
      if_elim (All P) (le a x) (λ _. (p, h)) (λ _. (h.0, place-All P a xs p h.1))

  pub sort_by-All {κ} : (P : A → Type κ) (xs : List A) → All P xs → All P (sort_by xs)
  unfolding sort_by
  sort_by-All P [] h = tt
  sort_by-All P (x ∷ xs) h = place-All P x (sort_by xs) h.0 (sort_by-All P xs h.1)
