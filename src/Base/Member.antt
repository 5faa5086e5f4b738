-- ===== src/Base/Member.antt =====
-- Membership that can be taken apart, and what the list functions keep of it.
use mathlib.Core.Path.{◌≡◌, refl, ap}
use mathlib.Core.Logic.{◌⊎◌, inl, inr}
use mathlib.Core.Bool.{Bool, true}
use mathlib.Core.List.{List, [], ◌∷◌, map}
use mathlib.Core.Option.{some}
use native.Mathlib.Omega.{arith}
use openrung.Base.Tests.{Bool-cases}
use openrung.Base.Lists.{filter, All}
use openrung.Base.Map.{lookup}

pub data Empty {ℓ} : Type ℓ where

-- `a` is one of the list's members.
abbrev pub Member {ℓ} : {A : Type ℓ} → A → List A → Type ℓ
Member a [] = Empty
Member a (x ∷ xs) = (a ≡ x) ⊎ Member a xs

module _ {ℓ} {A : Type ℓ} where
  pub Member-filter :
      (p : A → Bool) (a : A) (xs : List A) → p a ≡ true → Member a xs → Member a (filter p xs)
  unfolding filter
  Member-filter p a [] h m = m
  Member-filter p a (x ∷ xs) h (inl e) = rw (← e, h) (inl refl)
  Member-filter p a (x ∷ xs) h (inr m) = elim (Bool-cases (p x)) [
    | inl t ↦ rw t (inr (Member-filter p a xs h m))
    | inr f ↦ rw f (Member-filter p a xs h m)
  ]

module _ {ℓ} {A : Type ℓ} where
  All-later : (P Q : A → Type ℓ) (xs : List A) → ((x : A) → P x → Q x) → All P xs → All Q xs
  All-later P Q [] f h = tt
  All-later P Q (x ∷ xs) f h = (f x h.0, All-later P Q xs f h.1)

  -- What holds of all members holds of each, and it is a member.
  pub All-Member : (P : A → Type ℓ) (xs : List A) → All P xs → All (λ x. Member x xs × P x) xs
  All-Member P [] h = tt
  All-Member P (x ∷ xs) h = (
    (inl refl, h.0),
    All-later (λ y. Member y xs × P y) (λ y. Member y (x ∷ xs) × P y) xs (λ y m. (inr m.0, m.1))
        (All-Member P xs h.1),
  )

module _ {ℓ} {A B : Type ℓ} where
  pub Member-map : (f : A → B) (a : A) (xs : List A) → Member a xs → Member (f a) (map f xs)
  Member-map f a [] m = elim m [ ]
  Member-map f a (x ∷ xs) (inl e) = inl (ap f e)
  Member-map f a (x ∷ xs) (inr m) = inr (Member-map f a xs m)

module _ {ℓ} {K V : Type ℓ} where
  -- The values that a range over a map goes through.
  unfoldable pub values : List (K × V) → List V
  values [] = []
  values ((k, v) ∷ m) = v ∷ values m

module _ {ℓ} {K V : Type ℓ} (dec : Discrete K) where
  pub Member-values :
      (k : K) (v : V) (m : List (K × V)) → lookup dec k m ≡ some v → Member v (values m)
  unfolding lookup values
  Member-values k v [] h = cc
  Member-values k v ((j, w) ∷ m) h = elim (dec k j) [
    | yes p ↦ inl (ground arith)
    | no p ↦ inr (Member-values k v m (ground arith))
  ]
