-- ===== src/Base/Map.antt =====
-- Go's maps as association lists: `lookup` is m[k], `insert` m[k] = v, `remove` delete(m, k), and
-- `keep` a range over the map that deletes the entries that fail a test. A map that is written
-- by these alone has no key twice (`Unique`), so the order of the list shows in no lookup.
use Prim.Native.Nat.{◌+◌, ◌≤◌}
use mathlib.Core.Path.{◌≡◌, refl, sym, subst}
use mathlib.Core.Logic.{ite}
use mathlib.Core.Bool.{Bool, true, false}
use mathlib.Core.List.{List, [], ◌∷◌}
use mathlib.Core.Option.{Option, none, some}
use native.Mathlib.Omega.{arith}
use openrung.Base.Tests.{if◌then◌else◌}
use openrung.Base.Lists.{length, All}

module _ {ℓ} {V : Type ℓ} where
  -- An entry's value, if it passes a test.
  abbrev pub only_if : (V → Bool) → Option V → Option V
  only_if p none = none
  only_if p (some v) = if p v then some v else none

  abbrev pub is_some : Option V → Bool
  is_some none = false
  is_some (some v) = true

module _ {ℓ} {K V : Type ℓ} where
  unfoldable pub keep : (V → Bool) → List (K × V) → List (K × V)
  keep p [] = []
  keep p ((j, v) ∷ m) = let rest = keep p m in if p v then (j, v) ∷ rest else rest

  pub length-keep-le : (p : V → Bool) (m : List (K × V)) → length (keep p m) ≤ length m
  unfolding keep
  length-keep-le p [] = omega arith
  length-keep-le p ((j, v) ∷ m) = ground (arith, length-keep-le p m)

module _ {ℓ} {K V : Type ℓ} (dec : Discrete K) where
  unfoldable pub lookup : K → List (K × V) → Option V
  lookup k [] = none
  lookup k ((j, v) ∷ m) = let rest = lookup k m in ite (dec k j) (some v) rest

  unfoldable pub insert : K → V → List (K × V) → List (K × V)
  insert k v [] = (k, v) ∷ []
  insert k v ((j, w) ∷ m) = let rest = insert k v m in ite (dec k j) ((k, v) ∷ m) ((j, w) ∷ rest)

  unfoldable pub remove : K → List (K × V) → List (K × V)
  remove k [] = []
  remove k ((j, v) ∷ m) = let rest = remove k m in ite (dec k j) rest ((j, v) ∷ rest)

  -- No key stands in two entries.
  abbrev pub Unique : List (K × V) → Type ℓ
  Unique [] = Unit
  Unique ((k, v) ∷ m) = (lookup k m ≡ none) × Unique m

  pub lookup-insert :
      (k j : K) (v : V) (m : List (K × V))
      → lookup j (insert k v m) ≡ ite (dec j k) (some v) (lookup j m)
  unfolding lookup insert
  lookup-insert k j v [] = refl
  lookup-insert k j v ((i, w) ∷ m) = ground (arith, lookup-insert k j v m)

  pub lookup-remove :
      (k j : K) (m : List (K × V)) → lookup j (remove k m) ≡ ite (dec j k) none (lookup j m)
  unfolding lookup remove
  lookup-remove k j [] = ground arith
  lookup-remove k j ((i, w) ∷ m) = ground (arith, lookup-remove k j m)

  pub lookup-keep :
      (p : V → Bool) (j : K) (m : List (K × V))
      → Unique m
      → lookup j (keep p m) ≡ only_if p (lookup j m)
  unfolding lookup keep
  lookup-keep p j [] u = refl
  lookup-keep p j ((i, w) ∷ m) u = ground (arith, lookup-keep p j m u.1)

  pub insert-Unique : (k : K) (v : V) (m : List (K × V)) → Unique m → Unique (insert k v m)
  unfolding lookup insert
  insert-Unique k v [] u = (refl, tt)
  insert-Unique k v ((i, w) ∷ m) u = ground (arith, insert-Unique k v m u.1, lookup-insert k i v m)

  pub remove-Unique : (k : K) (m : List (K × V)) → Unique m → Unique (remove k m)
  unfolding remove
  remove-Unique k [] u = tt
  remove-Unique k ((i, w) ∷ m) u = ground (arith, remove-Unique k m u.1, lookup-remove k i m)

  pub keep-Unique : (p : V → Bool) (m : List (K × V)) → Unique m → Unique (keep p m)
  unfolding keep
  keep-Unique p [] u = tt
  keep-Unique p ((i, w) ∷ m) u = ground (arith, keep-Unique p m u.1, lookup-keep p i m u.1)

  pub length-insert :
      (k : K) (v : V) (m : List (K × V))
      → length (insert k v m) ≡ (if is_some (lookup k m) then length m else length m + 1)
  unfolding lookup insert
  length-insert k v [] = refl
  length-insert k v ((i, w) ∷ m) = ground (arith, length-insert k v m)

  pub length-remove-le : (k : K) (m : List (K × V)) → length (remove k m) ≤ length m
  unfolding remove
  length-remove-le k [] = omega arith
  length-remove-le k ((i, w) ∷ m) = ground (arith, length-remove-le k m)

  -- What holds of all entries holds of them after a write and after a removal.
  pub insert-All {κ} :
      (P : K × V → Type κ) (k : K) (v : V) (m : List (K × V))
      → P (k, v)
      → All P m
      → All P (insert k v m)
  unfolding insert
  insert-All P k v [] h a = (h, tt)
  insert-All P k v ((j, w) ∷ m) h a =
      elim (dec k j) as (λ d. All P (ite d ((k, v) ∷ m) ((j, w) ∷ insert k v m))) [
        | yes p ↦ (h, a.1)
        | no p ↦ (a.0, insert-All P k v m h a.1)
      ]

  pub remove-All {κ} :
      (P : K × V → Type κ) (k : K) (m : List (K × V)) → All P m → All P (remove k m)
  unfolding remove
  remove-All P k [] a = tt
  remove-All P k ((j, w) ∷ m) a =
      elim (dec k j) as (λ d. All P (ite d (remove k m) ((j, w) ∷ remove k m))) [
        | yes p ↦ remove-All P k m a.1
        | no p ↦ (a.0, remove-All P k m a.1)
      ]

  -- What holds of all entries holds of the one that is found.
  abbrev Found {κ} : (K × V → Type κ) → K → Option V → Type κ
  Found P k none = Unit
  Found P k (some v) = P (k, v)

  lookup-Found {κ} :
      (P : K × V → Type κ) (k : K) (m : List (K × V)) → All P m → Found P k (lookup k m)
  unfolding lookup
  lookup-Found P k [] a = tt
  lookup-Found P k ((j, v) ∷ m) a =
      elim (dec k j) as (λ d. Found P k (ite d (some v) (lookup k m))) [
        | yes p ↦ subst (λ i. P (i, v)) (sym p) a.0
        | no n ↦ lookup-Found P k m a.1
      ]

  pub lookup-All {κ} :
      (P : K × V → Type κ) (k : K) (v : V) (m : List (K × V))
      → lookup k m ≡ some v
      → All P m
      → P (k, v)
  lookup-All P k v m e a = subst (Found P k) e (lookup-Found P k m a)
