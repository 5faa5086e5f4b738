-- ===== src/Base/Bytes.antt =====
-- Go's strings: sequences of bytes, with their equality and their order.
use Prim.Native.Nat.{ℕ}
use mathlib.Core.Bool.{Bool, true, false}
use mathlib.Core.List.{List, [], ◌∷◌}
use openrung.Base.Tests.{ltb, ◌==◌, if◌then◌else◌}
use native.Mathlib.Decide.{ℕ_discrete}

abbrev pub Bytes : Type 0
Bytes = List ℕ

unfoldable pub bytes_eq : Discrete Bytes
unfolding ℕ_discrete
bytes_eq = hlevel ℕ_discrete

-- Go's s <= t.
unfoldable pub bytes_le : Bytes → Bytes → Bool
bytes_le [] t = true
bytes_le (x ∷ s) [] = false
bytes_le (x ∷ s) (y ∷ t) =
    let rest = bytes_le s t in if ltb x y then true else if x == y then rest else false
