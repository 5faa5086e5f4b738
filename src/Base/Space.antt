-- ===== src/Base/Space.antt =====
-- Go's strings in UTF-8: the spaces that TrimSpace cuts off, and the comparison of EqualFold.
use Prim.Native.Nat.{ℕ, zero, suc, ◌+◌}
use mathlib.Core.Path.{◌≡◌, refl}
use mathlib.Core.Bool.{Bool, ◌&&◌, ◌||◌}
use mathlib.Core.List.{[], ◌∷◌}
use openrung.Base.Tests.{leb, ◌==◌, if◌then◌else◌}
use openrung.Base.Bytes.{Bytes}

-- unicode.IsSpace of a rune of one byte, of two and of three.
unfoldable pub is_space : ℕ → Bool
is_space c = c == 32 || (leb 9 c && leb c 13)

unfoldable pub is_space2 : ℕ → ℕ → Bool
is_space2 c d = c == 194 && (d == 133 || d == 160)

unfoldable pub is_space3 : ℕ → ℕ → ℕ → Bool
is_space3 c d e =
    (c == 225 && (d == 154 && e == 128))
    || ((c == 226
          && ((d == 128 && ((leb 128 e && leb e 138) || (e == 168 || (e == 169 || e == 175))))
              || (d == 129 && e == 159)))
        || (c == 227 && (d == 128 && e == 128)))

-- How many bytes the space at a string's start has, 0 if there is none.
unfoldable pub space_at : Bytes → ℕ
space_at [] = 0
space_at (c ∷ []) = if is_space c then 1 else 0
space_at (c ∷ d ∷ []) = if is_space c then 1 else (if is_space2 c d then 2 else 0)
space_at (c ∷ d ∷ e ∷ s) =
    if is_space c then 1 else (if is_space2 c d then 2 else (if is_space3 c d e then 3 else 0))

-- The same at its end, of the bytes from the last one on.
unfoldable pub space_before : Bytes → ℕ
space_before [] = 0
space_before (c ∷ []) = if is_space c then 1 else 0
space_before (d ∷ c ∷ []) = if is_space d then 1 else (if is_space2 c d then 2 else 0)
space_before (e ∷ d ∷ c ∷ s) =
    if is_space e then 1 else (if is_space2 d e then 2 else (if is_space3 c d e then 3 else 0))

-- What is left without the spaces that `size` finds; the number is of bytes still to skip.
unfoldable pub skip_spaces : (Bytes → ℕ) → ℕ → Bytes → Bytes
skip_spaces size k [] = []
skip_spaces size (suc k) (c ∷ s) = skip_spaces size k s
skip_spaces size zero (c ∷ s) = elim (size (c ∷ s)) [ zero ↦ c ∷ s | suc k ↦ skip_spaces size k s ]

unfoldable pub reversed : Bytes → Bytes → Bytes
reversed [] out = out
reversed (c ∷ s) out = reversed s (c ∷ out)

unfoldable pub trim_start : Bytes → Bytes
trim_start s = skip_spaces space_at 0 s

unfoldable pub trim_end : Bytes → Bytes
trim_end s = reversed (skip_spaces space_before 0 (reversed s [])) []

-- strings.TrimSpace
unfoldable pub trim_space : Bytes → Bytes
trim_space s = trim_end (trim_start s)

-- The rune at a string's start with its case folded, and how many bytes it has beyond the first: the
-- Kelvin sign folds to k and the long s to s, which are all that fold to ASCII from beyond it.
unfoldable pub fold_at : ℕ → Bytes → ℕ × ℕ
fold_at c [] = (if leb 65 c && leb c 90 then c + 32 else c, 0)
fold_at c (d ∷ []) =
    if c == 197 && d == 191 then (115, 1) else (if leb 65 c && leb c 90 then c + 32 else c, 0)
fold_at c (d ∷ e ∷ s) =
    if c == 197 && d == 191
    then (115, 1)
    else (if c == 226 && (d == 132 && e == 170)
        then (107, 2)
        else (if leb 65 c && leb c 90 then c + 32 else c, 0))

unfoldable pub folded : ℕ → Bytes → Bytes
folded k [] = []
folded (suc k) (c ∷ s) = folded k s
folded zero (c ∷ s) = let (d, k) = fold_at c s in d ∷ folded k s

-- A brace is no space.
space_at-brace : (s : Bytes) → space_at (123 ∷ s) ≡ 0
unfolding space_at is_space is_space2 is_space3
space_at-brace [] = refl
space_at-brace (d ∷ []) = refl
space_at-brace (d ∷ e ∷ s) = refl

pub trim_start-brace : (s : Bytes) → trim_start (123 ∷ s) ≡ 123 ∷ s
unfolding trim_start skip_spaces
trim_start-brace s = rw (space_at-brace s, skip_spaces) refl
