-- ===== src/Common/Text.antt =====
-- Text as the list of its bytes.
use Prim.Native.Char.{code}
use Prim.Native.String.{String}
use mathlib.Core.Path.{◌≡◌, refl}
use mathlib.Core.Bool.{Bool, true, false, ◌&&◌}
use mathlib.Core.List.{List, [], ◌∷◌, map}
use Prim.Native.Nat.{ℕ, ◌+◌}
use native.Mathlib.Omega.{arith}
use uringy.Common.Tests.{leb, ◌==◌, if◌then◌else◌}

-- The code points of a text: its bytes, if it is ASCII.
abbrev pub codes : String → List ℕ
codes String.[] = []
codes (String.◌∷◌ c s) = code c ∷ codes s

-- The letters of ASCII in lower case.
abbrev pub to_lower : ℕ → ℕ
to_lower c = if leb b'A' c && leb c b'Z' then c + 32 else c

-- `to_ascii_lowercase`
abbrev pub lowercase : List ℕ → List ℕ
lowercase bs = map to_lower bs

abbrev pub same_text : List ℕ → List ℕ → Bool
same_text [] [] = true
same_text [] (b ∷ bs) = false
same_text (a ∷ xs) [] = false
same_text (a ∷ xs) (b ∷ bs) = a == b && same_text xs bs

-- `eq_ignore_ascii_case`
abbrev pub same_letters : List ℕ → List ℕ → Bool
same_letters xs bs = same_text (lowercase xs) (lowercase bs)

pub same_text_refl : (bs : List ℕ) → same_text bs bs ≡ true
same_text_refl [] = refl
same_text_refl (b ∷ bs) = ground (arith, same_text_refl bs)
