-- ===== src/Prelude/Text.antt =====
-- C strings as lists of character codes: strcmp, strstr and literals.
use Prim.Native.Nat.{ℕ}
use Prim.Native.Char.{code}
use Prim.Native.String.{String}
use mathlib.Core.Bool.{Bool, true, false, ◌&&◌, ◌||◌}
use mathlib.Core.List.{List, [], ◌∷◌}
use example_ublox_mbed_clien.Prelude.Tests.{◌==◌}

abbrev pub codes : String → List ℕ
codes String.[] = []
codes (String.◌∷◌ c s) = code c ∷ codes s

-- `strcmp(a, b) == 0`
unfoldable pub same_text : List ℕ → List ℕ → Bool
same_text [] [] = true
same_text (a ∷ as') (b ∷ bs) = a == b && same_text as' bs
same_text _ _ = false

unfoldable has_prefix : List ℕ → List ℕ → Bool
has_prefix [] text = true
has_prefix (a ∷ word) [] = false
has_prefix (a ∷ word) (b ∷ text) = a == b && has_prefix word text

-- `strstr(text, word) != NULL`
unfoldable pub contains : List ℕ → List ℕ → Bool
unfolding has_prefix
contains word [] = has_prefix word []
contains word (b ∷ text) = has_prefix word (b ∷ text) || contains word text
