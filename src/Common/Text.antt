-- ===== src/Common/Text.antt =====
-- Text as a list of code points: lower case and substring search, for ASCII text.
use Prim.Native.Nat.{ℕ, ◌+◌}
use Prim.Native.Char.{code}
use Prim.Native.String.{String}
use mathlib.Core.Bool.{Bool, true, false, ◌&&◌, ◌||◌}
use mathlib.Core.List.{List, [], ◌∷◌, map}
use notchstave.Common.Tests.{leb, ◌==◌, if◌then◌else◌}

abbrev pub codes : String → List ℕ
codes String.[] = []
codes (String.◌∷◌ c s) = code c ∷ codes s

-- `str.lower` on ASCII.
unfoldable pub to_lower : List ℕ → List ℕ
to_lower = map (λ c. if leb b'A' c && leb c b'Z' then c + 32 else c)

unfoldable pub starts_with : List ℕ → List ℕ → Bool
starts_with [] text = true
starts_with (m ∷ marker) [] = false
starts_with (m ∷ marker) (c ∷ text) = m == c && starts_with marker text

-- `marker in text`
unfoldable pub contains : List ℕ → List ℕ → Bool
unfolding starts_with
contains marker [] = starts_with marker []
contains marker (c ∷ text) = starts_with marker (c ∷ text) || contains marker text

-- `any(marker in text for marker in markers)`
unfoldable pub contains_any : List (List ℕ) → List ℕ → Bool
unfolding contains
contains_any [] text = false
contains_any (marker ∷ markers) text = contains marker text || contains_any markers text
