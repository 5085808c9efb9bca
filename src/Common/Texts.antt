-- ===== src/Common/Texts.antt =====
-- Text as the list of its code points.
use Prim.Native.Nat.{ℕ, ◌+◌}
use Prim.Native.Char.{code}
use Prim.Native.String.{String}
use mathlib.Core.Bool.{◌&&◌}
use mathlib.Core.List.{List, [], ◌∷◌, map}
use cy.Common.Tests.{leb, if◌then◌else◌}

abbrev pub Text : Type 0
Text = List ℕ

abbrev pub codes : String → Text
codes String.[] = []
codes (String.◌∷◌ c s) = code c ∷ codes s

-- `str::to_lowercase` on ASCII letters. No other letter's lower case is one of the letters of a
-- codec name, so the tests of `from_name` see the same.
unfoldable pub to_lowercase : Text → Text
to_lowercase = map (λ c. if leb b'A' c && leb c b'Z' then c + 32 else c)
