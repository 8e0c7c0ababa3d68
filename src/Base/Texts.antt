-- ===== src/Base/Texts.antt =====
-- The code points of a text; of a literal its bytes, as all literals here are ASCII.
use Prim.Native.Nat.{ℕ}
use Prim.Native.Char.{code}
use Prim.Native.String.{String}
use mathlib.Core.List.{List, [], ◌∷◌, ◌++◌}
use crapnote.Base.Tests.{◌==◌, if◌then◌else◌}

abbrev pub codes : String → List ℕ
codes String.[] = []
codes (String.◌∷◌ c s) = code c ∷ codes s

-- strings.Split by a separator of one byte, with what is read of the field so far.
unfoldable pub split_on : ℕ → List ℕ → List ℕ → List (List ℕ)
split_on sep field [] = field ∷ []
split_on sep field (c ∷ cs) =
    let next = split_on sep [] cs in
    let same = split_on sep (field ++ c ∷ []) cs in if c == sep then field ∷ next else same
