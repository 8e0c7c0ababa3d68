-- ===== src/Mcp/Path.antt =====
-- Filling the placeholders of a path: strings.ReplaceAll in backend/internal/mcp/dispatch.go.
use crapnote.Base.{
  ℕ, zero, suc, ◌+◌, ◌≡◌, refl, true, ◌&&◌, [], ◌∷◌, ◌++◌, ◌==◌, String, codes, if◌then◌else◌,
  length, arith,
}
use crapnote.Db.{Bytes}
use crapnote.Tokens.Service.{has_prefix}

-- The text that is replaced is `o ∷ os`, and `skip` bytes of a match are still to pass.
unfoldable pub replace_from : ℕ → Bytes → Bytes → ℕ → Bytes → Bytes
replace_from o os new skip [] = []
replace_from o os new (suc skip) (c ∷ cs) = replace_from o os new skip cs
replace_from o os new zero (c ∷ cs) =
    let matched = new ++ replace_from o os new (length os) cs in
    let kept = c ∷ replace_from o os new zero cs in
    if c == o && has_prefix cs os then matched else kept

-- "{" + name + "}" behind its first byte.
abbrev pub rest_of_placeholder : String → Bytes
rest_of_placeholder name = codes name ++ 125 ∷ []

-- strings.ReplaceAll(path, "{" + name + "}", value)
unfoldable pub fill : String → Bytes → Bytes → Bytes
unfolding replace_from
fill name value path = replace_from 123 (rest_of_placeholder name) value 0 path

unfoldable pub count_byte : ℕ → Bytes → ℕ
count_byte b [] = 0
count_byte b (c ∷ cs) = let rest = count_byte b cs in if c == b then suc rest else rest

pub count_byte-append :
    (b : ℕ) (s t : Bytes) → count_byte b (s ++ t) ≡ count_byte b s + count_byte b t
unfolding count_byte
count_byte-append b [] t = omega arith
count_byte-append b (c ∷ cs) t = ground (arith, count_byte-append b cs t)

module _ (b : ℕ) (o : ℕ) (os new : Bytes) (absent : count_byte b (o ∷ os) ≡ 0)
    (none_new : count_byte b new ≡ 0) where
  -- `ps` is what is left of a match.
  pub replace_from-count :
      (ps s : Bytes)
      → has_prefix s ps ≡ true
      → count_byte b ps ≡ 0
      → count_byte b (replace_from o os new (length ps) s) ≡ count_byte b s
  unfolding replace_from count_byte has_prefix
  replace_from-count [] [] m hp = refl
  replace_from-count (p ∷ ps) [] m hp = refl
  replace_from-count (p ∷ ps) (c ∷ cs) m hp = ground (arith, replace_from-count ps cs)
  replace_from-count [] (c ∷ cs) m hp = ground (
    arith,
    replace_from-count os cs,
    replace_from-count [] cs refl refl,
    count_byte-append b new (replace_from o os new (length os) cs),
    absent,
    none_new,
  )
