-- ===== src/Images/Scan.antt =====
-- backend/internal/images/sweep.go: ImageAPIPath, as FindAllStringSubmatch reads a body with it, and
-- strikeOff. Texts are their bytes.
use crapnote.Base.{
  ℕ, zero, suc, is_some, ◌-◌, ◌+◌, Bool, ◌&&◌, ◌||◌, Option, none, some, List, [], ◌∷◌, map, ◌==◌,
  leb, length, if◌then◌else◌,
}
use crapnote.Base.Table.{delete}
use crapnote.Db.{Bytes}
use crapnote.Images.{same_bytes}

-- "/api/images/"
abbrev pub image_path : Bytes
image_path = 47 ∷ 97 ∷ 112 ∷ 105 ∷ 47 ∷ 105 ∷ 109 ∷ 97 ∷ 103 ∷ 101 ∷ 115 ∷ 47 ∷ []

-- [a-f0-9\-]
unfoldable pub is_id_char : ℕ → Bool
is_id_char c = (leb 97 c && leb c 102) || ((leb 48 c && leb c 57) || c == 45)

-- The text behind a prefix.
unfoldable pub strip : Bytes → Bytes → Option Bytes
strip [] s = some s
strip (p ∷ ps) [] = none
strip (p ∷ ps) (c ∷ cs) = let rest = strip ps cs in if p == c then rest else none

-- The longest run of id characters.
unfoldable pub token : Bytes → Bytes
unfolding is_id_char
token [] = []
token (c ∷ cs) = if is_id_char c then c ∷ token cs else []

abbrev pub captured : Bytes → Option Bytes
captured [] = none
captured (c ∷ cs) = some (c ∷ cs)

abbrev pub token_of : Option Bytes → Option Bytes
token_of none = none
token_of (some s) = captured (token s)

module _ (path : Bytes) where
  -- The group of a match that begins here.
  unfoldable pub match_here : Bytes → Option Bytes
  unfolding strip token
  match_here s = token_of (strip path s)

  -- The groups of the matches that do not overlap, from the left, where `skip` bytes belong to the
  -- match before.
  unfoldable pub scan : ℕ → Bytes → List Bytes
  scan skip [] = []
  scan (suc skip) (c ∷ cs) = scan skip cs
  scan zero (c ∷ cs) = elim (match_here (c ∷ cs)) [
    | none ↦ scan 0 cs
    | some tok ↦ tok ∷ scan (length path + length tok - 1) cs
  ]

-- FindAllStringSubmatch(body, -1)
unfoldable pub find_image_ids : Bytes → List Bytes
unfolding scan match_here
find_image_ids body = scan image_path 0 body

-- strings.Contains
unfoldable pub contains : Bytes → Bytes → Bool
contains part [] = is_some (strip part [])
contains part (c ∷ cs) = is_some (strip part (c ∷ cs)) || contains part cs

-- tok[:i] for each i at which `tok` has a hyphen.
unfoldable pub cuts : Bytes → List Bytes
cuts [] = []
cuts (c ∷ cs) = let deeper = map (λ t. c ∷ t) (cuts cs) in if c == 45 then [] ∷ deeper else deeper

-- delete(pending, id) for each id
unfoldable pub strike_each : List Bytes → List Bytes → List Bytes
strike_each [] pending = pending
strike_each (id ∷ ids) pending = strike_each ids (delete (same_bytes id) pending)

-- The keys of the map `pending` are a list.
unfoldable pub strike_off : List Bytes → Bytes → List Bytes
unfolding cuts strike_each
strike_off pending tok = strike_each (tok ∷ cuts tok) pending
