-- ===== src/Tests/Version.antt =====
-- Releases out of order, a tag that is none, and a pre-release.
use crapnote.Base.{◌-◌, ◌≡◌, ◌⊎◌, refl, split_on, Option, none, some, List, [], ◌∷◌, codes}
use crapnote.Base.Ints.{ℤ, pos}
use crapnote.Db.{Bytes}
use crapnote.Version.{
  newest, parse_version, parse_fields, before_hyphen, compare_parsed, compare_parts,
}
use crapnote.Version.Newest.{HasNone, IsGreatest, newest-IsGreatest}

-- strconv.Atoi of one digit.
abbrev digit : Bytes → Option ℤ
digit (c ∷ []) = some (pos (c - 48))
digit _ = none

abbrev tags : List Bytes
tags = codes "v1.2.9" ∷ codes "latest" ∷ codes "v1.4.0" ∷ codes "v1.3.7-rc1" ∷ codes "2.0.0" ∷ []

newest-IsGreatest_example :
    ((newest digit [] tags ≡ []) × HasNone digit tags)
    ⊎ IsGreatest digit tags (newest digit [] tags)
newest-IsGreatest_example = newest-IsGreatest digit tags

announced_tag : newest digit [] tags ≡ codes "v1.4.0"
unfolding newest parse_version parse_fields split_on before_hyphen compare_parsed compare_parts
announced_tag = refl
