-- ===== src/Version.antt =====
-- Whether a newer release is available: backend/internal/version/status.go. strconv.Atoi is a parameter,
-- and the tags are what the request to GitHub ended with: `none` if the request, its status or its body was
-- not as it should be. Texts are their bytes.
pub mod Newest
use crapnote.Base.{
  ℕ, ◌+◌, ◌-◌, ◌*◌, Bool, true, false, not, ◌&&◌, ◌||◌, Option, none, some, List, [], ◌∷◌, ◌++◌,
  ◌==◌, ltb, split_on, String, codes, if◌then◌else◌,
}
use crapnote.Base.Ints.{ℤ, pos, negsuc, ltb_ℤ}
use crapnote.Db.{Bytes, second}

pub record Status : Type 0 where
  pub version : Bytes
  pub latest_version : Bytes
  pub update_available : Bool

-- The fields of Checker that change, and the version that runs.
pub record Checker : Type 0 where
  pub current : Bytes
  pub cached : Status
  pub cached_at : ℕ

abbrev pub Parts : Type 0
Parts = ℤ × ℤ × ℤ

abbrev pub trim_v : Bytes → Bytes
trim_v [] = []
trim_v (c ∷ cs) = if c == 118 then cs else c ∷ cs

abbrev pub has_v : Bytes → Bool
has_v [] = false
has_v (c ∷ cs) = c == 118

abbrev pub is_empty : Bytes → Bool
is_empty [] = true
is_empty (c ∷ cs) = false

-- strings.SplitN(value, "-", 2)[0]
unfoldable pub before_hyphen : Bytes → Bytes
before_hyphen [] = []
before_hyphen (c ∷ cs) = let rest = before_hyphen cs in if c == 45 then [] else c ∷ rest

-- One round of the loop of compare.
abbrev pub compare_part : ℤ → ℤ → ℤ → ℤ
compare_part a b rest = if ltb_ℤ a b then negsuc 0 else if ltb_ℤ b a then pos 1 else rest

unfoldable pub compare_parts : Parts → Parts → ℤ
compare_parts (a, b, c) (x, y, z) = compare_part a x (compare_part b y (compare_part c z (pos 0)))

-- The comparison where both parse, and 0 otherwise.
unfoldable pub compare_parsed : Option Parts → Option Parts → ℤ
compare_parsed (some v) (some w) = compare_parts v w
compare_parsed none w = pos 0
compare_parsed (some v) none = pos 0

-- `> 0`
abbrev pub is_positive : ℤ → Bool
is_positive z = ltb_ℤ (pos 0) z

abbrev pub all_three : Option ℤ → Option ℤ → Option ℤ → Option Parts
all_three (some a) (some b) (some c) = some (a, b, c)
all_three _ _ _ = none

module _ (atoi : Bytes → Option ℤ) where
  unfoldable pub parse_fields : List Bytes → Option Parts
  parse_fields (a ∷ b ∷ c ∷ []) = all_three (atoi a) (atoi b) (atoi c)
  parse_fields _ = none

  unfoldable pub parse_version : Bytes → Option Parts
  parse_version value = parse_fields (split_on 46 [] (before_hyphen (trim_v value)))

  abbrev pub compare_versions : Bytes → Bytes → ℤ
  compare_versions a b = compare_parsed (parse_version a) (parse_version b)

  -- The tags that the loop does not skip.
  abbrev pub is_release : Bytes → Bool
  is_release tag = elim (parse_version tag) [ none ↦ false | some v ↦ has_v tag ]

  abbrev pub is_newer : Bytes → Bytes → Bool
  is_newer tag latest = is_empty latest || is_positive (compare_versions tag latest)

  unfoldable pub newest : Bytes → List Bytes → Bytes
  newest latest [] = latest
  newest latest (tag ∷ tags) =
      newest (if is_release tag && is_newer tag latest then tag else latest) tags

  -- What is made of the newest tag; the answer is kept only if there is one.
  unfoldable pub announced : Bytes → ℕ → Checker → Status × Checker
  announced [] now k =
      (record { version = k.current; latest_version = []; update_available = false }, k)
  announced (c ∷ cs) now k =
      let s : Status = record {
        version = k.current;
        latest_version = c ∷ cs;
        update_available = is_positive (compare_versions (c ∷ cs) k.current);
      } in
      (s, record k { cached = s; cached_at = now })

  abbrev pub newest_of : Option (List Bytes) → Bytes
  newest_of none = []
  newest_of (some tags) = newest [] tags

  -- Status; six hours are kept. The zero time is 0.
  unfoldable pub status : Option (List Bytes) → ℕ → Checker → Status × Checker
  unfolding announced newest
  status tags now k =
      if not (k.cached_at == 0) && ltb (now - k.cached_at) (21600 * second)
      then (k.cached, k)
      else announced (newest_of tags) now k
