-- ===== src/Version/Newest.antt =====
-- The tag that the checker announces: backend/internal/version/status.go.
use crapnote.Base.{
  ◌≡◌, ◌⊎◌, refl, sym, true, false, ◌&&◌, Option, none, some, List, [], ◌∷◌, Bool-cases,
  Option-cases, inl, inr, arith, All,
}
use mathlib.Core.Path.{subst}
use crapnote.Base.Table.{exists}
use crapnote.Base.Table.Every.{All-map}
use crapnote.Base.Ints.{ℤ, pos, negsuc, ltb_ℤ}
use crapnote.Images.{same_bytes}
use crapnote.Images.Unused.{same_bytes_refl}
use crapnote.Db.{Bytes}
use crapnote.Version.{
  Parts, has_v, is_empty, compare_part, compare_parts, compare_parsed, is_positive, parse_version,
  is_release, is_newer, newest,
}

-- The first is no later version than the second.
abbrev IsUpTo : Parts → Parts → Type 0
IsUpTo v w = is_positive (compare_parts v w) ≡ false

compare_part_trans :
    (a b c r s t : ℤ)
    → (is_positive r ≡ false → is_positive s ≡ false → is_positive t ≡ false)
    → is_positive (compare_part a b r) ≡ false
    → is_positive (compare_part b c s) ≡ false
    → is_positive (compare_part a c t) ≡ false
compare_part_trans a b c r s t next ab bc = ground arith

compare_part_refl : (a r : ℤ) → is_positive r ≡ false → is_positive (compare_part a a r) ≡ false
compare_part_refl a r h = ground arith

compare_part_asym :
    (a b r s : ℤ)
    → (is_positive r ≡ true → is_positive s ≡ false)
    → is_positive (compare_part a b r) ≡ true
    → is_positive (compare_part b a s) ≡ false
compare_part_asym a b r s next ab = ground arith

compare_parts_trans : (u v w : Parts) → IsUpTo u v → IsUpTo v w → IsUpTo u w
unfolding compare_parts
compare_parts_trans (a, b, c) (d, e, f) (g, h, i) =
    compare_part_trans a d g _ _ _
      (compare_part_trans b e h _ _ _ (compare_part_trans c f i _ _ _ (λ _ _. refl)))

compare_parts_refl : (v : Parts) → IsUpTo v v
unfolding compare_parts
compare_parts_refl (a, b, c) =
    compare_part_refl a _ (compare_part_refl b _ (compare_part_refl c _ refl))

compare_parts_asym : (v w : Parts) → is_positive (compare_parts v w) ≡ true → IsUpTo w v
unfolding compare_parts
compare_parts_asym (a, b, c) (d, e, f) =
    compare_part_asym a d _ _ (compare_part_asym b e _ _ (compare_part_asym c f _ _ (λ _. refl)))

compare_parsed_trans :
    (a : Option Parts) (v : Parts) (c : Option Parts)
    → is_positive (compare_parsed a (some v)) ≡ false
    → is_positive (compare_parsed (some v) c) ≡ false
    → is_positive (compare_parsed a c) ≡ false
unfolding compare_parsed
compare_parsed_trans none v c h k = refl
compare_parsed_trans (some u) v none h k = refl
compare_parsed_trans (some u) v (some w) h k = compare_parts_trans u v w h k

compare_parsed_asym :
    (a b : Option Parts)
    → is_positive (compare_parsed a b) ≡ true
    → is_positive (compare_parsed b a) ≡ false
unfolding compare_parsed
compare_parsed_asym none b h = absurd (cc h)
compare_parsed_asym (some v) none h = refl
compare_parsed_asym (some v) (some w) h = compare_parts_asym v w h

-- No greater: major, minor and patch number compared in this order.
abbrev pub IsAtMost : Parts → Parts → Type 0
IsAtMost (a, b, c) (x, y, z) =
    (ltb_ℤ a x ≡ true) ⊎ ((a ≡ x) × ((ltb_ℤ b y ≡ true) ⊎ ((b ≡ y) × (ltb_ℤ z c ≡ false))))

neither-eq : (a b : ℤ) → ltb_ℤ a b ≡ false → ltb_ℤ b a ≡ false → a ≡ b
neither-eq (pos m) (pos n) h k = let e : m ≡ n = ground arith in rw e refl
neither-eq (pos m) (negsuc n) h k = absurd (ground arith)
neither-eq (negsuc m) (pos n) h k = absurd (ground arith)
neither-eq (negsuc m) (negsuc n) h k = let e : m ≡ n = ground arith in rw e refl

-- One round of the comparison that ends without a greater first version.
compare_part-cases :
    (a b rest : ℤ)
    → is_positive (compare_part a b rest) ≡ false
    → (ltb_ℤ a b ≡ true) ⊎ ((a ≡ b) × (is_positive rest ≡ false))
compare_part-cases a b rest h = elim (Bool-cases (ltb_ℤ a b)) [
  | inl e ↦ inl e
  | inr e ↦ elim (Bool-cases (ltb_ℤ b a)) [
    | inl k ↦ let h' = rw (e, k) at h in absurd (cc h')
    | inr k ↦ inr (neither-eq a b e k, rw (e, k) at h)
  ]
]

compare_parts-IsAtMost : (v w : Parts) → is_positive (compare_parts v w) ≡ false → IsAtMost v w
unfolding compare_parts
compare_parts-IsAtMost (a, b, c) (x, y, z) h = elim (compare_part-cases a x _ h) [
  | inl e ↦ inl e
  | inr (e, h1) ↦ elim (compare_part-cases b y _ h1) [
    | inl f ↦ inr (e, inl f)
    | inr (f, h2) ↦ inr (e, inr (f, last c z h2))
  ]
]
  where
    last : (c z : ℤ) → is_positive (compare_part c z (pos 0)) ≡ false → ltb_ℤ z c ≡ false
    last c z h = ground arith

is_empty-eq : (s : Bytes) → is_empty s ≡ true → s ≡ []
is_empty-eq [] h = refl
is_empty-eq (c ∷ s) h = absurd (cc h)

module _ (atoi : Bytes → Option ℤ) where
  release_parses :
      (tag : Bytes)
      → is_release atoi tag ≡ true
      → (v : Parts) × (is_empty tag ≡ false) × (parse_version atoi tag ≡ some v)
  release_parses tag r = elim (Option-cases (parse_version atoi tag)) [
    | inl n ↦ let r' = rw (n, is_release) at r in absurd (cc r')
    | inr (v, n) ↦ let r' = rw (n, is_release) at r in (v, starts tag r', n)
  ]
    where
      starts : (s : Bytes) → has_v s ≡ true → is_empty s ≡ false
      starts [] h = absurd (cc h)
      starts (c ∷ cs) h = refl

  newer_refl : (tag : Bytes) → is_release atoi tag ≡ true → is_newer atoi tag tag ≡ false
  unfolding compare_parsed
  newer_refl tag r =
      let (v, full, parsed) = release_parses tag r in rw (full, parsed) (compare_parts_refl v)

  newer_trans :
      (a b c : Bytes)
      → is_release atoi b ≡ true
      → is_newer atoi a b ≡ false
      → is_newer atoi b c ≡ false
      → is_newer atoi a c ≡ false
  newer_trans a b c r ab bc =
      let (v, full, parsed) = release_parses b r in
      let ab' = rw (full, parsed) at ab in
      let bc' = rw parsed at bc in
      let joined = compare_parsed_trans (parse_version atoi a) v (parse_version atoi c) ab' in
      ground (arith, joined)

  newer_asym :
      (a b : Bytes)
      → is_release atoi b ≡ true
      → is_newer atoi a b ≡ true
      → is_release atoi a ≡ true
      → is_newer atoi b a ≡ false
  newer_asym a b r ab s =
      let (_, full, _) = release_parses b r in
      let (_, full', _) = release_parses a s in
      let ab' = rw full at ab in
      rw full' (compare_parsed_asym (parse_version atoi a) (parse_version atoi b) ab')

  -- What the loop has found so far: nothing, or a release.
  abbrev IsFound : Bytes → Type 0
  IsFound latest = (is_empty latest ≡ true) ⊎ (is_release atoi latest ≡ true)

  found_release :
      (tag latest : Bytes)
      → IsFound latest
      → is_newer atoi tag latest ≡ false
      → is_release atoi latest ≡ true
  found_release tag latest (inl e) n = let n' = rw e at n in absurd (cc n')
  found_release tag latest (inr r) n = r

  abbrev AreUpTo : Bytes → List Bytes → Type 0
  AreUpTo m tags = All (λ t. is_release atoi t ≡ true → is_newer atoi t m ≡ false) tags

  -- No release among the tags, nor what was found before them, is newer than the newest.
  newest_from :
      (latest : Bytes) (tags : List Bytes)
      → IsFound latest
      → AreUpTo (newest atoi latest tags) (latest ∷ tags)
  unfolding newest
  newest_from latest [] found = (newer_refl latest, tt)
  newest_from latest (tag ∷ tags) found = elim (Bool-cases (is_release atoi tag)) [
    | inl r ↦ elim (Bool-cases (is_newer atoi tag latest)) [
      | inl n ↦
          let same : newest atoi latest (tag ∷ tags) ≡ newest atoi tag tags = rw (r, n) refl in
          let (top, rest) = newest_from tag tags (inr r) in
          let before = λ (s : is_release atoi latest ≡ true).
            newer_trans latest tag _ r (newer_asym tag latest s n r) (top r) in
          subst (λ m. AreUpTo m (latest ∷ tag ∷ tags)) (sym same) (before, (top, rest))
      | inr n ↦
          let same : newest atoi latest (tag ∷ tags) ≡ newest atoi latest tags = rw (r, n) refl in
          let (top, rest) = newest_from latest tags found in
          let s = found_release tag latest found n in
          let passed = λ (_ : is_release atoi tag ≡ true). newer_trans tag latest _ s n (top s) in
          subst (λ m. AreUpTo m (latest ∷ tag ∷ tags)) (sym same) (top, (passed, rest))
    ]
    | inr r ↦
        let same : newest atoi latest (tag ∷ tags) ≡ newest atoi latest tags = rw r refl in
        let (top, rest) = newest_from latest tags found in
        subst (λ m. AreUpTo m (latest ∷ tag ∷ tags)) (sym same)
          (top, ((λ s. absurd (cc (r, s))), rest))
  ]

  -- The start of the search, or one of the tags.
  abbrev IsAmong : Bytes → List Bytes → Bytes → Type 0
  IsAmong latest tags m = (m ≡ latest) ⊎ (exists (same_bytes m) tags ≡ true)

  newest-IsAmong :
      (latest : Bytes) (tags : List Bytes) → IsAmong latest tags (newest atoi latest tags)
  unfolding newest exists
  newest-IsAmong latest [] = inl refl
  newest-IsAmong latest (tag ∷ tags) =
      elim (Bool-cases (is_release atoi tag && is_newer atoi tag latest)) [
        | inl e ↦
            let same : newest atoi latest (tag ∷ tags) ≡ newest atoi tag tags = rw e refl in
            subst (IsAmong latest (tag ∷ tags)) (sym same)
              (inr (present (newest atoi tag tags) (newest-IsAmong tag tags)))
        | inr e ↦
            let same : newest atoi latest (tag ∷ tags) ≡ newest atoi latest tags = rw e refl in
            subst (IsAmong latest (tag ∷ tags)) (sym same)
              (passed (newest atoi latest tags) (newest-IsAmong latest tags))
      ]
    where
      present :
          (m : Bytes)
          → (m ≡ tag) ⊎ (exists (same_bytes m) tags ≡ true)
          → exists (same_bytes m) (tag ∷ tags) ≡ true
      present m (inl s) =
          let i : same_bytes m tag ≡ true = rw s (same_bytes_refl tag) in ground arith
      present m (inr h) = ground arith

      passed :
          (m : Bytes)
          → (m ≡ latest) ⊎ (exists (same_bytes m) tags ≡ true)
          → (m ≡ latest) ⊎ (exists (same_bytes m) (tag ∷ tags) ≡ true)
      passed m (inl s) = inl s
      passed m (inr h) = inr (ground arith)

  newest-IsFound :
      (latest : Bytes) (tags : List Bytes) → IsFound latest → IsFound (newest atoi latest tags)
  unfolding newest
  newest-IsFound latest [] found = found
  newest-IsFound latest (tag ∷ tags) found =
      elim (Bool-cases (is_release atoi tag && is_newer atoi tag latest)) [
        | inl e ↦ rw e (newest-IsFound tag tags (inr (ground arith)))
        | inr e ↦ rw e (newest-IsFound latest tags found)
      ]

  -- No tag starts with v and parses.
  abbrev pub HasNone : List Bytes → Type 0
  HasNone tags = All (λ t. is_release atoi t ≡ false) tags

  -- One of the tags, which parses, and no release among them has a greater version.
  pub record IsGreatest (tags : List Bytes) (tag : Bytes) : Type 0 where
    pub among : exists (same_bytes tag) tags ≡ true
    pub parts : Parts
    pub parsed : parse_version atoi tag ≡ some parts
    pub greatest :
        All
          (λ t. (v : Parts) → has_v t ≡ true → parse_version atoi t ≡ some v → IsAtMost v parts)
          tags

  up_to-HasNone :
      (m : Bytes) (tags : List Bytes) → is_empty m ≡ true → AreUpTo m tags → HasNone tags
  up_to-HasNone m tags e h =
      All-map (λ t. is_release atoi t ≡ true → is_newer atoi t m ≡ false)
        (λ t. is_release atoi t ≡ false) tags (λ t up_to. ground (arith, up_to)) h

  up_to-greatest :
      (m : Bytes) (parts : Parts) (tags : List Bytes)
      → is_empty m ≡ false
      → parse_version atoi m ≡ some parts
      → AreUpTo m tags
      → All
          (λ t. (v : Parts) → has_v t ≡ true → parse_version atoi t ≡ some v → IsAtMost v parts)
          tags
  unfolding compare_parsed
  up_to-greatest m parts tags full parsed h =
      All-map (λ t. is_release atoi t ≡ true → is_newer atoi t m ≡ false)
        (λ t. (v : Parts) → has_v t ≡ true → parse_version atoi t ≡ some v → IsAtMost v parts) tags
        (λ t up_to v starts e.
          let release : is_release atoi t ≡ true = rw (e, is_release) starts in
          compare_parts-IsAtMost v parts (rw (full, e, parsed) at (up_to release)))
        h

  -- The tag that the loop of Status ends with is one of the tags, and its version is at least that of each tag
  -- that starts with v and parses: major, minor and patch number compared in this order. It is empty if no tag
  -- starts with v and parses.
  pub newest-IsGreatest :
      (tags : List Bytes)
      → ((newest atoi [] tags ≡ []) × HasNone tags) ⊎ IsGreatest tags (newest atoi [] tags)
  newest-IsGreatest tags =
      let m = newest atoi [] tags in
      let up_to : AreUpTo m tags = (newest_from [] tags (inl refl)).1 in
      elim (newest-IsFound [] tags (inl refl)) [
        | inl e ↦ inl (is_empty-eq m e, up_to-HasNone m tags e up_to)
        | inr r ↦
            let (parts, full, parsed) = release_parses m r in
            inr (record {
              among = elim (newest-IsAmong [] tags) [
                | inl e ↦ let full' = rw e at full in absurd (cc full')
                | inr h ↦ h
              ];
              parts = parts;
              parsed = parsed;
              greatest = up_to-greatest m parts tags full parsed up_to;
            })
      ]
