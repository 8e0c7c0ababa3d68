-- ===== src/Images/Unused.antt =====
-- Which ids the scan of the notes leaves, against a test of one id at a time.
use crapnote.Base.{
  ℕ, zero, suc, ◌≡◌, refl, sym, ◌∙◌, Bool, true, false, not, ◌&&◌, none, List, [], ◌∷◌, map, ◌==◌,
  arith, inl, inr, Bool-cases, Option-cases, ap, All, take,
}
use crapnote.Base.Table.{select, delete, exists}
use crapnote.Base.Table.Every.{All-map}
use crapnote.Base.Table.Inspected.{exists-select}
use crapnote.Db.{Db, Bytes, Note}
use crapnote.Images.{same_bytes}
use crapnote.Images.Scan.{
  image_path, strip, match_here, scan, find_image_ids, contains, cuts, strike_each, strike_off,
}
use crapnote.Images.Sweep.{
  has_id, strike_matches, strike_body, scan_notes, unreferenced, orphans_of, aged_image_ids,
}

-- An id is named by a match if it is the text of the match, or stands in it before a hyphen.
unfoldable pub names : Bytes → Bytes → Bool
names [] [] = true
names [] (c ∷ tok) = c == 45
names (a ∷ id) [] = false
names (a ∷ id) (c ∷ tok) = a == c && names id tok

unfoldable pub mentions : Bytes → Bytes → Bool
mentions id body = exists (names id) (find_image_ids body)

pub same_bytes-eq : (a b : Bytes) → same_bytes a b ≡ true → a ≡ b
unfolding same_bytes
same_bytes-eq [] [] h = refl
same_bytes-eq [] (d ∷ b) h = absurd (cc h)
same_bytes-eq (c ∷ a) [] h = absurd (cc h)
same_bytes-eq (c ∷ a) (d ∷ b) h = ground (arith, same_bytes-eq a b)

exists-map : (c : ℕ) (ts : List Bytes) → exists (same_bytes []) (map (λ t. c ∷ t) ts) ≡ false
unfolding exists same_bytes
exists-map c [] = refl
exists-map c (t ∷ ts) = exists-map c ts

exists-map_cons :
    (a c : ℕ) (id : Bytes) (ts : List Bytes)
    → exists (same_bytes (a ∷ id)) (map (λ t. c ∷ t) ts) ≡ (a == c && exists (same_bytes id) ts)
unfolding exists same_bytes
exists-map_cons a c id [] = ground arith
exists-map_cons a c id (t ∷ ts) = ground (arith, exists-map_cons a c id ts)

names-cuts : (id tok : Bytes) → has_id id (tok ∷ cuts tok) ≡ names id tok
unfolding names cuts exists same_bytes
names-cuts [] [] = refl
names-cuts [] (c ∷ tok) = ground (arith, exists-map c (cuts tok))
names-cuts (a ∷ id) [] = refl
names-cuts (a ∷ id) (c ∷ tok) = ground (arith, exists-map_cons a c id (cuts tok), names-cuts id tok)

pub has_id-delete :
    (id x : Bytes) (pending : List Bytes)
    → has_id id (delete (same_bytes x) pending) ≡ (has_id id pending && not (same_bytes id x))
unfolding exists delete
has_id-delete id x [] = refl
has_id-delete id x (y ∷ pending) =
    let ih = has_id-delete id x pending in
    elim (Bool-cases (same_bytes x y)) [
      | inl e ↦
          let k : same_bytes id y ≡ same_bytes id x =
            ap (same_bytes id) (sym (same_bytes-eq x y e)) in
          rw e (ground (arith, k, ih))
      | inr e ↦ elim (Bool-cases (same_bytes id x)) [
        | inl f ↦
            let k : same_bytes id y ≡ same_bytes x y =
              ap (λ z. same_bytes z y) (same_bytes-eq id x f) in
            rw e (ground (arith, k, ih))
        | inr f ↦ rw e (ground (arith, ih))
      ]
    ]

has_id-strike_each :
    (id : Bytes) (ids pending : List Bytes)
    → has_id id (strike_each ids pending) ≡ (has_id id pending && not (has_id id ids))
unfolding strike_each exists
has_id-strike_each id [] pending = ground arith
has_id-strike_each id (x ∷ ids) pending =
    ground
      (arith, has_id-strike_each id ids (delete (same_bytes x) pending), has_id-delete id x pending)

has_id-strike_off :
    (id : Bytes) (pending : List Bytes) (tok : Bytes)
    → has_id id (strike_off pending tok) ≡ (has_id id pending && not (names id tok))
unfolding strike_off
has_id-strike_off id pending tok =
    has_id-strike_each id (tok ∷ cuts tok) pending
    ∙ ap (λ b. has_id id pending && not b) (names-cuts id tok)

has_id-strike_matches :
    (id : Bytes) (toks pending : List Bytes)
    → has_id id (strike_matches toks pending) ≡ (has_id id pending && not (exists (names id) toks))
unfolding strike_matches exists
has_id-strike_matches id [] pending = ground arith
has_id-strike_matches id (tok ∷ toks) pending = ground (
  arith,
  has_id-strike_matches id toks (strike_off pending tok),
  has_id-strike_off id pending tok,
)

-- Without the path there is no match.
module _ (path : Bytes) where
  match_here-none : (s : Bytes) → strip path s ≡ none → match_here path s ≡ none
  unfolding match_here
  match_here-none s e = rw e refl

  scan-none : (skip : ℕ) (body : Bytes) → contains path body ≡ false → scan path skip body ≡ []
  unfolding scan contains
  scan-none skip [] h = refl
  scan-none (suc skip) (c ∷ body) h = scan-none skip body (ground arith)
  scan-none zero (c ∷ body) h = elim (Option-cases (strip path (c ∷ body))) [
    | inl e ↦ rw (match_here-none (c ∷ body) e, scan) (scan-none 0 body (ground arith))
    | inr (r, e) ↦ absurd (ground arith)
  ]

has_id-strike_body :
    (id body : Bytes) (pending : List Bytes)
    → has_id id (strike_body body pending) ≡ (has_id id pending && not (mentions id body))
unfolding strike_body mentions find_image_ids
has_id-strike_body id body pending = elim (Bool-cases (contains image_path body)) [
  | inl e ↦ rw e (has_id-strike_matches id (scan image_path 0 body) pending)
  | inr e ↦ rw (e, scan-none image_path 0 body e) (unfold exists in ground arith)
]

has_id-scan_notes :
    (id : Bytes) (notes : List Note) (pending : List Bytes)
    → has_id id (scan_notes notes pending)
      ≡ (has_id id pending && not (exists (λ n. mentions id n.body) notes))
unfolding scan_notes exists
has_id-scan_notes id [] [] = refl
has_id-scan_notes id (n ∷ notes) [] = refl
has_id-scan_notes id [] (x ∷ pending) = ground arith
has_id-scan_notes id (n ∷ notes) (x ∷ pending) =
    has_id-scan_notes id notes (strike_body n.body (x ∷ pending))
    ∙ ground (arith, has_id-strike_body id n.body (x ∷ pending))

-- Whether a note of the user mentions the id.
unfoldable pub is_referenced : ℕ → Db → Bytes → Bool
unfolding mentions
is_referenced user_id db id = exists (λ n. n.user_id == user_id && mentions id n.body) db.notes

pub same_bytes_refl : (a : Bytes) → same_bytes a a ≡ true
unfolding same_bytes
same_bytes_refl [] = refl
same_bytes_refl (c ∷ a) = ground (arith, same_bytes_refl a)

select-agree :
    (p q : Bytes → Bool) (xs : List Bytes) → All (λ x. p x ≡ q x) xs → select p xs ≡ select q xs
unfolding select
select-agree p q [] h = refl
select-agree p q (x ∷ xs) (a, h) = ground (arith, a, select-agree p q xs h)

has_id-All : (ids : List Bytes) → All (λ id. has_id id ids ≡ true) ids
unfolding exists
has_id-All [] = tt
has_id-All (x ∷ ids) =
    (rw (same_bytes_refl x) refl, All-map _ _ ids (λ id h. ground arith) (has_id-All ids))

-- The ids that a pass may delete are those which no note of the user mentions, in their order: an id
-- is mentioned by a body if a match of the path in it is the id or begins with it and a hyphen.
pub unreferenced-select :
    (user_id : ℕ) (ids : List Bytes) (db : Db)
    → unreferenced user_id ids db ≡ select (λ id. not (is_referenced user_id db id)) ids
unfolding unreferenced is_referenced
unreferenced-select user_id ids db =
    let mine = select (λ n. n.user_id == user_id) db.notes in
    select-agree _ _ ids (
      All-map _ _ ids
        (λ id h.
          let left = has_id-scan_notes id mine ids in
          let own = exists-select (λ n. mentions id n.body) (λ n. n.user_id == user_id) db.notes in
          ground (arith, left, own))
        (has_id-All ids))

has_id-select :
    (q : Bytes → Bool) (id : Bytes) (ids : List Bytes)
    → has_id id (select q ids) ≡ true
    → q id ≡ true
unfolding exists select
has_id-select q id [] h = absurd (cc h)
has_id-select q id (x ∷ ids) h = elim (Bool-cases (same_bytes id x)) [
  | inl e ↦
      let k : q id ≡ q x = ap q (same_bytes-eq id x e) in ground (arith, k, has_id-select q id ids)
  | inr e ↦ ground (arith, has_id-select q id ids)
]

has_id-take :
    (n : ℕ) (id : Bytes) (ids : List Bytes) → has_id id (take n ids) ≡ true → has_id id ids ≡ true
unfolding exists
has_id-take zero id ids h = absurd (cc h)
has_id-take (suc n) id [] h = h
has_id-take (suc n) id (x ∷ ids) h = ground (arith, has_id-take n id ids)

pub orphans_of-unreferenced :
    (user_id cutoff room : ℕ) (db : Db) (id : Bytes)
    → has_id id (orphans_of user_id cutoff room db) ≡ true
    → is_referenced user_id db id ≡ false
orphans_of-unreferenced user_id cutoff room db id h =
    let aged = aged_image_ids user_id cutoff db in
    let among = has_id-take room id (unreferenced user_id aged db) h in
    let kept : has_id id (select (λ x. not (is_referenced user_id db x)) aged) ≡ true =
      ap (has_id id) (sym (unreferenced-select user_id aged db)) ∙ among in
    let free = has_id-select (λ x. not (is_referenced user_id db x)) id aged kept in ground arith
