-- ===== src/Tags.antt =====
-- backend/internal/tags/repository.go; service.go passes each call on.
pub mod Linked
pub mod Handler
use crapnote.Base.{
  ℕ, suc, Bool, true, false, not, ◌&&◌, ◌||◌, Option, none, some, List, [], ◌∷◌, ◌++◌, ◌==◌, ltb,
  String, str_eq, if◌then◌else◌, page, codes, map,
}
use crapnote.Base.Ints.{ℤ}
use crapnote.Base.Outcome.{
  Result, ok, err, Error, not_found, constraint, or_not_found, Op, done, query, ◌>>=◌, ◌>>◌,
}
use crapnote.Base.Table
use crapnote.Base.Table.{count, exists, first, select}
use crapnote.Base.Sort.{sort_by}
use crapnote.Db.{Db, Note, Tag, NoteTag, current_timestamp}
use crapnote.Db.Cascade.{delete_tags}

pub record TagWithCount : Type 0 where
  pub tag : Tag
  pub note_count : ℕ

unfoldable pub find_by_id : ℕ → ℕ → Db → Result Tag
find_by_id id user_id db = or_not_found (first (λ t. t.id == id && t.user_id == user_id) db.tags)

abbrev pub is_named : ℕ → String → Tag → Bool
is_named user_id name t = t.user_id == user_id && str_eq t.name name

abbrev pub new_tag : ℕ → ℕ → String → ℕ → Tag
new_tag id user_id name now = record {
  id = id;
  user_id = user_id;
  name = name;
  created_at = current_timestamp now;
}

-- UNIQUE(user_id, name), and `user_id` refers to a user.
unfoldable pub create : ℕ → String → ℕ → Op Db Tag
unfolding find_by_id
create user_id name now db =
    let id = suc db.tag_seq in
    let db' : Db = record db { tags = db.tags ++ new_tag id user_id name now ∷ []; tag_seq = id } in
    if exists (is_named user_id name) db.tags || not (exists (λ u. u.id == user_id) db.users)
    then (err constraint, db)
    else (find_by_id id user_id db', db')

abbrev pub with_name : String → Tag → Tag
with_name name t = record t { name = name }

unfoldable pub rename : ℕ → ℕ → String → Op Db Tag
unfolding find_by_id
rename id user_id name db =
    let hit : Tag → Bool = λ t. t.id == id && t.user_id == user_id in
    let db' : Db = record db { tags = Table.update hit (with_name name) db.tags } in
    if count hit db.tags == 0
    then (err not_found, db)
    else if exists (λ t. is_named user_id name t && not (t.id == id)) db.tags
    then (err constraint, db)
    else (find_by_id id user_id db', db')

unfoldable pub delete : ℕ → ℕ → Op Db (Unit {0})
unfolding delete_tags
delete id user_id db =
    let hit : Tag → Bool = λ t. t.id == id && t.user_id == user_id in
    if count hit db.tags == 0 then (err not_found, db) else (ok tt, delete_tags hit db)

-- The note's owner is the user.
abbrev pub is_owner : ℕ → Option Note → Bool
is_owner user_id none = false
is_owner user_id (some n) = n.user_id == user_id

abbrev pub is_link : ℕ → ℕ → NoteTag → Bool
is_link note_id tag_id l = l.note_id == note_id && l.tag_id == tag_id

-- INSERT OR IGNORE: the pair is the PRIMARY KEY.
abbrev pub linked : ℕ → ℕ → Db → Db
linked note_id tag_id db = if exists (is_link note_id tag_id) db.note_tags then db else record db {
  note_tags = db.note_tags ++ record { note_id = note_id; tag_id = tag_id } ∷ [];
}

abbrev pub link_found : ℕ → ℕ → Result Tag → Op Db (Unit {0})
link_found note_id tag_id (err e) db = (err e, db)
link_found note_id tag_id (ok t) db = done (linked note_id tag_id db)

unfoldable pub add_to_note : ℕ → ℕ → ℕ → Op Db (Unit {0})
add_to_note note_id tag_id user_id db =
    if is_owner user_id (first (λ n. n.id == note_id) db.notes)
    then link_found note_id tag_id (find_by_id tag_id user_id db) db
    else (err not_found, db)

unfoldable pub remove_from_note : ℕ → ℕ → ℕ → Op Db (Unit {0})
remove_from_note note_id tag_id user_id db =
    if is_owner user_id (first (λ n. n.id == note_id) db.notes)
    then done (record db { note_tags = Table.delete (is_link note_id tag_id) db.note_tags })
    else (err not_found, db)

-- Texts compare by their code points, as their UTF-8 bytes do.
unfoldable pub leb_text : List ℕ → List ℕ → Bool
leb_text [] ys = true
leb_text (x ∷ xs) [] = false
leb_text (x ∷ xs) (y ∷ ys) = let rest = leb_text xs ys in if x == y then rest else ltb x y

unfoldable pub name_before : Tag → Tag → Bool
unfolding leb_text
name_before a b = leb_text (codes a.name) (codes b.name)

abbrev pub with_count : Db → Tag → TagWithCount
with_count db t = record { tag = t; note_count = count (λ l. l.tag_id == t.id) db.note_tags }

unfoldable pub list : ℕ → ℤ → ℤ → Db → List TagWithCount
unfolding name_before
list user_id limit offset db = page limit offset (
    sort_by (λ a b. name_before a.tag b.tag)
      (map (with_count db) (select (λ t. t.user_id == user_id) db.tags)))

-- The note and the link of a tag stand: `note_id` is a key of the notes, and the pair one of the links.
unfoldable pub list_for_note : ℕ → ℕ → Db → List Tag
unfolding name_before
list_for_note note_id user_id db = sort_by name_before (
    select
      (λ t.
        exists (is_link note_id t.id) db.note_tags
        && exists (λ n. n.id == note_id && n.user_id == user_id) db.notes)
      db.tags)
