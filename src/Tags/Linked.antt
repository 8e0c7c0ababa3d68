-- ===== src/Tags/Linked.antt =====
-- A link joins a note and a tag of one user.
use crapnote.Base.{
  ℕ, suc, ◌≡◌, refl, Bool, true, ◌&&◌, some, List, [], ◌∷◌, ◌++◌, ◌==◌, String, arith, inl, inr,
  Bool-cases, Option-cases, All, All-append,
}
use crapnote.Base.Outcome.{ok, Result-cases, or_not_found-ok}
use crapnote.Base.Table
use crapnote.Base.Table.{count, exists, first, first-holds}
use crapnote.Base.Table.Rows.{exists-update, exists-delete_spared, first-exists}
use crapnote.Base.Table.Appended.{exists-append}
use crapnote.Base.Table.Every.{All-map, All-delete}
use crapnote.Db.{Db, Note, Tag, NoteTag}
use crapnote.Db.Cascade.{delete_tags}
use crapnote.Content.Writes.{guarded}
use crapnote.Tags.{
  find_by_id, create, rename, with_name, delete, add_to_note, remove_from_note, link_found, is_link,
  is_owner, new_tag,
}

abbrev pub is_note_by : ℕ → ℕ → Note → Bool
is_note_by id user n = n.id == id && n.user_id == user

abbrev pub is_tag_by : ℕ → ℕ → Tag → Bool
is_tag_by id user t = t.id == id && t.user_id == user

-- Some user has both ends.
abbrev pub HasOwner : List Note → List Tag → NoteTag → Type 0
HasOwner notes tags l =
    (user : ℕ) × (exists (is_note_by l.note_id user) notes ≡ true)
    × (exists (is_tag_by l.tag_id user) tags ≡ true)

abbrev pub IsLinked : Db → Type 0
IsLinked db = All (HasOwner db.notes db.tags) db.note_tags

found_by_id :
    (id user : ℕ) (db : Db) (t : Tag)
    → find_by_id id user db ≡ ok t
    → first (is_tag_by id user) db.tags ≡ some t
unfolding find_by_id
found_by_id id user db t e = or_not_found-ok (first (is_tag_by id user) db.tags) t e

own_note :
    (id user : ℕ) (db : Db)
    → is_owner user (first (λ n. n.id == id) db.notes) ≡ true
    → exists (is_note_by id user) db.notes ≡ true
own_note id user db h = elim (Option-cases (first (λ n. n.id == id) db.notes)) [
  | inl e ↦ let h' = rw e at h in absurd (cc h')
  | inr (n, e) ↦
      let mine : n.user_id == user ≡ true = rw e at h in
      let key = first-holds (λ n. n.id == id) db.notes n e in
      first-exists (λ n. n.id == id) (is_note_by id user) db.notes n e (ground arith)
]

create-IsLinked :
    (user : ℕ) (name : String) (now : ℕ) (db : Db)
    → IsLinked db
    → IsLinked (create user name now db).1
unfolding create
create-IsLinked user name now db h =
    let t = new_tag (suc db.tag_seq) user name now in
    guarded IsLinked _ _ _ _ _ h (
      All-map (HasOwner db.notes db.tags) (HasOwner db.notes (db.tags ++ t ∷ [])) db.note_tags
        (λ l o. (o.0, o.1, rw (exists-append (is_tag_by l.tag_id o.0) db.tags (t ∷ []), o.2) refl))
        h)

rename-IsLinked :
    (id user : ℕ) (name : String) (db : Db) → IsLinked db → IsLinked (rename id user name db).1
unfolding rename
rename-IsLinked id user name db h =
    let hit : Tag → Bool = λ t. t.id == id && t.user_id == user in
    let after : IsLinked (record db { tags = Table.update hit (with_name name) db.tags }) =
      All-map (HasOwner db.notes db.tags)
        (HasOwner db.notes (Table.update hit (with_name name) db.tags)) db.note_tags
        (λ l o. (
          o.0,
          o.1,
          rw (exists-update (is_tag_by l.tag_id o.0) hit (with_name name) db.tags (λ t. refl)) o.2,
        ))
        h in
    elim (Bool-cases (count hit db.tags == 0)) [
      | inl e ↦ rw e h
      | inr e ↦ rw e (guarded IsLinked _ _ _ _ _ h after)
    ]

delete-IsLinked : (id user : ℕ) (db : Db) → IsLinked db → IsLinked (delete id user db).1
unfolding delete delete_tags
delete-IsLinked id user db h =
    let hit : Tag → Bool = λ t. t.id == id && t.user_id == user in
    guarded IsLinked _ _ _ _ _ h (
      All-delete (HasOwner db.notes db.tags) (HasOwner db.notes (Table.delete hit db.tags)) _
        db.note_tags
        (λ l spared o. (
          o.0,
          o.1,
          exists-delete_spared (is_tag_by l.tag_id o.0) hit (λ t. t.id == l.tag_id) db.tags
              (λ t e. ground arith) spared o.2,
        ))
        h)

remove_from_note-IsLinked :
    (note tag user : ℕ) (db : Db) → IsLinked db → IsLinked (remove_from_note note tag user db).1
unfolding remove_from_note
remove_from_note-IsLinked note tag user db h =
    guarded IsLinked _ _ _ _ _
      (All-delete (HasOwner db.notes db.tags) (HasOwner db.notes db.tags) _ db.note_tags
        (λ l _ o. o) h)
      h

add_to_note-IsLinked :
    (note tag user : ℕ) (db : Db) → IsLinked db → IsLinked (add_to_note note tag user db).1
unfolding add_to_note
add_to_note-IsLinked note tag user db h =
    elim (Bool-cases (is_owner user (first (λ n. n.id == note) db.notes))) [
      | inl mine ↦ elim (Result-cases (find_by_id tag user db)) [
        | inl (t, e) ↦
            let row = found_by_id tag user db t e in
            let there =
              first-exists (is_tag_by tag user) (is_tag_by tag user) db.tags t row
                (first-holds (is_tag_by tag user) db.tags t row) in
            let new : IsLinked (record db {
              note_tags = db.note_tags ++ record { note_id = note; tag_id = tag } ∷ [];
            }) =
              All-append (HasOwner db.notes db.tags) db.note_tags _ h
                ((user, own_note note user db mine, there), tt) in
            elim (Bool-cases (exists (is_link note tag) db.note_tags)) [
              | inl old ↦ rw (mine, e, link_found, old) h
              | inr fresh ↦ rw (mine, e, link_found, fresh) new
            ]
        | inr (x, e) ↦ rw (mine, e, link_found) h
      ]
      | inr other ↦ rw other h
    ]

-- A call of the tag repository.
pub data TagCall : Type 0 where
  creates : ℕ → String → ℕ → TagCall
  renames : ℕ → ℕ → String → TagCall
  deletes : ℕ → ℕ → TagCall
  adds : ℕ → ℕ → ℕ → TagCall
  removes : ℕ → ℕ → ℕ → TagCall

pub tag_step : TagCall → Db → Db
tag_step (creates user name now) db = (create user name now db).1
tag_step (renames id user name) db = (rename id user name db).1
tag_step (deletes id user) db = (delete id user db).1
tag_step (adds note tag user) db = (add_to_note note tag user db).1
tag_step (removes note tag user) db = (remove_from_note note tag user db).1

-- Every call of the tag repository, on behalf of any user and whatever it answers, keeps the links in
-- order: each joins a note and a tag of one user, both of which exist.
pub tag_step-IsLinked : (c : TagCall) (db : Db) → IsLinked db → IsLinked (tag_step c db)
unfolding tag_step
tag_step-IsLinked (creates user name now) db h = create-IsLinked user name now db h
tag_step-IsLinked (renames id user name) db h = rename-IsLinked id user name db h
tag_step-IsLinked (deletes id user) db h = delete-IsLinked id user db h
tag_step-IsLinked (adds note tag user) db h = add_to_note-IsLinked note tag user db h
tag_step-IsLinked (removes note tag user) db h = remove_from_note-IsLinked note tag user db h
