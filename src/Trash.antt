-- ===== src/Trash.antt =====
-- backend/internal/trash: repository.go and model.go; service.go passes each call on.
pub mod Handler
use crapnote.Base.{
  ℕ, ◌+◌, ◌*◌, Bool, ◌&&◌, none, some, List, [], ◌∷◌, map, ◌==◌, leb, if◌then◌else◌, page,
}
use crapnote.Base.Ints.{ℤ}
use crapnote.Base.Outcome.{ok, err, not_found, Op, done}
use crapnote.Base.Table.{count, delete, exists, first, select}
use crapnote.Base.Sort.{sort_by}
use crapnote.Db.{Db, Note, TrashRow, Bytes, second}
use crapnote.Db.Cascade.{delete_notes}
use crapnote.Notes.Listing.{is_found}

-- PurgeDays * 24 * time.Hour
abbrev pub retention : ℕ
retention = 7 * (24 * (3600 * second))

pub record Entry : Type 0 where
  pub note_id : ℕ
  pub user_id : ℕ
  pub title : Bytes
  pub deleted_at : ℕ
  pub permanent_delete_at : ℕ

abbrev pub entry : TrashRow → Note → Entry
entry t n = record {
  note_id = t.note_id;
  user_id = t.user_id;
  title = n.title;
  deleted_at = t.deleted_at;
  permanent_delete_at = t.deleted_at + retention;
}

-- ORDER BY t.deleted_at DESC
unfoldable pub deleted_before : Entry → Entry → Bool
deleted_before a b = leb b.deleted_at a.deleted_at

module _ (matches : Bytes → Note → Bool) where
  -- The join of the trash rows with their notes, by the primary key of `notes`.
  unfoldable pub entries : Bytes → List Note → List TrashRow → List Entry
  entries search notes [] = []
  entries search notes (t ∷ ts) =
      elim (first (λ n. n.id == t.note_id && is_found matches search n) notes) [
        | none ↦ entries search notes ts
        | some n ↦ entry t n ∷ entries search notes ts
      ]

  unfoldable pub list : ℕ → Bytes → ℤ → ℤ → Db → List Entry
  unfolding entries deleted_before
  list user_id search limit offset db = page limit offset (
      sort_by deleted_before
        (entries search db.notes (select (λ t. t.user_id == user_id) db.trash)))

-- WHERE note_id=? AND user_id=?
abbrev pub is_entry : ℕ → ℕ → TrashRow → Bool
is_entry note_id user_id t = t.note_id == note_id && t.user_id == user_id

unfoldable pub restore : ℕ → ℕ → Op Db (Unit {0})
restore note_id user_id db =
    if count (is_entry note_id user_id) db.trash == 0
    then (err not_found, db)
    else (ok tt, record db { trash = delete (is_entry note_id user_id) db.trash })

unfoldable pub delete_one : ℕ → ℕ → Op Db (Unit {0})
unfolding delete_notes
delete_one note_id user_id db =
    if count (is_entry note_id user_id) db.trash == 0
    then (err not_found, db)
    else (ok tt, delete_notes (λ n. n.id == note_id && n.user_id == user_id) db)

-- The loop of Empty over the collected ids.
unfoldable pub delete_each : ℕ → List ℕ → Db → Db
unfolding delete_notes
delete_each user_id [] db = db
delete_each user_id (id ∷ ids) db =
    delete_each user_id ids (delete_notes (λ n. n.id == id && n.user_id == user_id) db)

unfoldable pub empty : ℕ → Op Db (Unit {0})
unfolding delete_each
empty user_id db =
    done
      (delete_each user_id (map (λ t. t.note_id) (select (λ t. t.user_id == user_id) db.trash)) db)

-- deleted_at <= now - retention, with the subtraction on the other side.
unfoldable pub is_expired : ℕ → TrashRow → Bool
is_expired now t = leb (t.deleted_at + retention) now

unfoldable pub purge_expired : ℕ → Op Db (Unit {0})
unfolding delete_notes is_expired
purge_expired now db =
    done (delete_notes (λ n. exists (λ t. t.note_id == n.id && is_expired now t) db.trash) db)
