-- ===== src/Content/Locking.antt =====
-- The text of a locked note stays as it is.
use crapnote.Base.{
  ℕ, suc, ◌≡◌, refl, Bool, true, false, ◌&&◌, Option, some, [], ◌∷◌, ◌++◌, map, arith, ◌==◌,
}
use crapnote.Base.Table
use crapnote.Base.Table.{exists, select, count, first, delete}
use crapnote.Base.Table.Rows.{first-update}
use crapnote.Base.Table.Appended.{first-append_kept}
use crapnote.Db.{Db, Note, Bytes}
use crapnote.Notes.Repo
use crapnote.Notes.Repo.{
  set_bool, set_starred, set_locked, soft_delete, archive, unarchive, hard_delete, auto_lock_stale,
  edited,
}
use crapnote.Notes.Pins.{set_pinned, reorder_pins, pinned_ids}
use crapnote.Trash
use crapnote.Trash.{restore, delete_one, delete_each, purge_expired}
use crapnote.Content.{
  Call, creates, updates, stars, locks, pins, reorders, trashes, archives, unarchives, erases,
  restores, deletes, empties, step, Event, call, auto_lock, purge, react,
}
use crapnote.Content.Invariant.{IsValid}
use crapnote.Content.Writes.{guarded}
use crapnote.Content.Kept.{
  IsKept, note_at, Keeps, Keeps-update, Keeps-delete_notes, Keeps-delete_each, Keeps-reordered,
  Keeps-set_bool,
}

module _ (id : ℕ) (n : Note) (found_locked : n.locked ≡ true) where
  Keeps-edit :
      (i user : ℕ) (title body : Option Bytes) (now : ℕ) (db : Db)
      → note_at id db ≡ some n
      → Keeps id n (Repo.update i user title body now db).1
  unfolding Repo.update
  Keeps-edit i user title body now db e =
      let hit : Note → Bool = λ x. x.id == i && Repo.is_editable db user x in
      let missed : hit n ≡ false = ground arith in
      let before : Keeps id n db = rw e (refl, refl, refl, refl) in
      let after : Keeps id n
          (record db { notes = Table.update hit (edited title body now) db.notes }) =
        rw
          (
            first-update (λ x. x.id == id) hit (edited title body now) db.notes (λ x. refl),
            e,
            missed,
          )
          (refl, refl, refl, refl) in
      guarded (Keeps id n) _ _ _ _ _ before after

  Keeps-step :
      (user now : ℕ) (c : Call) (db : Db)
      → IsValid db
      → note_at id db ≡ some n
      → Keeps id n db
      → Keeps id n (step user now c db)
  unfolding step set_starred set_locked unarchive Trash.empty Repo.create set_pinned reorder_pins
      soft_delete archive hard_delete restore delete_one
  Keeps-step user now (creates title body) db v e k =
      let made = Repo.new_note (suc db.note_seq) user title body now in
      let after : Keeps id n
          (record db { notes = db.notes ++ made ∷ []; note_seq = suc db.note_seq }) =
        rw (first-append_kept (λ x. x.id == id) db.notes (made ∷ []) n e)
          (refl, refl, refl, refl) in
      guarded (Keeps id n) _ _ _ _ _ after k
  Keeps-step user now (updates i title body) db v e k = Keeps-edit i user title body now db e
  Keeps-step user now (stars i b) db v e k =
      Keeps-set_bool id n _ i user db (λ x. refl) (λ x. (refl, refl, refl, refl)) k
  Keeps-step user now (locks i b) db v e k =
      Keeps-set_bool id n _ i user db (λ x. refl) (λ x. (refl, refl, refl, refl)) k
  Keeps-step user now (pins i b) db v e k =
      guarded (Keeps id n) _ _ _ _ _ k
        (Keeps-update id n _ _ db (λ x. refl) (λ x. (refl, refl, refl, refl)) k)
  Keeps-step user now (reorders []) db v e k = k
  Keeps-step user now (reorders (i ∷ ids)) db v e k =
      Keeps-reordered id n user (i ∷ ids) (pinned_ids user db) db k
  Keeps-step user now (trashes i) db v e k = guarded (Keeps id n) _ _ _ _ _ k k
  Keeps-step user now (archives i) db v e k =
      guarded (Keeps id n) _ _ _ _ _ k
        (Keeps-update id n _ _ db (λ x. refl) (λ x. (refl, refl, refl, refl)) k)
  Keeps-step user now (unarchives i) db v e k =
      Keeps-set_bool id n _ i user db (λ x. refl) (λ x. (refl, refl, refl, refl)) k
  Keeps-step user now (erases i) db v e k =
      guarded (Keeps id n) _ _ _ _ _ k (Keeps-delete_notes id n _ db v k)
  Keeps-step user now (restores i) db v e k = guarded (Keeps id n) _ _ _ _ _ k k
  Keeps-step user now (deletes i) db v e k =
      guarded (Keeps id n) _ _ _ _ _ k (Keeps-delete_notes id n _ db v k)
  Keeps-step user now empties db v e k =
      Keeps-delete_each id n user (map (λ t. t.note_id) (select (λ t. t.user_id == user) db.trash))
        db v k

-- In a database that meets the invariant, no call of any user and no background job changes the
-- owner, the title, the body or the time of the last change of a locked note: afterwards the note
-- has them as before, or it is deleted.
pub react-IsKept :
    (id now : ℕ) (n : Note) (e : Event) (db : Db)
    → IsValid db
    → note_at id db ≡ some n
    → n.locked ≡ true
    → IsKept n (note_at id (react now e db))
unfolding react auto_lock_stale purge_expired
react-IsKept id now n e db v found held = after e
  where
    before : IsKept n (note_at id db)
    before = rw found (refl, refl, refl, refl)

    after : (e : Event) → IsKept n (note_at id (react now e db))
    after (call user c) = Keeps-step id n held user now c db v found before
    after (auto_lock older_than) =
        Keeps-update id n _ _ db (λ x. refl) (λ x. (refl, refl, refl, refl)) before
    after purge = Keeps-delete_notes id n _ db v before
