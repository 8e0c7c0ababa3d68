-- ===== src/Content/Preserved.antt =====
-- Each call and each job keeps the invariant.
use crapnote.Base.{
  ℕ, suc, ◌≤◌, ◌≡◌, refl, Bool, true, false, List, [], ◌∷◌, ◌++◌, map, arith, ◌==◌, ◌&&◌, inl, inr,
  Bool-cases, All-append, not,
}
use crapnote.Base.Table
use crapnote.Base.Table.{exists, select, count}
use crapnote.Base.Table.Rows.{exists_mono}
use crapnote.Base.Table.Appended.{exists-append}
use crapnote.Base.Table.Every.{All-delete, All-map}
use crapnote.Base.Table.Keyed.{delete-IsKeyed, append-IsKeyed, append-IsKeyed_fresh}
use crapnote.Db.{Db, Note, TrashRow, Bytes, current_timestamp}
use crapnote.Notes.Repo.{
  create, set_starred, set_locked, soft_delete, unarchive, hard_delete, auto_lock_stale, is_trashed,
  new_note,
}
use crapnote.Trash
use crapnote.Trash.{restore, delete_one, delete_each, purge_expired}
use crapnote.Content.{
  Call, creates, updates, stars, locks, pins, reorders, trashes, archives, unarchives, erases,
  restores, deletes, empties, step, Event, call, auto_lock, purge, react, run,
}
use crapnote.Content.Invariant.{
  IsValid, update-IsValid, delete_notes-IsValid, is_note_of, IsUnpinnedZero,
}
use crapnote.Content.Writes.{
  guarded, set_bool-IsValid, update_note-IsValid, archive-IsValid, set_pinned-IsValid,
  reorder_pins-IsValid,
}

create-IsValid :
    (user : ℕ) (title body : Bytes) (now : ℕ) (db : Db)
    → IsValid db
    → IsValid (create user title body now db).1
unfolding create
create-IsValid user title body now db v = elim (Bool-cases (exists (λ u. u.id == user) db.users)) [
  | inl e ↦ rw e inserted
  | inr e ↦ rw e v
]
  where
    row : Note
    row = new_note (suc db.note_seq) user title body now

    inserted : IsValid (record db { notes = db.notes ++ row ∷ []; note_seq = suc db.note_seq })
    inserted = record {
      keyed =
          append-IsKeyed (λ (n : Note). n.id) db.note_seq db.notes row v.bounded (omega arith)
            v.keyed;
      bounded =
          All-append (λ n. n.id ≤ suc db.note_seq) db.notes (row ∷ [])
            (All-map _ _ db.notes (λ n (h : n.id ≤ db.note_seq). omega arith) v.bounded)
            (omega arith, tt);
      unpinned = All-append IsUnpinnedZero db.notes (row ∷ []) v.unpinned ((λ _. refl), tt);
      owned =
          All-map _ _ db.trash
            (λ t (h : exists (is_note_of t) db.notes ≡ true).
              rw (exists-append (is_note_of t) db.notes (row ∷ []), h))
            v.owned;
      once = v.once;
    }

soft_delete-IsValid :
    (id user now : ℕ) (db : Db) → IsValid db → IsValid (soft_delete id user now db).1
unfolding soft_delete
soft_delete-IsValid id user now db v = elim (Bool-cases (found && not (is_trashed db id))) [
  | inl e ↦ rw e (moved (ground arith) (ground arith))
  | inr e ↦ rw e v
]
  where
    found : Bool
    found = exists (λ n. n.id == id && (n.user_id == user && not n.locked)) db.notes

    row : TrashRow
    row = record { note_id = id; user_id = user; deleted_at = current_timestamp now }

    moved :
        found ≡ true
        → is_trashed db id ≡ false
        → IsValid (record db { trash = db.trash ++ row ∷ [] })
    moved f new = record {
      keyed = v.keyed;
      bounded = v.bounded;
      unpinned = v.unpinned;
      owned =
          All-append (λ t. exists (is_note_of t) db.notes ≡ true) db.trash (row ∷ []) v.owned
            (exists_mono _ (is_note_of row) db.notes (λ n h. ground arith) f, tt);
      once = append-IsKeyed_fresh (λ (t : TrashRow). t.note_id) db.trash row new v.once;
    }

delete_trash-IsValid :
    (q : TrashRow → Bool) (db : Db)
    → IsValid db
    → IsValid (record db { trash = Table.delete q db.trash })
delete_trash-IsValid q db v = record {
  keyed = v.keyed;
  bounded = v.bounded;
  unpinned = v.unpinned;
  owned = All-delete (λ t. exists (is_note_of t) db.notes ≡ true) _ q db.trash (λ t _ h. h) v.owned;
  once = delete-IsKeyed (λ (t : TrashRow). t.note_id) q db.trash v.once;
}

restore-IsValid : (id user : ℕ) (db : Db) → IsValid db → IsValid (restore id user db).1
unfolding restore
restore-IsValid id user db v = guarded IsValid _ _ _ _ _ v (delete_trash-IsValid _ db v)

hard_delete-IsValid : (id user : ℕ) (db : Db) → IsValid db → IsValid (hard_delete id user db).1
unfolding hard_delete
hard_delete-IsValid id user db v = guarded IsValid _ _ _ _ _ v (delete_notes-IsValid _ db v)

delete_one-IsValid : (id user : ℕ) (db : Db) → IsValid db → IsValid (delete_one id user db).1
unfolding delete_one
delete_one-IsValid id user db v = guarded IsValid _ _ _ _ _ v (delete_notes-IsValid _ db v)

delete_each-IsValid :
    (user : ℕ) (ids : List ℕ) (db : Db) → IsValid db → IsValid (delete_each user ids db)
unfolding delete_each
delete_each-IsValid user [] db v = v
delete_each-IsValid user (id ∷ ids) db v =
    delete_each-IsValid user ids _
      (delete_notes-IsValid (λ n. n.id == id && n.user_id == user) db v)

step-IsValid : (user now : ℕ) (c : Call) (db : Db) → IsValid db → IsValid (step user now c db)
unfolding step set_starred set_locked unarchive Trash.empty
step-IsValid user now (creates title body) db v = create-IsValid user title body now db v
step-IsValid user now (updates id title body) db v = update_note-IsValid id user title body now db v
step-IsValid user now (stars id b) db v =
    set_bool-IsValid _ id user db (λ n. refl) (λ n. refl) (λ n h. h) v
step-IsValid user now (locks id b) db v =
    set_bool-IsValid _ id user db (λ n. refl) (λ n. refl) (λ n h. h) v
step-IsValid user now (pins id b) db v = set_pinned-IsValid id user b db v
step-IsValid user now (reorders ids) db v = reorder_pins-IsValid user ids db v
step-IsValid user now (trashes id) db v = soft_delete-IsValid id user now db v
step-IsValid user now (archives id) db v = archive-IsValid id user db v
step-IsValid user now (unarchives id) db v =
    set_bool-IsValid _ id user db (λ n. refl) (λ n. refl) (λ n h. h) v
step-IsValid user now (erases id) db v = hard_delete-IsValid id user db v
step-IsValid user now (restores id) db v = restore-IsValid id user db v
step-IsValid user now (deletes id) db v = delete_one-IsValid id user db v
step-IsValid user now empties db v =
    delete_each-IsValid user (map (λ t. t.note_id) (select (λ t. t.user_id == user) db.trash)) db v

-- Every call of a user and both background jobs keep the invariant: note ids stay distinct and
-- below the sequence, a note that is not pinned keeps the pin order 0, and a trash row belongs to a
-- note of its own user, which it alone names.
pub react-IsValid : (now : ℕ) (e : Event) (db : Db) → IsValid db → IsValid (react now e db)
unfolding react auto_lock_stale purge_expired
react-IsValid now (call user c) db v = step-IsValid user now c db v
react-IsValid now (auto_lock older_than) db v =
    update-IsValid _ _ db (λ n. refl) (λ n. refl) (λ n _ h. h) v
react-IsValid now purge db v = delete_notes-IsValid _ db v

-- Every history of calls of users and of runs of the two background jobs keeps the invariant:
-- note ids stay distinct and at most the sequence, a note that is not pinned keeps the pin order
-- 0, and a trash row belongs to a note of its own user, which it alone names.
pub run-IsValid : (es : List (ℕ × Event)) (db : Db) → IsValid db → IsValid (run es db)
unfolding run
run-IsValid [] db v = v
run-IsValid ((now, e) ∷ es) db v = run-IsValid es (react now e db) (react-IsValid now e db v)
