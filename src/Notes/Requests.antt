-- ===== src/Notes/Requests.antt =====
-- The requests that write notes, one after another: backend/internal/notes/handler.go.
use crapnote.Base.{arith, ℕ, ◌≡◌, false, Option, some, List, [], ◌∷◌}
use crapnote.Base.Outcome.{Op}
use crapnote.Db.{Db, User, Note, Bytes}
use crapnote.Http.Rules.{Keeps, handler_rules}
use crapnote.Notes.Service
use crapnote.Notes.Service.{toggle_star, toggle_lock, toggle_pin}
use crapnote.Notes.Handler.{
  max_title_len, max_body_len, exceeds, NewNote, NoteEdit, create_note, update_note, delete_note,
  toggle_flag, star_note, pin_note, lock_note, reorder_notes, archive_note, unarchive_note,
}
use crapnote.Notes.Sized.{
  IsSized, create-IsSized, update_note-IsSized, toggle_star-IsSized, toggle_lock-IsSized,
  toggle_pin-IsSized, reorder_pins-IsSized, archive-IsSized, unarchive-IsSized, soft_delete-IsSized,
}

-- A request that may write a note.
pub data NoteCall : Type 0 where
  creates : Option NewNote → NoteCall
  updates : Option ℕ → Option NoteEdit → NoteCall
  deletes : Option ℕ → NoteCall
  stars : Option ℕ → NoteCall
  pins : Option ℕ → NoteCall
  locks : Option ℕ → NoteCall
  reorders : Option (List ℕ) → NoteCall
  archives : Option ℕ → NoteCall
  unarchives : Option ℕ → NoteCall

unfoldable pub note_step : Option User → ℕ → NoteCall → Db → Db
note_step caller now (creates body) db = (create_note caller body now db).1
note_step caller now (updates path body) db = (update_note caller path body now db).1
note_step caller now (deletes path) db = (delete_note caller path now db).1
note_step caller now (stars path) db = (star_note caller path db).1
note_step caller now (pins path) db = (pin_note caller path db).1
note_step caller now (locks path) db = (lock_note caller path db).1
note_step caller now (reorders ids) db = (reorder_notes caller ids db).1
note_step caller now (archives path) db = (archive_note caller path db).1
note_step caller now (unarchives path) db = (unarchive_note caller path db).1

unfoldable pub note_run : List (Option User × (ℕ × NoteCall)) → Db → Db
note_run [] db = db
note_run ((caller, (now, c)) ∷ calls) db = note_run calls (note_step caller now c db)

created-IsSized :
    (user : ℕ) (title body : Bytes) (now : ℕ)
    → exceeds max_title_len (some title) ≡ false
    → exceeds max_body_len (some body) ≡ false
    → (db : Db) → IsSized db
    → IsSized (Service.create user title body now db).1
created-IsSized user title body now t b db h =
    create-IsSized user title body now db (ground arith) (ground arith) h

updated-IsSized :
    (id user : ℕ) (title body : Option Bytes) (now : ℕ)
    → exceeds max_title_len title ≡ false
    → exceeds max_body_len body ≡ false
    → (db : Db) → IsSized db
    → IsSized (Service.update id user title body now db).1
updated-IsSized id user title body now t b db h =
    update_note-IsSized id user title body now db t b h

create_note-Keeps :
    (caller : Option User) (body : Option NewNote) (now : ℕ)
    → Keeps IsSized (create_note caller body now)
unfolding create_note
create_note-Keeps caller body now = search (handler_rules, created-IsSized) depth 14

update_note-Keeps :
    (caller : Option User) (path : Option ℕ) (body : Option NoteEdit) (now : ℕ)
    → Keeps IsSized (update_note caller path body now)
unfolding update_note
update_note-Keeps caller path body now = search (handler_rules, updated-IsSized) depth 14

delete_note-Keeps :
    (caller : Option User) (path : Option ℕ) (now : ℕ) → Keeps IsSized (delete_note caller path now)
unfolding delete_note
delete_note-Keeps caller path now = search (handler_rules, soft_delete-IsSized) depth 14

toggle_flag-Keeps :
    (toggle : ℕ → ℕ → Op Db Note) (caller : Option User) (path : Option ℕ)
    → ((id user : ℕ) (db : Db) → IsSized db → IsSized (toggle id user db).1)
    → Keeps IsSized (toggle_flag toggle caller path)
unfolding toggle_flag
toggle_flag-Keeps toggle caller path keep = search (handler_rules, keep) depth 14

reorder_notes-Keeps :
    (caller : Option User) (body : Option (List ℕ)) → Keeps IsSized (reorder_notes caller body)
unfolding reorder_notes
reorder_notes-Keeps caller body = search (handler_rules, reorder_pins-IsSized) depth 14

archive_note-Keeps :
    (caller : Option User) (path : Option ℕ) → Keeps IsSized (archive_note caller path)
unfolding archive_note
archive_note-Keeps caller path = search (handler_rules, archive-IsSized) depth 14

unarchive_note-Keeps :
    (caller : Option User) (path : Option ℕ) → Keeps IsSized (unarchive_note caller path)
unfolding unarchive_note
unarchive_note-Keeps caller path = search (handler_rules, unarchive-IsSized) depth 14

note_step-IsSized :
    (caller : Option User) (now : ℕ) (c : NoteCall) (db : Db)
    → IsSized db
    → IsSized (note_step caller now c db)
unfolding note_step star_note pin_note lock_note
note_step-IsSized caller now (creates body) db = (create_note-Keeps caller body now).kept db
note_step-IsSized caller now (updates path body) db =
    (update_note-Keeps caller path body now).kept db
note_step-IsSized caller now (deletes path) db = (delete_note-Keeps caller path now).kept db
note_step-IsSized caller now (stars path) db =
    (toggle_flag-Keeps toggle_star caller path toggle_star-IsSized).kept db
note_step-IsSized caller now (pins path) db =
    (toggle_flag-Keeps toggle_pin caller path toggle_pin-IsSized).kept db
note_step-IsSized caller now (locks path) db =
    (toggle_flag-Keeps toggle_lock caller path toggle_lock-IsSized).kept db
note_step-IsSized caller now (reorders ids) db = (reorder_notes-Keeps caller ids).kept db
note_step-IsSized caller now (archives path) db = (archive_note-Keeps caller path).kept db
note_step-IsSized caller now (unarchives path) db = (unarchive_note-Keeps caller path).kept db

-- Through any requests to the notes' handlers, of any callers, every note keeps a title of at most 500
-- bytes and a body of at most 500000.
pub note_run-IsSized :
    (calls : List (Option User × (ℕ × NoteCall))) (db : Db)
    → IsSized db
    → IsSized (note_run calls db)
unfolding note_run
note_run-IsSized [] db h = h
note_run-IsSized ((caller, (now, c)) ∷ calls) db h =
    note_run-IsSized calls (note_step caller now c db) (note_step-IsSized caller now c db h)
