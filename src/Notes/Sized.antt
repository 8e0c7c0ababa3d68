-- ===== src/Notes/Sized.antt =====
-- The lengths of notes, as the handler lets them in: backend/internal/notes/handler.go.
use crapnote.Base.{
  ℕ, suc, ◌≤◌, ◌≡◌, Bool, true, false, not, ◌&&◌, Option, none, some, List, [], ◌∷◌, ◌++◌, ◌==◌,
  arith, inl, inr, Bool-cases, All, All-append, length,
}
use crapnote.Base.Outcome.{Result, ok, err, Op, query, and_then, ◌>>◌}
use crapnote.Base.Table
use crapnote.Base.Table.{count, exists}
use crapnote.Base.Table.Every.{All-update}
use crapnote.Db.{Db, Note, Bytes}
use crapnote.Content.Writes.{guarded}
use crapnote.Notes.Title.{length-default_title}
use crapnote.Notes.Repo
use crapnote.Notes.Repo.{
  get, is_locked, set_bool, set_starred, set_locked, soft_delete, archive, unarchive, new_note,
  edited, is_editable,
}
use crapnote.Notes.Pins.{set_pinned, reorder_pins, reordered, renumber, merge_pin_order}
use crapnote.Notes.Service
use crapnote.Notes.Service.{or_default_title, toggle_star, toggle_lock, toggle_pin}
use crapnote.Notes.Handler.{max_title_len, max_body_len, exceeds}

abbrev pub FitsNote : Note → Type 0
FitsNote n = (length n.title ≤ max_title_len) × (length n.body ≤ max_body_len)

abbrev pub IsSized : Db → Type 0
IsSized db = All FitsNote db.notes

length-or_default_title :
    (now : ℕ) (title : Bytes)
    → length title ≤ max_title_len
    → length (or_default_title now title) ≤ max_title_len
length-or_default_title now [] h = let d = length-default_title now in omega (arith, d)
length-or_default_title now (c ∷ s) h = h

update-IsSized :
    (q : Note → Bool) (f : Note → Note) (db : Db)
    → ((n : Note) → FitsNote n → FitsNote (f n))
    → IsSized db
    → IsSized (record db { notes = Table.update q f db.notes })
update-IsSized q f db keep h = All-update FitsNote q f db.notes (λ n _. keep n) h

set_bool-IsSized :
    (write : Note → Note) (id user : ℕ) (db : Db)
    → ((n : Note) → FitsNote n → FitsNote (write n))
    → IsSized db
    → IsSized (set_bool write id user db).1
unfolding set_bool
set_bool-IsSized write id user db keep h =
    guarded IsSized _ _ _ _ _ h
      (update-IsSized (λ n. n.id == id && n.user_id == user) write db keep h)

set_pinned-IsSized :
    (id user : ℕ) (b : Bool) (db : Db) → IsSized db → IsSized (set_pinned id user b db).1
unfolding set_pinned
set_pinned-IsSized id user true db h =
    guarded IsSized _ _ _ _ _ h (update-IsSized _ _ db (λ n k. k) h)
set_pinned-IsSized id user false db h =
    guarded IsSized _ _ _ _ _ h (update-IsSized _ _ db (λ n k. k) h)

renumber-All :
    (user i : ℕ) (ids : List ℕ) (ns : List Note)
    → All FitsNote ns
    → All FitsNote (renumber user i ids ns)
unfolding renumber
renumber-All user i [] ns h = h
renumber-All user i (id ∷ ids) ns h =
    renumber-All user (suc i) ids _ (All-update FitsNote _ _ ns (λ n _ k. k) h)

reordered-IsSized :
    (user : ℕ) (ids current : List ℕ) (db : Db)
    → IsSized db
    → IsSized (reordered user ids current db)
unfolding reordered
reordered-IsSized user ids [] db h = h
reordered-IsSized user ids (c ∷ current) db h =
    renumber-All user 0 (merge_pin_order (c ∷ current) ids) db.notes h

pub reorder_pins-IsSized :
    (user : ℕ) (ids : List ℕ) (db : Db) → IsSized db → IsSized (reorder_pins user ids db).1
unfolding reorder_pins
reorder_pins-IsSized user [] db h = h
reorder_pins-IsSized user (id ∷ ids) db h = reordered-IsSized user (id ∷ ids) _ db h

pub archive-IsSized : (id user : ℕ) (db : Db) → IsSized db → IsSized (archive id user db).1
unfolding archive
archive-IsSized id user db h = guarded IsSized _ _ _ _ _ h (update-IsSized _ _ db (λ n k. k) h)

pub unarchive-IsSized : (id user : ℕ) (db : Db) → IsSized db → IsSized (unarchive id user db).1
unfolding unarchive
unarchive-IsSized id user db h = set_bool-IsSized _ id user db (λ n k. k) h

pub soft_delete-IsSized :
    (id user now : ℕ) (db : Db) → IsSized db → IsSized (soft_delete id user now db).1
unfolding soft_delete
soft_delete-IsSized id user now db h =
    elim (Bool-cases (
      exists (λ n. n.id == id && (n.user_id == user && not n.locked)) db.notes
      && not (Repo.is_trashed db id))) [ inl e ↦ rw e h | inr e ↦ rw e h ]

pub create-IsSized :
    (user : ℕ) (title body : Bytes) (now : ℕ) (db : Db)
    → length title ≤ max_title_len
    → length body ≤ max_body_len
    → IsSized db
    → IsSized (Service.create user title body now db).1
unfolding Service.create
create-IsSized user title body now db t b h =
    let row = new_note (suc db.note_seq) user (or_default_title now title) body now in
    let added : All FitsNote (db.notes ++ row ∷ []) =
      All-append FitsNote db.notes (row ∷ []) h ((length-or_default_title now title t, b), tt) in
    elim (Bool-cases (exists (λ u. u.id == user) db.users)) [ inl e ↦ rw e added | inr e ↦ rw e h ]

edited-FitsNote :
    (title body : Option Bytes) (now : ℕ) (n : Note)
    → exceeds max_title_len title ≡ false
    → exceeds max_body_len body ≡ false
    → FitsNote n
    → FitsNote (edited title body now n)
edited-FitsNote none none now n t b h = h
edited-FitsNote none (some y) now n t b h = (h.0, ground arith)
edited-FitsNote (some x) none now n t b h = (ground arith, h.1)
edited-FitsNote (some x) (some y) now n t b h = (ground arith, ground arith)

repo_update-IsSized :
    (id user : ℕ) (title body : Option Bytes) (now : ℕ) (db : Db)
    → exceeds max_title_len title ≡ false
    → exceeds max_body_len body ≡ false
    → IsSized db
    → IsSized (Repo.update id user title body now db).1
unfolding Repo.update
repo_update-IsSized id user title body now db t b h = guarded IsSized _ _ _ _ _ h (
    update-IsSized (λ n. n.id == id && is_editable db user n) (edited title body now) db
      (λ n. edited-FitsNote title body now n t b) h)

pub update_note-IsSized :
    (id user : ℕ) (title body : Option Bytes) (now : ℕ) (db : Db)
    → exceeds max_title_len title ≡ false
    → exceeds max_body_len body ≡ false
    → IsSized db
    → IsSized (Service.update id user title body now db).1
unfolding Service.update
update_note-IsSized id user none body now db t b h =
    repo_update-IsSized id user none body now db t b h
update_note-IsSized id user (some title) body now db t b h =
    let fits = length-or_default_title now title (ground arith) in
    repo_update-IsSized id user (some (or_default_title now title)) body now db
      (ground (arith, fits)) b h

-- The steps of a toggle: a read, a write, and a read.
read_then {ℓ} :
    {A B : Type 0} (P : Db → Type ℓ) (r : Result A) (k : A → Op Db B) (db : Db)
    → P db
    → ((a : A) → P (k a db).1)
    → P (and_then (r, db) k).1
read_then P (ok a) k db h f = f a
read_then P (err e) k db h f = h

then_read {ℓ} :
    {A B : Type 0} (P : Db → Type ℓ) (r : Result A × Db) (q : Db → Result B)
    → P r.1
    → P (and_then r (λ _. query q)).1
then_read P (ok a, db) q h = h
then_read P (err e, db) q h = h

pub toggle_star-IsSized : (id user : ℕ) (db : Db) → IsSized db → IsSized (toggle_star id user db).1
unfolding toggle_star
toggle_star-IsSized id user db h =
    read_then IsSized (get id user db)
      (λ n. set_starred id user (not n.starred) >> query (get id user)) db h
      (λ n.
        then_read IsSized (set_starred id user (not n.starred) db) (get id user)
          (set_bool-IsSized _ id user db (λ n k. k) h))

pub toggle_lock-IsSized : (id user : ℕ) (db : Db) → IsSized db → IsSized (toggle_lock id user db).1
unfolding toggle_lock
toggle_lock-IsSized id user db h =
    read_then IsSized (is_locked id user db)
      (λ b. set_locked id user (not b) >> query (get id user)) db h
      (λ b.
        then_read IsSized (set_locked id user (not b) db) (get id user)
          (set_bool-IsSized _ id user db (λ n k. k) h))

pub toggle_pin-IsSized : (id user : ℕ) (db : Db) → IsSized db → IsSized (toggle_pin id user db).1
unfolding toggle_pin
toggle_pin-IsSized id user db h =
    read_then IsSized (get id user db)
      (λ n. set_pinned id user (not n.pinned) >> query (get id user)) db h
      (λ n.
        then_read IsSized (set_pinned id user (not n.pinned) db) (get id user)
          (set_pinned-IsSized id user (not n.pinned) db h))
