-- ===== src/Notes/Repo.antt =====
-- backend/internal/notes/repository.go, but for the listings and the pins: each function with its
-- SQL statements. A parameter `now` is the reading of the clock.
use crapnote.Base.{
  ℕ, suc, Bool, true, false, not, ◌&&◌, Option, none, some, [], ◌∷◌, ◌++◌, ◌==◌, ltb, if◌then◌else◌,
  ◌-◌,
}
use crapnote.Base.Ints.{pos}
use crapnote.Base.Outcome.{Result, ok, err, not_found, locked, constraint, or_not_found, Op}
use crapnote.Base.Table
use crapnote.Base.Table.{count, exists, first}
use crapnote.Db.{Db, Note, TrashRow, Bytes, current_timestamp}
use crapnote.Db.Cascade.{delete_notes}

-- EXISTS (SELECT 1 FROM trash t WHERE t.note_id = id)
unfoldable pub is_trashed : Db → ℕ → Bool
is_trashed db id = exists (λ t. t.note_id == id) db.trash

-- The conditions that Get puts on a note beside its id.
abbrev pub is_visible : Db → ℕ → Note → Bool
is_visible db user_id n = n.user_id == user_id && (not n.archived && not (is_trashed db n.id))

unfoldable pub get : ℕ → ℕ → Db → Result Note
get id user_id db = or_not_found (first (λ n. n.id == id && is_visible db user_id n) db.notes)

-- IsLocked, as the row that it reads.
unfoldable pub is_locked : ℕ → ℕ → Db → Result Bool
is_locked id user_id db = elim (first (λ n. n.id == id && n.user_id == user_id) db.notes) [
  | none ↦ err not_found
  | some n ↦ ok n.locked
]

abbrev pub new_note : ℕ → ℕ → Bytes → Bytes → ℕ → Note
new_note id user_id title body now = record {
  id = id;
  user_id = user_id;
  title = title;
  body = body;
  starred = false;
  pinned = false;
  pin_order = pos 0;
  archived = false;
  locked = false;
  created_at = now;
  updated_at = now;
}

unfoldable pub create : ℕ → Bytes → Bytes → ℕ → Op Db Note
unfolding get
create user_id title body now db =
    let id = suc db.note_seq in
    let db' : Db = record db {
      notes = db.notes ++ new_note id user_id title body now ∷ [];
      note_seq = id;
    } in
    if exists (λ u. u.id == user_id) db.users
    then (get id user_id db', db')
    else (err constraint, db)

abbrev pub or_else {ℓ} : {A : Type ℓ} → Option A → A → A
or_else none a = a
or_else (some b) a = b

-- The SET clause of Update: a field that is not given keeps its value.
abbrev pub edited : Option Bytes → Option Bytes → ℕ → Note → Note
edited title body now n = record n {
  title = or_else title n.title;
  body = or_else body n.body;
  updated_at = now;
}

-- The WHERE clause of Update beside the id.
abbrev pub is_editable : Db → ℕ → Note → Bool
is_editable db user_id n =
    n.user_id == user_id && (not n.archived && (not n.locked && not (is_trashed db n.id)))

abbrev pub why_not_edited : Result Note → Result Note
why_not_edited (err e) = err e
why_not_edited (ok n) = if n.locked then err locked else err not_found

unfoldable pub update : ℕ → ℕ → Option Bytes → Option Bytes → ℕ → Op Db Note
update id user_id title body now db =
    let hit : Note → Bool = λ n. n.id == id && is_editable db user_id n in
    let db' : Db = record db { notes = Table.update hit (edited title body now) db.notes } in
    if count hit db.notes == 0
    then (why_not_edited (get id user_id db), db)
    else (get id user_id db', db')

-- `setBool`, with the column as the function that writes it.
unfoldable pub set_bool : (Note → Note) → ℕ → ℕ → Op Db (Unit {0})
set_bool write id user_id db =
    let hit : Note → Bool = λ n. n.id == id && n.user_id == user_id in
    if count hit db.notes == 0
    then (err not_found, db)
    else (ok tt, record db { notes = Table.update hit write db.notes })

abbrev pub with_starred : Bool → Note → Note
with_starred b n = record n { starred = b }

abbrev pub with_locked : Bool → Note → Note
with_locked b n = record n { locked = b }

unfoldable pub set_starred : ℕ → ℕ → Bool → Op Db (Unit {0})
unfolding set_bool
set_starred id user_id b = set_bool (with_starred b) id user_id

unfoldable pub set_locked : ℕ → ℕ → Bool → Op Db (Unit {0})
unfolding set_bool
set_locked id user_id b = set_bool (with_locked b) id user_id

-- The notes that AutoLockStale locks, with `cutoff` = now - olderThan.
abbrev pub is_stale : Db → ℕ → Note → Bool
is_stale db cutoff n = not n.locked && (ltb n.updated_at cutoff && not (is_trashed db n.id))

unfoldable pub auto_lock_stale : ℕ → ℕ → Op Db ℕ
auto_lock_stale older_than now db =
    let stale = is_stale db (now - older_than) in
    (
      ok (count stale db.notes),
      record db { notes = Table.update stale (with_locked true) db.notes },
    )

-- What SoftDelete and Archive do when their write reached no row.
abbrev pub refusal : Result Bool → Result (Unit {0}) → Result (Unit {0})
refusal (err e) r = err e
refusal (ok true) r = err locked
refusal (ok false) r = r

-- INSERT OR IGNORE: UNIQUE(note_id) makes a second insert a no-op.
unfoldable pub soft_delete : ℕ → ℕ → ℕ → Op Db (Unit {0})
unfolding is_locked is_trashed
soft_delete id user_id now db =
    let found = exists (λ n. n.id == id && (n.user_id == user_id && not n.locked)) db.notes in
    let row : TrashRow = record {
      note_id = id;
      user_id = user_id;
      deleted_at = current_timestamp now;
    } in
    if found && not (is_trashed db id)
    then (ok tt, record db { trash = db.trash ++ row ∷ [] })
    else (refusal (is_locked id user_id db) (ok tt), db)

abbrev pub with_archived : Bool → Note → Note
with_archived b n = record n { archived = b }

unfoldable pub archive : ℕ → ℕ → Op Db (Unit {0})
unfolding is_locked
archive id user_id db =
    let hit : Note → Bool = λ n. n.id == id && (n.user_id == user_id && not n.locked) in
    if count hit db.notes == 0
    then (refusal (is_locked id user_id db) (err not_found), db)
    else (ok tt, record db { notes = Table.update hit (with_archived true) db.notes })

unfoldable pub unarchive : ℕ → ℕ → Op Db (Unit {0})
unfolding set_bool
unarchive id user_id = set_bool (with_archived false) id user_id

unfoldable pub hard_delete : ℕ → ℕ → Op Db (Unit {0})
unfolding delete_notes
hard_delete id user_id db =
    let hit : Note → Bool = λ n. n.id == id && n.user_id == user_id in
    if count hit db.notes == 0 then (err not_found, db) else (ok tt, delete_notes hit db)
