-- ===== src/Content.antt =====
-- The notes and the trash together: every repository call that writes them, for one user, and the
-- two background jobs of backend/cmd/server/main.go.
pub mod Invariant
pub mod Writes
pub mod Preserved
pub mod Isolation
pub mod Kept
pub mod Locking
pub mod RoundTrips
pub mod Toggling
use crapnote.Base.{ℕ, Bool, Option, List, [], ◌∷◌}
use crapnote.Base.Outcome.{Result}
use crapnote.Db.{Db, Bytes}
use crapnote.Notes.Repo
use crapnote.Notes.Repo.{
  set_starred, set_locked, auto_lock_stale, soft_delete, archive, unarchive, hard_delete,
}
use crapnote.Notes.Pins.{set_pinned, reorder_pins}
use crapnote.Trash
use crapnote.Trash.{restore, delete_one, purge_expired}

-- A call on behalf of a user.
pub data Call : Type 0 where
  creates : Bytes → Bytes → Call
  updates : ℕ → Option Bytes → Option Bytes → Call
  stars : ℕ → Bool → Call
  locks : ℕ → Bool → Call
  pins : ℕ → Bool → Call
  reorders : List ℕ → Call
  trashes : ℕ → Call
  archives : ℕ → Call
  unarchives : ℕ → Call
  erases : ℕ → Call
  restores : ℕ → Call
  deletes : ℕ → Call
  empties : Call

-- The database after a user's call at the time `now`, whatever it answers.
pub step : ℕ → ℕ → Call → Db → Db
step user now (creates title body) db = (Repo.create user title body now db).1
step user now (updates id title body) db = (Repo.update id user title body now db).1
step user now (stars id b) db = (set_starred id user b db).1
step user now (locks id b) db = (set_locked id user b db).1
step user now (pins id b) db = (set_pinned id user b db).1
step user now (reorders ids) db = (reorder_pins user ids db).1
step user now (trashes id) db = (soft_delete id user now db).1
step user now (archives id) db = (archive id user db).1
step user now (unarchives id) db = (unarchive id user db).1
step user now (erases id) db = (hard_delete id user db).1
step user now (restores id) db = (restore id user db).1
step user now (deletes id) db = (delete_one id user db).1
step user now empties db = (Trash.empty user db).1

-- What happens to the store: a user's call, or a background job.
pub data Event : Type 0 where
  call : ℕ → Call → Event
  auto_lock : ℕ → Event
  purge : Event

pub react : ℕ → Event → Db → Db
unfolding step
react now (call user c) db = step user now c db
react now (auto_lock older_than) db = (auto_lock_stale older_than now db).1
react now purge db = (purge_expired now db).1

pub run : List (ℕ × Event) → Db → Db
unfolding react
run [] db = db
run ((now, e) ∷ es) db = run es (react now e db)
