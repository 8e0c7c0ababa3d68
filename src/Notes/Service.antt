-- ===== src/Notes/Service.antt =====
-- backend/internal/notes/service.go. A method that only calls the repository's function of its name
-- is that function.
use crapnote.Base.{ℕ, not, Option, none, some, [], ◌∷◌}
use crapnote.Base.Outcome.{Op, ◌>>=◌, ◌>>◌, query}
use crapnote.Db.{Db, Note, Bytes}
use crapnote.Notes.Title.{default_title}
use crapnote.Notes.Repo
use crapnote.Notes.Repo.{get, is_locked, set_starred, set_locked}
use crapnote.Notes.Pins.{set_pinned}

abbrev pub or_default_title : ℕ → Bytes → Bytes
or_default_title now [] = default_title now
or_default_title now (c ∷ s) = c ∷ s

unfoldable pub create : ℕ → Bytes → Bytes → ℕ → Op Db Note
unfolding Repo.create
create user_id title body now = Repo.create user_id (or_default_title now title) body now

unfoldable pub update : ℕ → ℕ → Option Bytes → Option Bytes → ℕ → Op Db Note
unfolding Repo.update
update id user_id none body now = Repo.update id user_id none body now
update id user_id (some title) body now =
    Repo.update id user_id (some (or_default_title now title)) body now

unfoldable pub toggle_star : ℕ → ℕ → Op Db Note
unfolding get set_starred
toggle_star id user_id = do
  note ← query (get id user_id)
  set_starred id user_id (not note.starred)
  query (get id user_id)

unfoldable pub toggle_lock : ℕ → ℕ → Op Db Note
unfolding is_locked set_locked get
toggle_lock id user_id = do
  locked ← query (is_locked id user_id)
  set_locked id user_id (not locked)
  query (get id user_id)

unfoldable pub toggle_pin : ℕ → ℕ → Op Db Note
unfolding get set_pinned
toggle_pin id user_id = do
  note ← query (get id user_id)
  set_pinned id user_id (not note.pinned)
  query (get id user_id)
