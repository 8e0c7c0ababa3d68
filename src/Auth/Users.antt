-- ===== src/Auth/Users.antt =====
-- backend/internal/auth/model.go, User, and backend/internal/auth/repository.go, UserRepo.
use crapnote.Base.{
  ℕ, suc, Bool, true, false, Option, none, some, List, [], ◌∷◌, ◌++◌, ◌==◌, ltb, leb, String,
  str_eq, if◌then◌else◌, length, page,
}
use crapnote.Base.Ints.{ℤ}
use crapnote.Base.Outcome.{Result, ok, err, not_found, constraint, or_not_found, Op, done}
use crapnote.Base.Table
use crapnote.Base.Table.{count, exists, first}
use crapnote.Base.Sort.{sort_by}
use crapnote.Db.{Db, User, current_timestamp}
use crapnote.Db.Cascade.{delete_user}

abbrev pub is_before_end : Option ℕ → ℕ → Bool
is_before_end none now = true
is_before_end (some until) now = ltb now until

abbrev pub is_locked_since : Option ℕ → Option ℕ → ℕ → Bool
is_locked_since none until now = false
is_locked_since (some at) until now = is_before_end until now

-- User.Locked
unfoldable pub is_locked : User → ℕ → Bool
is_locked u now = is_locked_since u.locked_at u.locked_until now

unfoldable pub find_by_username : String → Db → Result User
find_by_username username db = or_not_found (first (λ u. str_eq u.username username) db.users)

unfoldable pub find_by_id : ℕ → Db → Result User
find_by_id id db = or_not_found (first (λ u. u.id == id) db.users)

abbrev pub new_user : ℕ → String → String → Bool → ℕ → User
new_user id username password_hash is_admin now = record {
  id = id;
  username = username;
  password_hash = password_hash;
  is_admin = is_admin;
  api_tokens_enabled = false;
  locked_at = none;
  locked_until = none;
  created_at = current_timestamp now;
}

-- `username` is UNIQUE.
unfoldable pub create : String → String → Bool → ℕ → Op Db User
unfolding find_by_id
create username password_hash is_admin now db =
    let id = suc db.user_seq in
    let db' : Db = record db {
      users = db.users ++ new_user id username password_hash is_admin now ∷ [];
      user_seq = id;
    } in
    if exists (λ u. str_eq u.username username) db.users
    then (err constraint, db)
    else (find_by_id id db', db')

-- An UPDATE of the user's row, which must exist.
unfoldable pub write : (User → User) → ℕ → Op Db (Unit {0})
write f id db =
    if count (λ u. u.id == id) db.users == 0
    then (err not_found, db)
    else (ok tt, record db { users = Table.update (λ u. u.id == id) f db.users })

abbrev pub with_lock : Option ℕ → Option ℕ → User → User
with_lock at until u = record u { locked_at = at; locked_until = until }

unfoldable pub lock : ℕ → ℕ → Op Db (Unit {0})
unfolding write
lock id now = write (with_lock (some (current_timestamp now)) none) id

unfoldable pub lock_until : ℕ → ℕ → ℕ → Op Db (Unit {0})
unfolding write
lock_until id until now = write (with_lock (some (current_timestamp now)) (some until)) id

unfoldable pub unlock : ℕ → Op Db (Unit {0})
unfolding write
unlock id = write (with_lock none none) id

unfoldable pub set_password : ℕ → String → Op Db (Unit {0})
unfolding write
set_password id password_hash = write (λ u. record u { password_hash = password_hash }) id

unfoldable pub set_api_tokens_enabled : ℕ → Bool → Op Db (Unit {0})
unfolding write
set_api_tokens_enabled id enabled = write (λ u. record u { api_tokens_enabled = enabled }) id

unfoldable pub count_users : Db → ℕ
count_users db = length db.users

unfoldable pub delete : ℕ → Op Db (Unit {0})
unfolding delete_user
delete id db = done (delete_user id db)

-- ORDER BY created_at
unfoldable pub created_before : User → User → Bool
created_before a b = leb a.created_at b.created_at

unfoldable pub list : ℤ → ℤ → Db → List User
unfolding created_before
list limit offset db = page limit offset (sort_by created_before db.users)
