-- ===== src/Auth/Sessions.antt =====
-- backend/internal/auth/repository.go, SessionRepo. The id that generateSessionID draws is an
-- argument, `none` where the system's randomness fails.
use crapnote.Base.{
  ℕ, ◌/◌, Option, none, some, [], ◌∷◌, ◌++◌, ◌==◌, ltb, String, str_eq, if◌then◌else◌, not, ◌||◌,
}
use crapnote.Base.Outcome.{Result, err, constraint, randomness, or_not_found, Op, done}
use crapnote.Base.Table
use crapnote.Base.Table.{exists, first}
use crapnote.Db.{Db, Session, current_timestamp, second}

unfoldable pub find : String → Db → Result Session
find id db = or_not_found (first (λ s. str_eq s.id id) db.sessions)

abbrev pub new_session : String → ℕ → ℕ → ℕ → Session
new_session id user_id expires_at now = record {
  id = id;
  user_id = user_id;
  expires_at = expires_at;
  created_at = current_timestamp now;
}

-- `id` is the PRIMARY KEY, and `user_id` refers to a user.
unfoldable pub create : Option String → ℕ → ℕ → ℕ → Op Db Session
unfolding find
create none user_id expires_at now db = (err randomness, db)
create (some id) user_id expires_at now db =
    let db' : Db = record db {
      sessions = db.sessions ++ new_session id user_id expires_at now ∷ [];
    } in
    if exists (λ s. str_eq s.id id) db.sessions || not (exists (λ u. u.id == user_id) db.users)
    then (err constraint, db)
    else (find id db', db')

unfoldable pub delete : String → Op Db (Unit {0})
delete id db = done (record db { sessions = Table.delete (λ s. str_eq s.id id) db.sessions })

unfoldable pub delete_for_user : ℕ → Op Db (Unit {0})
delete_for_user user_id db =
    done (record db { sessions = Table.delete (λ s. s.user_id == user_id) db.sessions })

-- `expires_at < CURRENT_TIMESTAMP` compares texts, of which the right one ends with the seconds: a
-- session goes when its second is past.
unfoldable pub delete_expired : ℕ → Op Db (Unit {0})
delete_expired now db = done (record db {
  sessions = Table.delete (λ s. ltb (s.expires_at / second) (now / second)) db.sessions;
})
