-- ===== src/Auth/Access.antt =====
-- What a login that succeeds has checked, and what its session is good for.
use text.Mathlib.TextPositions.{eq_refl}
use crapnote.Base.{
  ℕ, ◌+◌, ◌≡◌, refl, ◌∙◌, inl, inr, Bool, true, false, not, ◌||◌, Option, none, some, arith, ◌==◌,
  String, str_eq, Bool-cases, [], ◌∷◌, ◌++◌,
}
use crapnote.Base.Ints.{pos_part}
use crapnote.Base.Outcome.{ok, Error, Result-cases}
use crapnote.Base.Table.{exists, exists-first}
use crapnote.Base.Table.Appended.{first-append_absent}
use crapnote.Db.{Db, User, Session}
use crapnote.Lockout.{Key, locked}
use crapnote.Auth.Users
use crapnote.Auth.Users.{find_by_username, find_by_id, unlock}
use crapnote.Auth.Sessions
use crapnote.Auth.Sessions.{new_session}
use crapnote.Auth.Service.{Crypto, Config, World, clear_lapsed, is_positive, lock_error}
use crapnote.Auth.Login.{attempt_key, reject, admit, check_password, login_user, login}
use crapnote.Auth.Oracle.{clear_lapsed-found}

-- A session that was created is found by its id.
pub record IsNew (s : Session) (user_id expires_at : ℕ) (db db' : Db) : Type 0 where
  pub of_user : s.user_id ≡ user_id
  pub until : s.expires_at ≡ expires_at
  pub found : Sessions.find s.id db' ≡ ok s
  pub same_users : db'.users ≡ db.users

create-some :
    (id : String) (user_id expires_at now : ℕ) (db : Db)
    → exists (λ s. str_eq s.id id) db.sessions ≡ false
    → Sessions.find id
        (record db { sessions = db.sessions ++ new_session id user_id expires_at now ∷ [] })
      ≡ ok (new_session id user_id expires_at now)
unfolding Sessions.find
create-some id user_id expires_at now db absent = ground (
  arith,
  exists-first (λ s. str_eq s.id id) db.sessions,
  first-append_absent (λ s. str_eq s.id id) db.sessions (new_session id user_id expires_at now),
  eq_refl id,
)

pub create-IsNew :
    (id : Option String) (user_id expires_at now : ℕ) (db : Db) (s : Session)
    → (Sessions.create id user_id expires_at now db).0 ≡ ok s
    → IsNew s user_id expires_at db (Sessions.create id user_id expires_at now db).1
unfolding Sessions.create
create-IsNew none user_id expires_at now db s e = cc
create-IsNew (some id) user_id expires_at now db s e = elim (Bool-cases taken) [
  | inl t ↦ absurd (ground arith)
  | inr f ↦
      let made = create-some id user_id expires_at now db (ground arith) in
      let read = rw f at e in
      let same : s ≡ new_session id user_id expires_at now = cc (made, read) in
      rw (f, same) (record { of_user = refl; until = refl; found = made; same_users = refl })
]
  where
    taken : Bool
    taken = exists (λ x. str_eq x.id id) db.sessions || not (exists (λ u. u.id == user_id) db.users)

-- What a login that succeeded had before it: the user of the name, and the password.
pub record Granted (crypto : Crypto) (cfg : Config) (username password client_ip : String) (now : ℕ)
    (w : World) (s : Session) (w' : World) : Type 0 where
  pub user : User
  pub known : find_by_username username w.db ≡ ok user
  pub matched : crypto.compare_hash user.password_hash password ≡ true
  pub unlocked : Users.is_locked user now ≡ false
  pub cool : (locked (attempt_key crypto cfg client_ip username) now w.attempts).0 ≡ false
  pub of_user : s.user_id ≡ user.id
  pub until : s.expires_at ≡ now + pos_part cfg.ttl
  pub stored : Sessions.find s.id w'.db ≡ ok s

module _ (crypto : Crypto) (cfg : Config) where
  admit-IsNew :
      (key : Key) (session_id : Option String) (now : ℕ) (u : User) (lock : Option Error)
      (w : World) (s : Session)
      → (admit crypto cfg key session_id now u lock w).0 ≡ ok s
      → (lock ≡ none)
        × IsNew s u.id
            (now + pos_part cfg.ttl)
            w.db
            (admit crypto cfg key session_id now u lock w).1.db
  unfolding admit
  admit-IsNew key session_id now u (some x) w s e = cc
  admit-IsNew key session_id now u none w s e =
      (refl, create-IsNew session_id u.id (now + pos_part cfg.ttl) now w.db s e)

  check_password-ok :
      (key : Key) (password : String) (session_id : Option String) (now : ℕ) (u : User) (w : World)
      (s : Session)
      → (check_password crypto cfg key password session_id now (ok u) w).0 ≡ ok s
      → (crypto.compare_hash u.password_hash password ≡ true)
        × (lock_error u.locked_at u.locked_until ≡ none)
        × IsNew s u.id
            (now + pos_part cfg.ttl)
            w.db
            (check_password crypto cfg key password session_id now (ok u) w).1.db
  unfolding check_password reject
  check_password-ok key password session_id now u w s e =
      elim (Bool-cases (crypto.compare_hash u.password_hash password)) [
        | inl matched ↦
            let (free, new) =
              admit-IsNew key session_id now u (lock_error u.locked_at u.locked_until) w s
                (rw matched at e) in
            (matched, free, rw matched new)
        | inr wrong ↦ let e' = rw wrong at e in absurd (cc e')
      ]

  login_user-ok :
      (key : Key) (username password : String) (session_id : Option String) (now : ℕ) (w : World)
      (s : Session)
      → (login_user crypto cfg key password session_id now (find_by_username username w.db) w).0
        ≡ ok s
      → (u : User) × (find_by_username username w.db ≡ ok u)
        × (crypto.compare_hash u.password_hash password ≡ true)
        × (Users.is_locked u now ≡ false)
        × (s.user_id ≡ u.id)
        × (s.expires_at ≡ now + pos_part cfg.ttl)
        × (Sessions.find s.id
              (login_user crypto cfg key password session_id now
                (find_by_username username w.db)
                w).1.db
            ≡ ok s)
  unfolding login_user reject
  login_user-ok key username password session_id now w s e =
      elim (Result-cases (find_by_username username w.db)) [
        | inl (u, found) ↦
            let (v, cleared, same, id, free) = clear_lapsed-found username w.db u now found in
            let e' = rw cleared at (rw found at e) in
            let (matched, open_row, new) =
              check_password-ok key password session_id now v
                (record w { db = (clear_lapsed u now w.db).1 }) s e' in
            (
              u,
              found,
              rw same at matched,
              free open_row,
              new.of_user ∙ id,
              new.until,
              rw (found, cleared) new.found,
            )
        | inr (x, missing) ↦ let e' = rw missing at e in absurd (cc e')
      ]

  -- A login that grants a session comes from outside a cool-down, names an existing user whose
  -- password was given and whose account is not locked, and its session belongs to that user, ends
  -- `ttl` later and is in the database.
  pub login-Granted :
      (username password client_ip : String) (session_id : Option String) (now : ℕ) (w : World)
      (s : Session)
      → (login crypto cfg username password client_ip session_id now w).0 ≡ ok s
      → Granted crypto cfg username password client_ip now w s
          (login crypto cfg username password client_ip session_id now w).1
  unfolding login
  login-Granted username password client_ip session_id now w s e =
      let key = attempt_key crypto cfg client_ip username in
      let w' : World = record w { attempts = (locked key now w.attempts).1 } in
      elim (Bool-cases (is_positive cfg.ttl)) [
        | inl configured ↦ elim (Bool-cases (locked key now w.attempts).0) [
          | inl cooling ↦ let e' = rw cooling at (rw configured at e) in absurd (cc e')
          | inr cool ↦
              let (u, known, matched, unlocked, user, until, stored) =
                login_user-ok key username password session_id now w' s
                  (rw cool at (rw configured at e)) in
              record {
                user = u;
                known = known;
                matched = matched;
                unlocked = unlocked;
                cool = cool;
                of_user = user;
                until = until;
                stored = rw (configured, cool) stored;
              }
        ]
        | inr broken ↦ let e' = rw broken at e in absurd (cc e')
      ]
