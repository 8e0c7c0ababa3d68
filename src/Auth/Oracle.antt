-- ===== src/Auth/Oracle.antt =====
-- A login with a wrong password tells nothing of the account.
use crapnote.Base.{
  ℕ, ◌≡◌, refl, inl, inr, false, not, ◌&&◌, Option, none, some, arith, ◌==◌, String, str_eq,
  Bool-cases, is_some,
}
use crapnote.Base.Outcome.{Result, ok, err, Result-cases, invalid_credentials}
use crapnote.Base.Table.{first-count}
use crapnote.Db.{Db, User}
use crapnote.Lockout.{Key, record_failure, locked}
use crapnote.Auth.Users
use crapnote.Auth.Users.{find_by_username, unlock}
use crapnote.Auth.Service.{Crypto, Config, World, clear_lapsed, lock_error}
use crapnote.Auth.Login.{attempt_key, reject, check_password, login_user, login}

-- A row that FindByUsername reads is one that Unlock reaches.
pub unlock-found :
    (username : String) (db : Db) (u : User)
    → find_by_username username db ≡ ok u
    → (unlock u.id db).0 ≡ ok tt
unfolding find_by_username unlock
unlock-found username db u e =
    ground (arith, first-count (λ v. str_eq v.username username) (λ v. v.id == u.id) db.users u)

lock_error-none :
    (at until : Option ℕ) (now : ℕ)
    → lock_error at until ≡ none
    → Users.is_locked_since at until now ≡ false
lock_error-none none until now e = refl
lock_error-none (some at) none now e = cc
lock_error-none (some at) (some until) now e = cc

-- After the unlock of a lapsed lock the user has the id and the password of the row.
pub clear_lapsed-found :
    (username : String) (db : Db) (u : User) (now : ℕ)
    → find_by_username username db ≡ ok u
    → (v : User) × ((clear_lapsed u now db).0 ≡ ok v)
      × (v.password_hash ≡ u.password_hash)
      × (v.id ≡ u.id)
      × (lock_error v.locked_at v.locked_until ≡ none → Users.is_locked u now ≡ false)
unfolding clear_lapsed Users.is_locked
clear_lapsed-found username db u now e =
    elim (Bool-cases (is_some u.locked_at && not (Users.is_locked u now))) [
      | inl lapsed ↦ (
        Users.with_lock none none u,
        rw lapsed (ground (arith, unlock-found username db u e)),
        refl,
        refl,
        λ _. ground arith,
      )
      | inr fresh ↦ (u, rw fresh, refl, refl, lock_error-none u.locked_at u.locked_until now)
    ]

-- No user has the name, or the user has another password.
abbrev pub IsWrong : Crypto → String → Result User → Type 0
IsWrong crypto password (err e) = Unit
IsWrong crypto password (ok u) = crypto.compare_hash u.password_hash password ≡ false

module _ (crypto : Crypto) (cfg : Config) where
  -- The answer and the tracker of a login behind the cool-down check.
  login_user-wrong :
      (key : Key) (username password : String) (session_id : Option String) (now : ℕ) (w : World)
      → IsWrong crypto password (find_by_username username w.db)
      → let r =
          login_user crypto cfg key password session_id now (find_by_username username w.db) w in
        (r.0 ≡ err invalid_credentials)
        × (r.1.attempts
            ≡ record_failure key cfg.max_failed_attempts cfg.lockout_cooldown now w.attempts)
  unfolding login_user check_password reject
  login_user-wrong key username password session_id now w wrong =
      elim (Result-cases (find_by_username username w.db)) [
        | inl (u, e) ↦
            let (v, cleared, same, _, _) = clear_lapsed-found username w.db u now e in
            let wrong' : crypto.compare_hash u.password_hash password ≡ false = rw e at wrong in
            let wrong'' : crypto.compare_hash v.password_hash password ≡ false = rw same wrong' in
            rw e (rw cleared (rw wrong'' (refl, refl)))
        | inr (x, e) ↦ rw e (refl, refl)
      ]

  -- Where the password is wrong, the answer of a login and what the tracker records of it do not
  -- depend on the database: not on whether the username has an account, nor on whose it is, whether
  -- it is locked, or what its password is.
  pub login-no_oracle :
      (username password client_ip : String) (session_id session_id' : Option String) (now : ℕ)
      (w w' : World)
      → w.attempts ≡ w'.attempts
      → IsWrong crypto password (find_by_username username w.db)
      → IsWrong crypto password (find_by_username username w'.db)
      → let r = login crypto cfg username password client_ip session_id now w in
        let r' = login crypto cfg username password client_ip session_id' now w' in
        (r.0 ≡ r'.0) × (r.1.attempts ≡ r'.1.attempts)
  unfolding login
  login-no_oracle username password client_ip session_id session_id' now w w' same wrong wrong' =
      let key = attempt_key crypto cfg client_ip username in
      let swept : World = record w { attempts = (locked key now w.attempts).1 } in
      let swept' : World = record w' { attempts = (locked key now w'.attempts).1 } in
      let a = login_user-wrong key username password session_id now swept wrong in
      let b = login_user-wrong key username password session_id' now swept' wrong' in
      ground (arith, a.0, a.1, b.0, b.1)
