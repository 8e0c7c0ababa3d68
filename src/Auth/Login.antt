-- ===== src/Auth/Login.antt =====
-- backend/internal/auth/service.go: Login, and the calls on the tracker beside it.
use crapnote.Base.{ℕ, ◌+◌, Option, none, some, String, if◌then◌else◌}
use crapnote.Base.Ints.{pos_part}
use crapnote.Base.Outcome.{
  Result, ok, err, Error, invalid_credentials, account_cooldown, login_not_configured, Op,
}
use crapnote.Db.{User, Session}
use crapnote.Lockout.{
  Key, new_lockout_key, locked, record_failure, clear, clear_username, lockout_username,
  locked_count,
}
use crapnote.Auth.Users.{find_by_username}
use crapnote.Auth.Sessions
use crapnote.Auth.Service.{Crypto, Config, World, on_db, is_positive, clear_lapsed, lock_error}

module _ (crypto : Crypto) (cfg : Config) where
  open crypto use {sha256, to_lower, compare_hash}

  -- The key of an attempt.
  unfoldable pub attempt_key : String → String → Key
  unfolding new_lockout_key
  attempt_key client_ip username = new_lockout_key sha256 to_lower client_ip username

  -- A miss is counted, and answered like an unknown username.
  unfoldable pub reject : Key → ℕ → Op World Session
  reject key now w = (
    err invalid_credentials,
    record w {
      attempts = record_failure key cfg.max_failed_attempts cfg.lockout_cooldown now w.attempts;
    },
  )

  -- The end of a login whose password was right.
  unfoldable pub admit : Key → Option String → ℕ → User → Option Error → Op World Session
  admit key session_id now u (some e) w = (err e, w)
  admit key session_id now u none w =
      on_db (Sessions.create session_id u.id (now + pos_part cfg.ttl) now)
        (record w { attempts = clear key w.attempts })

  unfoldable pub check_password : Key → String → Option String → ℕ → Result User → Op World Session
  check_password key password session_id now (err e) w = (err e, w)
  check_password key password session_id now (ok u) w =
      if compare_hash u.password_hash password
      then admit key session_id now u (lock_error u.locked_at u.locked_until) w
      else reject key now w

  unfoldable pub login_user : Key → String → Option String → ℕ → Result User → Op World Session
  login_user key password session_id now (err e) w = reject key now w
  login_user key password session_id now (ok u) w =
      let (r, db) = clear_lapsed u now w.db in
      check_password key password session_id now r (record w { db = db })

  -- Login. FindByUsername fails only with ErrNotFound here.
  unfoldable pub login : String → String → String → Option String → ℕ → Op World Session
  login username password client_ip session_id now w =
      let key = attempt_key client_ip username in
      let (cooling, swept) = locked key now w.attempts in
      let w' : World = record w { attempts = swept } in
      if is_positive cfg.ttl
      then (if cooling
          then (err account_cooldown, w')
          else login_user key password session_id now (find_by_username username w.db) w')
      else (err login_not_configured, w)

  -- ClearAutomaticLockouts and AutomaticLockoutCount
  unfoldable pub clear_automatic_lockouts : String → World → World
  clear_automatic_lockouts username w = record w {
    attempts = clear_username (lockout_username sha256 to_lower username) w.attempts;
  }

  unfoldable pub automatic_lockout_count : String → ℕ → World → ℕ
  automatic_lockout_count username now w =
      locked_count (lockout_username sha256 to_lower username) now w.attempts
