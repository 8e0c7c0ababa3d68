-- ===== src/Auth/Service.antt =====
-- backend/internal/auth/service.go. bcrypt, SHA-256 and strings.ToLower are parameters; what a call
-- draws at random is an argument, and so is the clock, which is read once for a call.
use crapnote.Base.{
  ℕ, Bool, true, false, not, ◌&&◌, Option, none, some, ltb, String, if◌then◌else◌, is_some,
}
use crapnote.Base.Ints.{ℤ, pos, negsuc}
use crapnote.Base.Outcome.{ok, Error, account_locked, account_cooldown, Op, query, ◌>>◌}
use crapnote.Db.{Db, User}
use crapnote.Lockout.{Tracker}
use crapnote.Auth.Users
use crapnote.Auth.Users.{find_by_username, find_by_id, unlock, set_password, count_users}

-- What the service calls outside of the repository.
pub record Crypto : Type 0 where
  -- The SHA-256 digest, as a number.
  pub sha256 : String → ℕ
  pub to_lower : String → String
  -- hex(SHA-256)
  pub hash_invite_token : String → String
  -- bcrypt.GenerateFromPassword with the salt that it draws, and bcrypt.CompareHashAndPassword.
  pub generate_hash : ℕ → String → Option String
  pub compare_hash : String → String → Bool

-- The fields of Service but the repositories. `has_invites` says that `invites` is not nil.
pub record Config : Type 0 where
  pub ttl : ℤ
  pub max_failed_attempts : ℕ
  pub lockout_cooldown : ℤ
  pub has_invites : Bool

-- SetLockoutPolicy; an attempts limit below 1 is 0 here.
unfoldable pub set_lockout_policy : ℕ → ℤ → Config → Config
set_lockout_policy max_attempts cooldown cfg = record cfg {
  max_failed_attempts = if ltb 0 max_attempts then max_attempts else cfg.max_failed_attempts;
  lockout_cooldown = cooldown;
}

pub record World : Type 0 where
  pub db : Db
  pub attempts : Tracker

-- A database operation on the service's state.
abbrev pub on_db : {A : Type 0} → Op Db A → Op World A
on_db op w = let (r, db) = op w.db in (r, record w { db = db })

abbrev pub is_positive : ℤ → Bool
is_positive (pos ℕ.zero) = false
is_positive (pos (ℕ.suc n)) = true
is_positive (negsuc n) = false

-- The unlock of a lapsed lock on the row, and the user as Login goes on with it.
unfoldable pub clear_lapsed : User → ℕ → Op Db User
clear_lapsed u now db =
    if is_some u.locked_at && not (Users.is_locked u now)
    then (do unlock u.id; query (λ _. ok (Users.with_lock none none u))) db
    else (ok u, db)

-- The answer for a row that is still locked.
abbrev pub lock_error : Option ℕ → Option ℕ → Option Error
lock_error none until = none
lock_error (some at) none = some account_locked
lock_error (some at) (some until) = some account_cooldown
