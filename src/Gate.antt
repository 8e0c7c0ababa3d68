-- ===== src/Gate.antt =====
-- backend/internal/auth/middleware.go: who a request acts for, and what it may do. The request is its
-- Authorization header (empty if missing) and its session cookie. strings.TrimSpace and the hash of
-- a token are parameters.
pub mod Passed
use crapnote.Base.{
  ℕ, Bool, true, false, not, ◌&&◌, Option, none, some, List, [], ◌∷◌, ◌++◌, String, if◌then◌else◌,
  drop,
}
use crapnote.Base.Outcome.{Result, ok, err, Error, not_found, account_locked, account_cooldown}
use crapnote.Db.{Db, Bytes, User, Scope}
use crapnote.Auth.Account.{validate_session}
use crapnote.Tokens.Model.{allows_write}
use crapnote.Tokens.Service.{VerifiedToken, has_prefix, verify}

pub record Flags : Type 0 where
  pub via_bearer : Bool
  pub write_allowed : Bool

-- The values that a request's context carries.
pub record Context : Type 0 where
  pub user : Option User
  pub flags : Option Flags

pub record Request : Type 0 where
  pub authorization : Bytes
  pub session : Option String

-- The database, and the token ids that were handed to the usage recorder.
pub record Store : Type 0 where
  pub db : Db
  pub used : List ℕ

-- The next handler runs in a context, or the response has a status.
pub data Answer : Type 0 where
  serves : Context → Answer
  refuses : ℕ → Answer

abbrev pub flag_bearer : Option Flags → Bool
flag_bearer none = false
flag_bearer (some f) = f.via_bearer

unfoldable pub is_bearer_auth : Context → Bool
is_bearer_auth c = flag_bearer c.flags

abbrev pub flag_write : Option Flags → Bool
flag_write none = true
flag_write (some f) = f.write_allowed

unfoldable pub write_allowed : Context → Bool
write_allowed c = flag_write c.flags

abbrev pub logged_in : User → Bool → Bool → Context
logged_in u bearer write = record {
  user = some u;
  flags = some (record { via_bearer = bearer; write_allowed = write });
}

-- "Bearer "
abbrev pub bearer_prefix : Bytes
bearer_prefix = 66 ∷ (101 ∷ (97 ∷ (114 ∷ (101 ∷ (114 ∷ (32 ∷ []))))))

abbrev pub non_empty : Bytes → Option Bytes
non_empty [] = none
non_empty (c ∷ s) = some (c ∷ s)

-- The status for an error of ValidateSession; ErrAccountCooldown wraps ErrAccountLocked.
unfoldable pub session_status : Error → ℕ
session_status account_locked = 401
session_status account_cooldown = 401
session_status not_found = 401
session_status _ = 500

-- What RequireAuth does with the result of ValidateSession, and of AuthenticateBearer.
unfoldable pub admit_session : Result User × Db → List ℕ → Answer × Store
unfolding session_status
admit_session (ok u, db) used = (serves (logged_in u false true), record { db = db; used = used })
admit_session (err e, db) used = (refuses (session_status e), record { db = db; used = used })

unfoldable pub admit_bearer : Result VerifiedToken → Store → Answer × Store
admit_bearer (err e) s = (refuses 401, s)
admit_bearer (ok v) s = (
  serves (logged_in v.user true (allows_write v.scope)),
  record s { used = s.used ++ v.token_id ∷ [] },
)

unfoldable pub require_admin_user : Option User → Context → Answer
require_admin_user none c = refuses 403
require_admin_user (some u) c =
    if not u.is_admin then refuses 403 else if is_bearer_auth c then refuses 403 else serves c

unfoldable pub require_admin : Context → Answer
unfolding require_admin_user
require_admin c = require_admin_user c.user c

unfoldable pub require_write : Context → Answer
require_write c = if write_allowed c then serves c else refuses 403

module _ (hash_token : Bytes → String) (trim_space : Bytes → Bytes) where
  unfoldable pub bearer_from_request : Bytes → Option Bytes
  bearer_from_request h =
      if has_prefix h bearer_prefix then non_empty (trim_space (drop 7 h)) else none

  -- The cookie's part of RequireAuth.
  unfoldable pub by_cookie : Option String → ℕ → Store → Answer × Store
  unfolding admit_session
  by_cookie none now s = (refuses 401, s)
  by_cookie (some id) now s = admit_session (validate_session id now s.db) s.used

  -- Behind the check of the context; `has_bearer` says that a verifier is wired.
  unfoldable pub by_credentials : Bool → Option Bytes → Option String → ℕ → Store → Answer × Store
  unfolding by_cookie admit_bearer
  by_credentials has_bearer none session now s = by_cookie session now s
  by_credentials false (some raw) session now s = (refuses 401, s)
  by_credentials true (some raw) session now s =
      admit_bearer (verify hash_token trim_space raw now s.db) s

  unfoldable pub require_auth : Bool → Context → Request → ℕ → Store → Answer × Store
  unfolding by_credentials bearer_from_request
  require_auth has_bearer c r now s = elim c.user [
    | none ↦ by_credentials has_bearer (bearer_from_request r.authorization) r.session now s
    | some u ↦ (serves c, s)
  ]
