-- ===== src/Tokens/Service.antt =====
-- backend/internal/tokens/service.go. SHA-256 and strings.TrimSpace are parameters; the suffix that
-- a new token draws (32 random bytes in base64) is an argument, `none` where the system's randomness
-- fails.
use crapnote.Base.{
  ℕ, ◌+◌, suc, Bool, true, false, not, ◌&&◌, ◌||◌, Option, none, some, List, [], ◌∷◌, ◌++◌, ◌==◌,
  ltb, String, str_eq, if◌then◌else◌, length, take,
}
use crapnote.Base.Ints.{ℤ, pos, negsuc}
use crapnote.Base.Outcome.{
  Result, ok, err, not_found, forbidden, invalid_name, invalid_scope, invalid_token, randomness, Op,
}
use crapnote.Db.{Db, Bytes, User, Token, Scope}
use crapnote.Auth.Users
use crapnote.Tokens.Model.{
  token_prefix, display_prefix_len, default_ttl, max_name_len, valid, active,
}
use crapnote.Tokens.Repo

pub record VerifiedToken : Type 0 where
  pub token_id : ℕ
  pub user : User
  pub scope : Scope

pub record CreatedToken : Type 0 where
  pub token : Token
  pub raw_token : Bytes

-- strings.HasPrefix
unfoldable pub has_prefix : Bytes → Bytes → Bool
has_prefix s [] = true
has_prefix [] (p ∷ ps) = false
has_prefix (c ∷ s) (p ∷ ps) = let rest = has_prefix s ps in c == p && rest

abbrev pub may_use_tokens : User → Bool
may_use_tokens u = u.is_admin || u.api_tokens_enabled

-- The expiry of a new token: the default for a lifetime of 0, none below 0.
abbrev pub expiry : ℤ → ℕ → Option ℕ
expiry (pos ℕ.zero) now = some (now + default_ttl)
expiry (pos (suc n)) now = some (now + suc n)
expiry (negsuc n) now = none

abbrev pub with_raw : Bytes → Result Token × Db → Result CreatedToken × Db
with_raw raw (err e, db) = (err e, db)
with_raw raw (ok t, db) = (ok (record { token = t; raw_token = raw }), db)

unfoldable pub list : ℕ → Db → List Token
unfolding Repo.list_by_user
list user_id db = Repo.list_by_user user_id db

abbrev pub revoke_found : ℕ → ℕ → ℕ → Result Token → Op Db (Unit {0})
revoke_found user_id token_id now (err e) db = (err e, db)
revoke_found user_id token_id now (ok t) db =
    if t.user_id == user_id then Repo.revoke token_id now db else (err not_found, db)

unfoldable pub revoke : ℕ → ℕ → ℕ → Op Db (Unit {0})
revoke user_id token_id now db = revoke_found user_id token_id now (Repo.find_by_id token_id db) db

unfoldable pub revoke_all : ℕ → ℕ → Op Db (Unit {0})
unfolding Repo.revoke_all_for_user
revoke_all user_id now = Repo.revoke_all_for_user user_id now

unfoldable pub record_usage : ℕ → ℕ → Op Db (Unit {0})
unfolding Repo.update_last_used
record_usage token_id ts = Repo.update_last_used token_id ts

-- The checks of Verify on the owner, and on the token.
unfoldable pub verify_owner : Token → ℕ → Result User → Result VerifiedToken
verify_owner t now (err e) = err invalid_token
verify_owner t now (ok u) =
    if may_use_tokens u && not (Users.is_locked u now)
    then ok (record { token_id = t.id; user = u; scope = t.scope })
    else err invalid_token

unfoldable pub verify_found : String → ℕ → Db → Result Token → Result VerifiedToken
unfolding verify_owner
verify_found hash now db (err e) = err invalid_token
verify_found hash now db (ok t) =
    if str_eq hash t.token_hash && active t now
    then verify_owner t now (Users.find_by_id t.user_id db)
    else err invalid_token

module _ (hash_token : Bytes → String) (trim_space : Bytes → Bytes) where
  -- Create behind its checks; `suffix` is the random part.
  unfoldable pub issue : User → Bytes → Scope → ℤ → Option Bytes → ℕ → Op Db CreatedToken
  issue user name scope ttl none now db = (err randomness, db)
  issue user name scope ttl (some suffix) now db =
      let raw = token_prefix ++ suffix in
      with_raw raw (
        Repo.create user.id name (hash_token raw) (token_prefix ++ take display_prefix_len suffix)
          scope (expiry ttl now) now db)

  unfoldable pub create : Option User → Bytes → Scope → ℤ → Option Bytes → ℕ → Op Db CreatedToken
  unfolding issue
  create none name scope ttl suffix now db = (err forbidden, db)
  create (some user) name scope ttl suffix now db =
      let trimmed = trim_space name in
      if may_use_tokens user
      then (if length trimmed == 0 || ltb max_name_len (length trimmed)
          then (err invalid_name, db)
          else if valid scope
          then issue user trimmed scope ttl suffix now db
          else (err invalid_scope, db))
      else (err forbidden, db)

  unfoldable pub verify : Bytes → ℕ → Db → Result VerifiedToken
  unfolding verify_found
  verify raw now db =
      if has_prefix raw token_prefix
      then verify_found (hash_token raw) now db (Repo.find_by_hash (hash_token raw) db)
      else err invalid_token
