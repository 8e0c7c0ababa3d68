-- ===== src/Tokens/Handler.antt =====
-- backend/internal/tokens/handler.go. The audit log is left out.
use crapnote.Base.{
  ℕ, zero, suc, ◌-◌, ◌*◌, ◌%◌, ◌^◌, Option, some, List, map, ltb, String, if◌then◌else◌,
}
use crapnote.Base.Ints.{ℤ, pos, negsuc}
use crapnote.Base.Outcome.{Error, forbidden, invalid_name, invalid_scope}
use crapnote.Db.{Db, Bytes, User, Token, Scope, second}
use crapnote.Http.{
  Reply, sends, Handler, authenticated, given, after, respond, failing, not_found_as, write_error,
  internal_error, no_content,
}
use crapnote.Tokens.Service
use crapnote.Tokens.Service.{CreatedToken}

pub record TokenResponse : Type 0 where
  pub id : ℕ
  pub name : Bytes
  pub prefix : Bytes
  pub scope : Scope
  pub last_used_at : Option ℕ
  pub expires_at : Option ℕ
  pub revoked_at : Option ℕ
  pub created_at : ℕ

abbrev pub to_token_response : Token → TokenResponse
to_token_response t = record {
  id = t.id;
  name = t.name;
  prefix = t.prefix;
  scope = t.scope;
  last_used_at = t.last_used_at;
  expires_at = t.expires_at;
  revoked_at = t.revoked_at;
  created_at = t.created_at;
}

pub record TokenRequest : Type 0 where
  pub name : Bytes
  pub scope : Scope
  pub ttl_days : ℤ

-- A product of 64-bit signed integers, from its value below 2^64.
unfoldable pub signed : ℕ → ℤ
signed m = if ltb m (2 ^ 63) then pos m else negsuc (2 ^ 64 - 1 - m)

-- 24 * time.Hour
abbrev pub day : ℕ
day = 86_400 * second

-- The lifetime that Create asks for: time.Duration wraps around.
unfoldable pub ttl_of_days : ℤ → ℤ
ttl_of_days (pos zero) = pos 0
ttl_of_days (pos (suc n)) = signed (suc n * day % 2 ^ 64)
ttl_of_days (negsuc n) = negsuc 0

pub record TokenCreated : Type 0 where
  pub response : TokenResponse
  pub token : Bytes

abbrev pub create_failure : {A : Type 0} → Error → Reply A
create_failure forbidden = write_error 403 "api tokens not permitted for this user"
create_failure invalid_name = write_error 400 "invalid token name"
create_failure invalid_scope = write_error 400 "invalid scope (want read or read_write)"
create_failure _ = internal_error

unfoldable pub list_tokens : Option User → Handler Db (List TokenResponse)
list_tokens caller =
    authenticated caller
      (λ u. respond (λ db. sends 200 (map to_token_response (Service.list u.id db))))

unfoldable pub create_token :
    (Bytes → String)
    → (Bytes → Bytes)
    → Option User
    → Option TokenRequest
    → Option Bytes
    → ℕ
    → Handler Db TokenCreated
create_token hash_token trim_space caller body drawn now = authenticated caller (λ u.
    given body "invalid request body" (λ req.
      after
        (Service.create hash_token trim_space (some u) req.name req.scope (ttl_of_days req.ttl_days)
          drawn now)
        create_failure
        (λ c.
          respond (λ _.
            sends 201 (record { response = to_token_response c.token; token = c.raw_token })))))

unfoldable pub revoke_token : Option User → Option ℕ → ℕ → Handler Db (Unit {0})
revoke_token caller path now = authenticated caller (λ u. given path "invalid token id" (λ id.
    after (Service.revoke u.id id now) (not_found_as "token not found")
      (λ done. respond (λ _. no_content))))

unfoldable pub revoke_all_tokens : Option User → ℕ → Handler Db (Unit {0})
revoke_all_tokens caller now =
    authenticated caller
      (λ u. after (Service.revoke_all u.id now) failing (λ done. respond (λ _. no_content)))
