-- ===== src/Auth/Handler.antt =====
-- backend/internal/auth/handler.go and setup_handler.go. The audit log is left out.
use crapnote.Base.{
  ℕ, Bool, true, ◌&&◌, ◌||◌, Option, none, some, String, str_eq, ltb, if◌then◌else◌,
}
use crapnote.Base.Outcome.{
  Result, ok, err, Error, invalid_credentials, account_locked, account_cooldown, invite_invalid,
  query,
}
use crapnote.Db.{Db, User, Invite}
use crapnote.Http.{
  Reply, sends, fails, Handler, authenticated, given, stop_if, after, respond, failing,
  not_found_as, write_error, internal_error, no_content, byte_length,
}
use crapnote.Auth.Users
use crapnote.Auth.Invites
use crapnote.Auth.Service.{Crypto, Config, World}
use crapnote.Auth.Login
use crapnote.Auth.Account
use crapnote.Auth.Account.{ignoring}

-- A body that is larger than the limit of MaxBytesReader, one that does not decode, or what it holds.
pub data Body (A : Type 0) : Type 0 where
  too_large : Body A
  malformed : Body A
  decoded : A → Body A

-- 4 << 10
abbrev pub max_login_body_bytes : ℕ
max_login_body_bytes = 4096

abbrev pub with_body : {S A B : Type 0} → Body B → (B → Handler S A) → Handler S A
with_body too_large h = respond (λ _. write_error 413 "request body too large")
with_body malformed h = respond (λ _. write_error 400 "invalid request body")
with_body (decoded b) h = h b

-- Whether the request came over TLS, whether the proxy is trusted, and X-Forwarded-Proto.
pub record Transport : Type 0 where
  pub tls : Bool
  pub proxy_trusted : Bool
  pub forwarded_proto : String

unfoldable pub is_https : Transport → Bool
is_https t = t.tls || (t.proxy_trusted && str_eq t.forwarded_proto "https")

pub record LoginRequest : Type 0 where
  pub username : String
  pub password : String

pub record UserInfo : Type 0 where
  pub id : ℕ
  pub username : String
  pub is_admin : Bool
  pub api_tokens_enabled : Bool
  pub created_at : ℕ

abbrev pub user_info : User → UserInfo
user_info u = record {
  id = u.id;
  username = u.username;
  is_admin = u.is_admin;
  api_tokens_enabled = u.api_tokens_enabled;
  created_at = u.created_at;
}

-- The session cookie, and the user or else {"status": "ok"}.
pub record LoginResponse : Type 0 where
  pub cookie : String
  pub expires : ℕ
  pub secure : Bool
  pub user : Option UserInfo

abbrev pub found_info : Result User → Option UserInfo
found_info (ok u) = some (user_info u)
found_info (err e) = none

abbrev pub login_failure : {A : Type 0} → Error → Reply A
login_failure invalid_credentials = write_error 401 "invalid credentials"
login_failure account_cooldown = fails 403 "too many failed login attempts" "login_cooldown"
login_failure account_locked = fails 403 "account locked" "account_locked"
login_failure _ = internal_error

-- min_password_len of admin_handler.go
abbrev pub short_password : String → Bool
short_password password = ltb (byte_length password) 12

abbrev pub refuse_short : {A : Type 0} → Reply A
refuse_short = write_error 400 "password must be at least 12 characters"

module _ (crypto : Crypto) (cfg : Config) where
  unfoldable pub login :
      Transport → String → Body LoginRequest → Option String → ℕ → Handler World LoginResponse
  login transport client_ip body session_id now = with_body body (λ req.
      after (Login.login crypto cfg req.username req.password client_ip session_id now)
        login_failure
        (λ s. respond (λ w. sends 200 (record {
          cookie = s.id;
          expires = s.expires_at;
          secure = is_https transport;
          user = found_info (Users.find_by_id s.user_id w.db);
        }))))

-- The cookie of the request; the reply clears it.
unfoldable pub logout : Option String → Handler Db (Unit {0})
logout none = respond (λ _. no_content)
logout (some session_id) =
    after (ignoring (Account.logout session_id)) failing (λ done. respond (λ _. no_content))

unfoldable pub me : Option User → Handler Db UserInfo
me caller = authenticated caller (λ u. respond (λ _. sends 200 (user_info u)))

pub record SetupInfo : Type 0 where
  pub username : String
  pub expires_at : ℕ

abbrev pub setup_failure : {A : Type 0} → Error → Reply A
setup_failure invite_invalid = write_error 404 "setup link invalid or expired"
setup_failure _ = internal_error

module _ (crypto : Crypto) where
  unfoldable pub change_password : Option User → Option String → ℕ → Bool → Handler Db (Unit {0})
  change_password caller body salt lost = authenticated caller (λ u.
      given body "invalid request body" (λ password.
        stop_if (short_password password) refuse_short (
          after (Account.change_password crypto u.id password salt lost) failing
            (λ done. respond (λ _. no_content)))))

  -- Get with the invite of the token.
  unfoldable pub show_invite : ℕ → Invite → Handler Db SetupInfo
  show_invite now inv db =
      if ltb inv.expires_at now
      then (write_error 404 "setup link invalid or expired", (Invites.delete inv.id db).1)
      else after (query (Users.find_by_id inv.user_id)) failing
          (λ u.
            respond
              (λ _. sends 200 (record { username = u.username; expires_at = inv.expires_at })))
          db

  unfoldable pub get_setup : String → ℕ → Handler Db SetupInfo
  get_setup token now =
      stop_if (str_eq token "") (write_error 404 "setup link invalid or expired") (
        after (query (Invites.find_by_token_hash (crypto.hash_invite_token token)))
          (not_found_as "setup link invalid or expired") (show_invite now))

  unfoldable pub complete_setup : String → Body String → ℕ → ℕ → Bool → Handler Db (Unit {0})
  complete_setup token body salt now lost = with_body body (λ password.
      stop_if (short_password password) refuse_short (
        after (Account.complete_setup crypto true token password salt now lost) setup_failure
          (λ u. respond (λ _. no_content))))
