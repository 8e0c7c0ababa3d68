-- ===== src/Admin.antt =====
-- backend/internal/auth/admin_handler.go. A request is what its handler reads of it: the user of the
-- context, the decoded body and the id of the path, each `none` where it is missing or does not parse.
-- Ids start at 1; a negative id of a path is handed over as 0. The audit log is left out.
pub mod Accounts
pub mod Keeping
pub mod Calls
pub mod Locking
use Prim.Native.String.{◌++◌ as str_append}
use crapnote.Base.{
  ℕ, ◌+◌, ◌*◌, Bool, true, false, not, ◌&&◌, ◌||◌, Option, none, some, List, [], ◌∷◌, map, ◌==◌,
  ltb, String, str_eq, if◌then◌else◌,
}
use crapnote.Base.Ints.{ℤ}
use crapnote.Base.Outcome.{Result, ok, err, Error, hash_failed, randomness, Op, done, query}
use crapnote.Db.{Db, User, Invite, second}
use crapnote.Http.{
  Reply, sends, respond, Handler, authenticated, given, stop_if, after, send, failing, not_found_as,
  write_error, internal_error, no_content, byte_length,
}
use crapnote.Http.Page.{Page}
use crapnote.Auth.Users
use crapnote.Auth.Service.{Crypto, Config, World, on_db}
use crapnote.Auth.Login.{clear_automatic_lockouts, automatic_lockout_count}
use crapnote.Auth.Account.{
  create_invite, revoke_user_sessions, has_active_invite, ignoring, or_fail,
}

abbrev pub min_password_len : ℕ
min_password_len = 12

-- 7 * 24 * time.Hour
abbrev pub invite_ttl : ℕ
invite_ttl = 7 * (24 * (3600 * second))

-- Times stand for their texts.
pub record UserResponse : Type 0 where
  pub id : ℕ
  pub username : String
  pub is_admin : Bool
  pub api_tokens_enabled : Bool
  pub locked : Bool
  pub locked_at : Option ℕ
  pub pending_setup : Bool
  pub active_cooldowns : ℕ
  pub created_at : ℕ

abbrev pub base_user_response : ℕ → User → UserResponse
base_user_response now u = record {
  id = u.id;
  username = u.username;
  is_admin = u.is_admin;
  api_tokens_enabled = u.api_tokens_enabled;
  locked = Users.is_locked u now;
  locked_at = if Users.is_locked u now then u.locked_at else none;
  pending_setup = false;
  active_cooldowns = 0;
  created_at = u.created_at;
}

pub record CreateUserRequest : Type 0 where
  pub username : String
  pub password : String
  pub is_admin : Bool

pub record InviteUserRequest : Type 0 where
  pub username : String
  pub is_admin : Bool

pub record InviteResponse : Type 0 where
  pub user : UserResponse
  pub setup_url : String
  pub expires_at : ℕ

-- Whether the request came over TLS, its X-Forwarded-Proto, and its Host.
pub record Origin : Type 0 where
  pub tls : Bool
  pub forwarded_proto : String
  pub host : String

unfoldable pub build_setup_url : Origin → String → String
build_setup_url o raw =
    let scheme = if not o.tls && not (str_eq o.forwarded_proto "https") then "http" else "https" in
    let host = if str_eq o.host "" then "localhost" else o.host in
    str_append (str_append (str_append (str_append scheme "://") host) "/setup/") raw

module _ (crypto : Crypto) (cfg : Config) where
  unfoldable pub to_user_response : ℕ → World → User → UserResponse
  to_user_response now w u = record (base_user_response now u) {
    active_cooldowns = automatic_lockout_count crypto cfg u.username now w;
  }

  unfoldable pub to_user_response_with_setup : ℕ → World → User → UserResponse
  unfolding to_user_response
  to_user_response_with_setup now w u = record (to_user_response now w u) {
    pending_setup = has_active_invite cfg.has_invites u.id now w.db;
  }

  -- The reply with a user as the state has it.
  abbrev pub send_user : ℕ → ℕ → User → Handler World UserResponse
  send_user status now u = respond (λ w. sends status (to_user_response now w u))

  abbrev pub read_user :
      ℕ
      → (Error → Reply UserResponse)
      → (User → Handler World UserResponse)
      → Handler World UserResponse
  read_user id bad k = after (on_db (query (Users.find_by_id id))) bad k

  unfoldable pub list_users : Page → ℕ → Handler World (List UserResponse)
  list_users p now =
      respond (λ w.
        sends 200 (map (to_user_response_with_setup now w) (Users.list p.limit p.offset w.db)))

  -- CreateUser behind the decoding of its body.
  unfoldable pub create_user_checked : CreateUserRequest → ℕ → ℕ → Handler World UserResponse
  create_user_checked req salt now =
      stop_if (str_eq req.username "" || str_eq req.password "")
        (write_error 400 "username and password are required")
        (stop_if (ltb (byte_length req.password) min_password_len)
          (write_error 400 "password must be at least 12 characters")
          (after (on_db (or_fail (crypto.generate_hash salt req.password) hash_failed)) failing
            (λ hash.
              after (on_db (Users.create req.username hash req.is_admin now)) failing
                (send_user 201 now))))

  unfoldable pub create_user : Option CreateUserRequest → ℕ → ℕ → Handler World UserResponse
  unfolding create_user_checked
  create_user body salt now =
      given body "invalid request body" (λ req. create_user_checked req salt now)

  abbrev pub invite_response :
      ℕ → Origin → ℕ → User → String × Invite → Handler World InviteResponse
  invite_response status origin now u drawn = respond (λ w. sends status (record {
    user = to_user_response_with_setup now w u;
    setup_url = build_setup_url origin drawn.0;
    expires_at = now + invite_ttl;
  }))

  -- A half-created user is dropped again.
  abbrev pub invited :
      Origin → ℕ → User → Result (String × Invite) × World → Reply InviteResponse × World
  invited origin now u (ok drawn, w) = invite_response 201 origin now u drawn w
  invited origin now u (err e, w) = (internal_error, (on_db (Users.delete u.id) w).1)

  abbrev pub make_invite : Origin → Option String → ℕ → User → Handler World InviteResponse
  make_invite origin drawn now u w =
      invited origin now u
        (on_db (create_invite crypto cfg.has_invites u.id drawn invite_ttl now) w)

  -- InviteUser behind the decoding of its body: `seed` and `drawn` are the random texts.
  unfoldable pub invite_user_checked :
      InviteUserRequest
      → Origin
      → Option String
      → Option String
      → ℕ
      → ℕ
      → Handler World InviteResponse
  invite_user_checked req origin seed drawn salt now =
      stop_if (str_eq req.username "") (write_error 400 "username is required") (
        after (on_db (or_fail seed randomness)) failing (λ text.
          after (on_db (or_fail (crypto.generate_hash salt text) hash_failed)) failing (λ hash.
            after (on_db (Users.create req.username hash req.is_admin now)) failing
              (make_invite origin drawn now))))

  unfoldable pub invite_user :
      Option User
      → Option InviteUserRequest
      → Origin
      → Option String
      → Option String
      → ℕ
      → ℕ
      → Handler World InviteResponse
  unfolding invite_user_checked
  invite_user caller body origin seed drawn salt now = authenticated caller (λ admin.
      stop_if (not cfg.has_invites) (write_error 500 "invite flow not configured") (
        given body "invalid request body"
          (λ req. invite_user_checked req origin seed drawn salt now)))
