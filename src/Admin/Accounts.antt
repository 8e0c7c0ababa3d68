-- ===== src/Admin/Accounts.antt =====
-- backend/internal/auth/admin_handler.go, the handlers of one account by its id.
use crapnote.Base.{ℕ, Bool, not, Option, ◌==◌, ltb, String}
use crapnote.Base.Outcome.{hash_failed, query}
use crapnote.Db.{User}
use crapnote.Http.{
  respond, Handler, authenticated, given, stop_if, after, failing, not_found_as, write_error,
  no_content, byte_length,
}
use crapnote.Auth.Users
use crapnote.Auth.Service.{Crypto, Config, World, on_db}
use crapnote.Auth.Login.{clear_automatic_lockouts}
use crapnote.Auth.Account.{create_invite, revoke_user_sessions, ignoring, or_fail}
use crapnote.Admin.{
  Origin, UserResponse, InviteResponse, invite_response, invite_ttl, send_user, read_user,
  min_password_len,
}

-- The id of the path, for a caller that the context names.
abbrev pub by_id :
    {A : Type 0} → Option User → Option ℕ → (User → ℕ → Handler World A) → Handler World A
by_id caller path h = authenticated caller (λ admin. given path "invalid user id" (h admin))

module _ (crypto : Crypto) (cfg : Config) where
  unfoldable pub regenerate_invite :
      Option User → Option ℕ → Origin → Option String → ℕ → Handler World InviteResponse
  regenerate_invite caller path origin drawn now = authenticated caller (λ admin.
      stop_if (not cfg.has_invites) (write_error 500 "invite flow not configured") (
        given path "invalid user id" (λ id.
          after (on_db (query (Users.find_by_id id))) (not_found_as "user not found") (λ u.
            after (on_db (create_invite crypto cfg.has_invites u.id drawn invite_ttl now)) failing
              (λ made. invite_response crypto cfg 200 origin now u made)))))

  unfoldable pub set_api_tokens_enabled :
      Option User → Option ℕ → Option Bool → ℕ → Handler World UserResponse
  set_api_tokens_enabled caller path body now = by_id caller path (λ admin id.
      given body "invalid request body" (λ enabled.
        after (on_db (Users.set_api_tokens_enabled id enabled)) (not_found_as "user not found")
          (λ done. read_user crypto cfg id failing (send_user crypto cfg 200 now))))

  -- SetUserPassword behind the decoding of its body.
  unfoldable pub reset_password : ℕ → String → ℕ → Handler World (Unit {0})
  reset_password id password salt =
      stop_if (ltb (byte_length password) min_password_len)
        (write_error 400 "password must be at least 12 characters")
        (after (on_db (or_fail (crypto.generate_hash salt password) hash_failed)) failing (λ hash.
          after (on_db (Users.set_password id hash)) (not_found_as "user not found") (λ done.
            after (on_db (ignoring (Users.unlock id))) failing (λ done.
              after (on_db (ignoring (revoke_user_sessions id))) failing
                (λ done. respond (λ _. no_content))))))

  unfoldable pub set_user_password :
      Option User → Option ℕ → Option String → ℕ → Handler World (Unit {0})
  unfolding reset_password
  set_user_password caller path body salt =
      by_id caller path (λ admin id.
        given body "invalid request body" (λ password. reset_password id password salt))

  -- LockUser and DeleteUser of an id that is not the caller's.
  unfoldable pub lock_other : ℕ → ℕ → Handler World UserResponse
  lock_other id now = after (on_db (Users.lock id now)) (not_found_as "user not found") (λ done.
      after (on_db (ignoring (revoke_user_sessions id))) failing
        (λ done. read_user crypto cfg id failing (send_user crypto cfg 200 now)))

  unfoldable pub lock_user : Option User → Option ℕ → ℕ → Handler World UserResponse
  unfolding lock_other
  lock_user caller path now = by_id caller path (λ admin id.
      stop_if (id == admin.id) (write_error 400 "cannot lock yourself") (lock_other id now))

  abbrev pub clear_and_send : ℕ → User → Handler World UserResponse
  clear_and_send now u w =
      send_user crypto cfg 200 now u (clear_automatic_lockouts crypto cfg u.username w)

  unfoldable pub unlock_user : Option User → Option ℕ → ℕ → Handler World UserResponse
  unlock_user caller path now = by_id caller path (λ admin id.
      after (on_db (Users.unlock id)) (not_found_as "user not found")
        (λ done. read_user crypto cfg id failing (clear_and_send now)))

  unfoldable pub clear_cooldowns : Option User → Option ℕ → ℕ → Handler World UserResponse
  clear_cooldowns caller path now =
      by_id caller path
        (λ admin id. read_user crypto cfg id (not_found_as "user not found") (clear_and_send now))

  unfoldable pub delete_user : Option User → Option ℕ → Handler World (Unit {0})
  delete_user caller path = by_id caller path (λ admin id.
      stop_if (id == admin.id) (write_error 400 "cannot delete yourself") (
        after (on_db (Users.delete id)) (not_found_as "user not found")
          (λ done. respond (λ _. no_content))))
