-- ===== src/Admin/Locking.antt =====
-- What the locking and the unlocking of an account leave: backend/internal/auth/admin_handler.go.
use crapnote.Base.{ℕ, ◌≡◌, ◌≢◌, refl, false, some, ◌==◌, String, arith, inl, inr, Bool-cases}
use crapnote.Base.Outcome.{ok, query}
use crapnote.Base.Table.{exists, exists-delete_own}
use crapnote.Db.{User}
use crapnote.Http.{sends, respond, given, stop_if, authenticated}
use crapnote.Http.Rules.{after-sends, failing-fails, not_found_as-fails}
use crapnote.Auth.Users
use crapnote.Auth.Service.{Crypto, Config, World, on_db}
use crapnote.Auth.Account.{revoke_user_sessions, validate_session, ignoring}
use crapnote.Auth.Validation.{validate_session-none}
use crapnote.Lockout.{lockout_username}
use crapnote.Lockout.Confined.{locked_count-clear_username}
use crapnote.Auth.Login.{automatic_lockout_count, clear_automatic_lockouts}
use crapnote.Auth.Rewritten.{unlock-found_by}
use crapnote.Admin.{UserResponse, to_user_response}
use crapnote.Admin.Accounts.{lock_user, lock_other, unlock_user, clear_and_send}

module _ (crypto : Crypto) (cfg : Config) where
  -- A lock that is answered with the user got past the write and past the end of the sessions.
  lock_other-sessions :
      (id now status : ℕ) (w : World) (u : UserResponse)
      → (lock_other crypto cfg id now w).0 ≡ sends status u
      → exists (λ s. s.user_id == id) (lock_other crypto cfg id now w).1.db.sessions ≡ false
  unfolding lock_other revoke_user_sessions respond
  lock_other-sessions id now status w u h =
      let (_, _, h1, s1) =
        after-sends (on_db (Users.lock id now)) _ _ w status u (not_found_as-fails _) h in
      let w1 = (on_db (Users.lock id now) w).1 in
      let (_, _, h2, s2) =
        after-sends (on_db (ignoring (revoke_user_sessions id))) _ _ w1 status u failing-fails h1 in
      let w2 = (on_db (ignoring (revoke_user_sessions id)) w1).1 in
      let (_, _, h3, s3) = after-sends _ _ _ w2 status u failing-fails h2 in
      rw (s1, s2, s3) (exists-delete_own (λ s. s.user_id == id) w1.db.sessions)

  -- In the state that a lock by an administrator left, if the administrator got the user as the reply,
  -- no session id is accepted for the locked account, at any time; and the account is not the
  -- administrator's own.
  pub lock_user-revokes :
      (admin : User) (id now status : ℕ) (w : World) (reply : UserResponse) (session_id : String)
      (later : ℕ) (u : User)
      → (lock_user crypto cfg (some admin) (some id) now w).0 ≡ sends status reply
      → (validate_session session_id later
          (lock_user crypto cfg (some admin) (some id) now w).1.db).0
        ≡ ok u
      → (u.id ≢ id) × (admin.id ≢ id)
  unfolding lock_user given stop_if authenticated
  lock_user-revokes admin id now status w reply session_id later u h accepted =
      elim (Bool-cases (id == admin.id)) [
        | inl own ↦ let h' = rw own at h in absurd (cc h')
        | inr other ↦
            let closed = lock_other-sessions id now status w reply (rw other at h) in
            (
              validate_session-none session_id id later (lock_other crypto cfg id now w).1.db u
                  closed (rw other at accepted),
              ground arith,
            )
      ]

  sent :
      (now : ℕ) (u : User) (w : World) (status : ℕ) (reply : UserResponse)
      → (clear_and_send crypto cfg now u w).0 ≡ sends status reply
      → (reply.id ≡ u.id)
        × (reply.locked ≡ Users.is_locked u now)
        × (reply.active_cooldowns
            ≡ automatic_lockout_count crypto cfg u.username now
                (clear_automatic_lockouts crypto cfg u.username w))
  unfolding respond to_user_response
  sent now u w status reply h = (cc h, cc h, cc h)

  -- The user that an unlock by an administrator replies with has the id of the request; neither a
  -- lock nor a cooldown of any address holds it.
  pub unlock_user-frees :
      (admin : User) (id now status : ℕ) (w : World) (reply : UserResponse)
      → (unlock_user crypto cfg (some admin) (some id) now w).0 ≡ sends status reply
      → (reply.id ≡ id) × (reply.locked ≡ false) × (reply.active_cooldowns ≡ 0)
  unfolding unlock_user authenticated given Users.is_locked automatic_lockout_count
      clear_automatic_lockouts
  unlock_user-frees admin id now status w reply h =
      let (_, _, h1, _) =
        after-sends (on_db (Users.unlock id)) _ _ w status reply (not_found_as-fails _) h in
      let w1 = (on_db (Users.unlock id) w).1 in
      let (u, found, h2, _) =
        after-sends (on_db (query (Users.find_by_id id))) _ _ w1 status reply failing-fails h1 in
      let (mine, free, _, _, _) = unlock-found_by id w.db u found in
      let (a, b, c) = sent now u w1 status reply h2 in
      let none_left =
        locked_count-clear_username (lockout_username crypto.sha256 crypto.to_lower u.username)
          (lockout_username crypto.sha256 crypto.to_lower u.username) now w1.attempts in
      (rw (a, mine) refl, rw (b, free) refl, rw (c, none_left) (ground arith))
