-- ===== src/Admin/Calls.antt =====
-- The calls of the admin area, one after another: backend/internal/auth/admin_handler.go.
use crapnote.Base.{ℕ, ◌≤◌, ◌≡◌, Bool, true, Option, some, String, List, [], ◌∷◌}
use crapnote.Base.Table.{exists}
use crapnote.Db.{User}
use crapnote.Http.{respond}
use crapnote.Http.Rules.{Keeps, step_rules, handler_rules}
use crapnote.Auth.Service.{Crypto, Config, World}
use crapnote.Auth.Login.{clear_automatic_lockouts}
use crapnote.Admin.{Origin, CreateUserRequest, InviteUserRequest, create_user, invite_user}
use crapnote.Admin.Accounts.{
  regenerate_invite, set_api_tokens_enabled, set_user_password, reset_password, lock_user,
  lock_other, unlock_user, clear_cooldowns, delete_user, clear_and_send,
}
use crapnote.Admin.Keeping.{
  is_active_admin, InWorld, create_user-Keeps, invite_user-Keeps, create_invite-InWorld,
  or_fail-InWorld, revoke-InWorld, set_api_tokens_enabled-InWorld, set_password-InWorld,
  unlock-InWorld, ignored-InWorld, lock-InWorld, delete-InWorld,
}

-- A request of the admin area, with what its handler draws at random.
pub data AdminCall : Type 0 where
  creates : Option CreateUserRequest → ℕ → AdminCall
  invites : Option InviteUserRequest → Origin → Option String → Option String → ℕ → AdminCall
  regenerates : Option ℕ → Origin → Option String → AdminCall
  allows_tokens : Option ℕ → Option Bool → AdminCall
  resets : Option ℕ → Option String → ℕ → AdminCall
  locks : Option ℕ → AdminCall
  unlocks : Option ℕ → AdminCall
  clears : Option ℕ → AdminCall
  deletes : Option ℕ → AdminCall

module _ (crypto : Crypto) (cfg : Config) where
  -- The state after the call of a caller.
  unfoldable pub act : User → ℕ → AdminCall → World → World
  act caller now (creates body salt) w = (create_user crypto cfg body salt now w).1
  act caller now (invites body origin seed drawn salt) w =
      (invite_user crypto cfg (some caller) body origin seed drawn salt now w).1
  act caller now (regenerates path origin drawn) w =
      (regenerate_invite crypto cfg (some caller) path origin drawn now w).1
  act caller now (allows_tokens path body) w =
      (set_api_tokens_enabled crypto cfg (some caller) path body now w).1
  act caller now (resets path body salt) w =
      (set_user_password crypto cfg (some caller) path body salt w).1
  act caller now (locks path) w = (lock_user crypto cfg (some caller) path now w).1
  act caller now (unlocks path) w = (unlock_user crypto cfg (some caller) path now w).1
  act caller now (clears path) w = (clear_cooldowns crypto cfg (some caller) path now w).1
  act caller now (deletes path) w = (delete_user crypto cfg (some caller) path w).1

  -- The state after the calls of one caller, one after another.
  unfoldable pub act_run : User → List (ℕ × AdminCall) → World → World
  unfolding act
  act_run caller [] w = w
  act_run caller ((now, c) ∷ calls) w = act_run caller calls (act caller now c w)

  module _ (caller : User) (time : ℕ) where
    regenerate_invite-Keeps :
        (path : Option ℕ) (origin : Origin) (drawn : Option String) (now : ℕ)
        → Keeps
            (InWorld time caller.id)
            (regenerate_invite crypto cfg (some caller) path origin drawn now)
    unfolding regenerate_invite
    regenerate_invite-Keeps path origin drawn now =
        search (handler_rules, create_invite-InWorld crypto cfg caller time) depth 14

    set_api_tokens_enabled-Keeps :
        (path : Option ℕ) (body : Option Bool) (now : ℕ)
        → Keeps
            (InWorld time caller.id)
            (set_api_tokens_enabled crypto cfg (some caller) path body now)
    unfolding set_api_tokens_enabled
    set_api_tokens_enabled-Keeps path body now =
        search (handler_rules, set_api_tokens_enabled-InWorld crypto cfg caller time) depth 14

    set_user_password-Keeps :
        (path : Option ℕ) (body : Option String) (salt : ℕ)
        → Keeps (InWorld time caller.id) (set_user_password crypto cfg (some caller) path body salt)
    unfolding set_user_password reset_password
    set_user_password-Keeps path body salt =
        search
          (
            handler_rules,
            or_fail-InWorld crypto cfg caller time,
            set_password-InWorld crypto cfg caller time,
            ignored-InWorld crypto cfg caller time,
            revoke-InWorld crypto cfg caller time,
          )
          depth 16

    clear_and_send-Keeps :
        (now : ℕ) (u : User) → Keeps (InWorld time caller.id) (clear_and_send crypto cfg now u)
    unfolding respond clear_automatic_lockouts
    clear_and_send-Keeps now u = record { kept = λ w h. h }

    unlock_user-Keeps :
        (path : Option ℕ) (now : ℕ)
        → Keeps (InWorld time caller.id) (unlock_user crypto cfg (some caller) path now)
    unfolding unlock_user
    unlock_user-Keeps path now =
        search (handler_rules, unlock-InWorld crypto cfg caller time, clear_and_send-Keeps) depth 14

    clear_cooldowns-Keeps :
        (path : Option ℕ) (now : ℕ)
        → Keeps (InWorld time caller.id) (clear_cooldowns crypto cfg (some caller) path now)
    unfolding clear_cooldowns
    clear_cooldowns-Keeps path now = search (handler_rules, clear_and_send-Keeps) depth 14

    -- An administrator can neither lock nor delete the account of the call.
    lock_user-Keeps :
        (path : Option ℕ) (now : ℕ)
        → Keeps (InWorld time caller.id) (lock_user crypto cfg (some caller) path now)
    unfolding lock_user lock_other
    lock_user-Keeps path now =
        search
          (step_rules, lock-InWorld crypto cfg caller time, revoke-InWorld crypto cfg caller time)
          depth 16

    delete_user-Keeps :
        (path : Option ℕ)
        → Keeps (InWorld time caller.id) (delete_user crypto cfg (some caller) path)
    unfolding delete_user
    delete_user-Keeps path = search (step_rules, delete-InWorld crypto cfg caller time) depth 16

    act-InWorld :
        (now : ℕ) (c : AdminCall) (w : World)
        → InWorld time caller.id w
        → InWorld time caller.id (act caller now c w)
    unfolding act
    act-InWorld now (creates body salt) w =
        (create_user-Keeps crypto cfg caller time body salt now).kept w
    act-InWorld now (invites body origin seed drawn salt) w =
        (invite_user-Keeps crypto cfg caller time (some caller) body origin seed drawn salt
            now).kept
          w
    act-InWorld now (regenerates path origin drawn) w =
        (regenerate_invite-Keeps path origin drawn now).kept w
    act-InWorld now (allows_tokens path body) w =
        (set_api_tokens_enabled-Keeps path body now).kept w
    act-InWorld now (resets path body salt) w = (set_user_password-Keeps path body salt).kept w
    act-InWorld now (locks path) w = (lock_user-Keeps path now).kept w
    act-InWorld now (unlocks path) w = (unlock_user-Keeps path now).kept w
    act-InWorld now (clears path) w = (clear_cooldowns-Keeps path now).kept w
    act-InWorld now (deletes path) w = (delete_user-Keeps path).kept w

    act_run-InWorld :
        (calls : List (ℕ × AdminCall)) (w : World)
        → InWorld time caller.id w
        → InWorld time caller.id (act_run caller calls w)
    unfolding act_run
    act_run-InWorld [] w h = h
    act_run-InWorld ((now, c) ∷ calls) w h =
        act_run-InWorld calls (act caller now c w) (act-InWorld now c w h)

    -- Whatever calls to the admin area one administrator makes, one after another, with no gate between them:
    -- where the row of the caller, under an id that was given out, is an administrator's that no lock holds at a time,
    -- it still is after them. So the caller's own account is never deleted, demoted or locked by these calls.
    pub act_run-keeps_caller :
        (calls : List (ℕ × AdminCall)) (w : World)
        → exists (is_active_admin time caller.id) w.db.users ≡ true
        → caller.id ≤ w.db.user_seq
        → exists (is_active_admin time caller.id) (act_run caller calls w).db.users ≡ true
    act_run-keeps_caller calls w there low = (act_run-InWorld calls w (there, low)).0
