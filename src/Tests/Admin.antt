-- ===== src/Tests/Admin.antt =====
-- An administrator locks an account, unlocks it, and keeps the own account.
use crapnote.Base.{arith, ℕ, List, true, some, [], ◌∷◌, ◌≡◌, ◌≢◌, refl}
use crapnote.Base.Outcome.{ok}
use crapnote.Base.Table.{first, exists, delete, count, update}
use crapnote.Db.{User, current_timestamp}
use crapnote.Http.{sends, respond, after, given, stop_if, authenticated}
use crapnote.Lockout.{locked_count, clear_username}
use crapnote.Auth.Users
use crapnote.Auth.Sessions
use crapnote.Auth.Service.{World}
use crapnote.Auth.Account.{validate_session, revoke_user_sessions}
use crapnote.Auth.Login.{automatic_lockout_count, clear_automatic_lockouts}
use crapnote.Admin.{to_user_response, base_user_response}
use crapnote.Admin.Accounts.{lock_user, lock_other, unlock_user}
use crapnote.Admin.Calls.{AdminCall, act_run, act_run-keeps_caller}
use crapnote.Admin.Keeping.{is_active_admin}
use crapnote.Admin.Locking.{lock_user-revokes}
use crapnote.Tests.{plain, policy, alice, store, world}

abbrev root : User
root = record alice { id = 3; username = "root"; is_admin = true }

abbrev bob : User
bob = record alice { id = 2; username = "bob" }

abbrev house : World
house = record world {
  db = record store {
    users = root ∷ bob ∷ [];
    user_seq = 3;
    sessions =
        record { id = "s3"; user_id = 3; expires_at = 500; created_at = 0 }
        ∷ record { id = "s2"; user_id = 2; expires_at = 500; created_at = 0 }
        ∷ [];
  };
}

locked_bob :
    (lock_user plain policy (some root) (some 2) 40 house).0
    ≡ sends 200 (to_user_response plain policy 40 house (record bob { locked_at = some 0 }))
unfolding lock_user lock_other authenticated given stop_if after respond to_user_response Users.lock
    Users.find_by_id Users.is_locked revoke_user_sessions first count update delete
    current_timestamp automatic_lockout_count
locked_bob = refl

root_still :
    (validate_session "s3" 42 (lock_user plain policy (some root) (some 2) 40 house).1.db).0
    ≡ ok root
unfolding validate_session lock_user lock_other authenticated given stop_if after respond Users.lock
    Users.find_by_id Users.is_locked revoke_user_sessions first count update delete
    current_timestamp Sessions.find
root_still = refl

lock_user-revokes_example : (root.id ≢ 2) × (root.id ≢ 2)
lock_user-revokes_example =
    lock_user-revokes plain policy root 2 40 200 house
      (to_user_response plain policy 40 house (record bob { locked_at = some 0 })) "s3" 42 root
      locked_bob root_still

-- Locked, and locked out from two addresses.
abbrev shut : World
shut = (lock_user plain policy (some root) (some 2) 40 house).1

freed :
    (unlock_user plain policy (some root) (some 2) 41 shut).0
    ≡ sends 200 (base_user_response 41 bob)
unfolding lock_user lock_other unlock_user authenticated given stop_if after respond
    to_user_response Users.lock Users.unlock Users.find_by_id Users.is_locked revoke_user_sessions
    first count update delete current_timestamp automatic_lockout_count clear_automatic_lockouts
    locked_count clear_username
freed = refl

-- The call on the own account is refused, the other one is not.
abbrev calls : List (ℕ × AdminCall)
calls = (40, AdminCall.locks (some 3)) ∷ (41, AdminCall.deletes (some 2)) ∷ []

root_there : exists (is_active_admin 90 3) house.db.users ≡ true
unfolding exists Users.is_locked
root_there = refl

act_run-keeps_caller_example :
    exists (is_active_admin 90 3) (act_run plain policy root calls house).db.users ≡ true
act_run-keeps_caller_example =
    act_run-keeps_caller plain policy root 90 calls house root_there (omega arith)
