-- ===== src/Auth/Account.antt =====
-- backend/internal/auth/service.go: SeedAdmin, Logout, RevokeUserSessions, CreateInvite,
-- CompleteSetup, HasActiveInvite, ChangePassword and ValidateSession.
use crapnote.Base.{ℕ, ◌+◌, Bool, true, false, Option, none, some, String, if◌then◌else◌, ltb}
use crapnote.Base.Outcome.{
  Result, ok, err, Error, not_found, account_locked, invite_invalid, invites_not_configured,
  hash_failed, randomness, Op, done, query, ◌>>=◌, ◌>>◌,
}
use crapnote.Db.{Db, User, Session, Invite}
use crapnote.Auth.Users
use crapnote.Auth.Users.{find_by_id, unlock, set_password, count_users}
use crapnote.Auth.Sessions
use crapnote.Auth.Invites
use crapnote.Auth.Invites.{find_by_token_hash, has_active_for_user}
use crapnote.Auth.Service.{Crypto}

-- A call whose error the source ignores.
abbrev pub ignoring : {A : Type 0} → Op Db A → Op Db (Unit {0})
ignoring op db = done (op db).1

abbrev pub or_fail : {A : Type 0} → Option A → Error → Op Db A
or_fail none e db = (err e, db)
or_fail (some a) e db = (ok a, db)

unfoldable pub logout : String → Op Db (Unit {0})
unfolding Sessions.delete
logout session_id = Sessions.delete session_id

unfoldable pub revoke_user_sessions : ℕ → Op Db (Unit {0})
unfolding Sessions.delete_for_user
revoke_user_sessions user_id = Sessions.delete_for_user user_id

abbrev pub unless_lost : Bool → Db → Db → Db
unless_lost true before after = before
unless_lost false before after = after

-- RevokeUserSessions behind a change that is made already: where it fails, `lost`, the source logs that and goes
-- on.
abbrev pub revoke_or_log : Bool → ℕ → Op Db (Unit {0})
revoke_or_log lost user_id db = done (unless_lost lost db (revoke_user_sessions user_id db).1)

-- What ValidateSession does with the session's row and its user's.
unfoldable pub check_user : Session → ℕ → Result User → Op Db User
check_user s now (err e) db = (err e, db)
check_user s now (ok u) db =
    if Users.is_locked u now then (err account_locked, (Sessions.delete s.id db).1) else (ok u, db)

unfoldable pub check_session : ℕ → Result Session → Op Db User
unfolding check_user find_by_id
check_session now (err e) db = (err e, db)
check_session now (ok s) db =
    if ltb s.expires_at now
    then (err not_found, (Sessions.delete s.id db).1)
    else check_user s now (find_by_id s.user_id db) db

unfoldable pub validate_session : String → ℕ → Op Db User
unfolding check_session
validate_session session_id now db = check_session now (Sessions.find session_id db) db

module _ (crypto : Crypto) where
  open crypto use {hash_invite_token, generate_hash}

  unfoldable pub seed_admin : String → String → ℕ → ℕ → Op Db (Unit {0})
  seed_admin username password salt now db =
      if ltb 0 (count_users db)
      then done db
      else (do
        hash ← or_fail (generate_hash salt password) hash_failed
        Users.create username hash true now
        done)
          db

  -- CreateInvite: `drawn` is the raw token that generateInviteToken draws.
  unfoldable pub create_invite : Bool → ℕ → Option String → ℕ → ℕ → Op Db (String × Invite)
  create_invite false user_id drawn ttl now db = (err invites_not_configured, db)
  create_invite true user_id drawn ttl now db =
      (do
        Invites.delete_for_user user_id
        raw ← or_fail drawn randomness
        inv ← Invites.create user_id (hash_invite_token raw) (now + ttl) now
        query (λ _. ok (raw, inv)))
        db

  -- CompleteSetup after the invite was found.
  unfoldable pub consume_invite : Invite → String → ℕ → ℕ → Bool → Op Db User
  consume_invite inv new_password salt now lost db =
      if ltb inv.expires_at now
      then (err invite_invalid, (Invites.delete inv.id db).1)
      else (do
        hash ← or_fail (generate_hash salt new_password) hash_failed
        set_password inv.user_id hash
        ignoring (unlock inv.user_id)
        ignoring (Invites.delete inv.id)
        revoke_or_log lost inv.user_id
        query (find_by_id inv.user_id))
          db

  unfoldable pub setup_with : Result Invite → String → ℕ → ℕ → Bool → Op Db User
  unfolding consume_invite
  setup_with (err e) new_password salt now lost db = (err invite_invalid, db)
  setup_with (ok inv) new_password salt now lost db =
      consume_invite inv new_password salt now lost db

  unfoldable pub complete_setup : Bool → String → String → ℕ → ℕ → Bool → Op Db User
  unfolding setup_with
  complete_setup false raw new_password salt now lost db = (err invites_not_configured, db)
  complete_setup true raw new_password salt now lost db =
      setup_with (find_by_token_hash (hash_invite_token raw) db) new_password salt now lost db

  unfoldable pub change_password : ℕ → String → ℕ → Bool → Op Db (Unit {0})
  change_password user_id new_password salt lost = do
    query (find_by_id user_id)
    hash ← or_fail (generate_hash salt new_password) hash_failed
    set_password user_id hash
    revoke_or_log lost user_id

unfoldable pub has_active_invite : Bool → ℕ → ℕ → Db → Bool
has_active_invite false user_id now db = false
has_active_invite true user_id now db = has_active_for_user user_id now db
