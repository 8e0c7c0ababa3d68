-- ===== src/Tests/Sessions.antt =====
-- Sessions, a change of password and a setup by invite.
use text.Mathlib.TextPositions.{eq_refl}
use crapnote.Base.{true, false, [], ◌∷◌, str_eq, ◌≡◌, refl, ◌≤◌, arith}
use crapnote.Base.Outcome.{ok, err, invite_invalid}
use crapnote.Base.Table
use crapnote.Base.Table.{first, exists, delete, count}
use crapnote.Db.{Db, User}
use crapnote.Auth.Users
use crapnote.Auth.Users.{find_by_id, set_password, unlock}
use crapnote.Auth.Sessions
use crapnote.Auth.Invites
use crapnote.Auth.Invites.{find_by_token_hash}
use crapnote.Auth.Account.{validate_session, change_password, complete_setup, revoke_user_sessions}
use crapnote.Auth.Revocation.{IsBcrypt, complete_setup-revokes, complete_setup-spent}
use crapnote.Tests.{plain, alice, store}

accepted : (validate_session "s1" 42 store).0 ≡ ok alice
unfolding validate_session Sessions.find find_by_id Users.is_locked first
accepted = refl

plain-IsBcrypt : IsBcrypt plain
plain-IsBcrypt salt password hash e = let same : password ≡ hash = cc e in rw same (eq_refl hash)

changed : (change_password plain 1 "new" 0 false store).0 ≡ ok tt
unfolding change_password find_by_id set_password revoke_user_sessions first count
changed = refl

abbrev renewed : User
renewed = record alice { password_hash = "new" }

read_renewed : find_by_id 1 (change_password plain 1 "new" 0 false store).1 ≡ ok renewed
unfolding change_password find_by_id set_password revoke_user_sessions first count Table.update
read_renewed = refl

-- A second user's session stands.
abbrev bob : User
bob = record alice { id = 2; username = "bob" }

abbrev shared : Db
shared = record store {
  users = alice ∷ bob ∷ [];
  sessions = record { id = "s3"; user_id = 2; expires_at = 500; created_at = 0 } ∷ store.sessions;
}

changed_shared : (change_password plain 1 "new" 0 false shared).0 ≡ ok tt
unfolding change_password find_by_id set_password revoke_user_sessions first count
changed_shared = refl

still_accepted :
    (validate_session "s3" 42 (change_password plain 1 "new" 0 false shared).1).0 ≡ ok bob
unfolding change_password find_by_id set_password revoke_user_sessions first count Table.update
    delete validate_session Sessions.find Users.is_locked
still_accepted = refl

set_up : (complete_setup plain true "inv" "new" 0 42 false shared).0 ≡ ok renewed
unfolding complete_setup find_by_token_hash set_password unlock Invites.delete revoke_user_sessions
    find_by_id first count Table.update delete
set_up = refl

-- The revocation fails.
lost_set_up : (complete_setup plain true "inv" "new" 0 42 true shared).0 ≡ ok renewed
unfolding complete_setup find_by_token_hash set_password unlock Invites.delete find_by_id first
    count Table.update delete
lost_set_up = refl

lingers :
    (validate_session "s1" 43 (complete_setup plain true "inv" "new" 0 42 true shared).1).0
    ≡ ok renewed
unfolding complete_setup find_by_token_hash set_password unlock Invites.delete find_by_id first
    count Table.update delete validate_session Sessions.find Users.is_locked
lingers = refl

complete_setup-revokes_example : true ≡ true
complete_setup-revokes_example =
    complete_setup-revokes plain "inv" "new" 0 42 true shared renewed "s1" 43 renewed lost_set_up
      lingers refl

one_invite : count (λ i. str_eq i.token_hash "inv") shared.invites ≤ 1
unfolding count
one_invite = omega arith

complete_setup-spent_example :
    let db' = (complete_setup plain true "inv" "new" 0 42 false shared).1 in
    complete_setup plain true "inv" "other" 0 50 false db' ≡ (err invite_invalid, db')
complete_setup-spent_example =
    complete_setup-spent plain "inv" "new" "other" 0 0 42 50 false false shared renewed one_invite
      set_up
