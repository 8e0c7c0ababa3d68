-- ===== src/Auth/Invites.antt =====
-- backend/internal/auth/repository.go, InviteRepo.
use crapnote.Base.{
  ℕ, suc, ◌/◌, Bool, [], ◌∷◌, ◌++◌, ◌==◌, leb, ltb, ◌&&◌, ◌||◌, not, String, str_eq, if◌then◌else◌,
}
use crapnote.Base.Outcome.{Result, err, constraint, or_not_found, Op, done}
use crapnote.Base.Table
use crapnote.Base.Table.{count, exists, first}
use crapnote.Db.{Db, Invite, current_timestamp, second}

unfoldable pub find_by_id : ℕ → Db → Result Invite
find_by_id id db = or_not_found (first (λ i. i.id == id) db.invites)

unfoldable pub find_by_token_hash : String → Db → Result Invite
find_by_token_hash token_hash db =
    or_not_found (first (λ i. str_eq i.token_hash token_hash) db.invites)

abbrev pub new_invite : ℕ → ℕ → String → ℕ → ℕ → Invite
new_invite id user_id token_hash expires_at now = record {
  id = id;
  user_id = user_id;
  token_hash = token_hash;
  expires_at = expires_at;
  created_at = current_timestamp now;
}

-- `token_hash` is UNIQUE, and `user_id` refers to a user.
unfoldable pub create : ℕ → String → ℕ → ℕ → Op Db Invite
unfolding find_by_id
create user_id token_hash expires_at now db =
    let id = suc db.invite_seq in
    let db' : Db = record db {
      invites = db.invites ++ new_invite id user_id token_hash expires_at now ∷ [];
      invite_seq = id;
    } in
    if exists (λ i. str_eq i.token_hash token_hash) db.invites
      || not (exists (λ u. u.id == user_id) db.users)
    then (err constraint, db)
    else (find_by_id id db', db')

unfoldable pub delete : ℕ → Op Db (Unit {0})
delete id db = done (record db { invites = Table.delete (λ i. i.id == id) db.invites })

unfoldable pub delete_for_user : ℕ → Op Db (Unit {0})
delete_for_user user_id db =
    done (record db { invites = Table.delete (λ i. i.user_id == user_id) db.invites })

-- `expires_at > CURRENT_TIMESTAMP` compares texts, of which the left one is longer: an invite counts
-- until its second is past.
unfoldable pub has_active_for_user : ℕ → ℕ → Db → Bool
has_active_for_user user_id now db =
    ltb 0
      (count (λ i. i.user_id == user_id && leb (now / second) (i.expires_at / second)) db.invites)
