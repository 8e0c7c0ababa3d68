-- ===== src/Tokens/Repo.antt =====
-- backend/internal/tokens/repository.go.
use crapnote.Base.{
  ℕ, suc, Bool, not, ◌&&◌, ◌||◌, Option, none, some, List, [], ◌∷◌, ◌++◌, ◌==◌, leb, is_none,
  String, str_eq, if◌then◌else◌,
}
use crapnote.Base.Outcome.{Result, ok, err, constraint, or_not_found, Op, done}
use crapnote.Base.Table
use crapnote.Base.Table.{count, exists, first, select}
use crapnote.Base.Sort.{sort_by}
use crapnote.Db.{Db, Bytes, Token, Scope, current_timestamp}

unfoldable pub find_by_id : ℕ → Db → Result Token
find_by_id id db = or_not_found (first (λ t. t.id == id) db.tokens)

unfoldable pub find_by_hash : String → Db → Result Token
find_by_hash token_hash db = or_not_found (first (λ t. str_eq t.token_hash token_hash) db.tokens)

abbrev pub new_token : ℕ → ℕ → Bytes → String → Bytes → Scope → Option ℕ → ℕ → Token
new_token id user_id name token_hash prefix scope expires_at now = record {
  id = id;
  user_id = user_id;
  name = name;
  token_hash = token_hash;
  prefix = prefix;
  scope = scope;
  last_used_at = none;
  expires_at = expires_at;
  revoked_at = none;
  created_at = current_timestamp now;
}

-- `token_hash` is UNIQUE, and `user_id` refers to a user.
unfoldable pub create : ℕ → Bytes → String → Bytes → Scope → Option ℕ → ℕ → Op Db Token
unfolding find_by_id
create user_id name token_hash prefix scope expires_at now db =
    let id = suc db.token_seq in
    let db' : Db = record db {
      tokens = db.tokens ++ new_token id user_id name token_hash prefix scope expires_at now ∷ [];
      token_seq = id;
    } in
    if exists (λ t. str_eq t.token_hash token_hash) db.tokens
      || not (exists (λ u. u.id == user_id) db.users)
    then (err constraint, db)
    else (find_by_id id db', db')

-- ORDER BY created_at DESC
unfoldable pub latest_before : Token → Token → Bool
latest_before a b = leb b.created_at a.created_at

unfoldable pub list_by_user : ℕ → Db → List Token
unfolding latest_before
list_by_user user_id db = sort_by latest_before (select (λ t. t.user_id == user_id) db.tokens)

abbrev pub revoked_at_time : ℕ → Token → Token
revoked_at_time now t = record t { revoked_at = some now }

abbrev pub is_answered : Result Token → Result (Unit {0})
is_answered (ok t) = ok tt
is_answered (err e) = err e

unfoldable pub revoke : ℕ → ℕ → Op Db (Unit {0})
unfolding find_by_id
revoke id now db =
    let hit : Token → Bool = λ t. t.id == id && is_none t.revoked_at in
    if count hit db.tokens == 0
    then (is_answered (find_by_id id db), db)
    else (ok tt, record db { tokens = Table.update hit (revoked_at_time now) db.tokens })

unfoldable pub revoke_all_for_user : ℕ → ℕ → Op Db (Unit {0})
revoke_all_for_user user_id now db = done (record db {
  tokens =
      Table.update (λ t. t.user_id == user_id && is_none t.revoked_at) (revoked_at_time now)
        db.tokens;
})

unfoldable pub update_last_used : ℕ → ℕ → Op Db (Unit {0})
update_last_used id ts db = done (record db {
  tokens = Table.update (λ t. t.id == id) (λ t. record t { last_used_at = some ts }) db.tokens;
})
