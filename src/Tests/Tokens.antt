-- ===== src/Tests/Tokens.antt =====
-- A token that is created, used and revoked.
use crapnote.Base.{
  ℕ, false, none, some, [], ◌∷◌, ◌++◌, String, ◌≡◌, ◌≢◌, refl, if◌then◌else◌, ◌==◌, length,
}
use crapnote.Base.Ints.{pos}
use crapnote.Base.Outcome.{ok, err, invalid_token}
use crapnote.Base.Table
use crapnote.Base.Table.{first, exists, count}
use crapnote.Db.{Db, Bytes, User, Token, read, current_timestamp}
use crapnote.Auth.Users
use crapnote.Tokens.Model.{token_prefix, active, valid}
use crapnote.Tokens.Repo
use crapnote.Tokens.Service.{
  VerifiedToken, CreatedToken, verify, has_prefix, create, revoke, revoke_all,
}
use crapnote.Tokens.Verified.{Accepted, verify-Accepted, verify-create}
use crapnote.Tokens.Ended.{verify-revoke}
use crapnote.Http.{sends, authenticated, given, after, respond}
use crapnote.Tokens.Handler.{
  TokenRequest, TokenCreated, create_token, to_token_response, ttl_of_days, signed,
}
use crapnote.Tokens.Lifetimes.{lifetime_end, create_token-ends}
use crapnote.Tests.{store, alice}

-- A digest that tells some texts apart.
abbrev digest : Bytes → String
digest s = if length s == 5 then "five" else "other"

abbrev as_is : Bytes → Bytes
as_is s = s

abbrev row : ℕ → ℕ → String → Token
row id user hash = record {
  id = id;
  user_id = user;
  name = 110 ∷ [];
  token_hash = hash;
  prefix = 99 ∷ (110 ∷ (112 ∷ (95 ∷ (120 ∷ []))));
  scope = read;
  last_used_at = none;
  expires_at = some 52;
  revoked_at = none;
  created_at = 0;
}

abbrev made : CreatedToken
made = record { token = row 1 1 "five"; raw_token = token_prefix ++ 120 ∷ [] }

creates :
    (create digest as_is (some alice) (110 ∷ []) read (pos 10) (some (120 ∷ [])) 42 store).0
    ≡ ok made
unfolding create Repo.create current_timestamp valid first exists
creates = refl

known : Users.find_by_id 1 store ≡ ok alice
unfolding Users.find_by_id first
known = refl

free : Users.is_locked alice 50 ≡ false
unfolding Users.is_locked
free = refl

verify-create_example :
    verify digest as_is
      (token_prefix ++ 120 ∷ [])
      50
      (create digest as_is (some alice) (110 ∷ []) read (pos 10) (some (120 ∷ [])) 42 store).1
    ≡ ok (record { token_id = 1; user = alice; scope = read })
verify-create_example =
    verify-create digest as_is alice alice (110 ∷ []) read (pos 10) (some (120 ∷ [])) 42 50 store
      made tt creates known refl free refl

-- One token of alice's, and one of another user.
abbrev bob : User
bob = record alice { id = 2 }

abbrev issued : Db
issued = record store {
  users = alice ∷ bob ∷ [];
  tokens = row 1 1 "five" ∷ row 2 2 "other" ∷ [];
  token_seq = 2;
}

abbrev long : Bytes
long = token_prefix ++ (120 ∷ 120 ∷ [])

abbrev as_bob : VerifiedToken
as_bob = record { token_id = 2; user = bob; scope = read }

accepts : verify digest as_is long 50 issued ≡ ok as_bob
unfolding verify has_prefix Repo.find_by_hash Users.find_by_id Users.is_locked active first
accepts = refl

verify-Accepted_example : Accepted digest as_is long 50 issued as_bob
verify-Accepted_example = verify-Accepted digest as_is long 50 issued as_bob accepts

refuses : verify digest as_is long 52 issued ≡ err invalid_token
unfolding verify has_prefix Repo.find_by_hash Users.find_by_id Users.is_locked active first
refuses = refl

revokes : (revoke 1 1 45 issued).0 ≡ ok tt
unfolding revoke Repo.revoke Repo.find_by_id first count
revokes = refl

still : verify digest as_is long 50 (revoke 1 1 45 issued).1 ≡ ok as_bob
unfolding verify has_prefix Repo.find_by_hash Users.find_by_id Users.is_locked active revoke
    Repo.revoke Repo.find_by_id first count Table.update
still = refl

verify-revoke_example : as_bob.token_id ≢ 1
verify-revoke_example = verify-revoke digest as_is 1 1 45 50 long issued as_bob revokes still

still_all : verify digest as_is long 50 (revoke_all 1 45 issued).1 ≡ ok as_bob
unfolding verify has_prefix Repo.find_by_hash Users.find_by_id Users.is_locked active revoke_all
    Repo.revoke_all_for_user first Table.update
still_all = refl

-- Asked for the first number of days whose product wraps around.
abbrev too_long : TokenRequest
too_long = record { name = 110 ∷ []; scope = read; ttl_days = pos 106_752 }

abbrev endless : Token
endless = record (row 1 1 "five") { expires_at = none }

abbrev answered : TokenCreated
answered = record { response = to_token_response endless; token = token_prefix ++ 120 ∷ [] }

posted :
    (create_token digest as_is (some alice) (some too_long) (some (120 ∷ [])) 42 store).0
    ≡ sends 201 answered
unfolding create_token authenticated given after respond create Repo.create current_timestamp valid
    first exists ttl_of_days signed
posted = refl

create_token-ends_example :
    (t : Token) × (Repo.find_by_hash "five"
        (create_token digest as_is (some alice) (some too_long) (some (120 ∷ [])) 42 store).1
      ≡ ok t)
    × (t.expires_at ≡ lifetime_end (pos 106_752) 42)
    × (to_token_response endless ≡ to_token_response t)
create_token-ends_example =
    create_token-ends digest as_is alice too_long (some (120 ∷ [])) 42 store answered tt posted refl
