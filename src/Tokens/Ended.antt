-- ===== src/Tokens/Ended.antt =====
-- What ends a token: its revocation, the revocation of all of a user's, and who may revoke.
use crapnote.Base.{
  ℕ, ◌≡◌, ◌≢◌, refl, Bool, true, false, ◌&&◌, some, List, ◌==◌, String, str_eq, arith, inl, inr,
  Bool-cases, Option-cases, is_none,
}
use crapnote.Base.Outcome.{ok, Result-cases, or_not_found-ok}
use crapnote.Base.Table
use crapnote.Base.Table.{first, exists, count, count-zero-update, first-holds}
use crapnote.Base.Table.Rows.{first-update}
use crapnote.Db.{Db, Bytes, Token}
use crapnote.Auth.Users
use crapnote.Tokens.Model.{active}
use crapnote.Tokens.Repo
use crapnote.Tokens.Repo.{revoked_at_time}
use crapnote.Tokens.Service.{VerifiedToken, verify, revoke, revoke_found, revoke_all}
use crapnote.Tokens.Verified.{verify-Accepted}

-- A row that the update reached is revoked, and so is one that it passed over for being revoked.
updated-active :
    (p : Token → Bool) (hash : String) (now later : ℕ) (ts : List Token) (t : Token)
    → first
        (λ x. str_eq x.token_hash hash)
        (Table.update (λ x. p x && is_none x.revoked_at) (revoked_at_time now) ts)
      ≡ some t
    → active t later ≡ true
    → ((x : Token) → p (revoked_at_time now x) ≡ p x)
    → p t ≡ false
unfolding active
updated-active p hash now later ts t e alive same =
    let read =
      first-update (λ x. str_eq x.token_hash hash) (λ x. p x && is_none x.revoked_at)
        (revoked_at_time now) ts (λ x. refl) in
    elim (Option-cases (first (λ x. str_eq x.token_hash hash) ts)) [
      | inl f ↦ let r = rw f at read in absurd (cc (r, e))
      | inr (x, f) ↦ let r = rw f at read in let s = same x in ground arith
    ]

revoke-tokens :
    (user_id id now : ℕ) (db : Db)
    → (revoke user_id id now db).0 ≡ ok tt
    → ((revoke user_id id now db).1.tokens
        ≡ Table.update (λ x. x.id == id && is_none x.revoked_at) (revoked_at_time now) db.tokens)
unfolding revoke Repo.revoke
revoke-tokens user_id id now db h =
    let hit : Token → Bool = λ x. x.id == id && is_none x.revoked_at in
    let idle = count-zero-update hit (revoked_at_time now) db.tokens in
    elim (Result-cases (Repo.find_by_id id db)) [
      | inl (t, e) ↦ elim (Bool-cases (t.user_id == user_id)) [
        | inl own ↦ elim (Bool-cases (count hit db.tokens == 0)) [
          | inl z ↦ rw (e, revoke_found, own, z) (rw (idle (ground arith)) refl)
          | inr z ↦ rw (e, revoke_found, own, z) refl
        ]
        | inr own ↦ let h' = rw (e, revoke_found, own) at h in absurd (cc h')
      ]
      | inr (x, e) ↦ let h' = rw (e, revoke_found) at h in absurd (cc h')
    ]

module _ (hash_token : Bytes → String) (trim_space : Bytes → Bytes) where
  -- In the state that a successful Revoke of a token left, no bearer token is accepted as that
  -- one, at any time.
  pub verify-revoke :
      (user_id id now later : ℕ) (raw : Bytes) (db : Db) (v : VerifiedToken)
      → (revoke user_id id now db).0 ≡ ok tt
      → verify hash_token trim_space raw later (revoke user_id id now db).1 ≡ ok v
      → v.token_id ≢ id
  unfolding Repo.find_by_hash
  verify-revoke user_id id now later raw db v h accepted =
      let a =
        verify-Accepted hash_token trim_space raw later (revoke user_id id now db).1 v accepted in
      let row = or_not_found-ok _ a.token (rw (revoke-tokens user_id id now db h) at a.stored) in
      let other =
        updated-active (λ x. x.id == id) (hash_token raw) now later db.tokens a.token row a.alive
          (λ x. refl) in
      let id_of = a.same_id in λ same. ground arith

  -- In the state that RevokeAll left, no bearer token is accepted for the user, at any time.
  pub verify-revoke_all :
      (user_id now later : ℕ) (raw : Bytes) (db : Db) (v : VerifiedToken)
      → verify hash_token trim_space raw later (revoke_all user_id now db).1 ≡ ok v
      → v.user.id ≢ user_id
  unfolding Repo.find_by_hash revoke_all Repo.revoke_all_for_user Users.find_by_id
  verify-revoke_all user_id now later raw db v accepted =
      let a =
        verify-Accepted hash_token trim_space raw later (revoke_all user_id now db).1 v accepted in
      let row = or_not_found-ok _ a.token a.stored in
      let other =
        updated-active (λ x. x.user_id == user_id) (hash_token raw) now later db.tokens a.token row
          a.alive (λ x. refl) in
      let owner = or_not_found-ok _ v.user a.owner in
      let mine = first-holds (λ u. u.id == a.token.user_id) db.users v.user owner in
      λ same. ground arith
