-- ===== src/Tokens/Verified.antt =====
-- What Verify grants: a token that Create issued, as it issued it.
use text.Mathlib.TextPositions.{eq_refl}
use crapnote.Base.{
  ℕ, ◌≡◌, refl, true, false, not, ◌&&◌, Option, none, some, [], ◌∷◌, ◌++◌, String, str_eq, arith,
  inl, inr, Bool-cases, take,
}
use crapnote.Base.Ints.{ℤ}
use crapnote.Base.Outcome.{Result, ok, err, Error, Result-cases, invalid_token}
use crapnote.Base.Table.Keyed.{KeysUpTo}
use crapnote.Db.{Db, Bytes, User, Token, Scope}
use crapnote.Auth.Users
use crapnote.Tokens.Model.{token_prefix, active, is_unexpired, display_prefix_len}
use crapnote.Tokens.Repo
use crapnote.Tokens.Issued.{Stored, create-Stored}
use crapnote.Tokens.Service.{
  VerifiedToken, CreatedToken, has_prefix, may_use_tokens, expiry, with_raw, verify_owner,
  verify_found, verify, issue, create,
}

verify_owner-ok :
    (t : Token) (now : ℕ) (r : Result User) (v : VerifiedToken)
    → verify_owner t now r ≡ ok v
    → (r ≡ ok v.user)
      × (v.token_id ≡ t.id)
      × (v.scope ≡ t.scope)
      × (may_use_tokens v.user ≡ true)
      × (Users.is_locked v.user now ≡ false)
unfolding verify_owner
verify_owner-ok t now (err e) v h = cc
verify_owner-ok t now (ok u) v h =
    elim (Bool-cases (may_use_tokens u && not (Users.is_locked u now))) [
      | inl e ↦
          let h' : ok (record { token_id = t.id; user = u; scope = t.scope }) ≡ ok v = rw e at h in
          let same : (record { token_id = t.id; user = u; scope = t.scope }) ≡ v = cc h' in
          rw (← same) (refl, refl, refl, ground arith, ground arith)
      | inr e ↦ let h' = rw e at h in absurd (cc h')
    ]

verify_owner-err :
    (t : Token) (now : ℕ) (r : Result User) (e : Error)
    → verify_owner t now r ≡ err e
    → e ≡ invalid_token
unfolding verify_owner
verify_owner-err t now (err x) e h = cc
verify_owner-err t now (ok u) e h =
    elim (Bool-cases (may_use_tokens u && not (Users.is_locked u now))) [
      | inl f ↦ let h' = rw f at h in absurd (cc h')
      | inr f ↦ let h' = rw f at h in cc h'
    ]

has_prefix-append : (s ps : Bytes) → has_prefix (ps ++ s) ps ≡ true
unfolding has_prefix
has_prefix-append s [] = refl
has_prefix-append s (p ∷ ps) = ground (arith, has_prefix-append s ps)

with_raw-ok :
    (raw : Bytes) (r : Result Token × Db) (made : CreatedToken)
    → (with_raw raw r).0 ≡ ok made
    → (t : Token) × (r.0 ≡ ok t)
      × (made.token ≡ t)
      × (made.raw_token ≡ raw)
      × ((with_raw raw r).1 ≡ r.1)
with_raw-ok raw (err e, db) made h = cc
with_raw-ok raw (ok t, db) made h =
    let same : (record { token = t; raw_token = raw }) ≡ made = cc h in
    rw (← same) (t, refl, refl, refl, refl)

module _ (hash_token : Bytes → String) (trim_space : Bytes → Bytes) where
  -- Why a bearer token was accepted.
  pub record Accepted (raw : Bytes) (now : ℕ) (db : Db) (v : VerifiedToken) : Type 0 where
    pub token : Token
    pub prefixed : has_prefix raw token_prefix ≡ true
    pub stored : Repo.find_by_hash (hash_token raw) db ≡ ok token
    pub alive : active token now ≡ true
    pub owner : Users.find_by_id token.user_id db ≡ ok v.user
    pub permitted : may_use_tokens v.user ≡ true
    pub unlocked : Users.is_locked v.user now ≡ false
    pub same_id : v.token_id ≡ token.id
    pub same_scope : v.scope ≡ token.scope

  -- A bearer token is accepted only if it carries the prefix, its hash is stored, it is neither revoked
  -- nor expired, and its owner exists, may use API tokens and is not locked; the answer has the stored
  -- id and scope and that owner.
  pub verify-Accepted :
      (raw : Bytes) (now : ℕ) (db : Db) (v : VerifiedToken)
      → verify hash_token trim_space raw now db ≡ ok v
      → Accepted raw now db v
  unfolding verify verify_found
  verify-Accepted raw now db v h = elim (Bool-cases (has_prefix raw token_prefix)) [
    | inl p ↦ elim (Result-cases (Repo.find_by_hash (hash_token raw) db)) [
      | inl (t, e) ↦ elim (Bool-cases (str_eq (hash_token raw) t.token_hash && active t now)) [
        | inl a ↦
            let h' = rw a at (rw e at (rw p at h)) in
            let (owner, id, scope, may, free) = verify_owner-ok t now _ v h' in
            record {
              token = t;
              prefixed = p;
              stored = e;
              alive = ground arith;
              owner = owner;
              permitted = may;
              unlocked = free;
              same_id = id;
              same_scope = scope;
            }
        | inr a ↦ let h' = rw a at (rw e at (rw p at h)) in absurd (cc h')
      ]
      | inr (x, e) ↦ let h' = rw e at (rw p at h) in absurd (cc h')
    ]
    | inr p ↦ let h' = rw p at h in absurd (cc h')
  ]

  -- Every refusal of Verify is the same error, whatever made it refuse.
  pub verify-uniform :
      (raw : Bytes) (now : ℕ) (db : Db) (e : Error)
      → verify hash_token trim_space raw now db ≡ err e
      → e ≡ invalid_token
  unfolding verify verify_found
  verify-uniform raw now db e h = elim (Bool-cases (has_prefix raw token_prefix)) [
    | inl p ↦ elim (Result-cases (Repo.find_by_hash (hash_token raw) db)) [
      | inl (t, f) ↦ elim (Bool-cases (str_eq (hash_token raw) t.token_hash && active t now)) [
        | inl a ↦
            verify_owner-err t now (Users.find_by_id t.user_id db) e (rw a at (rw f at (rw p at h)))
        | inr a ↦ let h' = rw a at (rw f at (rw p at h)) in cc h'
      ]
      | inr (x, f) ↦ let h' = rw f at (rw p at h) in cc h'
    ]
    | inr p ↦ let h' = rw p at h in cc h'
  ]

  pub create-issue :
      (user : User) (name : Bytes) (scope : Scope) (ttl : ℤ) (suffix : Option Bytes) (now : ℕ)
      (db : Db) (made : CreatedToken)
      → (create hash_token trim_space (some user) name scope ttl suffix now db).0 ≡ ok made
      → create hash_token trim_space (some user) name scope ttl suffix now db
        ≡ issue hash_token trim_space user (trim_space name) scope ttl suffix now db
  unfolding create
  create-issue user name scope ttl suffix now db made h = ground arith

  pub issue-Stored :
      (user : User) (name : Bytes) (scope : Scope) (ttl : ℤ) (suffix : Option Bytes) (now : ℕ)
      (db : Db) (made : CreatedToken)
      → KeysUpTo (λ (x : Token). x.id) db.token_seq db.tokens
      → (issue hash_token trim_space user name scope ttl suffix now db).0 ≡ ok made
      → (s : Bytes) × (made.raw_token ≡ token_prefix ++ s)
        × Stored db
            (issue hash_token trim_space user name scope ttl suffix now db).1
            user.id
            name
            (hash_token (token_prefix ++ s))
            (token_prefix ++ take display_prefix_len s)
            scope
            (expiry ttl now)
            now
            made.token
  unfolding issue
  issue-Stored user name scope ttl none now db made below h = cc
  issue-Stored user name scope ttl (some s) now db made below h =
      let hash = hash_token (token_prefix ++ s) in
      let shown = token_prefix ++ take display_prefix_len s in
      let created = Repo.create user.id name hash shown scope (expiry ttl now) now db in
      let (t, e, token, raw, left) = with_raw-ok (token_prefix ++ s) created made h in
      let stored = create-Stored user.id name hash shown scope (expiry ttl now) now db t below e in
      (s, raw, rw (token, left) stored)

  -- Where no stored token has an id above the sequence, a token that Create returned is accepted,
  -- in the state that Create left, at every time before it expires at which its owner may use API
  -- tokens and is not locked: for the owner as the database has the owner, and with the scope
  -- that it was created with.
  pub verify-create :
      (user owner : User) (name : Bytes) (scope : Scope) (ttl : ℤ) (suffix : Option Bytes)
      (now later : ℕ) (db : Db) (made : CreatedToken)
      → KeysUpTo (λ (x : Token). x.id) db.token_seq db.tokens
      → (create hash_token trim_space (some user) name scope ttl suffix now db).0 ≡ ok made
      → Users.find_by_id user.id db ≡ ok owner
      → may_use_tokens owner ≡ true
      → Users.is_locked owner later ≡ false
      → is_unexpired (expiry ttl now) later ≡ true
      → verify hash_token trim_space made.raw_token later
          (create hash_token trim_space (some user) name scope ttl suffix now db).1
        ≡ ok (record { token_id = made.token.id; user = owner; scope = scope })
  unfolding verify verify_found verify_owner active Users.find_by_id
  verify-create user owner name scope ttl suffix now later db made below h known may free alive =
      let step = create-issue user name scope ttl suffix now db made h in
      let (s, raw, kept) =
        issue-Stored user (trim_space name) scope ttl suffix now db made below (rw step at h) in
      let (new, stored, users) = kept in
      rw
        (
          step,
          raw,
          has_prefix-append s token_prefix,
          stored,
          users,
          new,
          eq_refl (hash_token (token_prefix ++ s)),
          alive,
          known,
          may,
          free,
        )
        refl
