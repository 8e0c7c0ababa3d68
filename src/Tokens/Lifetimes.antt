-- ===== src/Tokens/Lifetimes.antt =====
-- How long a token lives that is asked for in days: backend/internal/tokens/handler.go and service.go.
use crapnote.Base.{
  ℕ, zero, suc, ◌+◌, ◌*◌, ◌%◌, ◌^◌, ◌≤◌, ◌<◌, ◌≡◌, refl, inl, inr, true, false, Option, none, some,
  String, ltb, leb, leb→le, lt→ltb, Bool-cases, arith, ap, ◌∙◌, if◌then◌else◌,
}
use crapnote.Base.Ints.{ℤ, pos, negsuc, leb_ℤ}
use crapnote.Base.Outcome.{Error, ok, forbidden, invalid_name, invalid_scope}
use crapnote.Base.Table.Keyed.{KeysUpTo}
use crapnote.Db.{Db, Bytes, User, Token}
use crapnote.Http.{sends, respond, given, authenticated}
use crapnote.Http.Rules.{after-sends}
use crapnote.Tokens.Repo
use crapnote.Tokens.Service
use crapnote.Tokens.Service.{CreatedToken, expiry}
use crapnote.Tokens.Verified.{create-issue, issue-Stored}
use crapnote.Tokens.Handler.{
  TokenRequest, TokenCreated, create_token, create_failure, to_token_response, ttl_of_days, signed,
  day,
}

-- When a token ends that is asked for a number of days; `none` where it does not.
pub lifetime_end : ℤ → ℕ → Option ℕ
lifetime_end (pos zero) now = some (now + 90 * day)
lifetime_end (pos (suc n)) now = if leb (suc n) 106_751 then some (now + suc n * day) else none
lifetime_end (negsuc n) now = none

-- A product of nanoseconds from 106752 days on wraps around to a negative lifetime.
expiry-ttl_of_days :
    (days : ℤ) (now : ℕ)
    → leb_ℤ days (pos 213_503) ≡ true
    → expiry (ttl_of_days days) now ≡ lifetime_end days now
unfolding ttl_of_days signed lifetime_end
expiry-ttl_of_days (pos zero) now low = refl
expiry-ttl_of_days (negsuc n) now low = refl
expiry-ttl_of_days (pos (suc n)) now low =
    let high : suc n ≤ 213_503 = ground arith in
    let whole : suc n * day % 2 ^ 64 ≡ suc n * day = omega arith in
    elim (Bool-cases (leb (suc n) 106_751)) [
      | inl e ↦
          let below : suc n ≤ 106_751 = leb→le _ _ e in
          let fits : ltb (suc n * day) (2 ^ 63) ≡ true = lt→ltb _ _ (omega arith) in
          rw (whole, fits, e) (positive (suc n * day) (omega arith))
      | inr e ↦
          let above : 106_751 < suc n = ground arith in
          let over : ltb (suc n * day) (2 ^ 63) ≡ false = ground arith in rw (whole, over, e) refl
    ]
  where
    positive : (m : ℕ) → 0 < m → expiry (pos m) now ≡ some (now + m)
    positive zero h = absurd (omega (arith, h))
    positive (suc m) h = refl

create_failure-fails : (e : Error) (n : ℕ) (x : TokenCreated) → create_failure e ≡ sends n x → ⊥
create_failure-fails forbidden n x h = absurd (cc h)
create_failure-fails invalid_name n x h = absurd (cc h)
create_failure-fails invalid_scope n x h = absurd (cc h)
create_failure-fails _ n x h = absurd (cc h)

module _ (hash_token : Bytes → String) (trim_space : Bytes → Bytes) where
  -- A token that is created over HTTP, where token ids are at most the sequence, for at most 213503 days: its
  -- row is found by the hash of the raw token that the reply holds, and both the row and the reply say
  -- when it ends. That is after 90 days for 0, and after the number of days that was asked for up to 106751. It is
  -- never for a negative number; and it is never from 106752 days on.
  pub create_token-ends :
      (u : User) (req : TokenRequest) (drawn : Option Bytes) (now : ℕ) (db : Db) (r : TokenCreated)
      → KeysUpTo (λ (x : Token). x.id) db.token_seq db.tokens
      → (create_token hash_token trim_space (some u) (some req) drawn now db).0 ≡ sends 201 r
      → leb_ℤ req.ttl_days (pos 213_503) ≡ true
      → (t : Token) × (Repo.find_by_hash
            (hash_token r.token)
            (create_token hash_token trim_space (some u) (some req) drawn now db).1
          ≡ ok t)
        × (t.expires_at ≡ lifetime_end req.ttl_days now)
        × (r.response ≡ to_token_response t)
  unfolding create_token authenticated given respond
  create_token-ends u req drawn now db r below h low =
      let op =
        Service.create hash_token trim_space (some u) req.name req.scope (ttl_of_days req.ttl_days)
          drawn now in
      let (c, made, reply, left) =
        after-sends op create_failure
          (λ (c : CreatedToken).
            respond (λ _.
              sends 201 (record { response = to_token_response c.token; token = c.raw_token })))
          db 201 r create_failure-fails h in
      let step =
        create-issue hash_token trim_space u req.name req.scope (ttl_of_days req.ttl_days) drawn now
          db c made in
      let (s, raw, kept) =
        issue-Stored hash_token trim_space u (trim_space req.name) req.scope
          (ttl_of_days req.ttl_days) drawn now db c below (rw step at made) in
      let (new, stored, users) = kept in
      let token : r.token ≡ c.raw_token = cc reply in
      let shown : r.response ≡ to_token_response c.token = cc reply in
      let ends : c.token.expires_at ≡ expiry (ttl_of_days req.ttl_days) now =
        ap (λ (t : Token). t.expires_at) new in
      (
        c.token,
        rw (left, token, raw, step) stored,
        ends ∙ expiry-ttl_of_days req.ttl_days now low,
        shown,
      )
