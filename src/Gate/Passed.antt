-- ===== src/Gate/Passed.antt =====
-- Who passes the gates.
use crapnote.Base.{
  ℕ, Bool, true, false, Option, none, some, List, String, ◌≡◌, refl, inl, inr, Bool-cases, sym,
}
use crapnote.Base.Outcome.{Result, ok, err}
use crapnote.Db.{Db, Bytes, User, Scope, read, read_write, other}
use crapnote.Auth.Account.{validate_session}
use crapnote.Auth.Validation.{Standing, validate_session-Standing}
use crapnote.Tokens.Model.{allows_write}
use crapnote.Tokens.Service.{VerifiedToken, verify}
use crapnote.Tokens.Verified.{Accepted, verify-Accepted}
use crapnote.Gate.{
  Context, Request, Store, serves, is_bearer_auth, write_allowed, logged_in, admit_session,
  admit_bearer, require_admin, require_write, bearer_from_request, by_cookie, by_credentials,
  require_auth,
}

allows_write-scope : (s : Scope) → allows_write s ≡ true → s ≡ read_write
unfolding allows_write
allows_write-scope read h = cc
allows_write-scope read_write h = refl
allows_write-scope (other x) h = cc

admit_session-serves :
    (r : Result User × Db) (used : List ℕ) (c : Context)
    → (admit_session r used).0 ≡ serves c
    → (u : User) × (r.0 ≡ ok u) × (c ≡ logged_in u false true)
unfolding admit_session
admit_session-serves (err e, db) used c h = cc
admit_session-serves (ok u, db) used c h =
    let made : logged_in u false true ≡ c = cc h in (u, refl, sym made)

pub admit_bearer-serves :
    (r : Result VerifiedToken) (s : Store) (c : Context)
    → (admit_bearer r s).0 ≡ serves c
    → (v : VerifiedToken) × (r ≡ ok v) × (c ≡ logged_in v.user true (allows_write v.scope))
unfolding admit_bearer
admit_bearer-serves (err e) s c h = cc
admit_bearer-serves (ok v) s c h =
    let made : logged_in v.user true (allows_write v.scope) ≡ c = cc h in (v, refl, sym made)

admin-session :
    (u : User)
    → require_admin (logged_in u false true) ≡ serves (logged_in u false true)
    → u.is_admin ≡ true
unfolding require_admin is_bearer_auth
admin-session u h = elim (Bool-cases u.is_admin) [
  | inl e ↦ e
  | inr e ↦ let h' = rw e at h in absurd (cc h')
]

no-admin-token :
    (u : User) (b : Bool) → require_admin (logged_in u true b) ≡ serves (logged_in u true b) → ⊥
unfolding require_admin is_bearer_auth
no-admin-token u b h = elim (Bool-cases u.is_admin) [
  | inl e ↦ let h' = rw e at h in cc h'
  | inr e ↦ let h' = rw e at h in cc h'
]

write-token :
    (u : User) (b : Bool)
    → require_write (logged_in u true b) ≡ serves (logged_in u true b)
    → b ≡ true
unfolding require_write write_allowed
write-token u true h = refl
write-token u false h = absurd (cc h)

-- What a context that RequireAuth made stands on.
pub data Basis (hash_token : Bytes → String) (trim_space : Bytes → Bytes) (r : Request) (now : ℕ)
    (db : Db) (c : Context) : Type 0 where
  by_session :
      (id : String) (u : User)
      → r.session ≡ some id
      → Standing id now db u
      → c ≡ logged_in u false true
      → Basis hash_token trim_space r now db c
  by_token :
      (raw : Bytes) (v : VerifiedToken)
      → bearer_from_request hash_token trim_space r.authorization ≡ some raw
      → Accepted hash_token trim_space raw now db v
      → c ≡ logged_in v.user true (allows_write v.scope)
      → Basis hash_token trim_space r now db c

module _ (hash_token : Bytes → String) (trim_space : Bytes → Bytes) where
  by_cookie-Basis :
      (r : Request) (session : Option String) (now : ℕ) (s : Store) (c : Context)
      → r.session ≡ session
      → (by_cookie hash_token trim_space session now s).0 ≡ serves c
      → Basis hash_token trim_space r now s.db c
  unfolding by_cookie admit_session
  by_cookie-Basis r none now s c e h = cc
  by_cookie-Basis r (some id) now s c e h =
      let (u, valid, made) = admit_session-serves (validate_session id now s.db) s.used c h in
      by_session id u e (validate_session-Standing id now s.db u valid) made

  by_credentials-Basis :
      (has_bearer : Bool) (r : Request) (bearer : Option Bytes) (now : ℕ) (s : Store) (c : Context)
      → bearer_from_request hash_token trim_space r.authorization ≡ bearer
      → (by_credentials hash_token trim_space has_bearer bearer r.session now s).0 ≡ serves c
      → Basis hash_token trim_space r now s.db c
  unfolding by_credentials
  by_credentials-Basis has_bearer r none now s c e h = by_cookie-Basis r r.session now s c refl h
  by_credentials-Basis false r (some raw) now s c e h = cc
  by_credentials-Basis true r (some raw) now s c e h =
      let (v, valid, made) =
        admit_bearer-serves (verify hash_token trim_space raw now s.db) s c h in
      by_token raw v e (verify-Accepted hash_token trim_space raw now s.db v valid) made

  -- A request that RequireAuth lets through, where no gate before it has put a user on the
  -- context, comes with a session that stands, and may then write, or with a token that is
  -- accepted, and may then write if the scope of the token allows it.
  pub require_auth-Basis :
      (has_bearer : Bool) (c c' : Context) (r : Request) (now : ℕ) (s : Store)
      → c.user ≡ none
      → (require_auth hash_token trim_space has_bearer c r now s).0 ≡ serves c'
      → Basis hash_token trim_space r now s.db c'
  unfolding require_auth
  require_auth-Basis has_bearer c c' r now s fresh h =
      by_credentials-Basis has_bearer r (bearer_from_request hash_token trim_space r.authorization)
        now s c' refl (rw fresh at h)

  -- RequireAdmin behind RequireAuth, where no gate before them has put a user on the context,
  -- lets a request through only for the session of an administrator, and the session and its user
  -- stand. No API token passes.
  pub require_admin-Standing :
      (has_bearer : Bool) (c c' : Context) (r : Request) (now : ℕ) (s : Store)
      → c.user ≡ none
      → (require_auth hash_token trim_space has_bearer c r now s).0 ≡ serves c'
      → require_admin c' ≡ serves c'
      → (id : String) × (u : User) × (r.session ≡ some id)
        × Standing id now s.db u
        × (c'.user ≡ some u)
        × (u.is_admin ≡ true)
  require_admin-Standing has_bearer c c' r now s fresh h passed =
      administrators r now s.db c' (require_auth-Basis has_bearer c c' r now s fresh h) passed
    where
      administrators :
          (r : Request) (now : ℕ) (db : Db) (x : Context)
          → Basis hash_token trim_space r now db x
          → require_admin x ≡ serves x
          → (id : String) × (u : User) × (r.session ≡ some id)
            × Standing id now db u
            × (x.user ≡ some u)
            × (u.is_admin ≡ true)
      administrators r now db x (by_session id u e st made) p =
          (id, u, e, st, rw made refl, admin-session u (rw made at p))
      administrators r now db x (by_token raw v e a made) p =
          absurd (no-admin-token v.user (allows_write v.scope) (rw made at p))

  -- RequireWrite behind RequireAuth, where no gate before them has put a user on the context and
  -- a verifier is wired, lets a request with a bearer token through only if the token is accepted
  -- and has the scope read_write.
  pub require_write-Accepted :
      (c c' : Context) (r : Request) (raw : Bytes) (now : ℕ) (s : Store)
      → c.user ≡ none
      → bearer_from_request hash_token trim_space r.authorization ≡ some raw
      → (require_auth hash_token trim_space true c r now s).0 ≡ serves c'
      → require_write c' ≡ serves c'
      → (v : VerifiedToken) × Accepted hash_token trim_space raw now s.db v
        × (v.scope ≡ read_write)
        × (c'.user ≡ some v.user)
  unfolding require_auth by_credentials
  require_write-Accepted c c' r raw now s fresh e h passed =
      let (v, valid, made) =
        admit_bearer-serves (verify hash_token trim_space raw now s.db) s c' (rw (fresh, e) at h) in
      (
        v,
        verify-Accepted hash_token trim_space raw now s.db v valid,
        allows_write-scope v.scope (write-token v.user (allows_write v.scope) (rw made at passed)),
        rw made refl,
      )
