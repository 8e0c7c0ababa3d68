-- ===== src/Server/Gated.antt =====
-- The gates behind RequireAuth: the flags of an operation in backend/cmd/server/server.go.
use crapnote.Base.{
  ◌≡◌, refl, ◌∙◌, Bool, true, false, not, ◌&&◌, ◌||◌, Option, none, some, inl, inr, Bool-cases,
  if◌then◌else◌,
}
use crapnote.Db.{User}
use crapnote.Gate.{
  Context, Answer, serves, refuses, is_bearer_auth, write_allowed, require_admin, require_write,
  require_admin_user,
}
use crapnote.Api.{Operation, is_write}
use crapnote.Server.{◌>>=◌, cookie_only, operation_gates}

abbrev pub is_admin : Option User → Bool
is_admin none = false
is_admin (some u) = u.is_admin

-- What the flags of an operation ask of the context in which its handler runs.
pub record Permitted (op : Operation) (c : Context) : Type 0 where
  pub no_token : op.cookie_only && is_bearer_auth c ≡ false
  pub may_write : is_write op.scope && not (write_allowed c) ≡ false
  pub administers : op.admin_only && (is_bearer_auth c || not (is_admin c.user)) ≡ false

pub bind-serves :
    (a : Answer) (k : Context → Answer) (c : Context)
    → (a >>= k) ≡ serves c
    → (b : Context) × (a ≡ serves b) × (k b ≡ serves c)
bind-serves (serves b) k c h = (b, refl, h)
bind-serves (refuses status) k c h = absurd (cc h)

cookie_only-serves :
    (wanted : Bool) (c d : Context)
    → (if wanted then cookie_only c else serves c) ≡ serves d
    → (c ≡ d) × (wanted && is_bearer_auth c ≡ false)
unfolding cookie_only
cookie_only-serves true c d h = elim (Bool-cases (is_bearer_auth c)) [
  | inl e ↦ let h' = rw e at h in absurd (cc h')
  | inr e ↦ let h' = rw e at h in (cc h', e)
]
cookie_only-serves false c d h = (cc h, refl)

require_write-serves :
    (wanted : Bool) (c d : Context)
    → (if wanted then require_write c else serves c) ≡ serves d
    → (c ≡ d) × (wanted && not (write_allowed c) ≡ false)
unfolding require_write
require_write-serves true c d h = elim (Bool-cases (write_allowed c)) [
  | inl e ↦ let h' = rw e at h in (cc h', rw e refl)
  | inr e ↦ let h' = rw e at h in absurd (cc h')
]
require_write-serves false c d h = (cc h, refl)

require_admin_user-serves :
    (u : Option User) (c d : Context)
    → require_admin_user u c ≡ serves d
    → (c ≡ d) × (is_bearer_auth c || not (is_admin u) ≡ false)
unfolding require_admin_user
require_admin_user-serves none c d h = absurd (cc h)
require_admin_user-serves (some u) c d h = elim (Bool-cases u.is_admin) [
  | inl e ↦ elim (Bool-cases (is_bearer_auth c)) [
    | inl b ↦ let h' = rw (e, b) at h in absurd (cc h')
    | inr b ↦ let h' = rw (e, b) at h in (cc h', rw (e, b) refl)
  ]
  | inr e ↦ let h' = rw e at h in absurd (cc h')
]

require_admin-serves :
    (wanted : Bool) (c d : Context)
    → (if wanted then require_admin c else serves c) ≡ serves d
    → (c ≡ d) × (wanted && (is_bearer_auth c || not (is_admin c.user)) ≡ false)
unfolding require_admin
require_admin-serves true c d h = require_admin_user-serves c.user c d h
require_admin-serves false c d h = (cc h, refl)

-- The gates behind RequireAuth hand the context on as it is.
pub operation_gates-Permitted :
    (op : Operation) (c d : Context) → operation_gates op c ≡ serves d → (c ≡ d) × Permitted op c
unfolding operation_gates
operation_gates-Permitted op c d h =
    let (c1, first_gate, h1) =
      bind-serves (if op.cookie_only then cookie_only c else serves c) _ d h in
    let (c2, second_gate, h2) =
      bind-serves (if is_write op.scope then require_write c1 else serves c1) _ d h1 in
    let (same1, no_token) = cookie_only-serves op.cookie_only c c1 first_gate in
    let (same2, may_write) = require_write-serves (is_write op.scope) c1 c2 second_gate in
    let (same3, administers) = require_admin-serves op.admin_only c2 d h2 in
    (
      same1 ∙ (same2 ∙ same3),
      record {
        no_token = no_token;
        may_write = rw same1 may_write;
        administers = rw (same1, same2) administers;
      },
    )
