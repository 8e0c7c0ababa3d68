-- ===== src/Server.antt =====
-- The gates in front of the handlers: newMux, cookieOnly and bearerOnly in backend/cmd/server/server.go. A request
-- is what the gates read of it: its credentials, and the address that its client is known by.
pub mod Bindings
pub mod Gated
pub mod Permitted
use crapnote.Base.{
  ℕ, Bool, true, false, Option, none, some, List, [], ◌∷◌, String, is_some, if◌then◌else◌,
}
use crapnote.Db.{Bytes}
use crapnote.Images.{same_bytes}
use crapnote.Gate.{
  Context, Request, Store, Answer, serves, refuses, is_bearer_auth, require_admin, require_write,
  bearer_from_request, require_auth,
}
use crapnote.RateLimit.{Float64, Limiter, allow}
use crapnote.Api.{Operation, is_public, is_write}

pub record ServerState (F : Type 0) : Type 0 where
  pub store : Store
  pub login_limiter : Limiter F
  pub bearer_limiter : Limiter F

-- The next gate, for a request that this one let through.
infixl 5 ◌>>=◌
abbrev pub ◌>>=◌ : Answer → (Context → Answer) → Answer
serves c >>= k = k c
refuses status >>= k = refuses status

unfoldable pub cookie_only : Context → Answer
cookie_only c = if is_bearer_auth c then refuses 403 else serves c

-- The gates that one operation has behind RequireAuth.
unfoldable pub operation_gates : Operation → Context → Answer
unfolding cookie_only
operation_gates op c = do
  c1 ← (if op.cookie_only then cookie_only c else serves c)
  c2 ← (if is_write op.scope then require_write c1 else serves c1)
  if op.admin_only then require_admin c2 else serves c2

module _ {F : Type 0} (float : Float64 F) (hash_token : Bytes → String)
    (trim_space : Bytes → Bytes) where
  abbrev pub Handling : Type 0
  Handling = ServerState F → Answer × ServerState F

  -- ratelimit.Middleware, around the next handler.
  abbrev pub or_too_many : Bool → Handling → Handling
  or_too_many true next s = next s
  or_too_many false next s = (refuses 429, s)

  unfoldable pub login_rate_limit : Bytes → ℕ → Handling → Handling
  login_rate_limit ip now next s =
      let a = allow float ip now s.login_limiter in
      or_too_many a.0 next (record s { login_limiter = a.1 })

  unfoldable pub bearer_rate_limit : Request → Bytes → ℕ → Handling → Handling
  bearer_rate_limit r ip now next s =
      let a = allow float ip now s.bearer_limiter in
      if same_bytes r.authorization []
      then next s
      else or_too_many a.0 next (record s { bearer_limiter = a.1 })

  abbrev pub gated : (Context → Answer) → Answer × Store → ServerState F → Answer × ServerState F
  gated inner (a, store) s = ((a >>= inner), record s { store = store })

  -- authHandler.RequireAuth around the gates of an operation.
  unfoldable pub authenticated : (Context → Answer) → Bool → Context → Request → ℕ → Handling
  authenticated inner has_bearer c r now s =
      gated inner (require_auth hash_token trim_space has_bearer c r now s.store) s

  unfoldable pub has_bearer_token : Request → Bool
  has_bearer_token r = is_some (bearer_from_request hash_token trim_space r.authorization)

  unfoldable pub bearer_only : Request → Handling → Handling
  bearer_only r next s = if has_bearer_token r then next s else (refuses 401, s)

  -- The handler that newMux registers for an operation.
  unfoldable pub route : Operation → Bool → Context → Request → Bytes → ℕ → Handling
  unfolding login_rate_limit bearer_rate_limit authenticated operation_gates
  route op has_bearer c r ip now =
      if is_public op.scope
      then if op.login_rate_limited
        then login_rate_limit ip now (λ s. (serves c, s))
        else (λ s. (serves c, s))
      else bearer_rate_limit r ip now (authenticated (operation_gates op) has_bearer c r now)

  -- The handler of POST /mcp.
  unfoldable pub mcp_route : Bool → Context → Request → Bytes → ℕ → Handling
  unfolding bearer_rate_limit bearer_only authenticated
  mcp_route has_bearer c r ip now =
      bearer_rate_limit r ip now
        (bearer_only r (authenticated (λ c'. serves c') has_bearer c r now))
