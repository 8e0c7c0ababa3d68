-- ===== src/Server/Permitted.antt =====
-- Who reaches the handler of an operation: backend/cmd/server/server.go.
use crapnote.Base.{
  ℕ, ◌≡◌, refl, sym, ◌∙◌, Bool, true, false, not, ◌&&◌, none, some, String, inl, inr, Bool-cases,
  Option-cases, [], arith,
}
use crapnote.Db.{Bytes, User}
use crapnote.Images.{same_bytes}
use crapnote.Gate.{
  Context, Request, Store, Answer, serves, is_bearer_auth, write_allowed, require_auth, logged_in,
  by_credentials, bearer_from_request,
}
use crapnote.Gate.Passed.{Basis, require_auth-Basis, admit_bearer-serves}
use crapnote.Tokens.Model.{allows_write}
use crapnote.Tokens.Service.{VerifiedToken, verify}
use crapnote.Tokens.Verified.{Accepted, verify-Accepted}
use mathlib.Core.Path.{subst}
use crapnote.RateLimit.{Float64, allow}
use crapnote.Api.{Operation, is_public, is_write, bearer_reachable}
use crapnote.Server.{
  ServerState, operation_gates, authenticated, bearer_rate_limit, route, mcp_route, bearer_only,
  has_bearer_token,
}
use crapnote.Server.Gated.{Permitted, bind-serves, operation_gates-Permitted}

module _ {F : Type 0} (float : Float64 F) (hash_token : Bytes → String)
    (trim_space : Bytes → Bytes) where
  bearer_rate_limit-serves :
      (r : Request) (ip : Bytes) (now : ℕ) (next : ServerState F → Answer × ServerState F)
      (s : ServerState F) (d : Context)
      → (bearer_rate_limit float hash_token trim_space r ip now next s).0 ≡ serves d
      → (s' : ServerState F) × (s'.store ≡ s.store) × ((next s').0 ≡ serves d)
  unfolding bearer_rate_limit
  bearer_rate_limit-serves r ip now next s d h = elim (Bool-cases (same_bytes r.authorization [])) [
    | inl e ↦ (s, refl, rw e at h)
    | inr e ↦
        let h' = rw e at h in
        let a = allow float ip now s.bearer_limiter in
        elim (Bool-cases a.0) [
          | inl p ↦ (record s { bearer_limiter = a.1 }, refl, rw p at h')
          | inr p ↦ let h'' = rw p at h' in absurd (cc h'')
        ]
  ]

  route-gates :
      (op : Operation) (has_bearer : Bool) (c d : Context) (r : Request) (ip : Bytes) (now : ℕ)
      (s : ServerState F)
      → is_public op.scope ≡ false
      → (route float hash_token trim_space op has_bearer c r ip now s).0 ≡ serves d
      → ((require_auth hash_token trim_space has_bearer c r now s.store).0 ≡ serves d)
        × Permitted op d
  unfolding route authenticated
  route-gates op has_bearer c d r ip now s closed h =
      let (s', same_store, passed) =
        bearer_rate_limit-serves r ip now
          (authenticated float hash_token trim_space (operation_gates op) has_bearer c r now) s d
          (rw closed at h) in
      let (b, admitted, inner) =
        bind-serves (require_auth hash_token trim_space has_bearer c r now s'.store).0
          (operation_gates op) d passed in
      let (same, permitted) = operation_gates-Permitted op b d inner in
      (rw (← same_store, ← same) admitted, subst (Permitted op) same permitted)

  -- A request that newMux lets through to the handler of an operation that is not public, where no gate before
  -- has put a user on the context: it comes with a session that stands or with an accepted token, and the handler
  -- runs as that user; never with a token if the operation is kept for cookies; never with a token without
  -- the scope read_write if it writes; and only as an administrator, without a token, if it is kept for them.
  pub route-Permitted :
      (op : Operation) (has_bearer : Bool) (c d : Context) (r : Request) (ip : Bytes) (now : ℕ)
      (s : ServerState F)
      → is_public op.scope ≡ false
      → c.user ≡ none
      → (route float hash_token trim_space op has_bearer c r ip now s).0 ≡ serves d
      → Basis hash_token trim_space r now s.store.db d × Permitted op d
  route-Permitted op has_bearer c d r ip now s closed fresh h =
      let (admitted, permitted) = route-gates op has_bearer c d r ip now s closed h in
      (
        require_auth-Basis hash_token trim_space has_bearer c d r now s.store fresh admitted,
        permitted,
      )

  require_auth-token :
      (has_bearer : Bool) (c d : Context) (r : Request) (raw : Bytes) (now : ℕ) (s : Store)
      → c.user ≡ none
      → bearer_from_request hash_token trim_space r.authorization ≡ some raw
      → (require_auth hash_token trim_space has_bearer c r now s).0 ≡ serves d
      → (v : VerifiedToken) × Accepted hash_token trim_space raw now s.db v
        × (d ≡ logged_in v.user true (allows_write v.scope))
  unfolding require_auth by_credentials
  require_auth-token false c d r raw now s fresh e h = let h' = rw (fresh, e) at h in absurd (cc h')
  require_auth-token true c d r raw now s fresh e h =
      let (v, valid, made) =
        admit_bearer-serves (verify hash_token trim_space raw now s.db) s d (rw (fresh, e) at h) in
      (v, verify-Accepted hash_token trim_space raw now s.db v valid, made)

  -- The context of a tool call is already authenticated.
  require_auth-passes :
      (has_bearer : Bool) (c d : Context) (u : User) (r : Request) (now : ℕ) (s : Store)
      → c.user ≡ some u
      → (require_auth hash_token trim_space has_bearer c r now s).0 ≡ serves d
      → c ≡ d
  unfolding require_auth
  require_auth-passes has_bearer c d u r now s known h = let h' = rw known at h in cc h'

  mcp_route-token :
      (has_bearer : Bool) (c d : Context) (r : Request) (ip : Bytes) (now : ℕ) (s : ServerState F)
      → c.user ≡ none
      → (mcp_route float hash_token trim_space has_bearer c r ip now s).0 ≡ serves d
      → (raw : Bytes) × (v : VerifiedToken) × Accepted hash_token trim_space raw now s.store.db v
        × (d ≡ logged_in v.user true (allows_write v.scope))
  unfolding mcp_route bearer_only authenticated has_bearer_token
  mcp_route-token has_bearer c d r ip now s fresh h =
      let (s', same_store, passed) =
        bearer_rate_limit-serves r ip now
          (bearer_only float hash_token trim_space r
            (authenticated float hash_token trim_space (λ b. serves b) has_bearer c r now))
          s d h in
      elim (Option-cases (bearer_from_request hash_token trim_space r.authorization)) [
        | inl n ↦ let p = rw n at passed in absurd (cc p)
        | inr (raw, n) ↦
            let p = rw n at passed in
            let (b, admitted, inner) =
              bind-serves (require_auth hash_token trim_space has_bearer c r now s'.store).0 _ d
                p in
            let same : b ≡ d = cc inner in
            let admitted' = rw (same_store, same) at admitted in
            let (v, accepted, made) =
              require_auth-token has_bearer c d r raw now s.store fresh n admitted' in
            (raw, v, accepted, made)
      ]

  -- A tool call of MCP: in the context with which newMux lets a request through to the MCP handler, any operation that
  -- is not public and whose handler the mux lets a replayed request through to is within reach of tokens, that is
  -- kept neither for cookies nor for administrators; it runs as the owner of the token of that request,
  -- which was accepted; and it does not write unless the token's scope allows that.
  pub mcp_route-Permitted :
      (has_bearer : Bool) (c d e : Context) (r r' : Request) (ip ip' : Bytes) (now now' : ℕ)
      (s s' : ServerState F) (op : Operation)
      → c.user ≡ none
      → (mcp_route float hash_token trim_space has_bearer c r ip now s).0 ≡ serves d
      → is_public op.scope ≡ false
      → (route float hash_token trim_space op has_bearer d r' ip' now' s').0 ≡ serves e
      → (raw : Bytes) × (v : VerifiedToken) × Accepted hash_token trim_space raw now s.store.db v
        × (e ≡ logged_in v.user true (allows_write v.scope))
        × (bearer_reachable op ≡ true)
        × (is_write op.scope && not (allows_write v.scope) ≡ false)
  unfolding bearer_reachable is_bearer_auth write_allowed
  mcp_route-Permitted has_bearer c d e r r' ip ip' now now' s s' op fresh h closed g =
      let (raw, v, accepted, made) = mcp_route-token has_bearer c d r ip now s fresh h in
      let (admitted, permitted) = route-gates op has_bearer d e r' ip' now' s' closed g in
      let same =
        require_auth-passes has_bearer d e v.user r' now' s'.store (rw made refl) admitted in
      let owner : e ≡ logged_in v.user true (allows_write v.scope) = sym same ∙ made in
      let p : Permitted op (logged_in v.user true (allows_write v.scope)) =
        subst (Permitted op) owner permitted in
      (raw, v, accepted, owner, ground (arith, p.no_token, p.administers, closed), p.may_write)
