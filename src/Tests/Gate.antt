-- ===== src/Tests/Gate.antt =====
-- Requests with a cookie and with a bearer token.
use crapnote.Base.{
  ℕ, ◌+◌, ◌-◌, ◌*◌, ltb, min, arith, not, ◌&&◌, true, false, none, some, [], ◌∷◌, ◌++◌, String, ◌≡◌,
  refl,
}
use crapnote.Base.Table.{first}
use crapnote.Db.{Bytes, User, read_write}
use crapnote.Auth.Users
use crapnote.Auth.Sessions
use crapnote.Auth.Account.{validate_session}
use crapnote.Tokens.Model.{token_prefix, active, allows_write}
use crapnote.Tokens.Repo
use crapnote.Tokens.Service.{VerifiedToken, has_prefix, verify}
use crapnote.Tokens.Verified.{Accepted}
use crapnote.Gate.{
  Context, Request, Store, serves, logged_in, bearer_prefix, bearer_from_request, require_auth,
  require_admin, require_write, is_bearer_auth, write_allowed,
}
use crapnote.Gate.Passed.{Basis}
use crapnote.RateLimit.{Float64, Limiter, allow}
use crapnote.RateLimit.Burst.{IsExact, requests, requests-count}
use crapnote.Images.{same_bytes}
use crapnote.Api.{Operation, operation, Scope, is_write, bearer_reachable}
use crapnote.Server.{ServerState, route, mcp_route, has_bearer_token}
use crapnote.Server.Gated.{Permitted}
use crapnote.Server.Permitted.{route-Permitted, mcp_route-Permitted}
use crapnote.Tests.{store, alice}

abbrev digest : Bytes → String
digest s = "five"

abbrev as_is : Bytes → Bytes
as_is s = s

abbrev root : User
root = record alice { is_admin = true }

abbrev raw : Bytes
raw = token_prefix ++ 120 ∷ []

abbrev state : Store
state = record {
  db = record store {
    users = root ∷ [];
    tokens =
        record {
          id = 1;
          user_id = 1;
          name = 110 ∷ [];
          token_hash = "five";
          prefix = raw;
          scope = read_write;
          last_used_at = none;
          expires_at = none;
          revoked_at = none;
          created_at = 0;
        }
        ∷ [];
  };
  used = [];
}

abbrev nobody : Context
nobody = record { user = none; flags = none }

abbrev browser : Request
browser = record { authorization = []; session = some "s1" }

abbrev script : Request
script = record { authorization = bearer_prefix ++ raw; session = none }

-- Tokens counted in whole numbers, and seconds that are nanoseconds.
abbrev whole : Float64 ℕ
whole = record {
  of_int = λ n. n;
  add = λ a b. a + b;
  sub = λ a b. a - b;
  mul = λ a b. a * b;
  exceeds = λ a b. ltb b a;
  seconds = λ now last. now - last;
}

abbrev limiter : Limiter ℕ
limiter = record { buckets = []; rate = 5; burst = 2; ttl = 600; last_gc = 0 }

whole-IsExact : IsExact whole 5 2
whole-IsExact = record {
  decrement = λ n h. omega arith;
  compares = λ m n h k. refl;
  no_time = λ n now h. omega arith;
}

requests-count_example : (requests whole 3 [] 42 limiter).0 ≡ min 3 2
unfolding first
requests-count_example = requests-count whole 5 2 whole-IsExact 3 [] 42 limiter refl refl refl

abbrev running : ServerState ℕ
running = record { store = state; login_limiter = limiter; bearer_limiter = limiter }

abbrev theming : Operation
theming = record (operation "admin_theme_set" "PUT" "/api/admin/theme" Scope.write) {
  admin_only = true;
}

abbrev tagging : Operation
tagging = operation "tags_create" "POST" "/api/tags" Scope.write

themed :
    (route whole digest as_is theming true nobody browser [] 42 running).0
    ≡ serves (logged_in root false true)
unfolding route require_auth has_prefix validate_session Sessions.find Users.find_by_id
    Users.is_locked first require_admin require_write write_allowed is_bearer_auth same_bytes
themed = refl

route-Permitted_example :
    Basis digest as_is browser 42 state.db (logged_in root false true)
    × Permitted theming (logged_in root false true)
route-Permitted_example =
    route-Permitted whole digest as_is theming true nobody (logged_in root false true) browser [] 42
      running refl refl themed

connected :
    (mcp_route whole digest as_is true nobody script [] 42 running).0
    ≡ serves (logged_in root true true)
unfolding mcp_route require_auth has_prefix verify Repo.find_by_hash active Users.find_by_id
    Users.is_locked first allows_write allow same_bytes bearer_from_request has_bearer_token
connected = refl

abbrev bare : Request
bare = record { authorization = []; session = none }

called :
    (route whole digest as_is tagging true (logged_in root true true) bare [] 43 running).0
    ≡ serves (logged_in root true true)
unfolding route require_auth has_prefix require_admin require_write write_allowed is_bearer_auth
    same_bytes
called = refl

mcp_route-Permitted_example :
    (raw : Bytes) × (v : VerifiedToken) × Accepted digest as_is raw 42 state.db v
    × (logged_in root true true ≡ logged_in v.user true (allows_write v.scope))
    × (bearer_reachable tagging ≡ true)
    × (is_write tagging.scope && not (allows_write v.scope) ≡ false)
mcp_route-Permitted_example =
    mcp_route-Permitted whole digest as_is true nobody (logged_in root true true)
      (logged_in root true true) script bare [] [] 42 43 running running tagging refl connected refl
      called
