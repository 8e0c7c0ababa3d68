-- ===== src/Mcp/Dispatch.antt =====
-- One tool call as a request to the server's own mux: dispatch in backend/internal/mcp/dispatch.go. The mux is
-- a parameter, and so are url.PathEscape, the decimals of fmt, base64, strings.TrimSpace and
-- http.StatusText. The encoding of a query, of a JSON body and of a multipart form is left out; none of them fails
-- on what it is given here.
pub mod Confined
use crapnote.Base.{
  ℕ, ◌-◌, ◌≡◌, refl, Bool, true, false, ◌&&◌, ◌||◌, Option, none, some, List, [], ◌∷◌, ◌++◌, ltb,
  leb, String, str_eq, codes, if◌then◌else◌,
}
use crapnote.Base.Ints.{ℤ, pos, negsuc, ltb_ℤ}
use crapnote.Base.Table.{first}
use crapnote.Db.{Bytes}
use crapnote.Gate.{Context}
use crapnote.Api.{
  ParamIn, in_path, in_query, in_body, ParamType, integer, boolean, base64, RequestKind,
  ResponseKind, Param, Operation,
}
use crapnote.Api.Typed.{is_in_body, is_base64}
use crapnote.Mcp.{
  Any, Fault, missing_argument, bad_argument, empty_argument, bad_image, api_error, too_large,
  Content, text_content, image_content, resource_content, CallResult, failed, gives,
}
use crapnote.Mcp.Captured.{Captured, WriterCall, writer_run, new_captured, max_dispatch_response}
use crapnote.Mcp.Path.{fill}

-- A step that may end the call with an error.
pub data Tried (A : Type 0) : Type 0 where
  stops : Fault → Tried A
  goes : A → Tried A

infixl 5 ◌>>=◌
abbrev pub ◌>>=◌ : {A B : Type 0} → Tried A → (A → Tried B) → Tried B
stops e >>= k = stops e
goes a >>= k = k a

pub bind-goes :
    {A B : Type 0} (t : Tried A) (k : A → Tried B) (b : B)
    → (t >>= k) ≡ goes b
    → (a : A) × (t ≡ goes a) × (k a ≡ goes b)
bind-goes (stops e) k b h = cc
bind-goes (goes a) k b h = (a, refl, h)

abbrev pub Arguments : Type 0
Arguments = List (String × Any)

-- The value under a name; `none` if it is missing or nil.
abbrev pub not_null : Any → Option Any
not_null Any.null = none
not_null v = some v

abbrev pub argument : String → Arguments → Option Any
argument name args = elim (first (λ a. str_eq a.0 name) args) [
  | none ↦ none
  | some a ↦ not_null a.1
]

-- The variables of the loop over the parameters.
pub record Gathered : Type 0 where
  pub path : Bytes
  pub query : List (String × Bytes)
  pub body : Arguments

pub data Body : Type 0 where
  json_object : Arguments → Body
  image_file : String → Bytes → Body

pub record Replay : Type 0 where
  pub method : String
  pub path : Bytes
  pub query : List (String × Bytes)
  pub body : Body
  pub context : Context
  pub remote_addr : Bytes

-- 1 << 53
abbrev pub max_exact_int : ℕ
max_exact_int = 9_007_199_254_740_992

-- What the package calls of the standard library.
pub record Wire : Type 0 where
  pub path_escape : Bytes → Bytes
  pub decimal : ℤ → Bytes
  pub decode_base64 : Bytes → Option Bytes
  pub encode_base64 : Bytes → Bytes
  pub trim_space : Bytes → Bytes
  pub status_text : ℕ → Bytes

abbrev pub truth_text : Bool → Bytes
truth_text true = codes "true"
truth_text false = codes "false"

-- {"ok":true}
abbrev pub ok_text : Bytes
ok_text = codes "{\"ok\":true}"

abbrev pub or_text : Bytes → Bytes → Bytes
or_text [] other = other
or_text (c ∷ cs) other = c ∷ cs

module _ (wire : Wire) where
  unfoldable pub integer_text : Any → Option Bytes
  integer_text (Any.whole z) =
      if ltb_ℤ (pos max_exact_int) z || ltb_ℤ z (negsuc (max_exact_int - 1))
      then none
      else some (wire.decimal z)
  integer_text (Any.number_text s) = some s
  integer_text _ = none

  abbrev pub boolean_text : Any → Option Bytes
  boolean_text (Any.truth b) = some (truth_text b)
  boolean_text _ = none

  abbrev pub string_text : Any → Option Bytes
  string_text (Any.text s) = some s
  string_text _ = none

  -- `none` is an error.
  unfoldable pub scalar_string : ParamType → Any → Option Bytes
  unfolding integer_text
  scalar_string integer v = integer_text v
  scalar_string boolean v = boolean_text v
  scalar_string _ v = string_text v

  abbrev pub scalar : Param → Any → Tried Bytes
  scalar p v = elim (scalar_string p.kind v) [
    | none ↦ stops (bad_argument p.name)
    | some s ↦ goes s
  ]

  abbrev pub in_path_segment : Param → Gathered → Bytes → Tried Gathered
  in_path_segment p g [] = stops (empty_argument p.name)
  in_path_segment p g (c ∷ cs) =
      goes (record g { path = fill p.name (wire.path_escape (c ∷ cs)) g.path })

  -- The switch on p.In.
  unfoldable pub place : ParamIn → Param → Any → Gathered → Tried Gathered
  unfolding scalar_string
  place in_path p v g = do s ← scalar p v; in_path_segment p g s
  place in_query p v g = do s ← scalar p v; goes (record g { query = g.query ++ (p.name, s) ∷ [] })
  place in_body p v g = goes (record g { body = g.body ++ (p.name, v) ∷ [] })

  -- One round of the loop over the parameters.
  unfoldable pub gather_param : Param → Option Any → Gathered → Tried Gathered
  unfolding place
  gather_param p none g = if p.is_required then stops (missing_argument p.name) else goes g
  gather_param p (some v) g = place p.place p v g

  unfoldable pub gather : List Param → Arguments → Gathered → Tried Gathered
  unfolding gather_param
  gather [] args g = goes g
  gather (p ∷ ps) args g = do h ← gather_param p (argument p.name args) g; gather ps args h

  abbrev pub image_text : Param → Option Any → Tried (String × Bytes)
  image_text p (some (Any.text s)) = goes (p.name, s)
  image_text p _ = stops (bad_image p.name)

  -- The loop of multipartImageBody.
  unfoldable pub image_field : List Param → Arguments → String × Bytes → Tried (String × Bytes)
  image_field [] body found = goes found
  image_field (p ∷ ps) body found =
      if is_in_body p.place && is_base64 p.kind
      then (image_text p (argument p.name body) >>= image_field ps body)
      else image_field ps body found

  abbrev pub decoded : String → Option Bytes → Tried Body
  decoded field none = stops (bad_image field)
  decoded field (some data_bytes) = goes (image_file field data_bytes)

  unfoldable pub multipart_image_body : Operation → Arguments → Tried Body
  unfolding image_field
  multipart_image_body op body = do
    f ← image_field op.params body ("", [])
    decoded f.0 (wire.decode_base64 f.1)

  abbrev pub request_body : RequestKind → Operation → Arguments → Tried Body
  request_body RequestKind.multipart_image op body = multipart_image_body op body
  request_body _ op body = goes (json_object body)

  -- The request that dispatch hands to the mux.
  unfoldable pub prepare : Operation → Arguments → Context → Bytes → Tried Replay
  unfolding gather multipart_image_body
  prepare op args context remote_addr = do
    g ← gather op.params args (record { path = op.path; query = []; body = [] })
    body ← request_body op.request op g.body
    goes (record {
      method = op.method;
      path = g.path;
      query = g.query;
      body = body;
      context = context;
      remote_addr = remote_addr;
    })

  abbrev pub reply_content : ResponseKind → String → Captured → Content
  reply_content ResponseKind.none name c = text_content ok_text
  reply_content ResponseKind.image name c = image_content (wire.encode_base64 c.body) c.content_type
  reply_content ResponseKind.binary name c =
      resource_content name c.content_type (wire.encode_base64 c.body)
  reply_content _ name c = text_content (or_text (wire.trim_space c.body) ok_text)

  unfoldable pub wrap_response : Operation → Captured → CallResult
  wrap_response op c =
      if ltb c.status 200 || leb 300 c.status
      then failed
          (api_error c.status (or_text (wire.trim_space c.body) (wire.status_text c.status)))
      else if c.overflow
      then failed (too_large max_dispatch_response)
      else gives (reply_content op.response op.name c)

  module _ {S : Type 0} (api : Replay → S → List WriterCall × S) where
    abbrev pub wrapped : Operation → List WriterCall × S → CallResult × S
    wrapped op (calls, s) =
        (wrap_response op (writer_run max_dispatch_response calls new_captured), s)

    abbrev pub replay : Operation → Tried Replay → S → CallResult × S
    replay op (stops e) s = (failed e, s)
    replay op (goes r) s = wrapped op (api r s)

    unfoldable pub dispatch : Operation → Arguments → Context → Bytes → S → CallResult × S
    unfolding prepare wrap_response
    dispatch op args context remote_addr s = replay op (prepare op args context remote_addr) s
