-- ===== src/Api.antt =====
-- The registry of the HTTP operations: backend/internal/apispec/spec.go. The descriptions, which are texts
-- for people, are left out. A path is its bytes.
pub mod Accounts
pub mod Contents
pub mod Registry
pub mod Typed
use crapnote.Base.{
  ℕ, Bool, true, false, not, ◌&&◌, List, [], ◌∷◌, ◌++◌, String, codes, ◌==◌, if◌then◌else◌,
}
use crapnote.Db.{Bytes}

pub data Scope : Type 0 where
  public read write : Scope

pub data ParamIn : Type 0 where
  in_path in_query in_body : ParamIn

pub data ParamType : Type 0 where
  string integer boolean int_array base64 : ParamType

-- `unset` is the empty text, which the loop at the end of Registry replaces.
pub data RequestKind : Type 0 where
  unset json multipart_image : RequestKind

pub data ResponseKind : Type 0 where
  unset json none binary image : ResponseKind

pub record Param : Type 0 where
  pub name : String
  pub place : ParamIn
  pub kind : ParamType
  pub is_required : Bool

pub record Operation : Type 0 where
  pub name : String
  pub method : String
  pub path : Bytes
  pub scope : Scope
  pub admin_only : Bool
  pub cookie_only : Bool
  pub login_rate_limited : Bool
  pub params : List Param
  pub request : RequestKind
  pub response : ResponseKind
  pub mcp_waived : String
  pub destructive : Bool

-- An Operation literal that sets four fields; the others have their zero values.
abbrev pub operation : String → String → String → Scope → Operation
operation name method path scope = record {
  name = name;
  method = method;
  path = codes path;
  scope = scope;
  admin_only = false;
  cookie_only = false;
  login_rate_limited = false;
  params = [];
  request = RequestKind.unset;
  response = ResponseKind.unset;
  mcp_waived = "";
  destructive = false;
}

abbrev pub required : String → ParamIn → ParamType → Param
required name place kind = record { name = name; place = place; kind = kind; is_required = true }

abbrev pub optional : String → ParamIn → ParamType → Param
optional name place kind = record { name = name; place = place; kind = kind; is_required = false }

abbrev pub page_params : List Param
page_params = optional "limit" in_query integer ∷ optional "offset" in_query integer ∷ []

abbrev pub searchable_page_params : List Param
searchable_page_params = optional "search" in_query string ∷ page_params

abbrev pub note_id : Param
note_id = required "id" in_path integer

abbrev pub is_public : Scope → Bool
is_public public = true
is_public _ = false

abbrev pub is_write : Scope → Bool
is_write write = true
is_write _ = false

unfoldable pub bearer_reachable : Operation → Bool
bearer_reachable o = not (is_public o.scope) && (not o.admin_only && not o.cookie_only)
