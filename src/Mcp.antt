-- ===== src/Mcp.antt =====
-- backend/internal/mcp: the tools of MCP (tools.go, dispatch.go, handler.go). Texts that people read are left
-- out: an error is the kind of its message with its arguments.
pub mod Captured
pub mod Path
pub mod Dispatch
pub mod Rpc
use crapnote.Base.{
  ℕ, Bool, true, false, ◌||◌, Option, List, [], ◌∷◌, map, String, str_eq, if◌then◌else◌,
}
use crapnote.Base.Ints.{ℤ}
use crapnote.Base.Table.{select}
use crapnote.Db.{Bytes}
use crapnote.Api.{ParamType, integer, boolean, int_array, base64, string, Param, Operation}

-- What encoding/json makes of a value: `whole` and `fractional` are the float64 with and without a
-- fraction, `number_text` is a json.Number, and `compound` an array or an object.
pub data Any : Type 0 where
  null : Any
  truth : Bool → Any
  whole : ℤ → Any
  fractional : Any
  number_text : Bytes → Any
  text : Bytes → Any
  compound : Any

-- Why a call failed: the formats of errorResult.
pub data Fault : Type 0 where
  missing_argument : String → Fault
  bad_argument : String → Fault
  empty_argument : String → Fault
  bad_image : String → Fault
  api_error : ℕ → Bytes → Fault
  too_large : ℕ → Fault

pub data Content : Type 0 where
  text_content : Bytes → Content
  image_content : Bytes → Bytes → Content
  resource_content : String → Bytes → Bytes → Content

-- `failed` is a text item whose isError is set.
pub data CallResult : Type 0 where
  failed : Fault → CallResult
  gives : Content → CallResult

pub record ToolAnnotations : Type 0 where
  pub read_only_hint : Bool
  pub destructive_hint : Bool
  pub idempotent_hint : Bool

-- The type of a parameter in JSON schema, with that of the items of an array.
pub data Schema : Type 0 where
  plain : String → Schema
  array_of : String → Schema
  encoded : String → String → Schema

pub record InputSchema : Type 0 where
  pub properties : List (String × Schema)
  pub required : List String

pub record Tool : Type 0 where
  pub name : String
  pub input_schema : InputSchema
  pub annotations : ToolAnnotations

unfoldable pub annotations : Operation → ToolAnnotations
annotations o = record {
  read_only_hint = str_eq o.method "GET";
  destructive_hint = o.destructive;
  idempotent_hint = str_eq o.method "GET" || (str_eq o.method "PUT" || str_eq o.method "DELETE");
}

unfoldable pub param_schema : ParamType → Schema
param_schema integer = plain "integer"
param_schema boolean = plain "boolean"
param_schema int_array = array_of "integer"
param_schema base64 = encoded "string" "base64"
param_schema string = plain "string"

unfoldable pub input_schema : Operation → InputSchema
unfolding param_schema
input_schema o = record {
  properties = map (λ p. (p.name, param_schema p.kind)) o.params;
  required = map (λ p. p.name) (select (λ p. p.is_required) o.params);
}

unfoldable pub build_tools : List Operation → List Tool
unfolding annotations input_schema
build_tools ops =
    map (λ o. record { name = o.name; input_schema = input_schema o; annotations = annotations o })
      ops
