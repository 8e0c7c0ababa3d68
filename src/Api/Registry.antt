-- ===== src/Api/Registry.antt =====
-- Registry, MCPOps and PathParams of backend/internal/apispec/spec.go.
use crapnote.Base.{
  ℕ, Bool, false, ◌&&◌, ◌||◌, List, [], ◌∷◌, ◌++◌, map, str_eq, ◌==◌, split_on, if◌then◌else◌,
}
use crapnote.Base.Table.{select}
use crapnote.Db.{Bytes}
use crapnote.Api.{RequestKind, ResponseKind, Operation, bearer_reachable}
use crapnote.Api.Accounts.{
  public_operations, session_operations, token_operations, admin_operations,
}
use crapnote.Api.Contents.{
  note_operations, note_tag_operations, tag_operations, export_operations, image_operations,
  trash_operations,
}

-- The literal of Registry.
abbrev pub listed : List Operation
listed =
    public_operations ++ session_operations ++ token_operations ++ note_operations
    ++ note_tag_operations ++ tag_operations ++ export_operations ++ image_operations
    ++ trash_operations ++ admin_operations

abbrev pub or_json : RequestKind → RequestKind
or_json RequestKind.unset = RequestKind.json
or_json k = k

abbrev pub or_json_response : ResponseKind → ResponseKind
or_json_response ResponseKind.unset = ResponseKind.json
or_json_response k = k

abbrev pub with_defaults : Operation → Operation
with_defaults o = record o { request = or_json o.request; response = or_json_response o.response }

unfoldable pub registry : List Operation
registry = map with_defaults listed

unfoldable pub mcp_ops : List Operation
unfolding registry bearer_reachable
mcp_ops = select (λ o. bearer_reachable o && str_eq o.mcp_waived "") registry

abbrev pub is_brace : ℕ → Bool
is_brace c = c == 123 || c == 125

abbrev pub opens : Bytes → Bool
opens [] = false
opens (c ∷ cs) = c == 123

abbrev pub closes : Bytes → Bool
closes [] = false
closes (c ∷ []) = c == 125
closes (c ∷ d ∷ cs) = closes (d ∷ cs)

-- strings.Trim(seg, "{}")
unfoldable pub trim_left : Bytes → Bytes
trim_left [] = []
trim_left (c ∷ cs) = let rest = trim_left cs in if is_brace c then rest else c ∷ cs

unfoldable pub trim_right : Bytes → Bytes
trim_right [] = []
trim_right (c ∷ cs) = onto c (trim_right cs)
  where
    onto : ℕ → Bytes → Bytes
    onto c [] = if is_brace c then [] else c ∷ []
    onto c (d ∷ ds) = c ∷ d ∷ ds

abbrev pub trim_braces : Bytes → Bytes
trim_braces s = trim_right (trim_left s)

unfoldable pub path_params : Bytes → List Bytes
unfolding trim_left trim_right
path_params path = map trim_braces (select (λ s. opens s && closes s) (split_on 47 [] path))
