-- ===== src/Mcp/Rpc.antt =====
-- JSON-RPC over HTTP: backend/internal/mcp/handler.go. What io.ReadAll and encoding/json make of the body is an
-- argument, and the params of a request are what they decode to, `none` where that fails.
pub mod Batch
use crapnote.Base.{
  ℕ, Bool, true, false, not, ◌&&◌, ◌||◌, Option, none, some, List, [], ◌∷◌, String, str_eq, codes,
  is_some, if◌then◌else◌,
}
use crapnote.Db.{Bytes}
use crapnote.Images.{same_bytes}
use crapnote.Gate.{Context}
use crapnote.Api.{Operation}
use crapnote.Mcp.{CallResult, Tool, build_tools}
use crapnote.Mcp.Captured.{WriterCall}
use crapnote.Mcp.Dispatch.{Arguments, Replay, Wire, dispatch}

pub data RpcCode : Type 0 where
  parse_error invalid_request method_not_found invalid_params : RpcCode

pub record CallParams : Type 0 where
  pub name : String
  pub arguments : Arguments

pub record RpcRequest : Type 0 where
  pub jsonrpc : String
  pub id : Bytes
  pub method : String
  -- The params read as those of initialize, and as those of tools/call.
  pub protocol_version : Option String
  pub call : Option CallParams

pub data RpcResult : Type 0 where
  initialized : String → RpcResult
  pong : RpcResult
  tool_list : List Tool → RpcResult
  called : CallResult → RpcResult

-- The `Result` or the `Error` of a response.
pub data Payload : Type 0 where
  result : RpcResult → Payload
  error : RpcCode → Payload

pub record RpcResponse : Type 0 where
  pub id : Bytes
  pub payload : Payload

-- The body of a POST: not read, or an array or another value, each of which may not parse.
pub data Received : Type 0 where
  unread : Received
  single : Option RpcRequest → Received
  batch : Option (List RpcRequest) → Received

-- A response, an array of them, or 202 without a body.
pub data HttpReply : Type 0 where
  one : RpcResponse → HttpReply
  many : List RpcResponse → HttpReply
  accepted : HttpReply

abbrev pub protocol_version : String
protocol_version = "2025-06-18"

unfoldable pub is_supported : String → Bool
is_supported v = str_eq v "2025-06-18" || (str_eq v "2025-03-26" || str_eq v "2024-11-05")

-- h.ops[name]: of two operations of one name, the later one.
unfoldable pub find_op : String → List Operation → Option Operation
find_op name [] = none
find_op name (o ∷ os) =
    let later = find_op name os in
    elim later [ some x ↦ some x | none ↦ if str_eq o.name name then some o else none ]

unfoldable pub initialize : Option String → RpcResult
unfolding is_supported
initialize none = initialized protocol_version
initialize (some v) = initialized (if is_supported v then v else protocol_version)

abbrev pub refused : RpcCode → RpcResponse
refused code = record { id = []; payload = error code }

abbrev pub is_invalid : RpcRequest → Bool
is_invalid req = not (str_eq req.jsonrpc "2.0") || str_eq req.method ""

abbrev pub has_no_id : RpcRequest → Bool
has_no_id req = same_bytes req.id [] || same_bytes req.id (codes "null")

module _ {S : Type 0} (wire : Wire) (api : Replay → S → List WriterCall × S) (ops : List Operation)
    (context : Context) (addr : Bytes) where
  abbrev pub tool_called : CallResult × S → Payload × S
  tool_called (r, s) = (result (called r), s)

  abbrev pub call_op : Option Operation → Arguments → S → Payload × S
  call_op none args s = (error invalid_params, s)
  call_op (some op) args s = tool_called (dispatch wire api op args context addr s)

  unfoldable pub tools_call : Option CallParams → S → Payload × S
  unfolding find_op
  tools_call none s = (error invalid_params, s)
  tools_call (some p) s =
      if str_eq p.name ""
      then (error invalid_params, s)
      else call_op (find_op p.name ops) p.arguments s

  -- The switch on the method.
  unfoldable pub answer : RpcRequest → S → Payload × S
  unfolding tools_call initialize
  answer req s =
      if str_eq req.method "initialize"
      then (result (initialize req.protocol_version), s)
      else if str_eq req.method "ping"
      then (result pong, s)
      else if str_eq req.method "tools/list"
      then (result (tool_list (build_tools ops)), s)
      else if str_eq req.method "tools/call"
      then tools_call req.call s
      else (error method_not_found, s)

  abbrev pub responds : Bytes → Payload × S → Option RpcResponse × S
  responds id (p, s) = (some (record { id = id; payload = p }), s)

  unfoldable pub handle : RpcRequest → S → Option RpcResponse × S
  unfolding answer
  handle req s =
      if is_invalid req
      then (some (record { id = req.id; payload = error invalid_request }), s)
      else if has_no_id req
      then (none, s)
      else responds req.id (answer req s)

  abbrev pub collected : Option RpcResponse → List RpcResponse → List RpcResponse
  collected none rs = rs
  collected (some r) rs = r ∷ rs

  -- The loop of serveBatch.
  unfoldable pub handle_all : List RpcRequest → S → List RpcResponse × S
  handle_all [] s = ([], s)
  handle_all (req ∷ reqs) s =
      let now = handle req s in
      let later = handle_all reqs now.1 in (collected now.0 later.0, later.1)

  abbrev pub batch_reply : List RpcResponse × S → HttpReply × S
  batch_reply ([], s) = (accepted, s)
  batch_reply (r ∷ rs, s) = (many (r ∷ rs), s)

  unfoldable pub serve_batch : Option (List RpcRequest) → S → HttpReply × S
  unfolding handle_all
  serve_batch none s = (one (refused parse_error), s)
  serve_batch (some []) s = (one (refused invalid_request), s)
  serve_batch (some (req ∷ reqs)) s = batch_reply (handle_all (req ∷ reqs) s)

  abbrev pub single_reply : Option RpcResponse × S → HttpReply × S
  single_reply (none, s) = (accepted, s)
  single_reply (some r, s) = (one r, s)

  unfoldable pub serve_http : Received → S → HttpReply × S
  unfolding handle serve_batch
  serve_http unread s = (one (refused invalid_request), s)
  serve_http (batch reqs) s = serve_batch reqs s
  serve_http (single none) s = (one (refused parse_error), s)
  serve_http (single (some req)) s = single_reply (handle req s)
