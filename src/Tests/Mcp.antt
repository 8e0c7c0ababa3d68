-- ===== src/Tests/Mcp.antt =====
-- Tool calls: one whose argument tries to leave its path segment, and a batch with a notification.
use crapnote.Base.{
  ℕ, ◌≡◌, refl, none, some, List, [], ◌∷◌, ◌==◌, ltb, if◌then◌else◌, codes, split_on, arith, map,
  length,
}
use crapnote.Base.Table.{select, exists, first}
use crapnote.Db.{Bytes}
use crapnote.Tokens.Service.{has_prefix}
use crapnote.Gate.{Context}
use crapnote.Api.{Operation, operation, Scope, required, in_path, string}
use crapnote.Api.Registry.{path_params}
use crapnote.Api.Typed.{IsTyped, is_word}
use crapnote.Mcp.{Any}
use crapnote.Mcp.Captured.{
  WriterCall, writer_run, write_header, write, new_captured, first_status, all_bytes,
  writer_run-lem,
}
use crapnote.Mcp.Path.{count_byte, fill}
use crapnote.Mcp.Dispatch.{goes, json_object, Replay, Wire, Arguments, prepare}
use crapnote.Mcp.Dispatch.Confined.{slash, prepare-confined}
use crapnote.Mcp.Rpc.{RpcRequest, batch, serve_http}
use crapnote.Mcp.Rpc.Batch.{reply_ids, is_answered, serve_http-ids}

-- url.PathEscape for the byte '/'.
abbrev escape_slashes : Bytes → Bytes
escape_slashes [] = []
escape_slashes (c ∷ cs) =
    if c == 47 then 37 ∷ 50 ∷ 70 ∷ escape_slashes cs else c ∷ escape_slashes cs

escapes : (s : Bytes) → count_byte 47 (escape_slashes s) ≡ 0
unfolding count_byte
escapes [] = refl
escapes (c ∷ cs) = ground (arith, escapes cs)

abbrev wire : Wire
wire = record {
  path_escape = escape_slashes;
  decimal = λ z. codes "1";
  decode_base64 = some;
  encode_base64 = λ s. s;
  trim_space = λ s. s;
  status_text = λ n. [];
}

abbrev get_image : Operation
get_image = record (operation "images_get" "GET" "/api/images/{id}" Scope.read) {
  params = required "id" in_path string ∷ [];
}

get_image-IsTyped : IsTyped get_image
unfolding select exists path_params split_on is_word
get_image-IsTyped = record {
  placeholders = refl;
  path_required = refl;
  scalars = refl;
  bodiless = refl;
  guarded = refl;
  file = refl;
  plain_names = refl;
  distinct_params = refl;
}

abbrev nobody : Context
nobody = record { user = none; flags = none }

abbrev sent : Replay
sent = record {
  method = "GET";
  path = codes "/api/images/..%2Ftokens";
  query = [];
  body = json_object [];
  context = nobody;
  remote_addr = [];
}

abbrev escaping : Arguments
escaping = ("id", Any.text (codes "../tokens")) ∷ []

prepared : prepare wire get_image escaping nobody [] ≡ goes sent
unfolding prepare first has_prefix fill
prepared = refl

prepare-confined_example :
    (sent.method ≡ "GET")
    × (sent.context ≡ nobody)
    × (count_byte 47 sent.path ≡ count_byte 47 get_image.path)
prepare-confined_example =
    prepare-confined wire 47 slash escapes get_image escaping nobody [] sent get_image-IsTyped
      prepared

abbrev calls : List WriterCall
calls = write_header 201 ∷ write (codes "abc") ∷ write (codes "de") ∷ []

writer_run-lem_example :
    let c = writer_run 4 calls new_captured in
    (c.status ≡ first_status calls)
    × (c.overflow ≡ ltb 4 (length (all_bytes calls)))
    × (c.body ≡ (if ltb 4 (length (all_bytes calls)) then [] else all_bytes calls))
writer_run-lem_example = writer_run-lem 4 calls

abbrev ping : Bytes → RpcRequest
ping id = record { jsonrpc = "2.0"; id = id; method = "ping"; protocol_version = none; call = none }

abbrev silent : Replay → ℕ → List WriterCall × ℕ
silent r n = ([], n)

serve_http-ids_example :
    reply_ids
      (serve_http wire silent [] nobody [] (batch (some (ping (codes "1") ∷ ping [] ∷ []))) 0).0
    ≡ map (λ r. r.id) (select is_answered (ping (codes "1") ∷ ping [] ∷ []))
serve_http-ids_example = serve_http-ids wire silent [] nobody [] (ping (codes "1")) (ping [] ∷ []) 0
