-- ===== src/Mcp/Rpc/Batch.antt =====
-- Which requests of a batch are answered: backend/internal/mcp/handler.go.
use crapnote.Base.{
  ◌≡◌, refl, ap, ◌∙◌, Bool, not, ◌||◌, some, List, [], ◌∷◌, map, inl, inr, Bool-cases,
}
use crapnote.Base.Table.{select}
use crapnote.Db.{Bytes}
use crapnote.Gate.{Context}
use crapnote.Api.{Operation}
use crapnote.Mcp.Captured.{WriterCall}
use crapnote.Mcp.Dispatch.{Replay, Wire}
use crapnote.Mcp.Rpc.{
  RpcRequest, RpcResponse, HttpReply, one, many, accepted, batch, is_invalid, has_no_id, answer,
  handle, handle_all, batch_reply, serve_batch, serve_http,
}

-- A request is answered unless it is a valid notification.
unfoldable pub is_answered : RpcRequest → Bool
is_answered req = is_invalid req || not (has_no_id req)

-- The ids in a reply of several responses; 202 has none.
abbrev pub reply_ids : HttpReply → List Bytes
reply_ids (one r) = r.id ∷ []
reply_ids (many rs) = map (λ r. r.id) rs
reply_ids accepted = []

module _ {S : Type 0} (wire : Wire) (api : Replay → S → List WriterCall × S) (ops : List Operation)
    (context : Context) (addr : Bytes) where
  handle_all-ids :
      (reqs : List RpcRequest) (s : S)
      → map (λ r. r.id) (handle_all wire api ops context addr reqs s).0
        ≡ map (λ r. r.id) (select is_answered reqs)
  unfolding handle_all handle is_answered select
  handle_all-ids [] s = refl
  handle_all-ids (req ∷ reqs) s = elim (Bool-cases (is_invalid req)) [
    | inl e ↦ rw e (ap (◌∷◌ req.id) (handle_all-ids reqs s))
    | inr e ↦ elim (Bool-cases (has_no_id req)) [
      | inl n ↦ rw (e, n) (handle_all-ids reqs s)
      | inr n ↦
          rw (e, n)
            (ap (◌∷◌ req.id) (handle_all-ids reqs (answer wire api ops context addr req s).1))
    ]
  ]

  batch_reply-ids :
      (rs : List RpcResponse) (s : S)
      → reply_ids (batch_reply wire api ops context addr (rs, s)).0 ≡ map (λ r. r.id) rs
  batch_reply-ids [] s = refl
  batch_reply-ids (r ∷ rs) s = refl

  -- The reply to a batch that is not empty holds one response for each request that is invalid or has an id,
  -- under that id and in the order of the batch, and nothing for the valid notifications.
  pub serve_http-ids :
      (req : RpcRequest) (reqs : List RpcRequest) (s : S)
      → reply_ids (serve_http wire api ops context addr (batch (some (req ∷ reqs))) s).0
        ≡ map (λ r. r.id) (select is_answered (req ∷ reqs))
  unfolding serve_http serve_batch
  serve_http-ids req reqs s =
      let all = handle_all wire api ops context addr (req ∷ reqs) s in
      batch_reply-ids all.0 all.1 ∙ handle_all-ids (req ∷ reqs) s
