-- ===== src/Mcp/Dispatch/Confined.antt =====
-- Where a tool call can reach: backend/internal/mcp/dispatch.go.
use crapnote.Base.{
  ℕ, ◌≡◌, refl, ◌∙◌, true, false, not, Option, none, some, List, [], ◌∷◌, ◌++◌, inl, inr,
  Bool-cases, arith, codes, String,
}
use crapnote.Base.Table.{exists}
use crapnote.Db.{Bytes}
use crapnote.Gate.{Context}
use crapnote.Tokens.Service.{has_prefix}
use crapnote.Api.{ParamIn, in_path, in_query, in_body, Param, Operation}
use crapnote.Api.Typed.{IsTyped, is_word}
use crapnote.Mcp.{Any}
use crapnote.Mcp.Path.{fill, count_byte, count_byte-append, replace_from-count, rest_of_placeholder}
use crapnote.Mcp.Dispatch.{
  bind-goes, goes, Arguments, argument, Gathered, Replay, Wire, scalar, in_path_segment, place,
  gather_param, gather, request_body, prepare,
}

-- The bytes that separate the parts of a request's target: / ? #
pub data IsSeparator : ℕ → Type 0 where
  slash : IsSeparator 47
  question_mark : IsSeparator 63
  hash : IsSeparator 35

word-count : (b : ℕ) (s : Bytes) → IsSeparator b → is_word s ≡ true → count_byte b s ≡ 0
unfolding is_word count_byte
word-count b [] sep w = refl
word-count b (c ∷ cs) slash w = ground (arith, word-count 47 cs slash)
word-count b (c ∷ cs) question_mark w = ground (arith, word-count 63 cs question_mark)
word-count b (c ∷ cs) hash w = ground (arith, word-count 35 cs hash)

placeholder-count :
    (b : ℕ) (name : String)
    → IsSeparator b
    → is_word (codes name) ≡ true
    → count_byte b (123 ∷ rest_of_placeholder name) ≡ 0
unfolding count_byte
placeholder-count b name slash w =
    ground (arith, count_byte-append 47 (codes name) (125 ∷ []), word-count 47 (codes name) slash w)
placeholder-count b name question_mark w = ground (
  arith,
  count_byte-append 63 (codes name) (125 ∷ []),
  word-count 63 (codes name) question_mark w,
)
placeholder-count b name hash w =
    ground (arith, count_byte-append 35 (codes name) (125 ∷ []), word-count 35 (codes name) hash w)

fill-count :
    (b : ℕ) (name : String) (value path : Bytes)
    → IsSeparator b
    → is_word (codes name) ≡ true
    → count_byte b value ≡ 0
    → count_byte b (fill name value path) ≡ count_byte b path
unfolding fill has_prefix count_byte
fill-count b name value path sep w h =
    replace_from-count b 123 (rest_of_placeholder name) value (placeholder-count b name sep w) h []
      path refl refl

module _ (wire : Wire) (b : ℕ) (sep : IsSeparator b)
    (escapes : (s : Bytes) → count_byte b (wire.path_escape s) ≡ 0) where
  in_path_segment-count :
      (p : Param) (g h : Gathered) (s : Bytes)
      → is_word (codes p.name) ≡ true
      → in_path_segment wire p g s ≡ goes h
      → count_byte b h.path ≡ count_byte b g.path
  in_path_segment-count p g h [] w e = absurd (cc e)
  in_path_segment-count p g h (c ∷ cs) w e =
      let same : record g { path = fill p.name (wire.path_escape (c ∷ cs)) g.path } ≡ h = cc e in
      rw (← same) (fill-count b p.name (wire.path_escape (c ∷ cs)) g.path sep w (escapes (c ∷ cs)))

  place-count :
      (i : ParamIn) (p : Param) (v : Any) (g h : Gathered)
      → is_word (codes p.name) ≡ true
      → place wire i p v g ≡ goes h
      → count_byte b h.path ≡ count_byte b g.path
  unfolding place
  place-count in_path p v g h w e =
      let (s, _, filled) = bind-goes (scalar wire p v) (in_path_segment wire p g) h e in
      in_path_segment-count p g h s w filled
  place-count in_query p v g h w e =
      let (s, _, made) = bind-goes (scalar wire p v) _ h e in
      let same : record g { query = g.query ++ (p.name, s) ∷ [] } ≡ h = cc made in rw (← same) refl
  place-count in_body p v g h w e =
      let same : record g { body = g.body ++ (p.name, v) ∷ [] } ≡ h = cc e in rw (← same) refl

  gather_param-count :
      (p : Param) (v : Option Any) (g h : Gathered)
      → is_word (codes p.name) ≡ true
      → gather_param wire p v g ≡ goes h
      → count_byte b h.path ≡ count_byte b g.path
  unfolding gather_param
  gather_param-count p none g h w e = elim (Bool-cases p.is_required) [
    | inl n ↦ let e' = rw n at e in absurd (cc e')
    | inr n ↦ let e' = rw n at e in let same : g ≡ h = cc e' in rw (← same) refl
  ]
  gather_param-count p (some v) g h w e = place-count p.place p v g h w e

  gather-count :
      (ps : List Param) (args : Arguments) (g h : Gathered)
      → exists (λ p. not (is_word (codes p.name))) ps ≡ false
      → gather wire ps args g ≡ goes h
      → count_byte b h.path ≡ count_byte b g.path
  unfolding gather exists
  gather-count [] args g h w e = let same : g ≡ h = cc e in rw (← same) refl
  gather-count (p ∷ ps) args g h w e =
      let (m, first_round, rest) =
        bind-goes (gather_param wire p (argument p.name args) g) (gather wire ps args) h e in
      gather-count ps args m h (ground arith) rest
      ∙ gather_param-count p (argument p.name args) g m (ground arith) first_round

  -- Whatever the arguments of a tool call are, if url.PathEscape leaves none of / ? and # in a text: the
  -- request that is made of the call has the method of its operation and the caller's context, and its path has
  -- each of the three as often as the operation's.
  pub prepare-confined :
      (op : Operation) (args : Arguments) (context : Context) (addr : Bytes) (r : Replay)
      → IsTyped op
      → prepare wire op args context addr ≡ goes r
      → (r.method ≡ op.method)
        × (r.context ≡ context)
        × (count_byte b r.path ≡ count_byte b op.path)
  unfolding prepare
  prepare-confined op args context addr r typed e =
      let start : Gathered = record { path = op.path; query = []; body = [] } in
      let (g, gathered, e') = bind-goes (gather wire op.params args start) _ r e in
      let (body, _, made) = bind-goes (request_body wire op.request op g.body) _ r e' in
      let path = gather-count op.params args start g typed.plain_names gathered in
      let made' : record {
        method = op.method;
        path = g.path;
        query = g.query;
        body = body;
        context = context;
        remote_addr = addr;
      }
          ≡ r =
        cc made in
      rw (← made') (refl, refl, path)
