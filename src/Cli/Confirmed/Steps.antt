-- ===== src/Cli/Confirmed/Steps.antt =====
-- The steps that the commands of cli/cmd/crapnote share.
use crapnote.Base.{
  ℕ, ◌≡◌, refl, Bool, true, false, not, ◌&&◌, Option, none, some, List, [], ◌∷◌, if◌then◌else◌,
  arith,
}
use crapnote.Db.{Bytes}
use crapnote.Cli.{Flags, Outside, ClientCall, tag_note, untag_note, Plan, exits, asks, exit_usage}
use crapnote.Cli.Contents.{read_body, resolve_body, titled, update_of, with_sub}
use crapnote.Cli.Trash.{confirmed, unless_help}
use crapnote.Cli.Run.{found, no_arguments}
use crapnote.Cli.Confirmed.{
  Linked, Linked-tail, is_irreversible, IsConfirmed, ended, sent, if-IsConfirmed,
}

if-sent :
    {said : Bool} (b : Bool) (g : Flags) (call : ClientCall)
    → (b ≡ true → is_irreversible call && not (g.yes && said) ≡ false)
    → IsConfirmed said (if b then asks g call else exits exit_usage)
if-sent true g call h = sent g call (h refl)
if-sent false g call h = ended exit_usage

pub confirmed-IsConfirmed :
    {said : Bool} (g : Flags) (call : ClientCall)
    → (g.yes ≡ true → said ≡ true)
    → IsConfirmed said (confirmed g (asks g call))
confirmed-IsConfirmed g call told =
    if-sent g.yes g call (λ e. let t = told e in ground (arith, e, t))

pub harmless_tag :
    {said : Bool} (g : Flags) (attach : Bool) (note tag : ℕ)
    → IsConfirmed said (asks g (if attach then tag_note note tag else untag_note note tag))
harmless_tag g true note tag = sent g _ refl
harmless_tag g false note tag = sent g _ refl

module _ (o : Outside) where
  pub read_body-IsConfirmed :
      {said : Bool} (content : Option Bytes) (k : Bytes → Plan)
      → ((b : Bytes) → IsConfirmed said (k b))
      → IsConfirmed said (read_body o content k)
  read_body-IsConfirmed none k h = (ended _)
  read_body-IsConfirmed (some b) k h = h b

  pub resolve_body-IsConfirmed :
      {said : Bool} (body file : Bytes) (k : Bytes → Plan)
      → ((b : Bytes) → IsConfirmed said (k b))
      → IsConfirmed said (resolve_body o body file k)
  unfolding resolve_body
  resolve_body-IsConfirmed body [] k h = h body
  resolve_body-IsConfirmed [] (c ∷ cs) k h =
      if-IsConfirmed _ _ _ (read_body-IsConfirmed o.stdin k h)
        (read_body-IsConfirmed (o.read_file (c ∷ cs)) k h)
  resolve_body-IsConfirmed (b ∷ bs) (c ∷ cs) k h = (ended _)

  pub titled-IsConfirmed :
      {said : Bool} (title : Bytes) (k : Bytes → Plan)
      → ((t : Bytes) → IsConfirmed said (k t))
      → IsConfirmed said (titled o title k)
  titled-IsConfirmed [] k h = (ended _)
  titled-IsConfirmed (c ∷ cs) k h = h (c ∷ cs)

  pub update_of-IsConfirmed :
      {said : Bool} (g : Flags) (id : ℕ) (title body : Option Bytes)
      → IsConfirmed said (update_of o g id title body)
  update_of-IsConfirmed g id none none = (ended _)
  update_of-IsConfirmed g id none (some b) = sent g _ refl
  update_of-IsConfirmed g id (some t) body = sent g _ refl

  pub with_linked-IsConfirmed :
      {said : Bool} (run : Bytes → Flags → List Bytes → Plan) (f : Flags) (args : List Bytes)
      → Linked o said args
      → ((sub : Bytes) (rest : List Bytes) → Linked o said rest → IsConfirmed said (run sub f rest))
      → IsConfirmed said (with_sub o run f args)
  with_linked-IsConfirmed run f [] link h = (ended _)
  with_linked-IsConfirmed run f (sub ∷ rest) link h =
      if-IsConfirmed _ _ _ (ended _) (h sub rest (Linked-tail o _ sub rest link))

  pub with_sub-IsConfirmed :
      {said : Bool} (run : Bytes → Flags → List Bytes → Plan) (f : Flags) (args : List Bytes)
      → ((sub : Bytes) (rest : List Bytes) → IsConfirmed said (run sub f rest))
      → IsConfirmed said (with_sub o run f args)
  with_sub-IsConfirmed run f [] h = (ended _)
  with_sub-IsConfirmed run f (sub ∷ rest) h = if-IsConfirmed _ _ _ (ended _) (h sub rest)

  pub unless_help-IsConfirmed :
      {said : Bool} (run : Flags → List Bytes → Plan) (f : Flags) (args : List Bytes)
      → ((rest : List Bytes) → IsConfirmed said (run f rest))
      → IsConfirmed said (unless_help o run f args)
  unless_help-IsConfirmed run f [] h = h []
  unless_help-IsConfirmed run f (a ∷ rest) h = if-IsConfirmed _ _ _ (ended _) (h (a ∷ rest))

  pub no_arguments-IsConfirmed :
      {said : Bool} (args : List Bytes) (plan : Plan)
      → IsConfirmed said plan
      → IsConfirmed said (no_arguments o args plan)
  no_arguments-IsConfirmed [] plan h = h
  no_arguments-IsConfirmed (a ∷ rest) plan h = (ended _)

  pub found-IsConfirmed :
      {said : Bool} (g : Flags) (words : List Bytes) → IsConfirmed said (found o g words)
  found-IsConfirmed g [] = (ended _)
  found-IsConfirmed g (w ∷ ws) = sent g _ refl
