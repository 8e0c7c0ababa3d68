-- ===== src/Cli/Confirmed.antt =====
-- What a command line can lead to: cli/cmd/crapnote.
pub mod Steps
pub mod Commands
pub mod Program
use crapnote.Base.{
  ◌⊎◌, inl, inr, arith, ℕ, suc, ◌≡◌, ◌≢◌, refl, Bool, true, false, not, ◌&&◌, Option, none, some,
  List, [], ◌∷◌, String, if◌then◌else◌, length,
}
use crapnote.Base.Ints.{ℤ, pos, negsuc}
use crapnote.Base.Table.{exists}
use crapnote.Db.{Bytes}
use crapnote.Cli.{
  Flags, Outside, ClientCall, purge_note, empty_trash, revoke_all_tokens, Plan, exits, asks,
  unfinished, is_help_arg,
}
use crapnote.Cli.Parsing.{
  Arguments, stops, unended, arguments, Shrinks, parse_interspersed, parse_interspersed-ends,
  parse_interspersed-Tells, Tells, says_yes, parse_args, once, with_arguments, positive,
  parse_id_arg, with_id, single, pair, id_arg,
}
use crapnote.Cli.{Parsed, asked_help, misused, parsed, fresh}

-- The calls whose commands ask for --yes.
abbrev pub is_irreversible : ClientCall → Bool
is_irreversible (purge_note id) = true
is_irreversible empty_trash = true
is_irreversible revoke_all_tokens = true
is_irreversible _ = false

-- A plan that is finished, and that makes such a call only under --yes, where the command line said so.
pub data IsConfirmed (said : Bool) : Plan → Type 0 where
  ended : (code : ℕ) → IsConfirmed said (exits code)
  sent :
      (g : Flags) (call : ClientCall)
      → is_irreversible call && not (g.yes && said) ≡ false
      → IsConfirmed said (asks g call)

pub if-IsConfirmed :
    {said : Bool} (b : Bool) (p q : Plan)
    → IsConfirmed said p
    → IsConfirmed said q
    → IsConfirmed said (if b then p else q)
if-IsConfirmed true p q h k = h
if-IsConfirmed false p q h k = k

with_arguments-IsConfirmed :
    {said : Bool} (o : Outside) (a : Arguments) (k : Flags → List Bytes → Plan)
    → a ≢ unended
    → ((g : Flags) (positional : List Bytes) → IsConfirmed said (k g positional))
    → IsConfirmed said (with_arguments o a k)
with_arguments-IsConfirmed o (stops code) k ends h = ended _
with_arguments-IsConfirmed o unended k ends h = absurd (ends refl)
with_arguments-IsConfirmed o (arguments g positional) k ends h = h g positional

pub with_id-IsConfirmed :
    {said : Bool} (o : Outside) (id : Option ℕ) (k : ℕ → Plan)
    → ((n : ℕ) → IsConfirmed said (k n))
    → IsConfirmed said (with_id o id k)
with_id-IsConfirmed o none k h = ended _
with_id-IsConfirmed o (some n) k h = h n

pub single-IsConfirmed :
    {said : Bool} (o : Outside) (args : List Bytes) (k : Bytes → Plan)
    → ((a : Bytes) → IsConfirmed said (k a))
    → IsConfirmed said (single o args k)
single-IsConfirmed o [] k h = ended _
single-IsConfirmed o (a ∷ []) k h = h a
single-IsConfirmed o (a ∷ b ∷ rest) k h = ended _

pub pair-IsConfirmed :
    {said : Bool} (o : Outside) (args : List Bytes) (k : Bytes → Bytes → Plan)
    → ((a b : Bytes) → IsConfirmed said (k a b))
    → IsConfirmed said (pair o args k)
pair-IsConfirmed o [] k h = ended _
pair-IsConfirmed o (a ∷ []) k h = ended _
pair-IsConfirmed o (a ∷ b ∷ []) k h = h a b
pair-IsConfirmed o (a ∷ b ∷ c ∷ rest) k h = ended _

once-ends : (o : Outside) (p : Parsed) → once o p ≢ unended
once-ends o asked_help = λ c. cc c
once-ends o misused = λ c. cc c
once-ends o (parsed f rest) = λ c. cc c

pub parse_args-IsConfirmed :
    {said : Bool} (o : Outside) (names : List String) (f : Flags) (args : List Bytes)
    (k : Flags → List Bytes → Plan)
    → ((g : Flags) (positional : List Bytes) → IsConfirmed said (k g positional))
    → IsConfirmed said (with_arguments o (parse_args o names f args) k)
unfolding parse_args
parse_args-IsConfirmed o names f args k h =
    with_arguments-IsConfirmed o (parse_args o names f args) k
      (once-ends o (o.parse names (fresh f) args)) h

module _ (o : Outside) (shrinks : Shrinks o) where
  pub interspersed-IsConfirmed :
      {said : Bool} (names : List String) (f : Flags) (args : List Bytes)
      (k : Flags → List Bytes → Plan)
      → ((g : Flags) (positional : List Bytes) → IsConfirmed said (k g positional))
      → IsConfirmed said (with_arguments o (parse_interspersed o names f args) k)
  interspersed-IsConfirmed names f args k h =
      with_arguments-IsConfirmed o (parse_interspersed o names f args) k
        (parse_interspersed-ends o names f args shrinks) h

  pub id_arg-IsConfirmed :
      {said : Bool} (names : List String) (f : Flags) (args : List Bytes) (k : Flags → ℕ → Plan)
      → ((g : Flags) (id : ℕ) → IsConfirmed said (k g id))
      → IsConfirmed said (id_arg o names f args k)
  unfolding id_arg
  id_arg-IsConfirmed names f args k h = interspersed-IsConfirmed names f args _ (λ g positional.
      single-IsConfirmed o positional _ (λ a. with_id-IsConfirmed o (parse_id_arg o a) (k g) (h g)))

-- A continuation that may use that the flags were read from the arguments.
pub read-IsConfirmed :
    {said : Bool} (o : Outside) (a : Arguments) (k : Flags → List Bytes → Plan)
    → a ≢ unended
    → ((g : Flags) (positional : List Bytes)
        → a ≡ arguments g positional
        → IsConfirmed said (k g positional))
    → IsConfirmed said (with_arguments o a k)
read-IsConfirmed o (stops code) k ends h = ended _
read-IsConfirmed o unended k ends h = absurd (ends refl)
read-IsConfirmed o (arguments g positional) k ends h = h g positional refl

-- Either the command line says --yes, or --yes is set only where the arguments say so.
abbrev pub Linked : Outside → Bool → List Bytes → Type 0
Linked o said args = (said ≡ true) ⊎ (Tells o × (exists says_yes args ≡ true → said ≡ true))

pub Linked-tail :
    (o : Outside) (said : Bool) (a : Bytes) (args : List Bytes)
    → Linked o said (a ∷ args)
    → Linked o said args
unfolding exists
Linked-tail o said a args (inl s) = inl s
Linked-tail o said a args (inr (tells, heard)) = inr (tells, λ e. heard (ground (arith, e)))

Linked-yes :
    (o : Outside) (said : Bool) (names : List String) (f g : Flags) (args positional : List Bytes)
    → Linked o said args
    → parse_interspersed o names f args ≡ arguments g positional
    → g.yes ≡ true
    → said ≡ true
Linked-yes o said names f g args positional (inl s) e given = s
Linked-yes o said names f g args positional (inr (tells, heard)) e given =
    heard (parse_interspersed-Tells o names f args g positional tells e given)

module _ (o : Outside) (shrinks : Shrinks o) where
  -- As `interspersed-IsConfirmed`: --yes is set only if an argument says so.
  pub told-IsConfirmed :
      {said : Bool} (names : List String) (f : Flags) (args : List Bytes)
      (k : Flags → List Bytes → Plan)
      → Linked o said args
      → ((g : Flags) (positional : List Bytes)
          → (g.yes ≡ true → said ≡ true)
          → IsConfirmed said (k g positional))
      → IsConfirmed said (with_arguments o (parse_interspersed o names f args) k)
  told-IsConfirmed names f args k heard h =
      read-IsConfirmed o (parse_interspersed o names f args) k
        (parse_interspersed-ends o names f args shrinks)
        (λ g positional e. h g positional (Linked-yes o _ names f g args positional heard e))

  pub told_id-IsConfirmed :
      {said : Bool} (names : List String) (f : Flags) (args : List Bytes) (k : Flags → ℕ → Plan)
      → Linked o said args
      → ((g : Flags) (id : ℕ) → (g.yes ≡ true → said ≡ true) → IsConfirmed said (k g id))
      → IsConfirmed said (id_arg o names f args k)
  unfolding id_arg
  told_id-IsConfirmed names f args k heard h =
      told-IsConfirmed names f args _ heard (λ g positional link.
        single-IsConfirmed o positional _
          (λ a. with_id-IsConfirmed o (parse_id_arg o a) (k g) (λ id. h g id link)))
