-- ===== src/Cli/Parsing.antt =====
-- Flags and arguments: parseInterspersed, idArg and parseIDArg of cli/cmd/crapnote.
use crapnote.Base.{
  ℕ, zero, suc, ◌⊎◌, inl, inr, Bool, true, ◌||◌, codes, ◌≡◌, ◌≢◌, refl, ◌≤◌, ◌<◌, Option, none,
  some, List, [], ◌∷◌, ◌++◌, String, length, arith,
}
use crapnote.Base.Ints.{ℤ, pos}
use crapnote.Base.Table.{exists}
use crapnote.Tokens.Service.{has_prefix}
use crapnote.Db.{Bytes}
use crapnote.Cli.{
  Flags, Parsed, asked_help, misused, parsed, Outside, exit_ok, exit_usage, Plan, exits, unfinished,
  fresh,
}

-- What a flag set makes of the arguments of a command: `stops` has the exit code.
pub data Arguments : Type 0 where
  stops : ℕ → Arguments
  unended : Arguments
  arguments : Flags → List Bytes → Arguments

module _ (o : Outside) where
  -- fs.Parse behind parseCode.
  abbrev pub once : Parsed → Arguments
  once asked_help = stops exit_ok
  once misused = stops exit_usage
  once (parsed f rest) = arguments f rest

  unfoldable pub parse_args : List String → Flags → List Bytes → Arguments
  parse_args names f args = once (o.parse names (fresh f) args)

  -- The loop of parseInterspersed, behind parseCode, for a number of rounds.
  unfoldable pub interspersed : ℕ → List String → Flags → List Bytes → List Bytes → Arguments
  interspersed zero names f positional args = unended
  interspersed (suc rounds) names f positional args = elim (o.parse names f args) [
    | asked_help ↦ stops exit_ok
    | misused ↦ stops exit_usage
    | parsed g [] ↦ arguments g positional
    | parsed g (r ∷ rest) ↦ interspersed rounds names g (positional ++ r ∷ []) rest
  ]

  -- A round behind its fs.Parse.
  abbrev next : ℕ → List String → List Bytes → Parsed → Arguments
  unfolding interspersed
  next rounds names positional p = elim p [
    | asked_help ↦ stops exit_ok
    | misused ↦ stops exit_usage
    | parsed g [] ↦ arguments g positional
    | parsed g (r ∷ rest) ↦ interspersed rounds names g (positional ++ r ∷ []) rest
  ]

  -- Each round takes an argument, so one more than there are is enough.
  unfoldable pub parse_interspersed : List String → Flags → List Bytes → Arguments
  unfolding interspersed
  parse_interspersed names f args = interspersed (suc (length args)) names (fresh f) [] args

  -- The plan behind the arguments.
  abbrev pub with_arguments : Arguments → (Flags → List Bytes → Plan) → Plan
  with_arguments (stops code) k = exits code
  with_arguments unended k = unfinished
  with_arguments (arguments f positional) k = k f positional

  abbrev pub positive : Option ℤ → Option ℕ
  positive (some (pos (suc n))) = some (suc n)
  positive _ = none

  unfoldable pub parse_id_arg : Bytes → Option ℕ
  parse_id_arg s = positive (o.parse_int s)

  abbrev pub with_id : Option ℕ → (ℕ → Plan) → Plan
  with_id none k = exits exit_usage
  with_id (some id) k = k id

  -- Exactly one argument.
  abbrev pub single : List Bytes → (Bytes → Plan) → Plan
  single (a ∷ []) k = k a
  single _ k = exits exit_usage

  abbrev pub pair : List Bytes → (Bytes → Bytes → Plan) → Plan
  pair (a ∷ b ∷ []) k = k a b
  pair _ k = exits exit_usage

  unfoldable pub id_arg : List String → Flags → List Bytes → (Flags → ℕ → Plan) → Plan
  unfolding parse_interspersed parse_id_arg
  id_arg names f args k =
      with_arguments (parse_interspersed names f args)
        (λ g positional. single positional (λ a. with_id (parse_id_arg a) (k g)))

-- FlagSet.Parse gives back no more arguments than it gets.
abbrev pub Shrinks : Outside → Type 0
Shrinks o =
    (names : List String) (f g : Flags) (args rest : List Bytes)
    → o.parse names f args ≡ parsed g rest
    → length rest ≤ length args

-- More rounds than arguments are enough.
interspersed-ends :
    (o : Outside) (rounds : ℕ) (names : List String) (f : Flags) (positional args : List Bytes)
    → Shrinks o
    → length args < rounds
    → interspersed o rounds names f positional args ≢ unended
unfolding interspersed
interspersed-ends o zero names f positional args shrinks h = absurd (omega (arith, h))
interspersed-ends o (suc rounds) names f positional args shrinks h =
    go (o.parse names f args) refl
      (λ g r rest. interspersed-ends o rounds names g (positional ++ r ∷ []) rest shrinks)
  where
    go :
        (p : Parsed)
        → o.parse names f args ≡ p
        → ((g : Flags) (r : Bytes) (rest : List Bytes)
            → length rest < rounds
            → interspersed o rounds names g (positional ++ r ∷ []) rest ≢ unended)
        → next o rounds names positional p ≢ unended
    go asked_help e again = λ c. ground arith
    go misused e again = λ c. ground arith
    go (parsed g []) e again = λ c. ground arith
    go (parsed g (r ∷ rest)) e again =
        again g r rest (omega (arith, h, shrinks names f g args (r ∷ rest) e))

-- The loop over flags and arguments ends, if package flag gives back no more arguments than it gets.
pub parse_interspersed-ends :
    (o : Outside) (names : List String) (f : Flags) (args : List Bytes)
    → Shrinks o
    → parse_interspersed o names f args ≢ unended
unfolding parse_interspersed
parse_interspersed-ends o names f args shrinks =
    interspersed-ends o (suc (length args)) names (fresh f) [] args shrinks (omega arith)

-- An argument that gives --yes a value.
unfoldable pub says_yes : Bytes → Bool
says_yes a = has_prefix a (codes "--yes") || has_prefix a (codes "-yes")

-- FlagSet.Parse sets --yes only if an argument says so, and what it gives back are arguments that it got.
pub record Tells (o : Outside) : Type 0 where
  pub heard :
      (names : List String) (f g : Flags) (args rest : List Bytes)
      → o.parse names f args ≡ parsed g rest
      → g.yes ≡ true
      → (f.yes ≡ true) ⊎ (exists says_yes args ≡ true)
  pub left :
      (names : List String) (f g : Flags) (args rest : List Bytes)
      → o.parse names f args ≡ parsed g rest
      → exists says_yes rest ≡ true
      → exists says_yes args ≡ true

interspersed-Tells :
    (o : Outside) (rounds : ℕ) (names : List String) (f : Flags) (positional args : List Bytes)
    (g : Flags) (found : List Bytes)
    → Tells o
    → interspersed o rounds names f positional args ≡ arguments g found
    → g.yes ≡ true
    → (f.yes ≡ true) ⊎ (exists says_yes args ≡ true)
unfolding interspersed
interspersed-Tells o zero names f positional args g found tells e given = absurd (cc e)
interspersed-Tells o (suc rounds) names f positional args g found tells e given =
    go (o.parse names f args) refl e (λ h r rest e'.
      interspersed-Tells o rounds names h (positional ++ r ∷ []) rest g found tells e' given)
  where
    go :
        (p : Parsed)
        → o.parse names f args ≡ p
        → next o rounds names positional p ≡ arguments g found
        → ((h : Flags) (r : Bytes) (rest : List Bytes)
            → interspersed o rounds names h (positional ++ r ∷ []) rest ≡ arguments g found
            → (h.yes ≡ true) ⊎ (exists says_yes rest ≡ true))
        → (f.yes ≡ true) ⊎ (exists says_yes args ≡ true)
    go asked_help q e again = absurd (cc e)
    go misused q e again = absurd (cc e)
    go (parsed h []) q e again =
        let same : h ≡ g = cc e in tells.heard names f h args [] q (rw same given)
    go (parsed h (r ∷ rest)) q e again = elim (again h r rest e) [
      | inl set ↦ tells.heard names f h args (r ∷ rest) q set
      | inr said ↦
          inr (tells.left names f h args (r ∷ rest) q (unfold exists in ground (arith, said)))
    ]

-- The flags that the loop ends with have --given only if an argument says so.
pub parse_interspersed-Tells :
    (o : Outside) (names : List String) (f : Flags) (args : List Bytes) (g : Flags)
    (found : List Bytes)
    → Tells o
    → parse_interspersed o names f args ≡ arguments g found
    → g.yes ≡ true
    → exists says_yes args ≡ true
unfolding parse_interspersed
parse_interspersed-Tells o names f args g found tells e given =
    elim (interspersed-Tells o (suc (length args)) names (fresh f) [] args g found tells e given) [
      | inl set ↦ absurd (cc set)
      | inr said ↦ said
    ]
