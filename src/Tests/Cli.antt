-- ===== src/Tests/Cli.antt =====
-- Command lines under a parser of two flags.
use crapnote.Base.{
  ◌⊎◌, ◌-◌, ◌≤◌, ◌≡◌, ◌≢◌, refl, true, Option, none, some, List, [], ◌∷◌, codes, length, arith, inl,
  inr, Bool-cases, if◌then◌else◌,
}
use crapnote.Base.Ints.{ℤ, pos}
use crapnote.Db.{Bytes}
use crapnote.Images.{same_bytes}
use crapnote.Cli.{
  Flags, Parsed, misused, parsed, Outside, purge_note, delete_note, get_note, asks, is_help_arg,
}
use crapnote.Base.Table.{exists}
use crapnote.Tokens.Service.{has_prefix}
use crapnote.Images.Unused.{same_bytes-eq}
use crapnote.Cli.Parsing.{Shrinks, Tells, says_yes, id_arg}
use crapnote.Cli.Contents.{notes_sub, cmd_notes, notes_delete, notes_get}
use crapnote.Cli.Trash.{trash_purge, cmd_trash, trash_sub}
use crapnote.Cli.Run.{requests, stuck, run_command, from_environment, run_stdin}
use crapnote.Cli.Run.Server.{run_stdin-client}
use crapnote.Cli.Confirmed.Program.{run_command-yes, run_stdin-ends}
use crapnote.Cli.Client.Parity.{IsListed, request_of-IsListed}

abbrev with_url : Flags → List Bytes → Parsed
with_url f [] = misused
with_url f (u ∷ rest) = parsed (record f { url = u }) rest

abbrev read_flag : Flags → List Bytes → Parsed
read_flag f [] = parsed f []
read_flag f (a ∷ rest) =
    if same_bytes a (codes "--yes")
    then parsed (record f { yes = true }) rest
    else if same_bytes a (codes "--url")
    then with_url f rest
    else parsed f (a ∷ rest)

abbrev digit : Bytes → Option ℤ
digit (c ∷ []) = some (pos (c - 48))
digit _ = none

abbrev shell : Outside
shell = record {
  parse = λ names f args. read_flag f args;
  parse_int = digit;
  stdin = none;
  read_file = λ path. none;
  can_create = λ path. true;
  getenv = λ name. [];
  default_file = codes "export.zip";
}

with_url-shrinks :
    (f g : Flags) (args rest : List Bytes)
    → with_url f args ≡ parsed g rest
    → length rest ≤ length args
with_url-shrinks f g [] rest e = absurd (cc e)
with_url-shrinks f g (u ∷ us) rest e = let same : us ≡ rest = cc e in rw (← same) (omega arith)

read_flag-shrinks :
    (f g : Flags) (args rest : List Bytes)
    → read_flag f args ≡ parsed g rest
    → length rest ≤ length args
read_flag-shrinks f g [] rest e = let same : [] ≡ rest = cc e in rw (← same) (omega arith)
read_flag-shrinks f g (a ∷ words) rest e = elim (Bool-cases (same_bytes a (codes "--yes"))) [
  | inl b ↦ let e' = rw b at e in let same : words ≡ rest = cc e' in rw (← same) (omega arith)
  | inr b ↦ elim (Bool-cases (same_bytes a (codes "--url"))) [
    | inl c ↦ let e' = rw (b, c) at e in omega (arith, with_url-shrinks f g words rest e')
    | inr c ↦
        let e' = rw (b, c) at e in let same : a ∷ words ≡ rest = cc e' in rw (← same) (omega arith)
  ]
]

shell-Shrinks : Shrinks shell
shell-Shrinks names f g args rest e = read_flag-shrinks f g args rest e

said_yes :
    (a : Bytes) (words : List Bytes)
    → same_bytes a (codes "--yes") ≡ true
    → exists says_yes (a ∷ words) ≡ true
unfolding exists says_yes has_prefix
said_yes a words b = rw (same_bytes-eq a (codes "--yes") b) refl

said_later :
    (a : Bytes) (words : List Bytes)
    → exists says_yes words ≡ true
    → exists says_yes (a ∷ words) ≡ true
unfolding exists
said_later a words h = ground (arith, h)

with_url-heard :
    (f g : Flags) (args rest : List Bytes)
    → with_url f args ≡ parsed g rest
    → g.yes ≡ true
    → f.yes ≡ true
with_url-heard f g [] rest e set = absurd (cc e)
with_url-heard f g (u ∷ us) rest e set =
    let same : record f { url = u } ≡ g = cc e in rw (← same) at set

with_url-left :
    (f g : Flags) (args rest : List Bytes)
    → with_url f args ≡ parsed g rest
    → exists says_yes rest ≡ true
    → exists says_yes args ≡ true
with_url-left f g [] rest e said = absurd (cc e)
with_url-left f g (u ∷ us) rest e said =
    let same : us ≡ rest = cc e in said_later u us (rw same said)

read_flag-heard :
    (f g : Flags) (args rest : List Bytes)
    → read_flag f args ≡ parsed g rest
    → g.yes ≡ true
    → (f.yes ≡ true) ⊎ (exists says_yes args ≡ true)
read_flag-heard f g [] rest e set = let same : f ≡ g = cc e in inl (rw same set)
read_flag-heard f g (a ∷ words) rest e set = elim (Bool-cases (same_bytes a (codes "--yes"))) [
  | inl b ↦ inr (said_yes a words b)
  | inr b ↦ elim (Bool-cases (same_bytes a (codes "--url"))) [
    | inl c ↦ inl (with_url-heard f g words rest (rw (b, c) at e) set)
    | inr c ↦ let e' = rw (b, c) at e in let same : f ≡ g = cc e' in inl (rw same set)
  ]
]

read_flag-left :
    (f g : Flags) (args rest : List Bytes)
    → read_flag f args ≡ parsed g rest
    → exists says_yes rest ≡ true
    → exists says_yes args ≡ true
read_flag-left f g [] rest e said = let same : [] ≡ rest = cc e in rw same said
read_flag-left f g (a ∷ words) rest e said = elim (Bool-cases (same_bytes a (codes "--yes"))) [
  | inl b ↦
      let e' = rw b at e in let same : words ≡ rest = cc e' in said_later a words (rw same said)
  | inr b ↦ elim (Bool-cases (same_bytes a (codes "--url"))) [
    | inl c ↦ said_later a words (with_url-left f g words rest (rw (b, c) at e) said)
    | inr c ↦ let e' = rw (b, c) at e in let same : a ∷ words ≡ rest = cc e' in rw same said
  ]
]

shell-Tells : Tells shell
shell-Tells = record {
  heard = λ names f g args rest e. read_flag-heard f g args rest e;
  left = λ names f g args rest e. read_flag-left f g args rest e;
}

abbrev start : Flags
start = from_environment shell

abbrev purging : List Bytes
purging = codes "purge" ∷ codes "7" ∷ codes "--yes" ∷ []

abbrev at_last : Flags
at_last = record start { yes = true }

planned : run_command shell (codes "trash") start purging ≡ asks at_last (purge_note 7)
unfolding run_command cmd_trash trash_sub trash_purge id_arg same_bytes is_help_arg
planned = refl

run_command-yes_example : (at_last.yes ≡ true) × (exists says_yes purging ≡ true)
run_command-yes_example =
    run_command-yes shell shell-Shrinks (codes "trash") start at_last purging (purge_note 7)
      shell-Tells planned refl

run_stdin-ends_example : run_stdin shell (codes "trash" ∷ purging) ≢ stuck
run_stdin-ends_example = run_stdin-ends shell shell-Shrinks (codes "trash" ∷ purging)

abbrev no_token : Bytes
no_token = []

abbrev here : List Bytes
here = codes "notes" ∷ codes "delete" ∷ codes "7" ∷ []

abbrev elsewhere : List Bytes
elsewhere = codes "notes" ∷ codes "get" ∷ codes "7" ∷ codes "--url" ∷ codes "http://elsewhere" ∷ []

sent_here : run_stdin shell here ≡ requests (codes "http://localhost:8080") [] (delete_note 7)
unfolding run_stdin run_command cmd_notes notes_sub notes_delete id_arg same_bytes is_help_arg
sent_here = refl

sent_home : run_stdin shell elsewhere ≡ requests (codes "http://localhost:8080") [] (get_note 7)
unfolding run_stdin run_command cmd_notes notes_sub notes_get id_arg same_bytes is_help_arg
sent_home = refl

stops_here : shell.parse ("version" ∷ []) start here ≡ parsed start here
unfolding same_bytes
stops_here = refl

stops_home : shell.parse ("version" ∷ []) start elsewhere ≡ parsed start elsewhere
unfolding same_bytes
stops_home = refl

run_stdin-client_example :
    (codes "http://localhost:8080" ≡ codes "http://localhost:8080") × (no_token ≡ no_token)
run_stdin-client_example =
    run_stdin-client shell start [] (codes "delete" ∷ codes "7" ∷ [])
      (codes "get" ∷ codes "7" ∷ codes "--url" ∷ codes "http://elsewhere" ∷ []) (codes "notes")
      (codes "http://localhost:8080") (codes "http://localhost:8080") [] [] (delete_note 7)
      (get_note 7) stops_here stops_home sent_here sent_home

request_of-IsListed_example : IsListed (λ n. codes "7") (purge_note 7)
request_of-IsListed_example = request_of-IsListed (λ n. codes "7") (purge_note 7)
