-- ===== src/Cli/Run.antt =====
-- The program: runStdin, and the commands of one level, in cli/cmd/crapnote/main.go, search.go, whoami.go and
-- version.go.
pub mod Server
use crapnote.Base.{
  ℕ, Bool, true, false, ◌||◌, not, Option, none, some, List, [], ◌∷◌, ◌++◌, String, codes,
  if◌then◌else◌,
}
use crapnote.Base.Table.{exists}
use crapnote.Db.{Bytes}
use crapnote.Images.{same_bytes}
use crapnote.Cli.{
  Flags, Parsed, asked_help, misused, parsed, Outside, ClientCall, list_notes, list_archived, me,
  exit_ok, exit_usage, Plan, exits, asks, unfinished, is_help_arg, fresh,
}
use crapnote.Cli.Parsing.{parse_interspersed, with_arguments}
use crapnote.Cli.Contents.{page_flags, cmd_notes, cmd_tags}
use crapnote.Cli.Trash.{unless_help, or_env, cmd_trash, cmd_export, cmd_tokens}
use crapnote.Base.Ints.{ℤ, pos}

-- strings.Join(words, " ")
unfoldable pub join_words : List Bytes → Bytes
join_words [] = []
join_words (w ∷ []) = w
join_words (w ∷ v ∷ vs) = w ++ 32 ∷ join_words (v ∷ vs)

-- A request of the program, and where it goes: the address and the token of the client.
pub data Outcome : Type 0 where
  ended : ℕ → Outcome
  requests : Bytes → Bytes → ClientCall → Outcome
  stuck : Outcome

-- The request of a plan through a client.
abbrev pub through : Bytes → Bytes → Plan → Outcome
through url token (exits code) = ended code
through url token (asks f call) = requests url token call
through url token unfinished = stuck

module _ (o : Outside) where
  abbrev pub found : Flags → List Bytes → Plan
  found g [] = exits exit_usage
  found g (w ∷ ws) = asks g (list_notes false (pos 0) (join_words (w ∷ ws)) g.limit g.offset)

  unfoldable pub search_args : Flags → List Bytes → Plan
  unfolding parse_interspersed join_words
  search_args f args = with_arguments o (parse_interspersed o page_flags f args) found

  -- Help is asked for by a single argument.
  unfoldable pub cmd_search : Flags → List Bytes → Plan
  unfolding search_args is_help_arg
  cmd_search f (a ∷ []) = if is_help_arg a then exits exit_ok else search_args f (a ∷ [])
  cmd_search f args = search_args f args

  unfoldable pub archive_args : Flags → List Bytes → Plan
  unfolding parse_interspersed
  archive_args f [] = exits exit_usage
  archive_args f (sub ∷ rest) =
      if same_bytes sub (codes "list")
      then with_arguments o (parse_interspersed o page_flags f rest)
          (λ g positional. asks g (list_archived g.limit g.offset))
      else exits exit_usage

  unfoldable pub cmd_archive : Flags → List Bytes → Plan
  unfolding archive_args
  cmd_archive f args = unless_help o archive_args f args

  abbrev pub no_arguments : List Bytes → Plan → Plan
  no_arguments [] plan = plan
  no_arguments (a ∷ rest) plan = exits exit_usage

  unfoldable pub cmd_whoami : Flags → List Bytes → Plan
  unfolding parse_interspersed
  cmd_whoami f args =
      with_arguments o (parse_interspersed o [] f args)
        (λ g positional. no_arguments positional (asks g me))

  unfoldable pub version_args : Flags → List Bytes → Plan
  unfolding parse_interspersed
  version_args f args =
      with_arguments o (parse_interspersed o [] f args)
        (λ g positional. no_arguments positional (exits exit_ok))

  unfoldable pub cmd_version : Flags → List Bytes → Plan
  unfolding version_args
  cmd_version f args = unless_help o version_args f args

  -- The keys of helpTopics.
  abbrev pub help_topics : List Bytes
  help_topics =
      codes "notes"
      ∷ codes "search"
      ∷ codes "archive"
      ∷ codes "tags"
      ∷ codes "trash"
      ∷ codes "export"
      ∷ codes "tokens"
      ∷ codes "whoami"
      ∷ codes "version"
      ∷ codes "help"
      ∷ []

  unfoldable pub cmd_help : List Bytes → Plan
  unfolding exists
  cmd_help [] = exits exit_ok
  cmd_help (topic ∷ rest) =
      if exists (same_bytes topic) help_topics then exits exit_ok else exits exit_usage

  -- The table of commands.
  unfoldable pub run_command : Bytes → Flags → List Bytes → Plan
  unfolding cmd_search cmd_archive cmd_whoami cmd_version cmd_help
  run_command cmd f rest =
      if same_bytes cmd (codes "notes")
      then cmd_notes o f rest
      else if same_bytes cmd (codes "search")
      then cmd_search f rest
      else if same_bytes cmd (codes "archive")
      then cmd_archive f rest
      else if same_bytes cmd (codes "tags")
      then cmd_tags o f rest
      else if same_bytes cmd (codes "trash")
      then cmd_trash o f rest
      else if same_bytes cmd (codes "export")
      then cmd_export o f rest
      else if same_bytes cmd (codes "tokens")
      then cmd_tokens o f rest
      else if same_bytes cmd (codes "whoami")
      then cmd_whoami f rest
      else if same_bytes cmd (codes "version")
      then cmd_version f rest
      else exits exit_usage

  -- The client is made here, of the flags before the command.
  unfoldable pub run_rest : Flags → List Bytes → Outcome
  unfolding run_command
  run_rest f [] = ended exit_usage
  run_rest f (cmd ∷ rest) =
      if is_help_arg cmd
      then through f.url f.token (cmd_help rest)
      else through f.url f.token (run_command cmd f rest)

  abbrev pub run_parsed : Parsed → Outcome
  run_parsed asked_help = ended exit_ok
  run_parsed misused = ended exit_usage
  run_parsed (parsed f rest) =
      if f.version then through f.url f.token (cmd_version f []) else run_rest f rest

  -- The flags before those of the command line: the environment, and the default address.
  abbrev pub from_environment : Flags
  from_environment = record {
    url = or_env (o.getenv "CRAPNOTE_URL") (codes "http://localhost:8080");
    token = o.getenv "CNP_TOKEN";
    json = false;
    version = false;
    title = none;
    body = none;
    body_file = none;
    starred = false;
    tag = pos 0;
    limit = pos 0;
    offset = pos 0;
    yes = false;
    out = none;
    password = none;
  }

  unfoldable pub run_stdin : List Bytes → Outcome
  unfolding run_rest
  run_stdin args = run_parsed (o.parse ("version" ∷ []) from_environment args)
