-- ===== src/Cli.antt =====
-- The command line client, cli/cmd/crapnote: what a command line makes the program ask of the server, and with
-- which code it exits. What is printed is left out. The parsing of flags by package flag, strconv.ParseInt and the
-- files are parameters. Texts are their bytes.
pub mod Client
pub mod Parsing
pub mod Contents
pub mod Trash
pub mod Run
pub mod Confirmed
use crapnote.Base.{
  ℕ, Bool, true, false, ◌||◌, ◌&&◌, Option, none, some, List, [], ◌∷◌, String, codes, ◌==◌,
  if◌then◌else◌,
}
use crapnote.Base.Ints.{ℤ}
use crapnote.Db.{Bytes}
use crapnote.Images.{same_bytes}

-- The variables that flags set. A flag of text that is not given is `none`, and its variable then empty.
pub record Flags : Type 0 where
  pub url : Bytes
  pub token : Bytes
  pub json : Bool
  pub version : Bool
  pub title : Option Bytes
  pub body : Option Bytes
  pub body_file : Option Bytes
  pub starred : Bool
  pub tag : ℤ
  pub limit : ℤ
  pub offset : ℤ
  pub yes : Bool
  pub out : Option Bytes
  pub password : Option Bytes

-- What FlagSet.Parse ends with: flag.ErrHelp, another error, or the arguments from the first that is no flag.
pub data Parsed : Type 0 where
  asked_help : Parsed
  misused : Parsed
  parsed : Flags → List Bytes → Parsed

-- The outside of the program.
pub record Outside : Type 0 where
  -- The flags that a set has besides the global ones.
  pub parse : List String → Flags → List Bytes → Parsed
  pub parse_int : Bytes → Option ℤ
  pub stdin : Option Bytes
  pub read_file : Bytes → Option Bytes
  pub can_create : Bytes → Bool
  pub getenv : String → Bytes
  pub default_file : Bytes

abbrev pub exit_ok : ℕ
exit_ok = 0

abbrev pub exit_error : ℕ
exit_error = 1

abbrev pub exit_usage : ℕ
exit_usage = 2

abbrev pub exit_auth : ℕ
exit_auth = 3

abbrev pub exit_forbidden : ℕ
exit_forbidden = 4

abbrev pub exit_not_found : ℕ
exit_not_found = 5

-- The methods of cli/client.Client.
pub data ClientCall : Type 0 where
  list_notes : Bool → ℤ → Bytes → ℤ → ℤ → ClientCall
  create_note : Bytes → Bytes → ClientCall
  get_note : ℕ → ClientCall
  update_note : ℕ → Option Bytes → Option Bytes → ClientCall
  delete_note : ℕ → ClientCall
  toggle_star : ℕ → ClientCall
  toggle_pin : ℕ → ClientCall
  toggle_lock : ℕ → ClientCall
  archive_note : ℕ → ClientCall
  unarchive_note : ℕ → ClientCall
  list_archived : ℤ → ℤ → ClientCall
  list_tags : ℤ → ℤ → ClientCall
  create_tag : Bytes → ClientCall
  rename_tag : ℕ → Bytes → ClientCall
  delete_tag : ℕ → ClientCall
  note_tags : ℕ → ClientCall
  tag_note : ℕ → ℕ → ClientCall
  untag_note : ℕ → ℕ → ClientCall
  list_trash : ℤ → ℤ → ClientCall
  restore_note : ℕ → ClientCall
  purge_note : ℕ → ClientCall
  empty_trash : ClientCall
  export : Bytes → ClientCall
  list_tokens : ClientCall
  revoke_token : ℕ → ClientCall
  revoke_all_tokens : ClientCall
  me : ClientCall

-- A command exits without a request, or makes one under the flags that it has read. `unfinished` is for a
-- loop that has no rounds left.
pub data Plan : Type 0 where
  exits : ℕ → Plan
  asks : Flags → ClientCall → Plan
  unfinished : Plan

-- What Client.do ends with: a status that is not 2xx, another error, or nil.
pub data ClientError : Type 0 where
  api_error : ℕ → ClientError
  other_error : ClientError

unfoldable pub fail : ClientError → ℕ
fail (api_error status) =
    if status == 400
    then exit_usage
    else if status == 401
    then exit_auth
    else if status == 403
    then exit_forbidden
    else if status == 404
    then exit_not_found
    else exit_error
fail other_error = exit_error

-- The exit code behind a request.
unfoldable pub exit_code : Option ClientError → ℕ
unfolding fail
exit_code none = exit_ok
exit_code (some e) = fail e

-- The values that a new flag set starts from: those of the global flags so far.
abbrev pub fresh : Flags → Flags
fresh f = record f {
  title = none;
  body = none;
  body_file = none;
  starred = false;
  tag = ℤ.pos 0;
  limit = ℤ.pos 0;
  offset = ℤ.pos 0;
  yes = false;
  out = none;
  password = none;
}

unfoldable pub is_help_arg : Bytes → Bool
is_help_arg s =
    same_bytes s (codes "help") || (same_bytes s (codes "--help") || same_bytes s (codes "-h"))

abbrev pub text_of : Option Bytes → Bytes
text_of none = []
text_of (some s) = s
