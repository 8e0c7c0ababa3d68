-- ===== src/Cli/Trash.antt =====
-- The commands on the trash and on tokens, and the export: cli/cmd/crapnote/trash.go.
use crapnote.Base.{List, [], ◌∷◌, codes, if◌then◌else◌}
use crapnote.Db.{Bytes}
use crapnote.Images.{same_bytes}
use crapnote.Cli.{
  Flags, Outside, list_trash, restore_note, purge_note, empty_trash, export, list_tokens,
  revoke_token, revoke_all_tokens, exit_ok, exit_error, exit_usage, Plan, exits, asks, is_help_arg,
  text_of,
}
use crapnote.Cli.Parsing.{parse_interspersed, with_arguments, id_arg}
use crapnote.Cli.Contents.{page_flags, on_id, with_sub}

-- confirmYes: the check behind the parsing.
abbrev pub confirmed : Flags → Plan → Plan
confirmed g plan = if g.yes then plan else exits exit_usage

-- The password of an export, or that of the environment.
abbrev pub or_env : Bytes → Bytes → Bytes
or_env [] env = env
or_env (c ∷ cs) env = c ∷ cs

module _ (o : Outside) where
  unfoldable pub trash_list : Flags → List Bytes → Plan
  unfolding parse_interspersed
  trash_list f args =
      with_arguments o (parse_interspersed o page_flags f args)
        (λ g positional. asks g (list_trash g.limit g.offset))

  unfoldable pub trash_restore : Flags → List Bytes → Plan
  trash_restore f args = on_id o restore_note f args

  unfoldable pub trash_purge : Flags → List Bytes → Plan
  trash_purge f args = id_arg o ("yes" ∷ []) f args (λ g id. confirmed g (asks g (purge_note id)))

  unfoldable pub trash_empty : Flags → List Bytes → Plan
  unfolding parse_interspersed
  trash_empty f args =
      with_arguments o (parse_interspersed o ("yes" ∷ []) f args)
        (λ g positional. confirmed g (asks g empty_trash))

  unfoldable pub trash_sub : Bytes → Flags → List Bytes → Plan
  unfolding trash_list trash_restore trash_purge trash_empty
  trash_sub sub f rest =
      if same_bytes sub (codes "list")
      then trash_list f rest
      else if same_bytes sub (codes "restore")
      then trash_restore f rest
      else if same_bytes sub (codes "purge")
      then trash_purge f rest
      else if same_bytes sub (codes "empty")
      then trash_empty f rest
      else exits exit_usage

  unfoldable pub cmd_trash : Flags → List Bytes → Plan
  unfolding trash_sub
  cmd_trash f args = with_sub o trash_sub f args

  abbrev pub export_under : Flags → Plan
  export_under g =
      if o.can_create (or_env (text_of g.out) o.default_file)
      then asks g (export (or_env (text_of g.password) (o.getenv "CNP_EXPORT_PASSWORD")))
      else exits exit_error

  unfoldable pub export_args : Flags → List Bytes → Plan
  unfolding parse_interspersed
  export_args f args =
      with_arguments o (parse_interspersed o ("o" ∷ "password" ∷ []) f args)
        (λ g positional. export_under g)

  -- A command that reads its first argument only for help.
  abbrev pub unless_help : (Flags → List Bytes → Plan) → Flags → List Bytes → Plan
  unless_help run f [] = run f []
  unless_help run f (a ∷ rest) = if is_help_arg a then exits exit_ok else run f (a ∷ rest)

  unfoldable pub cmd_export : Flags → List Bytes → Plan
  unfolding export_args
  cmd_export f args = unless_help export_args f args

  unfoldable pub tokens_list : Flags → List Bytes → Plan
  unfolding parse_interspersed
  tokens_list f args =
      with_arguments o (parse_interspersed o [] f args) (λ g positional. asks g list_tokens)

  unfoldable pub tokens_revoke : Flags → List Bytes → Plan
  tokens_revoke f args = on_id o revoke_token f args

  unfoldable pub tokens_revoke_all : Flags → List Bytes → Plan
  unfolding parse_interspersed
  tokens_revoke_all f args =
      with_arguments o (parse_interspersed o ("yes" ∷ []) f args)
        (λ g positional. confirmed g (asks g revoke_all_tokens))

  -- `create` and an unknown subcommand are usage errors alike.
  unfoldable pub tokens_sub : Bytes → Flags → List Bytes → Plan
  unfolding tokens_list tokens_revoke tokens_revoke_all
  tokens_sub sub f rest =
      if same_bytes sub (codes "list")
      then tokens_list f rest
      else if same_bytes sub (codes "revoke")
      then tokens_revoke f rest
      else if same_bytes sub (codes "revoke-all")
      then tokens_revoke_all f rest
      else exits exit_usage

  unfoldable pub cmd_tokens : Flags → List Bytes → Plan
  unfolding tokens_sub
  cmd_tokens f args = with_sub o tokens_sub f args
