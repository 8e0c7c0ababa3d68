-- ===== src/Cli/Contents.antt =====
-- The commands on notes and tags: cli/cmd/crapnote/notes.go, search.go and tags.go.
use crapnote.Base.{
  ℕ, Bool, true, false, ◌&&◌, Option, none, some, List, [], ◌∷◌, String, codes, is_none,
  if◌then◌else◌,
}
use crapnote.Db.{Bytes}
use crapnote.Images.{same_bytes}
use crapnote.Cli.{
  Flags, Outside, ClientCall, list_notes, create_note, get_note, update_note, delete_note,
  toggle_star, toggle_pin, toggle_lock, archive_note, unarchive_note, list_tags, create_tag,
  rename_tag, delete_tag, note_tags, tag_note, untag_note, exit_ok, exit_usage, Plan, exits, asks,
  is_help_arg, text_of,
}
use crapnote.Cli.Parsing.{
  parse_args, parse_interspersed, with_arguments, with_id, parse_id_arg, single, pair, id_arg,
}

abbrev pub page_flags : List String
page_flags = "limit" ∷ "offset" ∷ []

module _ (o : Outside) where
  abbrev pub read_body : Option Bytes → (Bytes → Plan) → Plan
  read_body none k = exits exit_usage
  read_body (some data_bytes) k = k data_bytes

  -- resolveBody
  unfoldable pub resolve_body : Bytes → Bytes → (Bytes → Plan) → Plan
  resolve_body body [] k = k body
  resolve_body [] (c ∷ cs) k =
      if same_bytes (c ∷ cs) (codes "-")
      then read_body o.stdin k
      else read_body (o.read_file (c ∷ cs)) k
  resolve_body (b ∷ bs) (c ∷ cs) k = exits exit_usage

  abbrev pub titled : Bytes → (Bytes → Plan) → Plan
  titled [] k = exits exit_usage
  titled (c ∷ cs) k = k (c ∷ cs)

  unfoldable pub notes_create : Flags → List Bytes → Plan
  unfolding parse_args resolve_body
  notes_create f args =
      with_arguments o (parse_args o ("title" ∷ "body" ∷ "body-file" ∷ []) f args) (λ g rest.
        titled (text_of g.title) (λ title.
          resolve_body (text_of g.body) (text_of g.body_file)
            (λ body. asks g (create_note title body))))

  -- A command on one id.
  abbrev pub on_id : (ℕ → ClientCall) → Flags → List Bytes → Plan
  on_id call f args = id_arg o [] f args (λ g id. asks g (call id))

  unfoldable pub notes_get : Flags → List Bytes → Plan
  notes_get f args = on_id get_note f args

  unfoldable pub notes_delete : Flags → List Bytes → Plan
  notes_delete f args = on_id delete_note f args

  -- The body of an update: none if neither flag is given.
  abbrev pub new_body : Flags → (Option Bytes → Plan) → Plan
  new_body g k =
      if is_none g.body && is_none g.body_file
      then k none
      else resolve_body (text_of g.body) (text_of g.body_file) (λ body. k (some body))

  abbrev pub update_of : Flags → ℕ → Option Bytes → Option Bytes → Plan
  update_of g id none none = exits exit_usage
  update_of g id title body = asks g (update_note id title body)

  unfoldable pub notes_update : Flags → List Bytes → Plan
  unfolding resolve_body
  notes_update f args =
      id_arg o ("title" ∷ "body" ∷ "body-file" ∷ []) f args
        (λ g id. new_body g (λ body. update_of g id g.title body))

  unfoldable pub notes_toggle : (ℕ → ClientCall) → Flags → List Bytes → Plan
  notes_toggle call f args = on_id call f args

  unfoldable pub notes_archive_op : Bool → Flags → List Bytes → Plan
  notes_archive_op archive f args = on_id (if archive then archive_note else unarchive_note) f args

  unfoldable pub notes_list : Flags → List Bytes → Plan
  unfolding parse_args
  notes_list f args =
      with_arguments o (parse_args o ("starred" ∷ "tag" ∷ page_flags) f args)
        (λ g rest. asks g (list_notes g.starred g.tag [] g.limit g.offset))

  unfoldable pub notes_tags_list : Flags → List Bytes → Plan
  notes_tags_list f args = on_id note_tags f args

  unfoldable pub notes_tag_op : Bool → Flags → List Bytes → Plan
  unfolding parse_interspersed parse_id_arg
  notes_tag_op attach f args = with_arguments o (parse_interspersed o [] f args) (λ g positional.
      pair o positional (λ a b. with_id o (parse_id_arg o a) (λ note.
        with_id o (parse_id_arg o b)
          (λ tag. asks g (if attach then tag_note note tag else untag_note note tag)))))

  -- The switch of cmdNotes, in the order of the source.
  unfoldable pub notes_sub : Bytes → Flags → List Bytes → Plan
  unfolding notes_create notes_get notes_update notes_delete notes_toggle notes_archive_op
      notes_list notes_tags_list notes_tag_op
  notes_sub sub f rest =
      if same_bytes sub (codes "list")
      then notes_list f rest
      else if same_bytes sub (codes "create")
      then notes_create f rest
      else if same_bytes sub (codes "get")
      then notes_get f rest
      else if same_bytes sub (codes "update")
      then notes_update f rest
      else if same_bytes sub (codes "delete")
      then notes_delete f rest
      else if same_bytes sub (codes "star")
      then notes_toggle toggle_star f rest
      else if same_bytes sub (codes "pin")
      then notes_toggle toggle_pin f rest
      else if same_bytes sub (codes "lock")
      then notes_toggle toggle_lock f rest
      else if same_bytes sub (codes "archive")
      then notes_archive_op true f rest
      else if same_bytes sub (codes "unarchive")
      then notes_archive_op false f rest
      else if same_bytes sub (codes "tags")
      then notes_tags_list f rest
      else if same_bytes sub (codes "tag")
      then notes_tag_op true f rest
      else if same_bytes sub (codes "untag")
      then notes_tag_op false f rest
      else exits exit_usage

  -- A command of subcommands.
  abbrev pub with_sub : (Bytes → Flags → List Bytes → Plan) → Flags → List Bytes → Plan
  with_sub run f [] = exits exit_usage
  with_sub run f (sub ∷ rest) = if is_help_arg sub then exits exit_ok else run sub f rest

  unfoldable pub cmd_notes : Flags → List Bytes → Plan
  unfolding notes_sub is_help_arg
  cmd_notes f args = with_sub notes_sub f args

  unfoldable pub tags_list : Flags → List Bytes → Plan
  unfolding parse_interspersed
  tags_list f args =
      with_arguments o (parse_interspersed o page_flags f args)
        (λ g positional. asks g (list_tags g.limit g.offset))

  unfoldable pub tags_create : Flags → List Bytes → Plan
  unfolding parse_interspersed
  tags_create f args =
      with_arguments o (parse_interspersed o [] f args)
        (λ g positional. single o positional (λ name. asks g (create_tag name)))

  unfoldable pub tags_rename : Flags → List Bytes → Plan
  unfolding parse_interspersed parse_id_arg
  tags_rename f args = with_arguments o (parse_interspersed o [] f args) (λ g positional.
      pair o positional
        (λ a name. with_id o (parse_id_arg o a) (λ id. asks g (rename_tag id name))))

  unfoldable pub tags_delete : Flags → List Bytes → Plan
  tags_delete f args = on_id delete_tag f args

  unfoldable pub tags_sub : Bytes → Flags → List Bytes → Plan
  unfolding tags_list tags_create tags_rename tags_delete
  tags_sub sub f rest =
      if same_bytes sub (codes "list")
      then tags_list f rest
      else if same_bytes sub (codes "create")
      then tags_create f rest
      else if same_bytes sub (codes "rename")
      then tags_rename f rest
      else if same_bytes sub (codes "delete")
      then tags_delete f rest
      else exits exit_usage

  unfoldable pub cmd_tags : Flags → List Bytes → Plan
  unfolding tags_sub is_help_arg
  cmd_tags f args = with_sub tags_sub f args
