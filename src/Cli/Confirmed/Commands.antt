-- ===== src/Cli/Confirmed/Commands.antt =====
-- Every command of cli/cmd/crapnote.
use crapnote.Base.{ℕ, ◌≡◌, refl, Bool, true, false, ◌&&◌, none, some, List, [], is_none, arith}
use crapnote.Db.{Bytes}
use crapnote.Cli.{Flags, Outside, ClientCall, text_of}
use crapnote.Cli.Parsing.{Shrinks, parse_id_arg}
use crapnote.Cli.Contents.{
  on_id, notes_create, notes_get, notes_delete, notes_update, notes_archive_op, notes_list,
  notes_tags_list, notes_tag_op, tags_list, tags_create, tags_rename, tags_delete,
}
use crapnote.Cli.Trash.{
  trash_list, trash_restore, trash_purge, trash_empty, export_args, tokens_list, tokens_revoke,
  tokens_revoke_all,
}
use crapnote.Cli.Confirmed.{
  Linked, is_irreversible, IsConfirmed, ended, sent, if-IsConfirmed, with_id-IsConfirmed,
  single-IsConfirmed, pair-IsConfirmed, parse_args-IsConfirmed, interspersed-IsConfirmed,
  id_arg-IsConfirmed, told-IsConfirmed, told_id-IsConfirmed,
}
use crapnote.Cli.Confirmed.Steps.{
  confirmed-IsConfirmed, harmless_tag, resolve_body-IsConfirmed, titled-IsConfirmed,
  update_of-IsConfirmed,
}

module _ (o : Outside) (shrinks : Shrinks o) where
  pub on_id-IsConfirmed :
      {said : Bool} (call : ℕ → ClientCall) (f : Flags) (args : List Bytes)
      → ((id : ℕ) → is_irreversible (call id) ≡ false)
      → IsConfirmed said (on_id o call f args)
  on_id-IsConfirmed call f args harmless =
      id_arg-IsConfirmed o shrinks [] f args _
        (λ g id. sent g (call id) (ground (arith, harmless id)))

  pub notes_create-IsConfirmed :
      {said : Bool} (f : Flags) (args : List Bytes) → IsConfirmed said (notes_create o f args)
  unfolding notes_create
  notes_create-IsConfirmed f args = parse_args-IsConfirmed o _ f args _ (λ g rest.
      titled-IsConfirmed o (text_of g.title) _ (λ title.
        resolve_body-IsConfirmed o (text_of g.body) (text_of g.body_file) _ (λ b. sent _ _ refl)))

  pub notes_get-IsConfirmed :
      {said : Bool} (f : Flags) (args : List Bytes) → IsConfirmed said (notes_get o f args)
  unfolding notes_get
  notes_get-IsConfirmed f args = on_id-IsConfirmed _ f args (λ id. refl)

  pub notes_delete-IsConfirmed :
      {said : Bool} (f : Flags) (args : List Bytes) → IsConfirmed said (notes_delete o f args)
  unfolding notes_delete
  notes_delete-IsConfirmed f args = on_id-IsConfirmed _ f args (λ id. refl)

  pub notes_update-IsConfirmed :
      {said : Bool} (f : Flags) (args : List Bytes) → IsConfirmed said (notes_update o f args)
  unfolding notes_update
  notes_update-IsConfirmed f args = id_arg-IsConfirmed o shrinks _ f args _ (λ g id.
      if-IsConfirmed (is_none g.body && is_none g.body_file) _ _
        (update_of-IsConfirmed o g id g.title none)
        (resolve_body-IsConfirmed o (text_of g.body) (text_of g.body_file) _
          (λ b. update_of-IsConfirmed o g id g.title (some b))))

  pub notes_archive_op-IsConfirmed :
      {said : Bool} (archive : Bool) (f : Flags) (args : List Bytes)
      → IsConfirmed said (notes_archive_op o archive f args)
  unfolding notes_archive_op
  notes_archive_op-IsConfirmed true f args = on_id-IsConfirmed _ f args (λ id. refl)
  notes_archive_op-IsConfirmed false f args = on_id-IsConfirmed _ f args (λ id. refl)

  pub notes_list-IsConfirmed :
      {said : Bool} (f : Flags) (args : List Bytes) → IsConfirmed said (notes_list o f args)
  unfolding notes_list
  notes_list-IsConfirmed f args = parse_args-IsConfirmed o _ f args _ (λ g rest. sent _ _ refl)

  pub notes_tags_list-IsConfirmed :
      {said : Bool} (f : Flags) (args : List Bytes) → IsConfirmed said (notes_tags_list o f args)
  unfolding notes_tags_list
  notes_tags_list-IsConfirmed f args = on_id-IsConfirmed _ f args (λ id. refl)

  pub notes_tag_op-IsConfirmed :
      {said : Bool} (attach : Bool) (f : Flags) (args : List Bytes)
      → IsConfirmed said (notes_tag_op o attach f args)
  unfolding notes_tag_op
  notes_tag_op-IsConfirmed attach f args =
      interspersed-IsConfirmed o shrinks _ f args _ (λ g positional.
        pair-IsConfirmed o positional _ (λ a b. with_id-IsConfirmed o (parse_id_arg o a) _ (λ note.
          with_id-IsConfirmed o (parse_id_arg o b) _ (λ tag. harmless_tag g attach note tag))))

  pub tags_list-IsConfirmed :
      {said : Bool} (f : Flags) (args : List Bytes) → IsConfirmed said (tags_list o f args)
  unfolding tags_list
  tags_list-IsConfirmed f args =
      interspersed-IsConfirmed o shrinks _ f args _ (λ g rest. sent _ _ refl)

  pub tags_create-IsConfirmed :
      {said : Bool} (f : Flags) (args : List Bytes) → IsConfirmed said (tags_create o f args)
  unfolding tags_create
  tags_create-IsConfirmed f args =
      interspersed-IsConfirmed o shrinks _ f args _
        (λ g positional. single-IsConfirmed o positional _ (λ name. sent _ _ refl))

  pub tags_rename-IsConfirmed :
      {said : Bool} (f : Flags) (args : List Bytes) → IsConfirmed said (tags_rename o f args)
  unfolding tags_rename
  tags_rename-IsConfirmed f args = interspersed-IsConfirmed o shrinks _ f args _ (λ g positional.
      pair-IsConfirmed o positional _
        (λ a name. with_id-IsConfirmed o (parse_id_arg o a) _ (λ id. sent _ _ refl)))

  pub tags_delete-IsConfirmed :
      {said : Bool} (f : Flags) (args : List Bytes) → IsConfirmed said (tags_delete o f args)
  unfolding tags_delete
  tags_delete-IsConfirmed f args = on_id-IsConfirmed _ f args (λ id. refl)

  pub trash_list-IsConfirmed :
      {said : Bool} (f : Flags) (args : List Bytes) → IsConfirmed said (trash_list o f args)
  unfolding trash_list
  trash_list-IsConfirmed f args =
      interspersed-IsConfirmed o shrinks _ f args _ (λ g rest. sent _ _ refl)

  pub trash_restore-IsConfirmed :
      {said : Bool} (f : Flags) (args : List Bytes) → IsConfirmed said (trash_restore o f args)
  unfolding trash_restore
  trash_restore-IsConfirmed f args = on_id-IsConfirmed _ f args (λ id. refl)

  pub export_args-IsConfirmed :
      {said : Bool} (f : Flags) (args : List Bytes) → IsConfirmed said (export_args o f args)
  unfolding export_args
  export_args-IsConfirmed f args =
      interspersed-IsConfirmed o shrinks _ f args _
        (λ g rest. if-IsConfirmed _ _ _ (sent _ _ refl) (ended _))

  pub tokens_list-IsConfirmed :
      {said : Bool} (f : Flags) (args : List Bytes) → IsConfirmed said (tokens_list o f args)
  unfolding tokens_list
  tokens_list-IsConfirmed f args =
      interspersed-IsConfirmed o shrinks _ f args _ (λ g rest. sent _ _ refl)

  pub tokens_revoke-IsConfirmed :
      {said : Bool} (f : Flags) (args : List Bytes) → IsConfirmed said (tokens_revoke o f args)
  unfolding tokens_revoke
  tokens_revoke-IsConfirmed f args = on_id-IsConfirmed _ f args (λ id. refl)

  pub trash_purge-IsConfirmed :
      {said : Bool} (f : Flags) (args : List Bytes)
      → Linked o said args
      → IsConfirmed said (trash_purge o f args)
  unfolding trash_purge
  trash_purge-IsConfirmed f args heard =
      told_id-IsConfirmed o shrinks _ f args _ heard (λ g rest told. confirmed-IsConfirmed g _ told)

  pub trash_empty-IsConfirmed :
      {said : Bool} (f : Flags) (args : List Bytes)
      → Linked o said args
      → IsConfirmed said (trash_empty o f args)
  unfolding trash_empty
  trash_empty-IsConfirmed f args heard =
      told-IsConfirmed o shrinks _ f args _ heard (λ g rest told. confirmed-IsConfirmed g _ told)

  pub tokens_revoke_all-IsConfirmed :
      {said : Bool} (f : Flags) (args : List Bytes)
      → Linked o said args
      → IsConfirmed said (tokens_revoke_all o f args)
  unfolding tokens_revoke_all
  tokens_revoke_all-IsConfirmed f args heard =
      told-IsConfirmed o shrinks _ f args _ heard (λ g rest told. confirmed-IsConfirmed g _ told)
