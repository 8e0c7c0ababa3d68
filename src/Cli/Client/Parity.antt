-- ===== src/Cli/Client/Parity.antt =====
-- Each method of cli/client against the registry of the server, which the parity test of the CLI compares:
-- backend/internal/apispec/spec.go.
use crapnote.Base.{
  ℕ, ◌≡◌, refl, Bool, true, false, some, List, [], ◌∷◌, ◌++◌, ◌==◌, String, map, if◌then◌else◌,
}
use mathlib.Core.List.{append-nil}
use crapnote.Db.{Bytes}
use crapnote.Api.{Operation, bearer_reachable}
use crapnote.Api.Registry.{registry}
use crapnote.Mcp.Rpc.{find_op}
use crapnote.Cli.{
  ClientCall, list_notes, create_note, get_note, update_note, delete_note, toggle_star, toggle_pin,
  toggle_lock, archive_note, unarchive_note, list_archived, list_tags, create_tag, rename_tag,
  delete_tag, note_tags, tag_note, untag_note, list_trash, restore_note, purge_note, empty_trash,
  export, list_tokens, revoke_token, revoke_all_tokens, me,
}
use crapnote.Cli.Client.{request_of}

-- The operation that a call is for.
abbrev pub operation_name : ClientCall → String
operation_name (list_notes s t q l o) = "notes_list"
operation_name (create_note t b) = "notes_create"
operation_name (get_note id) = "notes_get"
operation_name (update_note id t b) = "notes_update"
operation_name (delete_note id) = "notes_delete"
operation_name (toggle_star id) = "notes_toggle_star"
operation_name (toggle_pin id) = "notes_toggle_pin"
operation_name (toggle_lock id) = "notes_toggle_lock"
operation_name (archive_note id) = "notes_archive"
operation_name (unarchive_note id) = "notes_unarchive"
operation_name (list_archived l o) = "archive_list"
operation_name (list_tags l o) = "tags_list"
operation_name (create_tag n) = "tags_create"
operation_name (rename_tag id n) = "tags_rename"
operation_name (delete_tag id) = "tags_delete"
operation_name (note_tags id) = "note_tags_list"
operation_name (tag_note id t) = "note_tags_add"
operation_name (untag_note id t) = "note_tags_remove"
operation_name (list_trash l o) = "trash_list"
operation_name (restore_note id) = "trash_restore"
operation_name (purge_note id) = "trash_delete"
operation_name empty_trash = "trash_empty"
operation_name (export p) = "export"
operation_name list_tokens = "tokens_list"
operation_name (revoke_token id) = "tokens_revoke"
operation_name revoke_all_tokens = "tokens_revoke_all"
operation_name me = "auth_me"

-- The ids of a call, in the order of the path.
abbrev pub ids : ClientCall → List ℕ
ids (get_note id) = id ∷ []
ids (update_note id t b) = id ∷ []
ids (delete_note id) = id ∷ []
ids (toggle_star id) = id ∷ []
ids (toggle_pin id) = id ∷ []
ids (toggle_lock id) = id ∷ []
ids (archive_note id) = id ∷ []
ids (unarchive_note id) = id ∷ []
ids (rename_tag id n) = id ∷ []
ids (delete_tag id) = id ∷ []
ids (note_tags id) = id ∷ []
ids (tag_note id t) = id ∷ []
ids (untag_note id t) = id ∷ t ∷ []
ids (restore_note id) = id ∷ []
ids (purge_note id) = id ∷ []
ids (revoke_token id) = id ∷ []
ids _ = []

-- The path with a value for each placeholder; `inside` says that one is being passed.
unfoldable pub instantiate : Bool → List Bytes → Bytes → Bytes
instantiate inside values [] = []
instantiate true values (c ∷ cs) =
    let behind = instantiate false values cs in
    let within = instantiate true values cs in if c == 125 then behind else within
instantiate false [] (c ∷ cs) = c ∷ instantiate false [] cs
instantiate false (v ∷ values) (c ∷ cs) =
    let filled = v ++ instantiate true values cs in
    let kept = c ∷ instantiate false (v ∷ values) cs in if c == 123 then filled else kept

-- The request has the method and the path of an operation that is within reach of tokens.
pub data IsListed (decimal : ℕ → Bytes) (call : ClientCall) : Type 0 where
  listed_as :
      (op : Operation)
      → find_op (operation_name call) registry ≡ some op
      → bearer_reachable op ≡ true
      → (request_of decimal call).method ≡ op.method
      → (request_of decimal call).path ≡ instantiate false (map decimal (ids call)) op.path
      → IsListed decimal call

module _ (decimal : ℕ → Bytes) where
  -- The request that a method of the client makes, whatever its arguments, has the method and the path of the operation of the
  -- registry that it is for, with the decimal of an id in the place of each placeholder, and that operation is
  -- within reach of tokens.
  pub request_of-IsListed : (call : ClientCall) → IsListed decimal call
  unfolding request_of find_op registry instantiate bearer_reachable
  request_of-IsListed (list_notes s t q l o) = listed_as _ refl refl refl refl
  request_of-IsListed (create_note t b) = listed_as _ refl refl refl refl
  request_of-IsListed (get_note id) = listed_as _ refl refl refl (rw (append-nil (decimal id)) refl)
  request_of-IsListed (update_note id t b) =
      listed_as _ refl refl refl (rw (append-nil (decimal id)) refl)
  request_of-IsListed (delete_note id) =
      listed_as _ refl refl refl (rw (append-nil (decimal id)) refl)
  request_of-IsListed (toggle_star id) = listed_as _ refl refl refl refl
  request_of-IsListed (toggle_pin id) = listed_as _ refl refl refl refl
  request_of-IsListed (toggle_lock id) = listed_as _ refl refl refl refl
  request_of-IsListed (archive_note id) = listed_as _ refl refl refl refl
  request_of-IsListed (unarchive_note id) = listed_as _ refl refl refl refl
  request_of-IsListed (list_archived l o) = listed_as _ refl refl refl refl
  request_of-IsListed (list_tags l o) = listed_as _ refl refl refl refl
  request_of-IsListed (create_tag n) = listed_as _ refl refl refl refl
  request_of-IsListed (rename_tag id n) =
      listed_as _ refl refl refl (rw (append-nil (decimal id)) refl)
  request_of-IsListed (delete_tag id) =
      listed_as _ refl refl refl (rw (append-nil (decimal id)) refl)
  request_of-IsListed (note_tags id) = listed_as _ refl refl refl refl
  request_of-IsListed (tag_note id t) = listed_as _ refl refl refl refl
  request_of-IsListed (untag_note id t) =
      listed_as _ refl refl refl (rw (append-nil (decimal t)) refl)
  request_of-IsListed (list_trash l o) = listed_as _ refl refl refl refl
  request_of-IsListed (restore_note id) = listed_as _ refl refl refl refl
  request_of-IsListed (purge_note id) =
      listed_as _ refl refl refl (rw (append-nil (decimal id)) refl)
  request_of-IsListed empty_trash = listed_as _ refl refl refl refl
  request_of-IsListed (export p) = listed_as _ refl refl refl refl
  request_of-IsListed list_tokens = listed_as _ refl refl refl refl
  request_of-IsListed (revoke_token id) =
      listed_as _ refl refl refl (rw (append-nil (decimal id)) refl)
  request_of-IsListed revoke_all_tokens = listed_as _ refl refl refl refl
  request_of-IsListed me = listed_as _ refl refl refl refl
