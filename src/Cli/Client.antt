-- ===== src/Cli/Client.antt =====
-- The requests of cli/client: Client.do behind each of its methods. The decimals of strconv are a parameter.
pub mod Parity
use crapnote.Base.{
  ℕ, zero, suc, Bool, true, false, Option, none, some, List, [], ◌∷◌, ◌++◌, String, codes,
  if◌then◌else◌,
}
use crapnote.Base.Ints.{ℤ, pos, negsuc}
use crapnote.Db.{Bytes}
use crapnote.Cli.{
  ClientCall, list_notes, create_note, get_note, update_note, delete_note, toggle_star, toggle_pin,
  toggle_lock, archive_note, unarchive_note, list_archived, list_tags, create_tag, rename_tag,
  delete_tag, note_tags, tag_note, untag_note, list_trash, restore_note, purge_note, empty_trash,
  export, list_tokens, revoke_token, revoke_all_tokens, me,
}

-- The fields of a JSON body.
pub data Field : Type 0 where
  text_field : String → Bytes → Field
  id_field : String → ℕ → Field

pub record ApiRequest : Type 0 where
  pub method : String
  pub path : Bytes
  pub query : List (String × Bytes)
  pub body : Option (List Field)

module _ (decimal : ℕ → Bytes) where
  abbrev pub note_path : ℕ → Bytes
  note_path id = codes "/api/notes/" ++ decimal id

  abbrev pub tag_path : ℕ → Bytes
  tag_path id = codes "/api/tags/" ++ decimal id

  abbrev pub trash_path : ℕ → Bytes
  trash_path id = codes "/api/trash/" ++ decimal id

  -- A number above 0 in the query.
  abbrev pub number_query : String → ℤ → List (String × Bytes)
  number_query name (pos (suc n)) = (name, decimal (suc n)) ∷ []
  number_query name _ = []

  abbrev pub text_query : String → Bytes → List (String × Bytes)
  text_query name [] = []
  text_query name (c ∷ cs) = (name, c ∷ cs) ∷ []

  unfoldable pub page_query : ℤ → ℤ → List (String × Bytes)
  page_query limit offset = number_query "limit" limit ++ number_query "offset" offset

  abbrev pub optional_field : String → Option Bytes → List Field
  optional_field name none = []
  optional_field name (some s) = text_field name s ∷ []

  -- A request without a query or a body.
  abbrev pub plain : String → Bytes → ApiRequest
  plain method path = record { method = method; path = path; query = []; body = none }

  abbrev pub listing : Bytes → List (String × Bytes) → ApiRequest
  listing path query = record { method = "GET"; path = path; query = query; body = none }

  abbrev pub posting : String → Bytes → List Field → ApiRequest
  posting method path fields = record {
    method = method;
    path = path;
    query = [];
    body = some fields;
  }

  abbrev pub patch_note : ℕ → String → ApiRequest
  patch_note id action = plain "PATCH" (note_path id ++ codes action)

  unfoldable pub request_of : ClientCall → ApiRequest
  unfolding page_query
  request_of (list_notes starred tag search limit offset) = listing (codes "/api/notes") (
      (if starred then ("starred", codes "true") ∷ [] else [])
      ++ number_query "tag" tag
      ++ text_query "search" search
      ++ page_query limit offset)
  request_of (create_note title body) =
      posting "POST" (codes "/api/notes") (text_field "title" title ∷ text_field "body" body ∷ [])
  request_of (get_note id) = plain "GET" (note_path id)
  request_of (update_note id title body) =
      posting "PUT" (note_path id) (optional_field "title" title ++ optional_field "body" body)
  request_of (delete_note id) = plain "DELETE" (note_path id)
  request_of (toggle_star id) = patch_note id "/star"
  request_of (toggle_pin id) = patch_note id "/pin"
  request_of (toggle_lock id) = patch_note id "/lock"
  request_of (archive_note id) = plain "PATCH" (note_path id ++ codes "/archive")
  request_of (unarchive_note id) = plain "PATCH" (note_path id ++ codes "/unarchive")
  request_of (list_archived limit offset) = listing (codes "/api/archive") (page_query limit offset)
  request_of (list_tags limit offset) = listing (codes "/api/tags") (page_query limit offset)
  request_of (create_tag name) = posting "POST" (codes "/api/tags") (text_field "name" name ∷ [])
  request_of (rename_tag id name) = posting "PUT" (tag_path id) (text_field "name" name ∷ [])
  request_of (delete_tag id) = plain "DELETE" (tag_path id)
  request_of (note_tags id) = plain "GET" (note_path id ++ codes "/tags")
  request_of (tag_note note tag) =
      posting "POST" (note_path note ++ codes "/tags") (id_field "tag_id" tag ∷ [])
  request_of (untag_note note tag) =
      plain "DELETE" (note_path note ++ (codes "/tags/" ++ decimal tag))
  request_of (list_trash limit offset) = listing (codes "/api/trash") (page_query limit offset)
  request_of (restore_note id) = plain "POST" (trash_path id ++ codes "/restore")
  request_of (purge_note id) = plain "DELETE" (trash_path id)
  request_of empty_trash = plain "DELETE" (codes "/api/trash")
  request_of (export password) =
      posting "POST" (codes "/api/export") (text_field "password" password ∷ [])
  request_of list_tokens = plain "GET" (codes "/api/tokens")
  request_of (revoke_token id) = plain "DELETE" (codes "/api/tokens/" ++ decimal id)
  request_of revoke_all_tokens = plain "POST" (codes "/api/tokens/revoke-all")
  request_of me = plain "GET" (codes "/api/auth/me")
