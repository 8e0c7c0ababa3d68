-- ===== src/Api/Contents.antt =====
-- The operations on notes, tags, images and the trash, and the export, of Registry in backend/internal/apispec/spec.go.
use crapnote.Base.{true, List, [], ◌∷◌}
use crapnote.Api.{
  Scope, in_path, in_query, in_body, string, integer, boolean, int_array, base64, multipart_image,
  ResponseKind, Operation, operation, required, optional, note_id, page_params,
  searchable_page_params,
}

abbrev pub note_operations : List Operation
note_operations =
    record (operation "notes_list" "GET" "/api/notes" Scope.read) {
      params =
          optional "starred" in_query boolean
          ∷ optional "tag" in_query integer
          ∷ optional "search" in_query string
          ∷ page_params;
    }
    ∷ record (operation "notes_create" "POST" "/api/notes" Scope.write) {
      params = required "title" in_body string ∷ optional "body" in_body string ∷ [];
    }
    ∷ record (operation "notes_get" "GET" "/api/notes/{id}" Scope.read) { params = note_id ∷ [] }
    ∷ record (operation "notes_update" "PUT" "/api/notes/{id}" Scope.write) {
      params = note_id ∷ optional "title" in_body string ∷ optional "body" in_body string ∷ [];
    }
    ∷ record (operation "notes_delete" "DELETE" "/api/notes/{id}" Scope.write) {
      response = ResponseKind.none;
      params = note_id ∷ [];
    }
    ∷ record (operation "notes_toggle_star" "PATCH" "/api/notes/{id}/star" Scope.write) {
      params = note_id ∷ [];
    }
    ∷ record (operation "notes_toggle_pin" "PATCH" "/api/notes/{id}/pin" Scope.write) {
      params = note_id ∷ [];
    }
    ∷ record (operation "notes_toggle_lock" "PATCH" "/api/notes/{id}/lock" Scope.write) {
      params = note_id ∷ [];
    }
    ∷ record (operation "notes_reorder_pins" "PUT" "/api/notes/pins/order" Scope.write) {
      response = ResponseKind.none;
      params = required "ids" in_body int_array ∷ [];
    }
    ∷ record (operation "notes_archive" "PATCH" "/api/notes/{id}/archive" Scope.write) {
      response = ResponseKind.none;
      params = note_id ∷ [];
    }
    ∷ record (operation "notes_unarchive" "PATCH" "/api/notes/{id}/unarchive" Scope.write) {
      response = ResponseKind.none;
      params = note_id ∷ [];
    }
    ∷ record (operation "archive_list" "GET" "/api/archive" Scope.read) {
      params = searchable_page_params;
    }
    ∷ []

abbrev pub note_tag_operations : List Operation
note_tag_operations =
    record (operation "note_tags_list" "GET" "/api/notes/{id}/tags" Scope.read) {
      params = note_id ∷ [];
    }
    ∷ record (operation "note_tags_add" "POST" "/api/notes/{id}/tags" Scope.write) {
      response = ResponseKind.none;
      params = note_id ∷ required "tag_id" in_body integer ∷ [];
    }
    ∷ record (operation "note_tags_remove" "DELETE" "/api/notes/{id}/tags/{tid}" Scope.write) {
      response = ResponseKind.none;
      params = note_id ∷ required "tid" in_path integer ∷ [];
    }
    ∷ []

abbrev pub tag_operations : List Operation
tag_operations =
    record (operation "tags_list" "GET" "/api/tags" Scope.read) { params = page_params }
    ∷ record (operation "tags_create" "POST" "/api/tags" Scope.write) {
      params = required "name" in_body string ∷ [];
    }
    ∷ record (operation "tags_rename" "PUT" "/api/tags/{id}" Scope.write) {
      params = required "id" in_path integer ∷ required "name" in_body string ∷ [];
    }
    ∷ record (operation "tags_delete" "DELETE" "/api/tags/{id}" Scope.write) {
      destructive = true;
      response = ResponseKind.none;
      params = required "id" in_path integer ∷ [];
    }
    ∷ []

abbrev pub export_operations : List Operation
export_operations =
    record (operation "export" "POST" "/api/export" Scope.read) {
      response = ResponseKind.binary;
      params = optional "password" in_body string ∷ [];
    }
    ∷ []

abbrev pub image_operations : List Operation
image_operations =
    record (operation "images_upload" "POST" "/api/images" Scope.write) {
      request = multipart_image;
      params = required "image" in_body base64 ∷ [];
    }
    ∷ record (operation "images_get" "GET" "/api/images/{id}" Scope.read) {
      response = ResponseKind.image;
      params = required "id" in_path string ∷ [];
    }
    ∷ []

abbrev pub trash_operations : List Operation
trash_operations =
    record (operation "trash_list" "GET" "/api/trash" Scope.read) {
      params = searchable_page_params;
    }
    ∷ record (operation "trash_restore" "POST" "/api/trash/{id}/restore" Scope.write) {
      response = ResponseKind.none;
      params = note_id ∷ [];
    }
    ∷ record (operation "trash_delete" "DELETE" "/api/trash/{id}" Scope.write) {
      destructive = true;
      response = ResponseKind.none;
      params = note_id ∷ [];
    }
    ∷ record (operation "trash_empty" "DELETE" "/api/trash" Scope.write) {
      destructive = true;
      response = ResponseKind.none;
    }
    ∷ []
