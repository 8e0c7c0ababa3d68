-- ===== src/Tags/Handler.antt =====
-- backend/internal/tags/handler.go. A body that does not decode is `none`.
use crapnote.Base.{ℕ, Option, List, map, String, str_eq, ltb}
use crapnote.Base.Ints.{ℤ}
use crapnote.Db.{Db, User, Tag}
use crapnote.Http.{
  sends, Handler, authenticated, given, stop_if, after, send, respond, failing, not_found_as,
  write_error, no_content, byte_length,
}
use crapnote.Http.Page.{parse_page}
use crapnote.Tags
use crapnote.Tags.{TagWithCount, rename, add_to_note, remove_from_note, list_for_note}

abbrev pub max_tag_name_len : ℕ
max_tag_name_len = 100

pub record TagResponse : Type 0 where
  pub id : ℕ
  pub name : String
  pub note_count : ℕ
  pub created_at : ℕ

abbrev pub tag_to_response : Tag → TagResponse
tag_to_response t = record { id = t.id; name = t.name; note_count = 0; created_at = t.created_at }

abbrev pub tag_with_count_to_response : TagWithCount → TagResponse
tag_with_count_to_response t = record (tag_to_response t.tag) { note_count = t.note_count }

-- The checks of the name, which Create and Rename share.
abbrev pub with_name : {A : Type 0} → Option String → (String → Handler Db A) → Handler Db A
with_name body h = given body "name is required" (λ name.
    stop_if (str_eq name "") (write_error 400 "name is required") (
      stop_if (ltb max_tag_name_len (byte_length name))
        (write_error 400 "tag name exceeds maximum length") (h name)))

unfoldable pub list_tags :
    (String → Option ℤ) → Option User → String → String → Handler Db (List TagResponse)
list_tags atoi caller limit offset = authenticated caller (λ u. respond (λ db.
    let p = parse_page atoi limit offset in
    sends 200 (map tag_with_count_to_response (Tags.list u.id p.limit p.offset db))))

unfoldable pub create_tag : Option User → Option String → ℕ → Handler Db TagResponse
create_tag caller body now = authenticated caller (λ u.
    with_name body
      (λ name. after (Tags.create u.id name now) failing (λ t. send 201 (tag_to_response t))))

unfoldable pub rename_tag : Option User → Option ℕ → Option String → Handler Db TagResponse
rename_tag caller path body = authenticated caller (λ u. given path "invalid tag id" (λ id.
    with_name body (λ name.
      after (rename id u.id name) (not_found_as "tag not found")
        (λ t. send 200 (tag_to_response t)))))

unfoldable pub delete_tag : Option User → Option ℕ → Handler Db (Unit {0})
delete_tag caller path = authenticated caller (λ u. given path "invalid tag id" (λ id.
    after (Tags.delete id u.id) (not_found_as "tag not found") (λ done. respond (λ _. no_content))))

unfoldable pub get_for_note : Option User → Option ℕ → Handler Db (List TagResponse)
get_for_note caller path = authenticated caller (λ u.
    given path "invalid note id"
      (λ note_id. respond (λ db. sends 200 (map tag_to_response (list_for_note note_id u.id db)))))

unfoldable pub tag_note : Option User → Option ℕ → Option ℕ → Handler Db (Unit {0})
tag_note caller path body = authenticated caller (λ u. given path "invalid note id" (λ note_id.
    given body "invalid request body" (λ tag_id.
      after (add_to_note note_id tag_id u.id) (not_found_as "note or tag not found")
        (λ done. respond (λ _. no_content)))))

unfoldable pub untag_note : Option User → Option ℕ → Option ℕ → Handler Db (Unit {0})
untag_note caller path tag_path = authenticated caller (λ u.
    given path "invalid note id" (λ note_id. given tag_path "invalid tag id" (λ tag_id.
      after (remove_from_note note_id tag_id u.id) (not_found_as "not found")
        (λ done. respond (λ _. no_content)))))
