-- ===== src/Notes/Handler.antt =====
-- backend/internal/notes/handler.go. A query value that is missing is empty; strconv.Atoi and
-- strconv.ParseInt are parameters. Texts are their bytes.
use crapnote.Base.{
  ℕ, zero, suc, Bool, false, Option, none, some, List, map, ltb, String, str_eq, length,
  if◌then◌else◌,
}
use crapnote.Base.Ints.{ℤ, pos, negsuc}
use crapnote.Base.Outcome.{Error, not_found, locked, Op, query}
use crapnote.Db.{Db, User, Note, Bytes}
use crapnote.Http.{
  Reply, sends, Handler, authenticated, given, stop_if, after, send, respond, failing, not_found_as,
  write_error, internal_error, no_content,
}
use crapnote.Http.Page.{parse_page}
use crapnote.Notes.Repo.{get, soft_delete, archive, unarchive}
use crapnote.Notes.Listing.{ListFilter, list, list_archived}
use crapnote.Notes.Pins.{reorder_pins}
use crapnote.Notes.Service
use crapnote.Notes.Service.{toggle_star, toggle_lock, toggle_pin}

abbrev pub max_title_len : ℕ
max_title_len = 500

abbrev pub max_body_len : ℕ
max_body_len = 500_000

pub record NoteResponse : Type 0 where
  pub id : ℕ
  pub title : Bytes
  pub body : Bytes
  pub starred : Bool
  pub pinned : Bool
  pub archived : Bool
  pub locked : Bool
  pub pin_order : ℤ
  pub created_at : ℕ
  pub updated_at : ℕ

abbrev pub note_to_response : Note → NoteResponse
note_to_response n = record {
  id = n.id;
  title = n.title;
  body = n.body;
  starred = n.starred;
  pinned = n.pinned;
  archived = n.archived;
  locked = n.locked;
  pin_order = n.pin_order;
  created_at = n.created_at;
  updated_at = n.updated_at;
}

abbrev pub notes_to_response : List Note → List NoteResponse
notes_to_response = map note_to_response

-- The body of Create, and of Update.
pub record NewNote : Type 0 where
  pub title : Bytes
  pub body : Bytes

pub record NoteEdit : Type 0 where
  pub title : Option Bytes
  pub body : Option Bytes

-- The answers to ErrNotFound, to ErrLocked and to another error.
abbrev pub note_failure : {A : Type 0} → Error → Reply A
note_failure not_found = write_error 404 "note not found"
note_failure locked = write_error 423 "note is locked; unlock it first"
note_failure _ = internal_error

abbrev pub exceeds : ℕ → Option Bytes → Bool
exceeds bound none = false
exceeds bound (some s) = ltb bound (length s)

-- The id of the path, for a caller that the context names.
abbrev pub note_by_id :
    {A : Type 0} → Option User → Option ℕ → (User → ℕ → Handler Db A) → Handler Db A
note_by_id caller path h = authenticated caller (λ u. given path "invalid note id" (h u))

-- The checks of the lengths, which Create and Update share.
abbrev pub within_limits : {A : Type 0} → Option Bytes → Option Bytes → Handler Db A → Handler Db A
within_limits title body h =
    stop_if (exceeds max_title_len title) (write_error 400 "title exceeds maximum length")
      (stop_if (exceeds max_body_len body) (write_error 400 "body exceeds maximum length") h)

abbrev pub send_note : ℕ → Note → Handler Db NoteResponse
send_note status n = send status (note_to_response n)

unfoldable pub create_note : Option User → Option NewNote → ℕ → Handler Db NoteResponse
create_note caller body now = authenticated caller (λ u. given body "invalid request body" (λ req.
    within_limits (some req.title) (some req.body)
      (after (Service.create u.id req.title req.body now) failing (send_note 201))))

unfoldable pub get_note : Option User → Option ℕ → Handler Db NoteResponse
get_note caller path =
    note_by_id caller path
      (λ u id. after (query (get id u.id)) (not_found_as "note not found") (send_note 200))

unfoldable pub update_note : Option User → Option ℕ → Option NoteEdit → ℕ → Handler Db NoteResponse
update_note caller path body now = note_by_id caller path (λ u id.
    given body "invalid request body" (λ req.
      within_limits req.title req.body
        (after (Service.update id u.id req.title req.body now) note_failure (send_note 200))))

unfoldable pub delete_note : Option User → Option ℕ → ℕ → Handler Db (Unit {0})
delete_note caller path now =
    note_by_id caller path
      (λ u id. after (soft_delete id u.id now) note_failure (λ done. respond (λ _. no_content)))

-- toggleFlag, with the method of the service.
unfoldable pub toggle_flag : (ℕ → ℕ → Op Db Note) → Option User → Option ℕ → Handler Db NoteResponse
toggle_flag toggle caller path =
    note_by_id caller path
      (λ u id. after (toggle id u.id) (not_found_as "note not found") (send_note 200))

unfoldable pub star_note : Option User → Option ℕ → Handler Db NoteResponse
star_note = toggle_flag toggle_star

unfoldable pub pin_note : Option User → Option ℕ → Handler Db NoteResponse
pin_note = toggle_flag toggle_pin

unfoldable pub lock_note : Option User → Option ℕ → Handler Db NoteResponse
lock_note = toggle_flag toggle_lock

unfoldable pub reorder_notes : Option User → Option (List ℕ) → Handler Db (Unit {0})
reorder_notes caller body = authenticated caller (λ u.
    given body "invalid request body"
      (λ ids. after (reorder_pins u.id ids) failing (λ done. respond (λ _. no_content))))

unfoldable pub archive_note : Option User → Option ℕ → Handler Db (Unit {0})
archive_note caller path =
    note_by_id caller path
      (λ u id. after (archive id u.id) note_failure (λ done. respond (λ _. no_content)))

unfoldable pub unarchive_note : Option User → Option ℕ → Handler Db (Unit {0})
unarchive_note caller path = note_by_id caller path (λ u id.
    after (unarchive id u.id) (not_found_as "note not found") (λ done. respond (λ _. no_content)))

abbrev pub starred_filter : String → Option Bool
starred_filter s = if str_eq s "" then none else some (str_eq s "true")

abbrev pub positive : Option ℤ → Option ℕ
positive (some (pos (suc n))) = some (suc n)
positive (some (pos zero)) = none
positive (some (negsuc n)) = none
positive none = none

module _ (atoi : String → Option ℤ) (parse_int : String → Option ℤ)
    (matches : Bytes → Note → Bool) where
  abbrev pub tag_filter : String → Option ℕ
  tag_filter s = if str_eq s "" then none else positive (parse_int s)

  unfoldable pub list_notes :
      Option User → String → String → Bytes → String → String → Handler Db (List NoteResponse)
  list_notes caller starred tag search limit offset = authenticated caller (λ u. respond (λ db.
      let p = parse_page atoi limit offset in
      let filter : ListFilter = record {
        starred = starred_filter starred;
        tag_id = tag_filter tag;
        search = search;
        limit = p.limit;
        offset = p.offset;
      } in
      sends 200 (notes_to_response (list matches u.id filter db))))

  unfoldable pub list_archive :
      Option User → Bytes → String → String → Handler Db (List NoteResponse)
  list_archive caller search limit offset = authenticated caller (λ u. respond (λ db.
      let p = parse_page atoi limit offset in
      sends 200 (notes_to_response (list_archived matches u.id search p.limit p.offset db))))
