-- ===== src/Trash/Handler.antt =====
-- backend/internal/trash/handler.go.
use crapnote.Base.{ℕ, Bool, Option, List, map, String}
use crapnote.Base.Ints.{ℤ}
use crapnote.Base.Outcome.{Op}
use crapnote.Db.{Db, Bytes, User, Note}
use crapnote.Http.{
  sends, Handler, authenticated, given, after, respond, failing, not_found_as, no_content,
}
use crapnote.Http.Page.{parse_page}
use crapnote.Trash
use crapnote.Trash.{Entry, restore, delete_one, empty}

pub record EntryResponse : Type 0 where
  pub note_id : ℕ
  pub title : Bytes
  pub deleted_at : ℕ
  pub permanent_delete_at : ℕ

abbrev pub to_response : Entry → EntryResponse
to_response e = record {
  note_id = e.note_id;
  title = e.title;
  deleted_at = e.deleted_at;
  permanent_delete_at = e.permanent_delete_at;
}

unfoldable pub list_trash :
    (String → Option ℤ)
    → (Bytes → Note → Bool)
    → Option User
    → Bytes
    → String
    → String
    → Handler Db (List EntryResponse)
list_trash atoi matches caller search limit offset = authenticated caller (λ u. respond (λ db.
    let p = parse_page atoi limit offset in
    sends 200 (map to_response (Trash.list matches u.id search p.limit p.offset db))))

-- Restore and DeleteOne, with the method of the service.
abbrev pub on_entry : (ℕ → ℕ → Op Db (Unit {0})) → Option User → Option ℕ → Handler Db (Unit {0})
on_entry op caller path = authenticated caller (λ u. given path "invalid id" (λ id.
    after (op id u.id) (not_found_as "not found in trash") (λ done. respond (λ _. no_content))))

unfoldable pub restore_entry : Option User → Option ℕ → Handler Db (Unit {0})
restore_entry caller path = on_entry restore caller path

unfoldable pub delete_entry : Option User → Option ℕ → Handler Db (Unit {0})
delete_entry caller path = on_entry delete_one caller path

unfoldable pub empty_trash : Option User → Handler Db (Unit {0})
empty_trash caller =
    authenticated caller (λ u. after (empty u.id) failing (λ done. respond (λ _. no_content)))
