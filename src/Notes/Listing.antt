-- ===== src/Notes/Listing.antt =====
-- backend/internal/notes/repository.go: List, ListForExport and ListArchived, and the ListFilter of
-- model.go. The full-text index is SQLite's FTS5: `matches phrase n` says that the MATCH expression
-- `phrase` finds the note `n`, and stands as a parameter.
use crapnote.Base.{
  ℕ, Bool, true, false, not, ◌&&◌, Option, none, some, List, [], ◌∷◌, ◌++◌, ◌==◌, leb,
  if◌then◌else◌, page,
}
use crapnote.Base.Ints.{ℤ, ltb_ℤ}
use crapnote.Base.Table.{select, exists}
use crapnote.Base.Sort.{sort_by}
use crapnote.Db.{Db, Note, Bytes}
use crapnote.Notes.Repo.{is_visible, is_trashed}

-- strings.ReplaceAll(s, `"`, `""`)
unfoldable pub escape_quotes : Bytes → Bytes
escape_quotes [] = []
escape_quotes (c ∷ s) = if c == 34 then 34 ∷ (34 ∷ escape_quotes s) else c ∷ escape_quotes s

-- The MATCH expression for a search: the escaped text as one quoted phrase, then `*`.
unfoldable pub phrase : Bytes → Bytes
unfolding escape_quotes
phrase search = 34 ∷ (escape_quotes search ++ (34 ∷ (42 ∷ [])))

pub record ListFilter : Type 0 where
  pub starred : Option Bool
  pub tag_id : Option ℕ
  pub search : Bytes
  pub limit : ℤ
  pub offset : ℤ

abbrev pub is_starred_as : Option Bool → Note → Bool
is_starred_as none n = true
is_starred_as (some true) n = n.starred
is_starred_as (some false) n = not n.starred

abbrev pub has_tag : Db → Option ℕ → Note → Bool
has_tag db none n = true
has_tag db (some tag) n = exists (λ l. l.note_id == n.id && l.tag_id == tag) db.note_tags

-- ORDER BY n.pin_order ASC, n.updated_at DESC
abbrev pub by_pin_order : Note → Note → Bool
by_pin_order a b =
    if ltb_ℤ a.pin_order b.pin_order
    then true
    else if ltb_ℤ b.pin_order a.pin_order
    then false
    else leb b.updated_at a.updated_at

-- ORDER BY n.pinned DESC, n.pin_order ASC, n.updated_at DESC
unfoldable pub display_before : Note → Note → Bool
display_before a b =
    if a.pinned
    then (if b.pinned then by_pin_order a b else true)
    else (if b.pinned then false else by_pin_order a b)

-- ORDER BY n.updated_at DESC
unfoldable pub newest_before : Note → Note → Bool
newest_before a b = leb b.updated_at a.updated_at

unfoldable pub list_for_export : ℕ → Db → List Note
unfolding newest_before is_trashed
list_for_export user_id db =
    sort_by newest_before (select (λ n. n.user_id == user_id && not (is_trashed db n.id)) db.notes)

module _ (matches : Bytes → Note → Bool) where
  abbrev pub is_found : Bytes → Note → Bool
  is_found [] n = true
  is_found (c ∷ s) n = matches (phrase (c ∷ s)) n

  -- The WHERE clause that List puts together.
  abbrev pub is_listed : Db → ℕ → ListFilter → Note → Bool
  is_listed db user_id filter n =
      is_visible db user_id n
      && (is_starred_as filter.starred n
          && (has_tag db filter.tag_id n && is_found filter.search n))

  unfoldable pub list : ℕ → ListFilter → Db → List Note
  unfolding display_before is_trashed
  list user_id filter db =
      page filter.limit filter.offset
        (sort_by display_before (select (is_listed db user_id filter) db.notes))

  abbrev pub is_listed_archived : Db → ℕ → Bytes → Note → Bool
  is_listed_archived db user_id search n =
      n.user_id == user_id && (n.archived && (not (is_trashed db n.id) && is_found search n))

  unfoldable pub list_archived : ℕ → Bytes → ℤ → ℤ → Db → List Note
  unfolding newest_before is_trashed
  list_archived user_id search limit offset db =
      page limit offset
        (sort_by newest_before (select (is_listed_archived db user_id search) db.notes))
