-- ===== src/Notes/Pins.antt =====
-- backend/internal/notes/repository.go: SetPinned, ReorderPins, pinnedIDs and mergePinOrder.
use crapnote.Base.{
  ℕ, suc, Bool, true, false, not, ◌&&◌, ◌||◌, Option, none, some, List, [], ◌∷◌, ◌++◌, map, ◌==◌,
  if◌then◌else◌,
}
use crapnote.Base.Ints.{ℤ, pos, ltb_ℤ, pred_ℤ}
use crapnote.Base.Outcome.{ok, err, not_found, Op, done}
use crapnote.Base.Table
use crapnote.Base.Table.{count, select}
use crapnote.Base.Sort.{sort_by}
use crapnote.Db.{Db, Note}
use crapnote.Notes.Repo.{is_trashed}
use crapnote.Notes.Listing.{by_pin_order}

-- MIN(pin_order), NULL over no row.
unfoldable pub min_pin_order : List Note → Option ℤ
min_pin_order [] = none
min_pin_order (n ∷ ns) = elim (min_pin_order ns) [
  | none ↦ some n.pin_order
  | some m ↦ if ltb_ℤ n.pin_order m then some n.pin_order else some m
]

abbrev pub pred_or_zero : Option ℤ → ℤ
pred_or_zero none = pos 0
pred_or_zero (some m) = pred_ℤ m

-- COALESCE((SELECT MIN(p.pin_order) - 1 ...), 0), for the note `id`.
unfoldable pub top_slot : List Note → ℕ → ℕ → ℤ
unfolding min_pin_order
top_slot notes user_id id =
    pred_or_zero
      (min_pin_order (select (λ p. p.user_id == user_id && (p.pinned && not (p.id == id))) notes))

abbrev pub with_pin : Bool → ℤ → Note → Note
with_pin b slot n = record n { pinned = b; pin_order = slot }

unfoldable pub set_pinned : ℕ → ℕ → Bool → Op Db (Unit {0})
unfolding top_slot
set_pinned id user_id pinned db =
    let hit : Note → Bool = λ n. n.id == id && n.user_id == user_id in
    let slot : ℤ = if pinned then top_slot db.notes user_id id else pos 0 in
    if count hit db.notes == 0
    then (err not_found, db)
    else (ok tt, record db { notes = Table.update hit (with_pin pinned slot) db.notes })

abbrev pub is_pinned_of : Db → ℕ → Note → Bool
is_pinned_of db user_id n = n.user_id == user_id && (n.pinned && not (is_trashed db n.id))

unfoldable pub pinned_ids : ℕ → Db → List ℕ
unfolding is_trashed
pinned_ids user_id db =
    map (λ n. n.id) (sort_by by_pin_order (select (is_pinned_of db user_id) db.notes))

unfoldable pub contains : List ℕ → ℕ → Bool
contains [] x = false
contains (y ∷ ys) x = if y == x then true else contains ys x

-- The loop over the requested ids. The ids for which the source sets `placed` are those of `final`.
unfoldable pub place_requested : List ℕ → List ℕ → List ℕ → List ℕ
unfolding contains
place_requested current final [] = final
place_requested current final (id ∷ ids) =
    place_requested current
      (if not (contains current id) || contains final id then final else final ++ id ∷ []) ids

-- The loop over the ids that were not requested.
unfoldable pub place_rest : List ℕ → List ℕ → List ℕ
place_rest placed [] = []
place_rest placed (id ∷ ids) =
    if not (contains placed id) then id ∷ place_rest placed ids else place_rest placed ids

unfoldable pub merge_pin_order : List ℕ → List ℕ → List ℕ
unfolding place_requested place_rest contains
merge_pin_order current requested =
    let placed = place_requested current [] requested in placed ++ place_rest placed current

abbrev pub with_pin_order : ℤ → Note → Note
with_pin_order slot n = record n { pin_order = slot }

-- The loop that writes the positions from `i` on.
unfoldable pub renumber : ℕ → ℕ → List ℕ → List Note → List Note
renumber user_id i [] notes = notes
renumber user_id i (id ∷ ids) notes = renumber user_id (suc i) ids (
    Table.update (λ n. n.id == id && (n.user_id == user_id && n.pinned)) (with_pin_order (pos i))
      notes)

-- ReorderPins behind its check that some id is asked for; `current` is what pinnedIDs read.
unfoldable pub reordered : ℕ → List ℕ → List ℕ → Db → Db
unfolding merge_pin_order renumber
reordered user_id ids [] db = db
reordered user_id ids (first ∷ rest) db = record db {
  notes = renumber user_id 0 (merge_pin_order (first ∷ rest) ids) db.notes;
}

unfoldable pub reorder_pins : ℕ → List ℕ → Op Db (Unit {0})
unfolding pinned_ids reordered
reorder_pins user_id [] db = done db
reorder_pins user_id (id ∷ ids) db = done (reordered user_id (id ∷ ids) (pinned_ids user_id db) db)
