-- ===== src/Tests/Notes.antt =====
-- Listings, pins and searches.
use crapnote.Base.{Bool, true, false, none, [], ◌∷◌, ◌≡◌, refl, All}
use crapnote.Base.Ints.{pos}
use crapnote.Base.Outcome.{ok}
use crapnote.Base.Table.{count}
use crapnote.Db.{Note, Bytes}
use crapnote.Notes.Listing.{ListFilter, list}
use crapnote.Notes.Listed.{MayShow, IsDisplayed, list-IsDisplayed}
use crapnote.Notes.Merging.{IsOnce}
use crapnote.Notes.Pins.{contains, merge_pin_order, set_pinned}
use crapnote.Tests.{store}

abbrev never : Bytes → Note → Bool
never s n = false

abbrev whole : ListFilter
whole = record { starred = none; tag_id = none; search = []; limit = pos 0; offset = pos 0 }

list-IsDisplayed_example :
    All (MayShow store 1 whole) (list never 1 whole store) × IsDisplayed (list never 1 whole store)
list-IsDisplayed_example = list-IsDisplayed never 1 whole store

-- A request that leaves out a note, names one twice and names one that is not pinned.
merged : merge_pin_order (4 ∷ 7 ∷ 9 ∷ []) (9 ∷ 5 ∷ 9 ∷ 4 ∷ []) ≡ 9 ∷ 4 ∷ 7 ∷ []
unfolding merge_pin_order
merged = refl

once : IsOnce (4 ∷ 7 ∷ 9 ∷ [])
unfolding contains
once = (refl, (refl, (refl, tt)))

pinned : (set_pinned 2 1 true store).0 ≡ ok tt
unfolding set_pinned count
pinned = refl
