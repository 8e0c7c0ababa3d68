-- ===== src/Tests/Tags.antt =====
-- Tags on notes.
use crapnote.Base.{ℕ, page, [], ◌∷◌, ◌≡◌, refl, String}
use crapnote.Base.Ints.{pos}
use crapnote.Base.Outcome.{ok}
use crapnote.Base.Sort.{sort_by}
use crapnote.Base.Table.{exists, first, select, count}
use crapnote.Db.{Db, Tag}
use crapnote.Tags
use crapnote.Tags.{TagWithCount, with_count, add_to_note, find_by_id}
use crapnote.Tags.Linked.{IsLinked, adds, tag_step, tag_step-IsLinked}
use crapnote.Tests.{store}

abbrev tag : ℕ → String → Tag
tag id name = record { id = id; user_id = 1; name = name; created_at = 0 }

abbrev tagged : Db
tagged = record store {
  tags = tag 1 "work" ∷ tag 2 "home" ∷ [];
  tag_seq = 2;
  note_tags = record { note_id = 2; tag_id = 1 } ∷ [];
}

tagged-IsLinked : IsLinked tagged
unfolding exists
tagged-IsLinked = ((1, refl, refl), tt)

tag_step-IsLinked_example : IsLinked (tag_step (adds 2 2 1) tagged)
tag_step-IsLinked_example = tag_step-IsLinked (adds 2 2 1) tagged tagged-IsLinked

-- By name, with the number of notes.
listed :
    Tags.list 1 (pos 0) (pos 0) tagged
    ≡ with_count tagged (tag 2 "home") ∷ with_count tagged (tag 1 "work") ∷ []
unfolding Tags.list sort_by select count page
listed = refl

added : (add_to_note 2 2 1 tagged).0 ≡ ok tt
unfolding add_to_note find_by_id first exists
added = refl
