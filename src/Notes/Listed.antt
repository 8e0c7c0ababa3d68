-- ===== src/Notes/Listed.antt =====
-- What List answers: the visible notes that match, in display order.
use mathlib.Core.List.{Perm}
use crapnote.Base.{
  ℕ, suc, ◌≤◌, ◌≡◌, ◌==◌, ◌&&◌, refl, sym, Bool, true, false, Option, none, some, List, [], ◌∷◌,
  arith, All, All-page, page, length, take, drop, length-take,
}
use crapnote.Base.Ints.{pos, ltb_ℤ}
use crapnote.Base.Table.{select, exists}
use crapnote.Base.Table.Every.{All-select, All-map}
use crapnote.Base.Sort.{
  sort_by, sort_by-perm, sort_by-All, sort_by-IsSorted, IsSorted, IsSorted-page,
}
use crapnote.Db.{Db, Note, Bytes}
use crapnote.Notes.Listing.{ListFilter, display_before, is_listed, is_starred_as, list}
use crapnote.Notes.Repo.{is_trashed}

display_before-total : (a b : Note) → display_before a b ≡ false → display_before b a ≡ true
unfolding display_before
display_before-total a b h = ground arith

display_before_trans :
    (a b c : Note)
    → display_before a b ≡ true
    → display_before b c ≡ true
    → display_before a c ≡ true
unfolding display_before
display_before_trans a b c h k = ground arith

-- What the list of notes promises of a note that stands before another.
pub record StandsBefore (a b : Note) : Type 0 where
  -- A pinned note never stands behind one that is not.
  pub pinned_first : b.pinned ≡ true → a.pinned ≡ true
  -- Among notes alike in this, the pin order rises.
  pub in_order : a.pinned ≡ b.pinned → ltb_ℤ b.pin_order a.pin_order ≡ false
  -- Among notes alike in both, the most recently updated stands first.
  pub newest_first : a.pinned ≡ b.pinned → a.pin_order ≡ b.pin_order → b.updated_at ≤ a.updated_at

-- Every note stands in this way before each that follows.
abbrev pub IsDisplayed : List Note → Type 0
IsDisplayed [] = Unit
IsDisplayed (a ∷ ns) = All (StandsBefore a) ns × IsDisplayed ns

display_before-StandsBefore : (a b : Note) → display_before a b ≡ true → StandsBefore a b
unfolding display_before
display_before-StandsBefore a b h = record {
  pinned_first = λ p. ground arith;
  in_order = λ p. ground arith;
  newest_first = λ p o. let o' : b.pin_order ≡ a.pin_order = sym o in newer a b p o h;
}
  where
    newer :
        (a b : Note)
        → a.pinned ≡ b.pinned
        → a.pin_order ≡ b.pin_order
        → display_before a b ≡ true
        → b.updated_at ≤ a.updated_at
    newer a b p o h = let h' = rw (p, o) at h in ground arith

All-StandsBefore :
    (a : Note) (ns : List Note) → All (λ b. display_before a b ≡ true) ns → All (StandsBefore a) ns
All-StandsBefore a [] h = tt
All-StandsBefore a (n ∷ ns) (b, h) = (display_before-StandsBefore a n b, All-StandsBefore a ns h)

IsSorted-IsDisplayed : (ns : List Note) → IsSorted display_before ns → IsDisplayed ns
IsSorted-IsDisplayed [] h = tt
IsSorted-IsDisplayed (n ∷ ns) (b, h) = (All-StandsBefore n ns b, IsSorted-IsDisplayed ns h)

-- A note that the list may hold: the user's, neither archived nor in the trash, starred or not as the filter
-- says, and under the tag of the filter.
pub record MayShow (db : Db) (user_id : ℕ) (filter : ListFilter) (n : Note) : Type 0 where
  pub own : n.user_id ≡ user_id
  pub unarchived : n.archived ≡ false
  pub kept : exists (λ t. t.note_id == n.id) db.trash ≡ false
  pub starred : (b : Bool) → filter.starred ≡ some b → n.starred ≡ b
  pub tagged :
      (tag : ℕ)
      → filter.tag_id ≡ some tag
      → exists (λ l. l.note_id == n.id && l.tag_id == tag) db.note_tags ≡ true

is_starred_as-holds :
    (f : Option Bool) (n : Note)
    → is_starred_as f n ≡ true
    → (b : Bool) → f ≡ some b
    → n.starred ≡ b
is_starred_as-holds none n h b e = absurd (cc e)
is_starred_as-holds (some true) n h b e = let e' : true ≡ b = cc e in ground arith
is_starred_as-holds (some false) n h b e = let e' : false ≡ b = cc e in ground arith

module _ (matches : Bytes → Note → Bool) where
  is_listed-MayShow :
      (db : Db) (user_id : ℕ) (filter : ListFilter) (n : Note)
      → is_listed matches db user_id filter n ≡ true
      → MayShow db user_id filter n
  unfolding is_trashed
  is_listed-MayShow db user_id filter n h = record {
    own = ground arith;
    unarchived = ground arith;
    kept = ground arith;
    starred = is_starred_as-holds filter.starred n (ground arith);
    tagged = λ tag e. ground arith;
  }

  -- The answer of List holds only notes of the user that are neither archived nor in the trash, starred or not
  -- as the filter says, and under its tag if it names one; and it shows pinned notes before all others, both kinds in rising
  -- pin order, and of notes alike in both the most recently updated first.
  pub list-IsDisplayed :
      (user_id : ℕ) (filter : ListFilter) (db : Db)
      → All (MayShow db user_id filter) (list matches user_id filter db)
        × IsDisplayed (list matches user_id filter db)
  unfolding list
  list-IsDisplayed user_id filter db =
      let rows = select (is_listed matches db user_id filter) db.notes in
      let sorted = sort_by display_before rows in
      (
        All-map (λ n. is_listed matches db user_id filter n ≡ true) (MayShow db user_id filter)
            (page filter.limit filter.offset sorted) (is_listed-MayShow db user_id filter)
            (All-page (λ n. is_listed matches db user_id filter n ≡ true) filter.limit filter.offset
              sorted
              (sort_by-All display_before (λ n. is_listed matches db user_id filter n ≡ true) rows
                (All-select (is_listed matches db user_id filter) db.notes))),
        IsSorted-IsDisplayed (page filter.limit filter.offset sorted) (
            IsSorted-page display_before filter.limit filter.offset sorted
              (sort_by-IsSorted display_before display_before-total display_before_trans rows)),
      )

  -- Without a limit the answer is every note that meets the conditions, as often as the table has it.
  pub list-complete :
      (user_id : ℕ) (filter : ListFilter) (db : Db)
      → filter.limit ≡ pos 0
      → Perm
          (list matches user_id filter db)
          (select (is_listed matches db user_id filter) db.notes)
  unfolding list page
  list-complete user_id filter db e =
      rw e (sort_by-perm display_before (select (is_listed matches db user_id filter) db.notes))

  -- A page of `k + 1` notes from the offset `n` is that stretch of the answer without a limit.
  pub list-pages :
      (user_id : ℕ) (filter : ListFilter) (db : Db) (k n : ℕ)
      → let paged : ListFilter = record filter { limit = pos (suc k); offset = pos n } in
        let whole : ListFilter = record filter { limit = pos 0; offset = pos 0 } in
        (length (list matches user_id paged db) ≤ suc k)
        × (list matches user_id paged db ≡ take (suc k) (drop n (list matches user_id whole db)))
  unfolding list page
  list-pages user_id filter db k n =
      let sorted = sort_by display_before (select (is_listed matches db user_id filter) db.notes) in
      (omega (arith, length-take (suc k) (drop n sorted)), refl)
