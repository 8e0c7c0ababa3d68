-- ===== src/Tests/Content.antt =====
-- The store of one locked and one open note, and of another user's note in the trash.
use crapnote.Base.{ℕ, true, false, none, some, List, [], ◌∷◌, ◌≡◌, ◌≢◌, refl, arith}
use crapnote.Base.Outcome.{ok, err, not_found}
use crapnote.Base.Table.{first, exists}
use crapnote.Notes.Repo.{soft_delete, is_trashed, is_editable}
use crapnote.Trash.{restore}
use crapnote.Content.{
  creates, updates, trashes, empties, step, Event, call, auto_lock, purge, react, run,
}
use crapnote.Content.Invariant.{IsValid}
use crapnote.Content.Preserved.{run-IsValid}
use crapnote.Content.Isolation.{SameFor, step-SameFor}
use crapnote.Content.Kept.{IsKept, note_at}
use crapnote.Content.Locking.{react-IsKept}
use crapnote.Content.RoundTrips.{restore-soft_delete}
use crapnote.Notes.Service.{toggle_lock}
use crapnote.Content.Toggling.{toggle_lock-every}
use crapnote.Db.{Db}
use crapnote.Tests.{store, note}

store-IsValid : IsValid store
unfolding exists
store-IsValid = record {
  keyed = (refl, (refl, (refl, tt)));
  bounded = (omega arith, (omega arith, (omega arith, tt)));
  unpinned = (λ _. refl, (λ _. refl, (λ _. refl, tt)));
  owned = (refl, tt);
  once = (refl, tt);
}

abbrev history : List (ℕ × Event)
history =
    (10, call 1 (creates [] []))
    ∷ (20, call 1 (trashes 2))
    ∷ (30, auto_lock 5)
    ∷ (40, purge)
    ∷ (50, call 2 empties)
    ∷ []

run-IsValid_example : IsValid (run history store)
run-IsValid_example = run-IsValid history store store-IsValid

one-two : (◌≢◌ {A = ℕ}) 1 2
one-two e = omega (arith, e)

step-SameFor_example : SameFor 2 store (step 1 10 (trashes 2) store)
step-SameFor_example = step-SameFor 1 2 10 (trashes 2) store one-two store-IsValid

found : note_at 1 store ≡ some (note 1 1 true)
unfolding first
found = refl

react-IsKept_example :
    IsKept (note 1 1 true) (note_at 1 (react 10 (call 1 (updates 1 (some []) none)) store))
react-IsKept_example =
    react-IsKept 1 10 (note 1 1 true) (call 1 (updates 1 (some []) none)) store store-IsValid found
      refl

fresh : is_trashed store 2 ≡ false
unfolding is_trashed exists
fresh = refl

trashed : (soft_delete 2 1 10 store).0 ≡ ok tt
unfolding soft_delete is_trashed exists
trashed = refl

restore-soft_delete_example : restore 2 1 (soft_delete 2 1 10 store).1 ≡ (ok tt, store)
restore-soft_delete_example = restore-soft_delete 2 1 10 store fresh trashed

barred : is_editable store 1 (note 1 1 true) ≡ false
unfolding is_trashed exists
barred = refl

-- An archived note is unlocked, and the answer is that there is none.
abbrev shelved : Db
shelved = record store {
  notes = record (note 1 1 true) { archived = true } ∷ note 2 1 false ∷ note 3 2 false ∷ [];
}

shelved-IsValid : IsValid shelved
unfolding exists
shelved-IsValid = record {
  keyed = (refl, (refl, (refl, tt)));
  bounded = (omega arith, (omega arith, (omega arith, tt)));
  unpinned = (λ _. refl, (λ _. refl, (λ _. refl, tt)));
  owned = (refl, tt);
  once = (refl, tt);
}

found_shelved : note_at 1 shelved ≡ some (record (note 1 1 true) { archived = true })
unfolding first
found_shelved = refl

toggle_lock-every_example :
    ((toggle_lock 1 1 shelved).0 ≡ err not_found)
    × (note_at 1 (toggle_lock 1 1 shelved).1 ≡ some (record (note 1 1 false) { archived = true }))
toggle_lock-every_example =
    toggle_lock-every 1 (record (note 1 1 true) { archived = true }) shelved shelved-IsValid
      found_shelved
