-- ===== src/Content/Writes.antt =====
-- Writes to the rows of notes keep the invariant: backend/internal/notes/repository.go.
use crapnote.Base.{
  ℕ, suc, ◌≡◌, refl, Bool, true, false, List, [], ◌∷◌, arith, ◌==◌, ◌&&◌, if◌then◌else◌, Option,
}
use crapnote.Base.Ints.{pos}
use crapnote.Base.Outcome.{Result}
use crapnote.Base.Table
use crapnote.Base.Table.{exists, select, count}
use crapnote.Db.{Db, Note, Bytes}
use crapnote.Notes.Repo
use crapnote.Notes.Repo.{
  create, set_bool, set_starred, set_locked, soft_delete, archive, unarchive, hard_delete,
  auto_lock_stale, is_trashed, new_note,
}
use crapnote.Notes.Pins.{
  set_pinned, reorder_pins, reordered, renumber, with_pin_order, pinned_ids, merge_pin_order,
}
use crapnote.Content.Invariant.{IsValid, update-IsValid, IsUnpinnedZero}

-- The state after a write that a test guards.
pub guarded {ℓ} :
    (P : Db → Type ℓ) {A : Type 0} (b : Bool) (r r' : Result A) (db db' : Db)
    → P db
    → P db'
    → P (let s : Result A × Db = if b then (r, db) else (r', db') in s.1)
guarded P true r r' db db' h k = h
guarded P false r r' db db' h k = k

pub set_bool-IsValid :
    (write : Note → Note) (id user : ℕ) (db : Db)
    → ((n : Note) → (write n).id ≡ n.id)
    → ((n : Note) → (write n).user_id ≡ n.user_id)
    → ((n : Note) → IsUnpinnedZero n → IsUnpinnedZero (write n))
    → IsValid db
    → IsValid (set_bool write id user db).1
unfolding set_bool
set_bool-IsValid write id user db i u p v =
    guarded IsValid _ _ _ _ _ v (update-IsValid _ write db i u (λ n _ h. p n h) v)

pub update_note-IsValid :
    (id user : ℕ) (title body : Option Bytes) (now : ℕ) (db : Db)
    → IsValid db
    → IsValid (Repo.update id user title body now db).1
unfolding Repo.update
update_note-IsValid id user title body now db v =
    guarded IsValid _ _ _ _ _ v (update-IsValid _ _ db (λ n. refl) (λ n. refl) (λ n _ h. h) v)

pub archive-IsValid : (id user : ℕ) (db : Db) → IsValid db → IsValid (archive id user db).1
unfolding archive
archive-IsValid id user db v =
    guarded IsValid _ _ _ _ _ v (update-IsValid _ _ db (λ n. refl) (λ n. refl) (λ n _ h. h) v)

pub set_pinned-IsValid :
    (id user : ℕ) (b : Bool) (db : Db) → IsValid db → IsValid (set_pinned id user b db).1
unfolding set_pinned
set_pinned-IsValid id user true db v =
    guarded IsValid _ _ _ _ _ v (update-IsValid _ _ db (λ n. refl) (λ n. refl) (λ n _ h e. cc) v)
set_pinned-IsValid id user false db v =
    guarded IsValid _ _ _ _ _ v (update-IsValid _ _ db (λ n. refl) (λ n. refl) (λ n _ h e. refl) v)

renumber-IsValid :
    (user i : ℕ) (ids : List ℕ) (db : Db)
    → IsValid db
    → IsValid (record db { notes = renumber user i ids db.notes })
unfolding renumber
renumber-IsValid user i [] db v = v
renumber-IsValid user i (id ∷ ids) db v =
    renumber-IsValid user (suc i) ids
      (record db {
        notes =
            Table.update (λ n. n.id == id && (n.user_id == user && n.pinned))
              (with_pin_order (pos i)) db.notes;
      })
      (update-IsValid _ _ db (λ n. refl) (λ n. refl) (λ n hit h e. ground arith) v)

reordered-IsValid :
    (user : ℕ) (ids current : List ℕ) (db : Db)
    → IsValid db
    → IsValid (reordered user ids current db)
unfolding reordered
reordered-IsValid user ids [] db v = v
reordered-IsValid user ids (first ∷ rest) db v =
    renumber-IsValid user 0 (merge_pin_order (first ∷ rest) ids) db v

pub reorder_pins-IsValid :
    (user : ℕ) (ids : List ℕ) (db : Db) → IsValid db → IsValid (reorder_pins user ids db).1
unfolding reorder_pins
reorder_pins-IsValid user [] db v = v
reorder_pins-IsValid user (id ∷ ids) db v =
    reordered-IsValid user (id ∷ ids) (pinned_ids user db) db v
