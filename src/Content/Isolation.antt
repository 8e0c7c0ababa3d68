-- ===== src/Content/Isolation.antt =====
-- One user's calls do not reach the notes and the trash of another.
use crapnote.Base.{
  ℕ, suc, ◌≡◌, refl, ◌≢◌, ◌∙◌, Bool, true, false, List, [], ◌∷◌, map, arith, ◌==◌, ◌&&◌, Option,
  inl, inr, Bool-cases,
}
use crapnote.Base.Ints.{pos}
use crapnote.Base.Table
use crapnote.Base.Table.{select, delete, exists}
use crapnote.Base.Table.Rows.{select-update, select-delete, exists-false_mono}
use crapnote.Base.Table.Appended.{select-append_out}
use crapnote.Base.Table.Every.{select-delete-All, All-map}
use crapnote.Base.Table.Keyed.{IsKeyed}
use crapnote.Db.{Db, Note, TrashRow, Bytes}
use crapnote.Db.Cascade.{delete_notes}
use crapnote.Notes.Repo
use crapnote.Notes.Repo.{
  create, set_bool, set_starred, set_locked, soft_delete, archive, unarchive, hard_delete,
}
use crapnote.Notes.Pins.{
  set_pinned, reorder_pins, reordered, renumber, with_pin_order, pinned_ids, merge_pin_order,
}
use crapnote.Trash
use crapnote.Trash.{restore, delete_one, delete_each}
use crapnote.Content.{
  Call, creates, updates, stars, locks, pins, reorders, trashes, archives, unarchives, erases,
  restores, deletes, empties, step,
}
use crapnote.Content.Invariant.{IsValid, is_note_of, delete_notes-IsValid}
use crapnote.Content.Writes.{guarded}

-- The notes and the trash rows of a user.
abbrev pub notes_of : ℕ → Db → List Note
notes_of user db = select (λ n. n.user_id == user) db.notes

abbrev pub trash_of : ℕ → Db → List TrashRow
trash_of user db = select (λ t. t.user_id == user) db.trash

-- Two states agree on what a user has.
abbrev pub SameFor : ℕ → Db → Db → Type 0
SameFor v db db' = (notes_of v db' ≡ notes_of v db) × (trash_of v db' ≡ trash_of v db)

-- A note found by its id has one owner.
one_owner :
    (u v k : ℕ) (p : Note → Bool) (xs : List Note)
    → u ≢ v
    → IsKeyed (λ (n : Note). n.id) xs
    → ((n : Note) → p n ≡ true → n.user_id ≡ u)
    → exists (λ n. p n && n.id == k) xs ≡ true
    → exists (λ n. n.id == k && n.user_id == v) xs ≡ true
    → ⊥
unfolding exists
one_owner u v k p [] other keyed owned h h' = cc
one_owner u v k p (x ∷ xs) other (new, keyed) owned h h' =
    ground (arith, owned x, one_owner u v k p xs other keyed owned, absent)
  where
    absent :
        x.id ≡ k
        → (exists (λ n. p n && n.id == k) xs ≡ false)
          × (exists (λ n. n.id == k && n.user_id == v) xs ≡ false)
    absent e =
        let none_left : exists (λ (n : Note). n.id == k) xs ≡ false = rw (← e) new in
        (
          exists-false_mono _ (λ n. n.id == k) xs (λ n h. ground arith) none_left,
          exists-false_mono _ (λ n. n.id == k) xs (λ n h. ground arith) none_left,
        )

module _ (u v : ℕ) (other : u ≢ v) where
  others-update :
      (q : Note → Bool) (f : Note → Note) (db : Db)
      → ((n : Note) → q n ≡ true → n.user_id ≡ u)
      → ((n : Note) → (f n).user_id ≡ n.user_id)
      → SameFor v db (record db { notes = Table.update q f db.notes })
  others-update q f db owned keeps = (
    select-update (λ n. n.user_id == v) q f db.notes (λ n h. let e = owned n h in ground arith)
        (λ n h. let e = owned n h in let k = keeps n in ground arith),
    refl,
  )

  others-set_bool :
      (write : Note → Note) (id : ℕ) (db : Db)
      → ((n : Note) → (write n).user_id ≡ n.user_id)
      → SameFor v db (set_bool write id u db).1
  unfolding set_bool
  others-set_bool write id db keeps =
      guarded (SameFor v db) _ _ _ _ _ (refl, refl)
        (others-update _ write db (λ n h. ground arith) keeps)

  -- The rows that the cascade takes belong to notes of `u`, and so to `u`.
  others-delete_notes :
      (p : Note → Bool) (db : Db)
      → IsValid db
      → ((n : Note) → p n ≡ true → n.user_id ≡ u)
      → SameFor v db (delete_notes p db)
  unfolding delete_notes
  others-delete_notes p db valid owned = (
    select-delete (λ n. n.user_id == v) p db.notes (λ n h. let e = owned n h in ground arith),
    select-delete-All (λ t. t.user_id == v) _ db.trash
        (All-map (λ t. exists (is_note_of t) db.notes ≡ true) _ db.trash
          (λ t h gone. elim (Bool-cases (t.user_id == v)) [
            | inl e ↦ absurd (
                one_owner u v t.note_id p db.notes other valid.keyed owned gone
                  (let e' : t.user_id ≡ v = ground arith in rw (← e') h))
            | inr e ↦ e
          ])
          valid.owned),
  )

  others-renumber :
      (i : ℕ) (ids : List ℕ) (db : Db)
      → SameFor v db (record db { notes = renumber u i ids db.notes })
  unfolding renumber
  others-renumber i [] db = (refl, refl)
  others-renumber i (id ∷ ids) db =
      let q : Note → Bool = λ n. n.id == id && (n.user_id == u && n.pinned) in
      let one = others-update q (with_pin_order (pos i)) db (λ n h. ground arith) (λ n. refl) in
      let rest =
        others-renumber (suc i) ids
          (record db { notes = Table.update q (with_pin_order (pos i)) db.notes }) in
      (rest.0 ∙ one.0, refl)

  others-reordered : (ids current : List ℕ) (db : Db) → SameFor v db (reordered u ids current db)
  unfolding reordered
  others-reordered ids [] db = (refl, refl)
  others-reordered ids (first ∷ rest) db = others-renumber 0 (merge_pin_order (first ∷ rest) ids) db

  others-reorder_pins : (ids : List ℕ) (db : Db) → SameFor v db (reorder_pins u ids db).1
  unfolding reorder_pins
  others-reorder_pins [] db = (refl, refl)
  others-reorder_pins (id ∷ ids) db = others-reordered (id ∷ ids) (pinned_ids u db) db

  others-create :
      (title body : Bytes) (now : ℕ) (db : Db) → SameFor v db (create u title body now db).1
  unfolding create
  others-create title body now db = elim (Bool-cases (exists (λ w. w.id == u) db.users)) [
    | inl e ↦ rw e (select-append_out _ db.notes _ (ground arith), refl)
    | inr e ↦ rw e (refl, refl)
  ]

  others-set_pinned : (id : ℕ) (b : Bool) (db : Db) → SameFor v db (set_pinned id u b db).1
  unfolding set_pinned
  others-set_pinned id b db =
      guarded (SameFor v db) _ _ _ _ _ (refl, refl)
        (others-update _ _ db (λ n h. ground arith) (λ n. refl))

  others-update_note :
      (id : ℕ) (title body : Option Bytes) (now : ℕ) (db : Db)
      → SameFor v db (Repo.update id u title body now db).1
  unfolding Repo.update
  others-update_note id title body now db =
      guarded (SameFor v db) _ _ _ _ _ (refl, refl)
        (others-update _ _ db (λ n h. ground arith) (λ n. refl))

  others-archive : (id : ℕ) (db : Db) → SameFor v db (archive id u db).1
  unfolding archive
  others-archive id db =
      guarded (SameFor v db) _ _ _ _ _ (refl, refl)
        (others-update _ _ db (λ n h. ground arith) (λ n. refl))

  others-soft_delete : (id now : ℕ) (db : Db) → SameFor v db (soft_delete id u now db).1
  unfolding soft_delete
  others-soft_delete id now db =
      guarded (SameFor v db) _ _ _ _ _ (refl, select-append_out _ db.trash _ (ground arith))
        (refl, refl)

  others-hard_delete : (id : ℕ) (db : Db) → IsValid db → SameFor v db (hard_delete id u db).1
  unfolding hard_delete
  others-hard_delete id db valid =
      guarded (SameFor v db) _ _ _ _ _ (refl, refl)
        (others-delete_notes _ db valid (λ n h. ground arith))

  others-delete_one : (id : ℕ) (db : Db) → IsValid db → SameFor v db (delete_one id u db).1
  unfolding delete_one
  others-delete_one id db valid =
      guarded (SameFor v db) _ _ _ _ _ (refl, refl)
        (others-delete_notes _ db valid (λ n h. ground arith))

  others-restore : (id : ℕ) (db : Db) → SameFor v db (restore id u db).1
  unfolding restore
  others-restore id db =
      guarded (SameFor v db) _ _ _ _ _ (refl, refl)
        (refl, select-delete (λ t. t.user_id == v) _ db.trash (λ t h. ground arith))

  others-delete_each : (ids : List ℕ) (db : Db) → IsValid db → SameFor v db (delete_each u ids db)
  unfolding delete_each
  others-delete_each [] db valid = (refl, refl)
  others-delete_each (id ∷ ids) db valid =
      let p : Note → Bool = λ n. n.id == id && n.user_id == u in
      let one = others-delete_notes p db valid (λ n h. ground arith) in
      let rest = others-delete_each ids _ (delete_notes-IsValid p db valid) in
      (rest.0 ∙ one.0, rest.1 ∙ one.1)

-- A call of the user `u`, at any time and whatever it answers, leaves the notes and the trash rows of
-- every other user `v` exactly as they were, in a database that meets the invariant.
pub step-SameFor :
    (u v now : ℕ) (c : Call) (db : Db) → u ≢ v → IsValid db → SameFor v db (step u now c db)
unfolding step set_starred set_locked unarchive Trash.empty
step-SameFor u v now (creates title body) db other valid = others-create u v other title body now db
step-SameFor u v now (updates id title body) db other valid =
    others-update_note u v other id title body now db
step-SameFor u v now (stars id b) db other valid = others-set_bool u v other _ id db (λ n. refl)
step-SameFor u v now (locks id b) db other valid = others-set_bool u v other _ id db (λ n. refl)
step-SameFor u v now (pins id b) db other valid = others-set_pinned u v other id b db
step-SameFor u v now (reorders ids) db other valid = others-reorder_pins u v other ids db
step-SameFor u v now (trashes id) db other valid = others-soft_delete u v other id now db
step-SameFor u v now (archives id) db other valid = others-archive u v other id db
step-SameFor u v now (unarchives id) db other valid = others-set_bool u v other _ id db (λ n. refl)
step-SameFor u v now (erases id) db other valid = others-hard_delete u v other id db valid
step-SameFor u v now (restores id) db other valid = others-restore u v other id db
step-SameFor u v now (deletes id) db other valid = others-delete_one u v other id db valid
step-SameFor u v now empties db other valid =
    others-delete_each u v other (map (λ t. t.note_id) (select (λ t. t.user_id == u) db.trash)) db
      valid
