-- ===== src/Content/Kept.antt =====
-- Writes to the rows of notes that keep the text of a note: backend/internal/notes/repository.go.
use crapnote.Base.{
  ℕ, suc, ◌≡◌, refl, Bool, true, false, ◌&&◌, Option, none, some, List, [], ◌∷◌, arith, ◌==◌, inl,
  inr, if◌then◌else◌, Bool-cases, Option-cases,
}
use crapnote.Base.Ints.{pos}
use mathlib.Core.Option
use crapnote.Base.Table
use crapnote.Base.Table.{exists, select, count, first, delete}
use crapnote.Base.Table.Rows.{first-update, first-delete_kept, first-delete-none, first-delete_only}
use crapnote.Base.Table.Keyed.{count-has_key}
use crapnote.Db.{Db, Note}
use crapnote.Db.Cascade.{delete_notes}
use crapnote.Notes.Repo.{set_bool}
use crapnote.Notes.Pins.{reordered, renumber, with_pin_order, merge_pin_order}
use crapnote.Trash.{delete_each}
use crapnote.Content.Invariant.{IsValid, delete_notes-IsValid}
use crapnote.Content.Writes.{guarded}

abbrev pub SameText : Note → Note → Type 0
SameText n m =
    (m.user_id ≡ n.user_id)
    × (m.title ≡ n.title)
    × (m.body ≡ n.body)
    × (m.updated_at ≡ n.updated_at)

-- The row that was read is gone, or it has the text of `n`.
abbrev pub IsKept : Note → Option Note → Type 0
IsKept n none = Unit
IsKept n (some m) = SameText n m

abbrev pub note_at : ℕ → Db → Option Note
note_at id db = first (λ n. n.id == id) db.notes

abbrev pub Keeps : ℕ → Note → Db → Type 0
Keeps id n db = IsKept n (note_at id db)

module _ (id : ℕ) (n : Note) where
  keeps-written :
      (b : Bool) (f : Note → Note) (r : Option Note)
      → ((x : Note) → SameText x (f x))
      → IsKept n r
      → IsKept n (Option.map (λ x. if b then f x else x) r)
  keeps-written b f none text k = tt
  keeps-written true f (some x) text k = let t = text x in ground arith
  keeps-written false f (some x) text k = k

  pub Keeps-update :
      (q : Note → Bool) (f : Note → Note) (db : Db)
      → ((x : Note) → (f x).id ≡ x.id)
      → ((x : Note) → SameText x (f x))
      → Keeps id n db
      → Keeps id n (record db { notes = Table.update q f db.notes })
  Keeps-update q f db ids text k =
      rw (first-update (λ x. x.id == id) q f db.notes (λ x. rw (ids x) refl))
        (written (note_at id db) k)
    where
      written :
          (r : Option Note) → IsKept n r → IsKept n (Option.map (λ x. if q x then f x else x) r)
      written none k = tt
      written (some x) k = keeps-written (q x) f (some x) text k

  pub Keeps-delete_notes :
      (p : Note → Bool) (db : Db) → IsValid db → Keeps id n db → Keeps id n (delete_notes p db)
  unfolding delete_notes
  Keeps-delete_notes p db v k = elim (Option-cases (note_at id db)) [
    | inl e ↦ rw (first-delete-none (λ x. x.id == id) p db.notes e) tt
    | inr (x, e) ↦ elim (Bool-cases (p x)) [
      | inl gone ↦
          rw
            (first-delete_only (λ x. x.id == id) p db.notes x
              (count-has_key (λ (y : Note). y.id) id db.notes v.keyed) e gone)
            tt
      | inr kept ↦
          let k' : SameText n x = rw e at k in
          rw (first-delete_kept (λ x. x.id == id) p db.notes x e kept) k'
    ]
  ]

  pub Keeps-delete_each :
      (user : ℕ) (ids : List ℕ) (db : Db)
      → IsValid db
      → Keeps id n db
      → Keeps id n (delete_each user ids db)
  unfolding delete_each
  Keeps-delete_each user [] db v k = k
  Keeps-delete_each user (i ∷ ids) db v k =
      let p : Note → Bool = λ x. x.id == i && x.user_id == user in
      Keeps-delete_each user ids (delete_notes p db) (delete_notes-IsValid p db v)
        (Keeps-delete_notes p db v k)

  pub Keeps-renumber :
      (user i : ℕ) (ids : List ℕ) (db : Db)
      → Keeps id n db
      → Keeps id n (record db { notes = renumber user i ids db.notes })
  unfolding renumber
  Keeps-renumber user i [] db k = k
  Keeps-renumber user i (j ∷ ids) db k =
      let q : Note → Bool = λ x. x.id == j && (x.user_id == user && x.pinned) in
      Keeps-renumber user (suc i) ids
        (record db { notes = Table.update q (with_pin_order (pos i)) db.notes })
        (Keeps-update q (with_pin_order (pos i)) db (λ x. refl) (λ x. (refl, refl, refl, refl)) k)

  pub Keeps-reordered :
      (user : ℕ) (ids current : List ℕ) (db : Db)
      → Keeps id n db
      → Keeps id n (reordered user ids current db)
  unfolding reordered
  Keeps-reordered user ids [] db k = k
  Keeps-reordered user ids (c ∷ current) db k =
      Keeps-renumber user 0 (merge_pin_order (c ∷ current) ids) db k

  pub Keeps-set_bool :
      (write : Note → Note) (i user : ℕ) (db : Db)
      → ((x : Note) → (write x).id ≡ x.id)
      → ((x : Note) → SameText x (write x))
      → Keeps id n db
      → Keeps id n (set_bool write i user db).1
  unfolding set_bool
  Keeps-set_bool write i user db ids text k =
      guarded (Keeps id n) _ _ _ _ _ k (Keeps-update _ write db ids text k)
