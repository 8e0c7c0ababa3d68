-- ===== src/Content/RoundTrips.antt =====
-- The trash gives back what it took, and what a locked note refuses.
use crapnote.Base.{
  ℕ, ◌≡◌, refl, Bool, true, false, not, ◌&&◌, Option, none, some, List, [], ◌∷◌, ◌++◌, arith, ◌==◌,
  inl, inr, if◌then◌else◌, Bool-cases, Option-cases,
}
use crapnote.Base.Outcome.{ok, err, Error, locked, not_found}
use crapnote.Base.Table.{
  exists, count, first, delete, first-holds, exists-false-first, count-zero-exists,
}
use crapnote.Base.Table.Keyed.{count-key, first-key}
use crapnote.Db.{Db, Note, TrashRow, Bytes, current_timestamp}
use crapnote.Notes.Repo
use crapnote.Notes.Repo.{soft_delete, archive, is_trashed, is_locked, get, refusal}
use crapnote.Trash.{restore, is_entry}
use crapnote.Content.Invariant.{IsValid}

delete-append_new :
    (id user_id : ℕ) (ts : List TrashRow) (t : TrashRow)
    → exists (λ x. x.note_id == id) ts ≡ false
    → is_entry id user_id t ≡ true
    → delete (is_entry id user_id) (ts ++ t ∷ []) ≡ ts
unfolding exists delete
delete-append_new id user_id [] t absent hit = rw hit refl
delete-append_new id user_id (x ∷ ts) t absent hit =
    let rest = delete-append_new id user_id ts t in ground (arith, rest)

count-append_hit :
    (p : TrashRow → Bool) (ts : List TrashRow) (t : TrashRow)
    → p t ≡ true
    → (count p (ts ++ t ∷ []) == 0) ≡ false
unfolding count
count-append_hit p [] t hit = ground arith
count-append_hit p (x ∷ ts) t hit = ground (arith, count-append_hit p ts t)

not-accepted :
    (id user_id : ℕ) (db : Db)
    → exists (λ n. n.id == id && (n.user_id == user_id && not n.locked)) db.notes ≡ false
    → refusal (is_locked id user_id db) (ok tt) ≡ ok tt
    → ⊥
unfolding is_locked
not-accepted id user_id db e h =
    let own : Note → Bool = λ n. n.id == id && n.user_id == user_id in
    elim (Option-cases (first own db.notes)) [
      | inl f ↦ let h' = rw (f, refusal) at h in cc h'
      | inr (n, f) ↦
          let mine = first-holds own db.notes n f in
          let bad =
            exists-false-first own (λ x. x.id == id && (x.user_id == user_id && not x.locked))
              db.notes n e f in
          let held : n.locked ≡ true = ground arith in let h' = rw (f, held, refusal) at h in cc h'
    ]

-- A note that is not in the trash and that SoftDelete accepts comes back by Restore: the database is
-- then the one from before.
pub restore-soft_delete :
    (id user_id now : ℕ) (db : Db)
    → is_trashed db id ≡ false
    → (soft_delete id user_id now db).0 ≡ ok tt
    → restore id user_id (soft_delete id user_id now db).1 ≡ (ok tt, db)
unfolding soft_delete restore is_trashed
restore-soft_delete id user_id now db fresh h =
    elim (Bool-cases
      (exists (λ n. n.id == id && (n.user_id == user_id && not n.locked)) db.notes)) [
        | inl e ↦
            let row : TrashRow = record {
              note_id = id;
              user_id = user_id;
              deleted_at = current_timestamp now;
            } in
            let there = count-append_hit (is_entry id user_id) db.trash row (ground arith) in
            let gone = delete-append_new id user_id db.trash row fresh (ground arith) in
            rw (e, fresh, there, gone) refl
        | inr e ↦ absurd (not-accepted id user_id db e (rw e at h))
      ]

-- In a database that meets the invariant, a locked note refuses its owner to trash it and to
-- archive it: the answer is `locked`, and nothing is written.
pub locked_note-refused :
    (id now : ℕ) (n : Note) (db : Db)
    → IsValid db
    → first (λ x. x.id == id) db.notes ≡ some n
    → n.locked ≡ true
    → (soft_delete id n.user_id now db ≡ (err locked, db))
      × (archive id n.user_id db ≡ (err locked, db))
unfolding soft_delete archive is_locked is_trashed
locked_note-refused id now n db v found held =
    let key : Note → ℕ = λ x. x.id in
    let own = first-key key id (λ x. x.user_id == n.user_id) db.notes v.keyed in
    let hit = count-key key id (λ x. x.user_id == n.user_id && not x.locked) db.notes v.keyed in
    let own' : first (λ x. x.id == id && x.user_id == n.user_id) db.notes ≡ some n =
      ground (arith, own) in
    let hit' : count (λ x. x.id == id && (x.user_id == n.user_id && not x.locked)) db.notes ≡ 0 =
      ground (arith, hit) in
    let none_hit =
      count-zero-exists (λ x. x.id == id && (x.user_id == n.user_id && not x.locked)) db.notes
        hit' in
    (rw (none_hit, refusal, own', held) refl, rw (hit', refusal, own', held) refl)

abbrev pub why_refused : Db → ℕ → Note → Error
why_refused db user_id n = if Repo.is_visible db user_id n && n.locked then locked else not_found

-- In a database that meets the invariant, an edit of a note that the caller may not edit (another
-- user's, archived, locked, or in the trash) writes nothing; the answer is `locked` if the note
-- is locked and visible to the caller, and `not_found` if not.
pub update-refused :
    (id user_id now : ℕ) (title body : Option Bytes) (n : Note) (db : Db)
    → IsValid db
    → first (λ x. x.id == id) db.notes ≡ some n
    → Repo.is_editable db user_id n ≡ false
    → Repo.update id user_id title body now db ≡ (err (why_refused db user_id n), db)
unfolding Repo.update get is_trashed
update-refused id user_id now title body n db v found barred =
    let key : Note → ℕ = λ x. x.id in
    let edit = count-key key id (Repo.is_editable db user_id) db.notes v.keyed in
    let seen = first-key key id (Repo.is_visible db user_id) db.notes v.keyed in
    let edit' : count (λ x. x.id == id && Repo.is_editable db user_id x) db.notes ≡ 0 =
      ground (arith, edit) in
    elim (Bool-cases (Repo.is_visible db user_id n)) [
      | inl visible ↦
          let held : n.locked ≡ true = ground arith in
          let seen' : first (λ x. x.id == id && Repo.is_visible db user_id x) db.notes ≡ some n =
            ground (arith, seen) in
          rw (edit', Repo.why_not_edited, seen', why_refused, visible, held) refl
      | inr hidden ↦
          let unseen : first (λ x. x.id == id && Repo.is_visible db user_id x) db.notes ≡ none =
            ground (arith, seen) in
          rw (edit', Repo.why_not_edited, unseen, why_refused, hidden) refl
    ]
