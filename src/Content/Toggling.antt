-- ===== src/Content/Toggling.antt =====
-- ToggleLock on every note of its caller.
use crapnote.Base.{ℕ, ◌≡◌, refl, Bool, false, not, ◌&&◌, some, arith, ◌==◌, if◌then◌else◌}
use crapnote.Base.Outcome.{Result, ok, err, not_found, or_not_found}
use crapnote.Base.Table
use crapnote.Base.Table.{first, count, first-holds, exists}
use crapnote.Base.Table.Rows.{first-update}
use crapnote.Base.Table.Keyed.{count-key, first-key, update-IsKeyed}
use crapnote.Db.{Db, Note}
use crapnote.Notes.Repo.{get, is_locked, is_visible, is_trashed, set_locked, with_locked}
use crapnote.Notes.Service.{toggle_lock}
use crapnote.Content.Invariant.{IsValid}
use crapnote.Content.Kept.{note_at}

abbrev pub visible_only : Bool → Note → Result Note
visible_only b n = if b then ok n else err not_found

is_locked-found :
    (id user : ℕ) (db : Db) (n : Note)
    → first (λ x. x.id == id && x.user_id == user) db.notes ≡ some n
    → is_locked id user db ≡ ok n.locked
unfolding is_locked
is_locked-found id user db n e = rw (is_locked, e) refl

set_locked-found :
    (id user : ℕ) (b : Bool) (db : Db)
    → (count (λ x. x.id == id && x.user_id == user) db.notes == 0) ≡ false
    → set_locked id user b db ≡ (
      ok tt,
      record db {
        notes = Table.update (λ x. x.id == id && x.user_id == user) (with_locked b) db.notes;
      },
    )
unfolding set_locked
set_locked-found id user b db e = rw e refl

toggle_lock-steps :
    (id user : ℕ) (b : Bool) (db db' : Db)
    → is_locked id user db ≡ ok b
    → set_locked id user (not b) db ≡ (ok tt, db')
    → toggle_lock id user db ≡ (get id user db', db')
unfolding toggle_lock
toggle_lock-steps id user b db db' e f = rw (e, f) refl

-- In a database that meets the invariant, ToggleLock writes the other lock state to every note of
-- its caller, also to one that is archived or in the trash; it answers with the changed note if
-- that is visible, and else with `not_found`.
pub toggle_lock-every :
    (id : ℕ) (n : Note) (db : Db)
    → IsValid db
    → note_at id db ≡ some n
    → let m = with_locked (not n.locked) n in
      ((toggle_lock id n.user_id db).0 ≡ visible_only (is_visible db n.user_id n) m)
      × (note_at id (toggle_lock id n.user_id db).1 ≡ some m)
unfolding get is_trashed
toggle_lock-every id n db v found =
    let key : Note → ℕ = λ x. x.id in
    let m = with_locked (not n.locked) n in
    let hit : Note → Bool = λ x. x.id == id && x.user_id == n.user_id in
    let own = first-key key id (λ x. x.user_id == n.user_id) db.notes v.keyed in
    let own' : first hit db.notes ≡ some n = ground (arith, own) in
    let one = count-key key id (λ x. x.user_id == n.user_id) db.notes v.keyed in
    let one' : (count hit db.notes == 0) ≡ false = ground (arith, one) in
    let mine = first-holds (λ x. x.id == id) db.notes n found in
    let changed = Table.update hit (with_locked (not n.locked)) db.notes in
    let after : first (λ x. x.id == id) changed ≡ some m =
      (let step =
          first-update (λ x. x.id == id) hit (with_locked (not n.locked)) db.notes (λ x. refl) in
        ground (arith, step)) in
    let keyed = update-IsKeyed key hit (with_locked (not n.locked)) db.notes (λ x. refl) v.keyed in
    let seen = first-key key id (is_visible db n.user_id) changed keyed in
    let seen' : or_not_found (first (λ x. x.id == id && is_visible db n.user_id x) changed)
        ≡ visible_only (is_visible db n.user_id n) m =
      ground (arith, seen, after) in
    let db' : Db = record db { notes = changed } in
    let ran : toggle_lock id n.user_id db ≡ (get id n.user_id db', db') =
      toggle_lock-steps id n.user_id n.locked db db' (is_locked-found id n.user_id db n own')
        (set_locked-found id n.user_id (not n.locked) db one') in
    rw ran (seen', after)
