-- ===== src/Content/Invariant.antt =====
-- The invariant of the notes and the trash, kept by every call and both jobs.
use crapnote.Base.{◌≤◌, ◌≡◌, Bool, true, false, arith, ◌==◌, ◌&&◌, All}
use crapnote.Base.Ints.{pos}
use crapnote.Base.Table
use crapnote.Base.Table.{select, delete, exists, count, first}
use crapnote.Base.Table.Rows.{exists-update, exists-delete_spared}
use crapnote.Base.Table.Every.{All-update, All-delete, All-map}
use crapnote.Base.Table.Keyed.{IsKeyed, KeysUpTo, update-IsKeyed, delete-IsKeyed}
use crapnote.Db.{Db, Note, TrashRow}
use crapnote.Db.Cascade.{delete_notes}

-- The note of a trash row, of the row's own user.
abbrev pub is_note_of : TrashRow → Note → Bool
is_note_of t n = n.id == t.note_id && n.user_id == t.user_id

abbrev pub IsUnpinnedZero : Note → Type 0
IsUnpinnedZero n = n.pinned ≡ false → n.pin_order ≡ pos 0

pub record IsValid (db : Db) : Type 0 where
  -- PRIMARY KEY and AUTOINCREMENT of `notes`.
  pub keyed : IsKeyed (λ (n : Note). n.id) db.notes
  pub bounded : KeysUpTo (λ (n : Note). n.id) db.note_seq db.notes
  -- A note that is not pinned has the order 0.
  pub unpinned : All IsUnpinnedZero db.notes
  -- A trash row belongs to a note of its own user, and no note has two.
  pub owned : All (λ t. exists (is_note_of t) db.notes ≡ true) db.trash
  pub once : IsKeyed (λ (t : TrashRow). t.note_id) db.trash

-- Any UPDATE of notes that keeps id and owner, and the rule for pins.
pub update-IsValid :
    (q : Note → Bool) (f : Note → Note) (db : Db)
    → ((n : Note) → (f n).id ≡ n.id)
    → ((n : Note) → (f n).user_id ≡ n.user_id)
    → ((n : Note) → q n ≡ true → IsUnpinnedZero n → IsUnpinnedZero (f n))
    → IsValid db
    → IsValid (record db { notes = Table.update q f db.notes })
update-IsValid q f db id user pin v = record {
  keyed = update-IsKeyed (λ (n : Note). n.id) q f db.notes id v.keyed;
  bounded = All-update (λ n. n.id ≤ db.note_seq) q f db.notes (λ n _ h. rw (id n) h) v.bounded;
  unpinned = All-update IsUnpinnedZero q f db.notes pin v.unpinned;
  owned =
      All-map (λ t. exists (is_note_of t) db.notes ≡ true) _ db.trash
        (λ t h. rw (exists-update (is_note_of t) q f db.notes (λ n. rw (id n, user n))) h) v.owned;
  once = v.once;
}

-- Any DELETE of notes, with its cascade.
pub delete_notes-IsValid : (p : Note → Bool) (db : Db) → IsValid db → IsValid (delete_notes p db)
unfolding delete_notes
delete_notes-IsValid p db v = record {
  keyed = delete-IsKeyed (λ (n : Note). n.id) p db.notes v.keyed;
  bounded = All-delete (λ n. n.id ≤ db.note_seq) _ p db.notes (λ n _ h. h) v.bounded;
  unpinned = All-delete IsUnpinnedZero _ p db.notes (λ n _ h. h) v.unpinned;
  owned =
      All-delete (λ t. exists (is_note_of t) db.notes ≡ true) _ _ db.trash
        (λ t spared h.
          exists-delete_spared (is_note_of t) p (λ n. n.id == t.note_id) db.notes
            (λ n e. ground arith) spared h)
        v.owned;
  once = delete-IsKeyed (λ (t : TrashRow). t.note_id) _ db.trash v.once;
}
