-- ===== src/Lockout/Entries.antt =====
-- What the methods do to the entry of one pair, and that a key names one entry at most.
use crapnote.Base.{
  ℕ, ◌≡◌, refl, ◌⊎◌, inl, inr, Bool, true, false, Option, none, some, List, [], ◌∷◌, ◌++◌, arith,
  Option-cases, Bool-cases,
}
use crapnote.Base.Ints.{ℤ}
use crapnote.Base.Table.{first, first-holds, delete, exists, exists-first, update}
use crapnote.Base.Table.Rows.{
  first-update, first-delete_kept, first-delete-none, exists-false_mono, exists-update,
  exists-false-delete,
}
use crapnote.Base.Table.Appended.{first-append_absent, exists-append}
use crapnote.Lockout.{
  Key, Pair, Entry, Tracker, has_key, same_key, entry_at, gc, is_idle, evict, ensure, new_entry,
  fail, on_entry, record_failure, locked, is_locked_pair,
}

-- No two entries of a list have one key.
abbrev pub IsDistinct : List Pair → Type 0
IsDistinct [] = Unit
IsDistinct (p ∷ ps) = (exists (has_key p.key) ps ≡ false) × IsDistinct ps

pub delete-IsDistinct :
    (q : Pair → Bool) (ps : List Pair) → IsDistinct ps → IsDistinct (delete q ps)
unfolding delete
delete-IsDistinct q [] d = tt
delete-IsDistinct q (p ∷ ps) (new, d) = elim (Bool-cases (q p)) [
  | inl e ↦ rw e (delete-IsDistinct q ps d)
  | inr e ↦ rw e (exists-false-delete (has_key p.key) q ps new, delete-IsDistinct q ps d)
]

pub update-IsDistinct :
    (q : Pair → Bool) (f : Entry → Entry) (ps : List Pair)
    → IsDistinct ps
    → IsDistinct (update q (on_entry f) ps)
unfolding update
update-IsDistinct q f [] d = tt
update-IsDistinct q f (p ∷ ps) (new, d) = elim (Bool-cases (q p)) [
  | inl e ↦ rw e (
    rw (exists-update (has_key p.key) q (on_entry f) ps (λ x. refl)) new,
    update-IsDistinct q f ps d,
  )
  | inr e ↦ rw e (
    rw (exists-update (has_key p.key) q (on_entry f) ps (λ x. refl)) new,
    update-IsDistinct q f ps d,
  )
]

pub append-IsDistinct :
    (ps : List Pair) (p : Pair)
    → exists (has_key p.key) ps ≡ false
    → IsDistinct ps
    → IsDistinct (ps ++ p ∷ [])
unfolding exists
append-IsDistinct [] p absent d = (refl, tt)
append-IsDistinct (x ∷ ps) p absent (new, d) = (
  rw (exists-append (has_key x.key) ps (p ∷ []), new) (ground arith),
  append-IsDistinct ps p (ground arith) d,
)

-- With distinct keys, deleting the entry of a key leaves none.
pub first-delete_distinct :
    (k : Key) (q : Pair → Bool) (ps : List Pair) (p : Pair)
    → IsDistinct ps
    → first (has_key k) ps ≡ some p
    → q p ≡ true
    → first (has_key k) (delete q ps) ≡ none
unfolding first delete
first-delete_distinct k q [] p d e hit = refl
first-delete_distinct k q (x ∷ ps) p (new, d) e hit =
    ground (arith, first-delete_distinct k q ps p d, gone)
  where
    gone : same_key x.key k ≡ true → first (has_key k) (delete q ps) ≡ none
    gone s = first-delete-none (has_key k) q ps (
        let absent : exists (has_key k) ps ≡ false =
          exists-false_mono (has_key k) (has_key x.key) ps (λ y h. ground arith) new in
        ground (arith, exists-first (has_key k) ps))

-- A sweep keeps an entry that is locked, or was seen within the hour.
pub entry_at-gc :
    (k : Key) (now : ℕ) (t : Tracker) (p : Pair)
    → entry_at k t ≡ some p
    → is_idle now p ≡ false
    → entry_at k (gc now t) ≡ some p
unfolding entry_at gc
entry_at-gc k now t p e busy =
    ground (arith, first-delete_kept (has_key k) (is_idle now) t.entries p e busy)

pub entry_at-gc-none :
    (k : Key) (now : ℕ) (t : Tracker) → entry_at k t ≡ none → entry_at k (gc now t) ≡ none
unfolding entry_at gc
entry_at-gc-none k now t e = ground (arith, first-delete-none (has_key k) (is_idle now) t.entries e)

entry_at-gc_idle :
    (k : Key) (now : ℕ) (t : Tracker) (p : Pair)
    → IsDistinct t.entries
    → entry_at k t ≡ some p
    → is_idle now p ≡ true
    → (entry_at k (gc now t) ≡ none) ⊎ (entry_at k (gc now t) ≡ some p)
unfolding entry_at gc
entry_at-gc_idle k now t p d e idle =
    ground (arith, first-delete_distinct k (is_idle now) t.entries p d e idle)

-- The answer of `locked` is that of the entry, swept or not.
pub locked_lem :
    (k : Key) (now : ℕ) (t : Tracker)
    → IsDistinct t.entries
    → (locked k now t).0 ≡ is_locked_pair now (entry_at k t)
unfolding locked
locked_lem k now t d = elim (Option-cases (entry_at k t)) [
  | inl e ↦ rw (e, entry_at-gc-none k now t e)
  | inr (p, e) ↦ elim (Bool-cases (is_idle now p)) [
    | inl idle ↦ ground (arith, entry_at-gc_idle k now t p d e idle)
    | inr busy ↦ rw (e, entry_at-gc k now t p e busy)
  ]
]

-- The entry that a failure is counted on.
abbrev pub or_new : Key → Option Pair → Pair
or_new k none = record { key = k; entry = new_entry }
or_new k (some p) = p

entry_at-ensure :
    (k : Key) (now : ℕ) (t : Tracker) → entry_at k (ensure k now t) ≡ some (or_new k (entry_at k t))
unfolding ensure entry_at evict
entry_at-ensure k now t = elim (Option-cases (entry_at k t)) [
  | inl e ↦ ground (
    arith,
    e,
    first-append_absent (has_key k) t.entries (or_new k none) e,
    first-append_absent (has_key k) (evict now t).entries (or_new k none)
        (first-delete-none (has_key k) _ t.entries e),
  )
  | inr (p, e) ↦ ground (arith, e)
]

-- A failure is counted on the entry that the sweep left, or on a new one, and nothing evicts it.
pub record_failure_lem :
    (k : Key) (max_attempts : ℕ) (cooldown : ℤ) (now : ℕ) (t : Tracker)
    → entry_at k (record_failure k max_attempts cooldown now t)
      ≡ some (on_entry (fail max_attempts cooldown now) (or_new k (entry_at k (gc now t))))
unfolding record_failure entry_at
record_failure_lem k m c now t =
    let t' = ensure k now (gc now t) in
    let p = or_new k (entry_at k (gc now t)) in
    let made = entry_at-ensure k now (gc now t) in
    ground (
      arith,
      made,
      first-update (has_key k) (has_key k) (on_entry (fail m c now)) t'.entries (λ x. refl),
      first-holds (has_key k) t'.entries p,
    )

pub gc-IsDistinct : (now : ℕ) (t : Tracker) → IsDistinct t.entries → IsDistinct (gc now t).entries
unfolding gc
gc-IsDistinct now t d = ground (arith, delete-IsDistinct (is_idle now) t.entries d)

ensure-IsDistinct :
    (k : Key) (now : ℕ) (t : Tracker) → IsDistinct t.entries → IsDistinct (ensure k now t).entries
unfolding ensure evict entry_at
ensure-IsDistinct k now t d = elim (Option-cases (entry_at k t)) [
  | inl e ↦
      let absent : exists (has_key k) t.entries ≡ false =
        ground (arith, e, exists-first (has_key k) t.entries) in
      ground (
        arith,
        e,
        append-IsDistinct t.entries (or_new k none) absent d,
        append-IsDistinct (evict now t).entries (or_new k none)
            (exists-false-delete (has_key k) _ t.entries absent) (delete-IsDistinct _ t.entries d),
      )
  | inr (p, e) ↦ ground (arith, e)
]

pub record_failure-IsDistinct :
    (k : Key) (max_attempts : ℕ) (cooldown : ℤ) (now : ℕ) (t : Tracker)
    → IsDistinct t.entries
    → IsDistinct (record_failure k max_attempts cooldown now t).entries
unfolding record_failure
record_failure-IsDistinct k m c now t d =
    update-IsDistinct (has_key k) (fail m c now) (ensure k now (gc now t)).entries
      (ensure-IsDistinct k now (gc now t) (gc-IsDistinct now t d))
