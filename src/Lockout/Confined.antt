-- ===== src/Lockout/Confined.antt =====
-- A lockout is confined to its pair, ends with a success or an admin's unlock, and is not prolonged.
use crapnote.Base.{
  ℕ, ◌<◌, ◌≡◌, refl, inl, inr, true, false, ◌&&◌, none, some, List, [], ◌∷◌, arith, ◌==◌,
  if◌then◌else◌, length, Option-cases, Bool-cases,
}
use crapnote.Base.Ints.{ℤ}
use crapnote.Base.Table.{count, delete, first, first-holds}
use crapnote.Base.Table.Rows.{first-update, first-delete, first-delete_hit}
use crapnote.Base.Table.Appended.{first-append_out}
use crapnote.Lockout.{
  Key, Pair, Tracker, same_key, has_key, entry_at, gc, is_locked, ensure, fail, on_entry,
  record_failure, max_lockout_entries, is_locked_pair, clear, clear_username, locked_count,
}
use crapnote.Lockout.Entries.{entry_at-gc, record_failure_lem, or_new}

-- Where the swept table has room or already holds the pair, a failure of one pair leaves the entry of
-- every other pair as the sweep left it.
pub entry_at-record_failure_ne :
    (k l : Key) (max_attempts : ℕ) (cooldown : ℤ) (now : ℕ) (t : Tracker)
    → same_key k l ≡ false
    → length (gc now t).entries < max_lockout_entries
    → entry_at l (record_failure k max_attempts cooldown now t) ≡ entry_at l (gc now t)
unfolding record_failure entry_at ensure
entry_at-record_failure_ne k l m c now t other room =
    let s = gc now t in
    let added : Pair = or_new k none in
    let changed =
      first-update (has_key l) (has_key k) (on_entry (fail m c now)) (ensure k now s).entries
        (λ x. refl) in
    let appended = first-append_out (has_key l) s.entries added other in
    elim (Option-cases (first (has_key l) s.entries)) [
      | inl e ↦ ground (arith, changed, appended, e)
      | inr (x, e) ↦ ground (arith, changed, appended, e, first-holds (has_key l) s.entries x e)
    ]

-- A failure during a cool-down, or under a lock for ever, does not prolong it: at every later time the
-- pair is locked if and only if it was without that failure.
pub record_failure-not_prolonged :
    (k : Key) (max_attempts : ℕ) (cooldown : ℤ) (now later : ℕ) (t : Tracker) (p : Pair)
    → entry_at k t ≡ some p
    → is_locked p.entry now ≡ true
    → is_locked_pair later (entry_at k (record_failure k max_attempts cooldown now t))
      ≡ is_locked p.entry later
unfolding fail
record_failure-not_prolonged k m c now later t p e serving =
    rw (record_failure_lem k m c now t, entry_at-gc k now t p e (ground arith)) (ground arith)

count-delete_username :
    (want other now : ℕ) (ps : List Pair)
    → count
        (λ p. p.key.username == other && is_locked p.entry now)
        (delete (λ p. p.key.username == want) ps)
      ≡ (if other == want
          then 0
          else count (λ p. p.key.username == other && is_locked p.entry now) ps)
unfolding count delete
count-delete_username want other now [] = ground arith
count-delete_username want other now (p ∷ ps) =
    ground (arith, count-delete_username want other now ps)

-- After the lockouts of a username are cleared, no address is locked out of it, and the other
-- usernames keep their counts.
pub locked_count-clear_username :
    (want other now : ℕ) (t : Tracker)
    → locked_count other now (clear_username want t)
      ≡ (if other == want then 0 else locked_count other now t)
unfolding locked_count clear_username
locked_count-clear_username want other now t = count-delete_username want other now t.entries

-- A cleared pair has no entry, and every other pair has the entry that it had.
pub entry_at-clear :
    (k l : Key) (t : Tracker)
    → entry_at l (clear k t) ≡ (if same_key k l then none else entry_at l t)
unfolding entry_at clear
entry_at-clear k l t = elim (Bool-cases (same_key k l)) [
  | inl same ↦ rw same (first-delete_hit (has_key l) (has_key k) t.entries (λ x h. ground arith))
  | inr differ ↦ rw differ (first-delete (has_key l) (has_key k) t.entries (λ x h. ground arith))
]
