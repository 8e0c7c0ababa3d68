-- ===== src/Lockout/Counting.antt =====
-- Consecutive failures lock a pair, for the cool-down of the policy and no longer.
use crapnote.Base.{ℕ, suc, ◌+◌, ◌≤◌, ◌<◌, ◌≡◌, ◌∙◌, false, none, List, [], ◌∷◌, arith, length}
use crapnote.Base.Ints.{ℤ}
use crapnote.Lockout.{
  Key, Tracker, entry_at, is_locked, record_failure, lockout_idle_ttl, locked, is_locked_pair,
}
use crapnote.Lockout.Entries.{IsDistinct, locked_lem, record_failure-IsDistinct}
use crapnote.Lockout.Missed.{serving, HasMissed, miss-more, miss-last, miss-first, lock-first}

-- Wrong passwords for one pair at the given times.
pub fails : Key → ℕ → ℤ → List ℕ → Tracker → Tracker
fails k max_attempts cooldown [] t = t
fails k max_attempts cooldown (now ∷ times) t =
    fails k max_attempts cooldown times (record_failure k max_attempts cooldown now t)

-- Times in order, none more than an hour after the one before.
abbrev pub IsClose : ℕ → List ℕ → Type 0
IsClose s [] = Unit
IsClose s (now ∷ times) = (s ≤ now) × (now ≤ s + lockout_idle_ttl) × IsClose now times

abbrev pub latest : ℕ → List ℕ → ℕ
latest s [] = s
latest s (now ∷ times) = latest now times

module _ (k : Key) (max_attempts : ℕ) (cooldown : ℤ) where
  misses :
      (n s : ℕ) (times : List ℕ) (t : Tracker)
      → IsClose s times
      → n + length times < max_attempts
      → HasMissed k n s t
      → HasMissed k (n + length times) (latest s times) (fails k max_attempts cooldown times t)
  unfolding fails
  misses n s [] t close few m = let e : n + 0 ≡ n = omega arith in rw e m
  misses n s (now ∷ times) t (after, near, close) few m =
      let e : n + length (now ∷ times) ≡ suc n + length times = omega arith in
      rw e (
        misses (suc n) now times (record_failure k max_attempts cooldown now t) close (omega arith)
          (miss-more k max_attempts cooldown n s now t near (omega arith) m))

  locks :
      (n s now : ℕ) (times : List ℕ) (t : Tracker) (later : ℕ)
      → IsClose s (now ∷ times)
      → n + length (now ∷ times) ≡ max_attempts
      → HasMissed k n s t
      → is_locked_pair later (entry_at k (fails k max_attempts cooldown (now ∷ times) t))
        ≡ serving cooldown (latest now times) later
  unfolding fails
  locks n s now [] t later (after, near, close) enough m =
      miss-last k max_attempts cooldown n s now later t near (omega arith) m
  locks n s now (next ∷ times) t later (after, near, close) enough m =
      locks (suc n) now next times (record_failure k max_attempts cooldown now t) later close
        (omega arith) (miss-more k max_attempts cooldown n s now t near (omega arith) m)

  fails-IsDistinct :
      (times : List ℕ) (t : Tracker)
      → IsDistinct t.entries
      → IsDistinct (fails k max_attempts cooldown times t).entries
  unfolding fails
  fails-IsDistinct [] t d = d
  fails-IsDistinct (now ∷ times) t d =
      fails-IsDistinct times _ (record_failure-IsDistinct k max_attempts cooldown now t d)

  -- In a table of distinct pairs, a pair with no entry that misses `max_attempts` times, the
  -- times in order and no two consecutive ones more than an hour apart, is locked at a later
  -- reading of the clock exactly while the cool-down lasts: until `cooldown` after the last miss,
  -- or for ever where the cool-down is 0 or less.
  pub locked-fails :
      (first : ℕ) (rest : List ℕ) (t : Tracker) (later : ℕ)
      → IsDistinct t.entries
      → entry_at k t ≡ none
      → IsClose first rest
      → length (first ∷ rest) ≡ max_attempts
      → (locked k later (fails k max_attempts cooldown (first ∷ rest) t)).0
        ≡ serving cooldown (latest first rest) later
  unfolding fails
  locked-fails first rest t later d e close enough =
      locked_lem k later _ (fails-IsDistinct (first ∷ rest) t d) ∙ entry rest close enough
    where
      entry :
          (rest : List ℕ)
          → IsClose first rest
          → length (first ∷ rest) ≡ max_attempts
          → is_locked_pair later (entry_at k (fails k max_attempts cooldown (first ∷ rest) t))
            ≡ serving cooldown (latest first rest) later
      entry [] close enough = lock-first k max_attempts cooldown first later t e (omega arith)
      entry (next ∷ rest) close enough =
          locks 1 first next rest _ later close (omega arith)
            (miss-first k max_attempts cooldown first t e (omega arith))

  -- In a table of distinct pairs, a pair with no entry that misses fewer than `max_attempts`
  -- times, as close together, is not locked at any time.
  pub not-locked-fails :
      (first : ℕ) (rest : List ℕ) (t : Tracker) (later : ℕ)
      → IsDistinct t.entries
      → entry_at k t ≡ none
      → IsClose first rest
      → length (first ∷ rest) < max_attempts
      → (locked k later (fails k max_attempts cooldown (first ∷ rest) t)).0 ≡ false
  unfolding fails is_locked
  not-locked-fails first rest t later d e close few =
      let (p, found, f, l, i, seen) =
        misses 1 first rest _ close (omega arith)
          (miss-first k max_attempts cooldown first t e (omega arith)) in
      locked_lem k later _ (fails-IsDistinct (first ∷ rest) t d) ∙ rw found (ground arith)
