-- ===== src/Tests/Lockout.antt =====
-- The tracker at work.
use crapnote.Base.{true, false, none, some, List, [], ◌∷◌, ◌≡◌, refl, ◌<◌, arith, length}
use crapnote.Base.Ints.{pos}
use crapnote.Base.Table.{first, exists, delete}
use crapnote.Lockout.{
  Key, Pair, Tracker, entry_at, gc, is_locked, locked, new_lockout_tracker, same_key,
  max_lockout_entries, evict,
}
use crapnote.Base.Sort.{sort_by}
use crapnote.Lockout.Counting
use crapnote.Lockout.Missed.{serving}
use crapnote.Lockout.Counting.{latest, locked-fails, not-locked-fails}
use crapnote.Lockout.Capacity.{Method, fails, asks, clears, apply_all, IsBounded, history-IsBounded}

abbrev mine : Key
mine = record { ip = 1; username = 1 }

abbrev theirs : Key
theirs = record { ip = 2; username = 1 }

abbrev start : Tracker
start = new_lockout_tracker

absent : entry_at mine start ≡ none
unfolding entry_at first
absent = refl

locked-fails_example :
    (locked mine 60 (Counting.fails mine 3 (pos 100) (10 ∷ 20 ∷ 30 ∷ []) start)).0
    ≡ serving (pos 100) 30 60
locked-fails_example =
    locked-fails mine 3 (pos 100) 10 (20 ∷ 30 ∷ []) start 60 tt absent
      (omega arith, omega arith, (omega arith, omega arith, tt)) refl

abbrev history : List Method
history =
    fails mine 3 (pos 100) 10 ∷ asks theirs 20 ∷ fails theirs 3 (pos 100) 30 ∷ clears mine ∷ []

history-IsBounded_example : IsBounded (apply_all history new_lockout_tracker)
history-IsBounded_example = history-IsBounded history

abbrev held : Pair
held = record {
  key = mine;
  entry = record { failures = 3; locked_until = 500; indefinite = false; last_seen = 10 };
}

abbrev loose : Pair
loose = record {
  key = theirs;
  entry = record { failures = 1; locked_until = 0; indefinite = false; last_seen = 20 };
}

abbrev both : Tracker
both = record { entries = held ∷ loose ∷ []; last_gc = 0 }

-- The pair that is not locked goes.
evicted : (evict 40 both).entries ≡ held ∷ []
unfolding evict delete exists sort_by
evicted = refl

differ : same_key mine theirs ≡ false
differ = refl

room : length (gc 40 both).entries < max_lockout_entries
unfolding gc
room = omega arith

held_at : entry_at mine both ≡ some held
unfolding entry_at first
held_at = refl

serving_time : is_locked held.entry 40 ≡ true
unfolding is_locked
serving_time = refl
