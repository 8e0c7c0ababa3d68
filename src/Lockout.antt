-- ===== src/Lockout.antt =====
-- backend/internal/auth/lockout.go: the failed-login tracker of (client IP, username) pairs.
-- A method takes the reading of the clock as `now`; the mutex makes each method one step. The map is
-- a list of pairs with distinct keys, and the zero time is 0.
pub mod Entries
pub mod Missed
pub mod Counting
pub mod Capacity
pub mod Eviction
pub mod Confined
use crapnote.Base.{
  ℕ, suc, ◌+◌, ◌*◌, ◌/◌, Bool, true, false, not, ◌&&◌, ◌||◌, Option, none, some, List, [], ◌∷◌,
  ◌++◌, ◌==◌, ltb, leb, if◌then◌else◌, length, take, String, is_some,
}
use crapnote.Base.Ints.{ℤ, pos, negsuc}
use crapnote.Base.Table
use crapnote.Base.Table.{delete, count, exists, first}
use crapnote.Base.Sort.{sort_by}
use crapnote.Db.{second}

abbrev pub max_lockout_entries : ℕ
max_lockout_entries = 10000

abbrev pub lockout_idle_ttl : ℕ
lockout_idle_ttl = 3600 * second

abbrev pub lockout_gc_interval : ℕ
lockout_gc_interval = 60 * second

abbrev pub lockout_evict_fraction : ℕ
lockout_evict_fraction = 4

-- The SHA-256 digests of the two halves, as numbers.
pub record Key : Type 0 where
  pub ip : ℕ
  pub username : ℕ

abbrev pub same_key : Key → Key → Bool
same_key k l = k.ip == l.ip && k.username == l.username

-- `sha256` and `to_lower` are crypto/sha256.Sum256 and strings.ToLower.
module _ (sha256 : String → ℕ) (to_lower : String → String) where
  unfoldable pub lockout_username : String → ℕ
  lockout_username username = sha256 (to_lower username)

  unfoldable pub new_lockout_key : String → String → Key
  unfolding lockout_username
  new_lockout_key ip username = record { ip = sha256 ip; username = lockout_username username }

pub record Entry : Type 0 where
  pub failures : ℕ
  pub locked_until : ℕ
  pub indefinite : Bool
  pub last_seen : ℕ

unfoldable pub is_locked : Entry → ℕ → Bool
is_locked e now = e.indefinite || ltb now e.locked_until

pub record Pair : Type 0 where
  pub key : Key
  pub entry : Entry

pub record Tracker : Type 0 where
  pub entries : List Pair
  pub last_gc : ℕ

abbrev pub new_lockout_tracker : Tracker
new_lockout_tracker = record { entries = []; last_gc = 0 }

abbrev pub has_key : Key → Pair → Bool
has_key k p = same_key p.key k

-- t.entries[k]
unfoldable pub entry_at : Key → Tracker → Option Pair
entry_at k t = first (has_key k) t.entries

-- The entries that a sweep drops.
abbrev pub is_idle : ℕ → Pair → Bool
is_idle now p = not (is_locked p.entry now) && ltb (p.entry.last_seen + lockout_idle_ttl) now

-- gcLocked
unfoldable pub gc : ℕ → Tracker → Tracker
unfolding is_locked
gc now t =
    if ltb now (t.last_gc + lockout_gc_interval)
    then t
    else record { entries = delete (is_idle now) t.entries; last_gc = now }

-- The order that evictLocked sorts by: unlocked entries first, then the least recently seen.
unfoldable pub evicts_before : ℕ → Pair → Pair → Bool
unfolding is_locked
evicts_before now a b =
    let al : Bool = is_locked a.entry now in
    let bl : Bool = is_locked b.entry now in
    if (al && not bl) || (not al && bl) then not al else ltb a.entry.last_seen b.entry.last_seen

abbrev pub at_least_one : ℕ → ℕ
at_least_one n = if n == 0 then 1 else n

-- keys[:drop]
unfoldable pub victims : ℕ → List Pair → List Pair
unfolding evicts_before
victims now entries =
    take (at_least_one (length entries / lockout_evict_fraction))
      (sort_by (λ a b. not (evicts_before now b a)) entries)

-- evictLocked
unfoldable pub evict : ℕ → Tracker → Tracker
unfolding victims
evict now t = record t {
  entries = delete (λ p. exists (λ v. same_key v.key p.key) (victims now t.entries)) t.entries;
}

abbrev pub new_entry : Entry
new_entry = record { failures = 0; locked_until = 0; indefinite = false; last_seen = 0 }

-- What recordFailure does where the attempts have run out: a cool-down of 0 or less is for ever.
abbrev pub lock_for : ℤ → ℕ → Entry → Entry
lock_for (pos ℕ.zero) now e = record e { indefinite = true }
lock_for (pos (suc d)) now e = record e { locked_until = now + suc d }
lock_for (negsuc d) now e = record e { indefinite = true }

-- A lapsed cool-down starts from a clean slate.
abbrev pub without_lapsed : Entry → Entry
without_lapsed e = if e.locked_until == 0 then e else record e { failures = 0; locked_until = 0 }

abbrev pub counted : ℕ → ℤ → ℕ → Entry → Entry
counted max_attempts cooldown now e =
    let e' : Entry = record e { failures = suc e.failures } in
    if ltb e'.failures max_attempts then e' else lock_for cooldown now e'

-- recordFailure from the assignment of `lastSeen` on.
unfoldable pub fail : ℕ → ℤ → ℕ → Entry → Entry
unfolding is_locked
fail max_attempts cooldown now e =
    let seen : Entry = record e { last_seen = now } in
    if is_locked seen now then seen else counted max_attempts cooldown now (without_lapsed seen)

-- The entry for `k`, made if it is missing, in a table with room for it.
unfoldable pub ensure : Key → ℕ → Tracker → Tracker
ensure k now t =
    let room : Tracker = if leb max_lockout_entries (length t.entries) then evict now t else t in
    if is_some (entry_at k t)
    then t
    else record room { entries = room.entries ++ record { key = k; entry = new_entry } ∷ [] }

abbrev pub on_entry : (Entry → Entry) → Pair → Pair
on_entry f p = record p { entry = f p.entry }

unfoldable pub record_failure : Key → ℕ → ℤ → ℕ → Tracker → Tracker
record_failure k max_attempts cooldown now t =
    let t' = ensure k now (gc now t) in
    record t' {
      entries = Table.update (has_key k) (on_entry (fail max_attempts cooldown now)) t'.entries;
    }

abbrev pub is_locked_pair : ℕ → Option Pair → Bool
is_locked_pair now none = false
is_locked_pair now (some p) = is_locked p.entry now

-- The answer of `locked`, and the tracker that it leaves.
unfoldable pub locked : Key → ℕ → Tracker → Bool × Tracker
unfolding gc entry_at is_locked
locked k now t = let t' = gc now t in (is_locked_pair now (entry_at k t'), t')

unfoldable pub clear : Key → Tracker → Tracker
clear k t = record t { entries = delete (has_key k) t.entries }

-- clearUsername and lockedCount, for the digest of a username.
unfoldable pub clear_username : ℕ → Tracker → Tracker
clear_username want t = record t { entries = delete (λ p. p.key.username == want) t.entries }

unfoldable pub locked_count : ℕ → ℕ → Tracker → ℕ
unfolding is_locked
locked_count want now t = count (λ p. p.key.username == want && is_locked p.entry now) t.entries

unfoldable pub size : Tracker → ℕ
size t = length t.entries
