-- ===== src/Lockout/Capacity.antt =====
-- The table of the tracker stays within its cap, and is a map.
use crapnote.Base.{
  ℕ, suc, ◌/◌, ◌≤◌, ◌<◌, ◌≡◌, refl, Bool, true, not, List, [], ◌∷◌, arith, length, length-append,
  take,
}
use crapnote.Base.Ints.{ℤ}
use crapnote.Base.Table
use crapnote.Base.Table.{delete, count, exists, exists-count, length-delete}
use crapnote.Base.Sort.{sort_by, exists-sort_by, length-sort_by}
use crapnote.Lockout.{
  Key, Pair, Tracker, has_key, same_key, gc, is_idle, evict, victims, evicts_before, ensure,
  on_entry, fail, record_failure, locked, clear, clear_username, size, max_lockout_entries,
  new_lockout_tracker, new_entry, at_least_one, lockout_evict_fraction,
}
use crapnote.Lockout.Entries.{
  IsDistinct, delete-IsDistinct, record_failure-IsDistinct, gc-IsDistinct,
}

-- A call of the tracker, with the reading of the clock.
pub data Method : Type 0 where
  fails : Key → ℕ → ℤ → ℕ → Method
  asks : Key → ℕ → Method
  clears : Key → Method
  clears_username : ℕ → Method

pub apply : Method → Tracker → Tracker
apply (fails k max_attempts cooldown now) t = record_failure k max_attempts cooldown now t
apply (asks k now) t = (locked k now t).1
apply (clears k) t = clear k t
apply (clears_username want) t = clear_username want t

pub apply_all : List Method → Tracker → Tracker
apply_all [] t = t
apply_all (m ∷ ms) t = apply_all ms (apply m t)

length-delete-le : (q : Pair → Bool) (ps : List Pair) → length (delete q ps) ≤ length ps
length-delete-le q ps = omega (arith, length-delete q ps)

length-update :
    (q : Pair → Bool) (f : Pair → Pair) (ps : List Pair) → length (Table.update q f ps) ≡ length ps
unfolding Table.update
length-update q f [] = refl
length-update q f (p ∷ ps) = omega (arith, length-update q f ps)

first-is_victim :
    (n : ℕ) (ps : List Pair)
    → 0 < n
    → 0 < length ps
    → exists (λ p. exists (λ v. same_key v.key p.key) (take n ps)) ps ≡ true
unfolding exists
first-is_victim ℕ.zero ps pos_n pos_l = absurd (omega arith)
first-is_victim (suc n) [] pos_n pos_l = absurd (omega arith)
first-is_victim (suc n) (p ∷ ps) pos_n pos_l = ground arith

-- An eviction makes room.
pub length-evict :
    (now : ℕ) (t : Tracker) → 0 < length t.entries → length (evict now t).entries < length t.entries
unfolding evict victims
length-evict now t full =
    let sorted = sort_by (λ a b. not (evicts_before now b a)) t.entries in
    let n = at_least_one (length t.entries / lockout_evict_fraction) in
    let hit : Pair → Bool = λ p. exists (λ v. same_key v.key p.key) (take n sorted) in
    let some_hit =
      first-is_victim n sorted (ground arith)
        (omega (arith, length-sort_by (λ a b. not (evicts_before now b a)) t.entries)) in
    let e : exists hit t.entries ≡ true =
      rw (← exists-sort_by (λ a b. not (evicts_before now b a)) hit t.entries) some_hit in
    omega (arith, length-delete hit t.entries, exists-count hit t.entries e)

length-gc : (now : ℕ) (t : Tracker) → length (gc now t).entries ≤ length t.entries
unfolding gc
length-gc now t = ground (arith, length-delete-le (is_idle now) t.entries)

length-ensure :
    (k : Key) (now : ℕ) (t : Tracker)
    → length t.entries ≤ max_lockout_entries
    → length (ensure k now t).entries ≤ max_lockout_entries
unfolding ensure
length-ensure k now t h = ground (
  arith,
  length-append t.entries (added ∷ []),
  length-append (evict now t).entries (added ∷ []),
  length-evict now t,
)
  where
    added : Pair
    added = record { key = k; entry = new_entry }

-- A tracker as the package keeps it: a map, with no more entries than the cap.
pub record IsBounded (t : Tracker) : Type 0 where
  pub distinct : IsDistinct t.entries
  pub bounded : size t ≤ max_lockout_entries

delete-IsBounded :
    (q : Pair → Bool) (t : Tracker)
    → IsBounded t
    → IsBounded (record t { entries = delete q t.entries })
unfolding size
delete-IsBounded q t b = record {
  distinct = delete-IsDistinct q t.entries b.distinct;
  bounded = let h = b.bounded in omega (arith, length-delete-le q t.entries);
}

apply-IsBounded : (m : Method) (t : Tracker) → IsBounded t → IsBounded (apply m t)
unfolding apply size locked clear clear_username record_failure
apply-IsBounded (fails k max_attempts cooldown now) t b =
    let h : length t.entries ≤ max_lockout_entries = b.bounded in
    record {
      distinct = record_failure-IsDistinct k max_attempts cooldown now t b.distinct;
      bounded =
          rw
            (length-update (has_key k) (on_entry (fail max_attempts cooldown now))
              (ensure k now (gc now t)).entries)
            (length-ensure k now (gc now t) (omega (arith, length-gc now t)));
    }
apply-IsBounded (asks k now) t b =
    let h : length t.entries ≤ max_lockout_entries = b.bounded in
    record { distinct = gc-IsDistinct now t b.distinct; bounded = omega (arith, length-gc now t) }
apply-IsBounded (clears k) t b = delete-IsBounded (has_key k) t b
apply-IsBounded (clears_username want) t b = delete-IsBounded _ t b

apply_all-IsBounded : (ms : List Method) (t : Tracker) → IsBounded t → IsBounded (apply_all ms t)
unfolding apply_all
apply_all-IsBounded [] t b = b
apply_all-IsBounded (m ∷ ms) t b = apply_all-IsBounded ms (apply m t) (apply-IsBounded m t b)

-- Whatever is submitted, from any number of addresses and under any usernames: the tracker that
-- any history of calls leaves holds at most 10000 entries, no two for one pair.
pub history-IsBounded : (ms : List Method) → IsBounded (apply_all ms new_lockout_tracker)
unfolding size
history-IsBounded ms =
    apply_all-IsBounded ms new_lockout_tracker (record { distinct = tt; bounded = omega arith })
