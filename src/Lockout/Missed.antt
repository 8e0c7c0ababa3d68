-- ===== src/Lockout/Missed.antt =====
-- One miss of a pair: recordFailure of backend/internal/auth/lockout.go.
use crapnote.Base.{
  ℕ, suc, ◌+◌, ◌≤◌, ◌<◌, ◌≡◌, refl, ap, ◌∙◌, Bool, true, false, none, some, arith, ltb,
}
use crapnote.Base.Ints.{ℤ, pos, negsuc}
use crapnote.Lockout.{
  Key, Pair, Entry, Tracker, entry_at, gc, is_locked, fail, on_entry, record_failure,
  lockout_idle_ttl, is_locked_pair, new_entry,
}
use crapnote.Lockout.Entries.{entry_at-gc, entry_at-gc-none, or_new, record_failure_lem}

-- Whether a lock that began at `since` still holds.
abbrev pub serving : ℤ → ℕ → ℕ → Bool
serving (pos ℕ.zero) since now = true
serving (pos (suc d)) since now = ltb now (since + suc d)
serving (negsuc d) since now = true

-- The pair has missed `n` times, last at `s`, and no lock is or was set.
abbrev pub HasMissed : Key → ℕ → ℕ → Tracker → Type 0
HasMissed k n s t =
    (p : Pair) × (entry_at k t ≡ some p)
    × (p.entry.failures ≡ n)
    × (p.entry.locked_until ≡ 0)
    × (p.entry.indefinite ≡ false)
    × (p.entry.last_seen ≡ s)

module _ (k : Key) (max_attempts : ℕ) (cooldown : ℤ) where
  fail-more :
      (n now : ℕ) (e : Entry)
      → e.failures ≡ n
      → e.locked_until ≡ 0
      → e.indefinite ≡ false
      → suc n < max_attempts
      → fail max_attempts cooldown now e
        ≡ record { failures = suc n; locked_until = 0; indefinite = false; last_seen = now }
  unfolding fail
  fail-more n now e f l i more = ground arith

  fail-last :
      (n now later : ℕ) (e : Entry) (c : ℤ)
      → e.failures ≡ n
      → e.locked_until ≡ 0
      → e.indefinite ≡ false
      → max_attempts ≤ suc n
      → is_locked (fail max_attempts c now e) later ≡ serving c now later
  unfolding fail
  fail-last n now later e (pos ℕ.zero) f l i enough = ground arith
  fail-last n now later e (pos (suc d)) f l i enough = ground arith
  fail-last n now later e (negsuc d) f l i enough = ground arith

  swept :
      (n s now : ℕ) (t : Tracker)
      → now ≤ s + lockout_idle_ttl
      → (m : HasMissed k n s t) → entry_at k (gc now t) ≡ some m.0
  unfolding is_locked
  swept n s now t near (p, e, f, l, i, seen) = entry_at-gc k now t p e (ground arith)

  pub miss-more :
      (n s now : ℕ) (t : Tracker)
      → now ≤ s + lockout_idle_ttl
      → suc n < max_attempts
      → HasMissed k n s t
      → HasMissed k (suc n) now (record_failure k max_attempts cooldown now t)
  miss-more n s now t near more (p, e, f, l, i, seen) =
      let r = fail-more n now p.entry f l i more in
      (
        on_entry (fail max_attempts cooldown now) p,
        record_failure_lem k max_attempts cooldown now t
            ∙ rw (swept n s now t near (p, e, f, l, i, seen)) refl,
        ap (λ x. x.failures) r,
        ap (λ x. x.locked_until) r,
        ap (λ x. x.indefinite) r,
        ap (λ x. x.last_seen) r,
      )

  pub miss-last :
      (n s now later : ℕ) (t : Tracker)
      → now ≤ s + lockout_idle_ttl
      → max_attempts ≤ suc n
      → HasMissed k n s t
      → is_locked_pair later (entry_at k (record_failure k max_attempts cooldown now t))
        ≡ serving cooldown now later
  miss-last n s now later t near enough (p, e, f, l, i, seen) =
      rw
        (
          record_failure_lem k max_attempts cooldown now t,
          swept n s now t near (p, e, f, l, i, seen),
        )
        (fail-last n now later p.entry cooldown f l i enough)

  -- The first failure of a pair with no entry.
  pub miss-first :
      (now : ℕ) (t : Tracker)
      → entry_at k t ≡ none
      → 1 < max_attempts
      → HasMissed k 1 now (record_failure k max_attempts cooldown now t)
  miss-first now t e more =
      let r = fail-more 0 now new_entry refl refl refl more in
      (
        on_entry (fail max_attempts cooldown now) (or_new k none),
        record_failure_lem k max_attempts cooldown now t ∙ rw (entry_at-gc-none k now t e) refl,
        ap (λ x. x.failures) r,
        ap (λ x. x.locked_until) r,
        ap (λ x. x.indefinite) r,
        ap (λ x. x.last_seen) r,
      )

  pub lock-first :
      (now later : ℕ) (t : Tracker)
      → entry_at k t ≡ none
      → max_attempts ≤ 1
      → is_locked_pair later (entry_at k (record_failure k max_attempts cooldown now t))
        ≡ serving cooldown now later
  lock-first now later t e enough =
      rw (record_failure_lem k max_attempts cooldown now t, entry_at-gc-none k now t e)
        (fail-last 0 now later new_entry cooldown refl refl refl enough)
