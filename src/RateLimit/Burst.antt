-- ===== src/RateLimit/Burst.antt =====
-- How many requests of one key pass at once: backend/internal/ratelimit/ratelimit.go.
use crapnote.Base.{
  ℕ, zero, suc, ◌-◌, ◌≤◌, ◌<◌, ◌≡◌, ◌⊎◌, refl, ◌∙◌, true, false, none, some, inl, inr, Bool-cases,
  ltb, min, arith, if◌then◌else◌,
}
use crapnote.Base.Table.{first}
use crapnote.Base.Table.Rows.{first-delete_kept, first-delete-none}
use crapnote.Db.{Bytes}
use crapnote.Images.Unused.{same_bytes_refl}
use crapnote.RateLimit.{
  Float64, Bucket, Limiter, gc_locked, is_of, available, has_token, stored, allow,
}

-- float64 is exact for the whole numbers of tokens up to the burst.
pub record IsExact {F : Type 0} (float : Float64 F) (rate : F) (burst : ℕ) : Type 0 where
  pub decrement :
      (n : ℕ) → n < burst → float.sub (float.of_int (suc n)) (float.of_int 1) ≡ float.of_int n
  pub compares :
      (m n : ℕ)
      → m ≤ suc burst
      → n ≤ burst
      → float.exceeds (float.of_int m) (float.of_int n) ≡ ltb n m
  pub no_time :
      (n now : ℕ)
      → n ≤ burst
      → float.add (float.of_int n) (float.mul (float.seconds now now) rate) ≡ float.of_int n

module _ {F : Type 0} (float : Float64 F) where
  -- `n` requests of one key at one time: how many pass, and the limiter behind them.
  unfoldable pub requests : ℕ → Bytes → ℕ → Limiter F → ℕ × Limiter F
  requests zero key now l = (0, l)
  requests (suc n) key now l =
      let one = allow float key now l in
      let more = requests n key now one.1 in if one.0 then (suc more.0, more.1) else more

  abbrev bucket_of : Bytes → ℕ → ℕ → Bucket F
  bucket_of key now tokens = record { key = key; tokens = float.of_int tokens; last = now }

  sweep-fields :
      (now : ℕ) (l : Limiter F)
      → ((gc_locked float now l).burst ≡ l.burst) × ((gc_locked float now l).rate ≡ l.rate)
  unfolding gc_locked
  sweep-fields now l = elim (Bool-cases (ltb (now - l.last_gc) l.ttl)) [
    | inl e ↦ rw e (refl, refl)
    | inr e ↦ rw e (refl, refl)
  ]

  sweep-absent :
      (key : Bytes) (now : ℕ) (l : Limiter F)
      → first (is_of float key) l.buckets ≡ none
      → first (is_of float key) (gc_locked float now l).buckets ≡ none
  unfolding gc_locked
  sweep-absent key now l h = elim (Bool-cases (ltb (now - l.last_gc) l.ttl)) [
    | inl e ↦ rw e h
    | inr e ↦ rw e (first-delete-none (is_of float key) _ l.buckets h)
  ]

  -- A bucket that was used now is not swept.
  sweep-present :
      (key : Bytes) (now tokens : ℕ) (l : Limiter F)
      → first (is_of float key) l.buckets ≡ some (bucket_of key now tokens)
      → first (is_of float key) (gc_locked float now l).buckets ≡ some (bucket_of key now tokens)
  unfolding gc_locked
  sweep-present key now tokens l h = elim (Bool-cases (ltb (now - l.last_gc) l.ttl)) [
    | inl e ↦ rw e h
    | inr e ↦ rw e (
        first-delete_kept (is_of float key) _ l.buckets (bucket_of key now tokens) h (ground arith))
  ]

  module _ (rate : F) (burst : ℕ) (exact : IsExact float rate burst) where
    -- The limiter has its settings, and the key has so many tokens as of now.
    pub record IsReady (key : Bytes) (now tokens : ℕ) (l : Limiter F) : Type 0 where
      pub rate_is : l.rate ≡ rate
      pub burst_is : l.burst ≡ float.of_int burst
      pub few : tokens ≤ burst
      pub held :
          ((first (is_of float key) l.buckets ≡ none) × (tokens ≡ burst))
          ⊎ (first (is_of float key) l.buckets ≡ some (bucket_of key now tokens))

    available-tokens :
        (key : Bytes) (now tokens : ℕ) (l : Limiter F)
        → IsReady key now tokens l
        → available float now
            (gc_locked float now l)
            (first (is_of float key) (gc_locked float now l).buckets)
          ≡ float.of_int tokens
    available-tokens key now tokens l ready =
        let (same_burst, same_rate) = sweep-fields now l in
        elim ready.held [
          | inl (absent, full) ↦
              rw (sweep-absent key now l absent, same_burst, ready.burst_is, full) refl
          | inr found ↦
              let few : ltb burst tokens ≡ false = ground (arith, ready.few) in
              rw
                (
                  sweep-present key now tokens l found,
                  same_burst,
                  same_rate,
                  ready.rate_is,
                  ready.burst_is,
                  exact.no_time tokens now ready.few,
                  exact.compares tokens burst (omega (arith, ready.few)) (omega arith),
                  few,
                )
                refl
        ]

    stored-IsReady :
        (key : Bytes) (now tokens left : ℕ) (l : Limiter F)
        → IsReady key now tokens l
        → left ≤ burst
        → IsReady key now left (stored float key now (float.of_int left) (gc_locked float now l))
    unfolding first
    stored-IsReady key now tokens left l ready few =
        let (same_burst, same_rate) = sweep-fields now l in
        record {
          rate_is = same_rate ∙ ready.rate_is;
          burst_is = same_burst ∙ ready.burst_is;
          few = few;
          held = inr (rw (same_bytes_refl key) refl);
        }

    allow-none :
        (key : Bytes) (now : ℕ) (l : Limiter F)
        → IsReady key now 0 l
        → ((allow float key now l).0 ≡ false) × IsReady key now 0 (allow float key now l).1
    unfolding allow
    allow-none key now l ready =
        let none_left : has_token float (float.of_int 0) ≡ false =
          rw (exact.compares 1 0 (omega arith) (omega arith)) refl in
        rw (available-tokens key now 0 l ready, none_left)
          (refl, stored-IsReady key now 0 0 l ready (omega arith))

    allow-some :
        (key : Bytes) (now n : ℕ) (l : Limiter F)
        → IsReady key now (suc n) l
        → ((allow float key now l).0 ≡ true) × IsReady key now n (allow float key now l).1
    unfolding allow
    allow-some key now n l ready =
        let one_left : has_token float (float.of_int (suc n)) ≡ true =
          rw (exact.compares 1 (suc n) (omega arith) ready.few) (ground arith) in
        rw
          (
            available-tokens key now (suc n) l ready,
            one_left,
            exact.decrement n (omega (arith, ready.few)),
          )
          (refl, stored-IsReady key now (suc n) n l ready (omega (arith, ready.few)))

    requests-ready :
        (k tokens : ℕ) (key : Bytes) (now : ℕ) (l : Limiter F)
        → IsReady key now tokens l
        → (requests k key now l).0 ≡ min k tokens
    unfolding requests
    requests-ready zero tokens key now l ready = omega arith
    requests-ready (suc k) zero key now l ready =
        let (denied, next) = allow-none key now l ready in
        rw (denied, requests)
          (requests-ready k zero key now (allow float key now l).1 next ∙ omega arith)
    requests-ready (suc k) (suc n) key now l ready =
        let (passed, next) = allow-some key now n l ready in
        let rest = requests-ready k n key now (allow float key now l).1 next in
        rw (passed, requests, rest) (omega arith)

    -- Of `k` requests that come with one key at one time, in a limiter that has no bucket for the key, as many
    -- pass as the burst allows, whatever buckets of other keys the limiter holds and sweeps, if float64 is exact
    -- for the whole numbers up to the burst.
    pub requests-count :
        (k : ℕ) (key : Bytes) (now : ℕ) (l : Limiter F)
        → l.rate ≡ rate
        → l.burst ≡ float.of_int burst
        → first (is_of float key) l.buckets ≡ none
        → (requests k key now l).0 ≡ min k burst
    requests-count k key now l rate_is burst_is absent = requests-ready k burst key now l (record {
      rate_is = rate_is;
      burst_is = burst_is;
      few = omega arith;
      held = inl (absent, refl);
    })
