-- ===== src/RateLimit.antt =====
-- backend/internal/ratelimit/ratelimit.go: a token bucket for each key. The arithmetic of float64 and
-- now.Sub(last).Seconds() are parameters; the mutex makes a call one step.
pub mod Burst
use crapnote.Base.{
  ℕ, ◌-◌, Bool, true, false, not, ◌&&◌, Option, none, some, List, [], ◌∷◌, ltb, if◌then◌else◌,
}
use crapnote.Base.Table
use crapnote.Base.Table.{first, delete}
use crapnote.Db.{Bytes}
use crapnote.Images.{same_bytes}

-- What the limiter asks of float64.
pub record Float64 (F : Type 0) : Type 0 where
  pub of_int : ℕ → F
  pub add : F → F → F
  pub sub : F → F → F
  pub mul : F → F → F
  pub exceeds : F → F → Bool
  -- now.Sub(last).Seconds()
  pub seconds : ℕ → ℕ → F

pub record Bucket (F : Type 0) : Type 0 where
  pub key : Bytes
  pub tokens : F
  pub last : ℕ

pub record Limiter (F : Type 0) : Type 0 where
  pub buckets : List (Bucket F)
  pub rate : F
  pub burst : F
  pub ttl : ℕ
  pub last_gc : ℕ

-- 10 * time.Minute
abbrev pub default_ttl : ℕ
default_ttl = 600_000_000_000

module _ {F : Type 0} (float : Float64 F) where
  unfoldable pub new_limiter : F → ℕ → Limiter F
  new_limiter rate burst = record {
    buckets = [];
    rate = rate;
    burst = float.of_int burst;
    ttl = default_ttl;
    last_gc = 0;
  }

  unfoldable pub set_ttl : ℕ → Limiter F → Limiter F
  set_ttl ttl l = record l { ttl = ttl }

  unfoldable pub gc_locked : ℕ → Limiter F → Limiter F
  gc_locked now l =
      if ltb (now - l.last_gc) l.ttl
      then l
      else record l { last_gc = now; buckets = delete (λ b. ltb l.ttl (now - b.last)) l.buckets }

  abbrev pub refilled : ℕ → Limiter F → Bucket F → F
  refilled now l b =
      let tokens = float.add b.tokens (float.mul (float.seconds now b.last) l.rate) in
      if float.exceeds tokens l.burst then l.burst else tokens

  -- The tokens of the key before this request.
  abbrev pub available : ℕ → Limiter F → Option (Bucket F) → F
  available now l none = l.burst
  available now l (some b) = refilled now l b

  abbrev pub is_of : Bytes → Bucket F → Bool
  is_of key b = same_bytes b.key key

  abbrev pub stored : Bytes → ℕ → F → Limiter F → Limiter F
  stored key now tokens l = record l {
    buckets = record { key = key; tokens = tokens; last = now } ∷ delete (is_of key) l.buckets;
  }

  -- b.tokens >= 1
  abbrev pub has_token : F → Bool
  has_token tokens = not (float.exceeds (float.of_int 1) tokens)

  abbrev pub take_token : Bytes → ℕ → F → Limiter F → Bool × Limiter F
  take_token key now tokens l =
      if has_token tokens
      then (true, stored key now (float.sub tokens (float.of_int 1)) l)
      else (false, stored key now tokens l)

  unfoldable pub allow : Bytes → ℕ → Limiter F → Bool × Limiter F
  unfolding gc_locked
  allow key now l =
      let swept = gc_locked now l in
      take_token key now (available now swept (first (is_of key) swept.buckets)) swept
