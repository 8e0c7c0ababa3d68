-- ===== src/Base/Outcome.antt =====
-- Results of fallible operations. The constructors of `Error` are the sentinel errors of the Go
-- packages; `hash_failed` and `randomness` are failures of bcrypt and of crypto/rand, and `constraint` is the driver's report of a violated UNIQUE or FOREIGN KEY constraint.
use mathlib.Core.Path.{◌≡◌, refl}
use mathlib.Core.Logic.{◌⊎◌, inl, inr}
use mathlib.Core.Option.{Option, none, some}

pub data Error : Type 0 where
  not_found : Error
  locked : Error
  invalid_credentials : Error
  account_locked : Error
  account_cooldown : Error
  login_not_configured : Error
  invite_invalid : Error
  invites_not_configured : Error
  forbidden : Error
  invalid_name : Error
  invalid_scope : Error
  invalid_token : Error
  invalid_theme : Error
  constraint : Error
  hash_failed : Error
  randomness : Error

pub data Result {ℓ} (A : Type ℓ) : Type ℓ where
  ok : A → Result A
  err : Error → Result A

pub Result-cases {ℓ} :
    {A : Type ℓ} (r : Result A) → ((a : A) × (r ≡ ok a)) ⊎ ((e : Error) × (r ≡ err e))
Result-cases (ok a) = inl (a, refl)
Result-cases (err e) = inr (e, refl)

-- The value of a row that was looked up, or `not_found`.
abbrev pub or_not_found {ℓ} : {A : Type ℓ} → Option A → Result A
or_not_found none = err not_found
or_not_found (some a) = ok a

pub or_not_found-ok : {A : Type 0} (r : Option A) (a : A) → or_not_found r ≡ ok a → r ≡ some a
or_not_found-ok none a e = cc
or_not_found-ok (some b) a e = cc

-- An operation on a state `S` that may fail; the writes before a failure stay.
abbrev pub Op : Type 0 → Type 0 → Type 0
Op S A = S → Result A × S

abbrev pub and_then : {S A B : Type 0} → Result A × S → (A → Op S B) → Result B × S
and_then (ok a, s) k = k a s
and_then (err e, s) k = (err e, s)

infixl 5 ◌>>=◌ ◌>>◌
abbrev pub ◌>>=◌ : {S A B : Type 0} → Op S A → (A → Op S B) → Op S B
◌>>=◌ m k s = and_then (m s) k

abbrev pub ◌>>◌ : {S A B : Type 0} → Op S A → Op S B → Op S B
◌>>◌ m k s = and_then (m s) (λ _. k)

-- A read, which leaves the state as it is.
abbrev pub query : {S A : Type 0} → (S → Result A) → Op S A
query q s = (q s, s)

abbrev pub done : {S : Type 0} → S → Result (Unit {0}) × S
done s = (ok tt, s)
