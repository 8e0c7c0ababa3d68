-- ===== src/Base/Table/Keyed.antt =====
-- Tables with an INTEGER PRIMARY KEY: a statement that names the key reaches one row at most.
use Prim.Native.Nat.{ℕ, ◌<◌, ◌≤◌}
use mathlib.Core.Path.{◌≡◌, refl}
use mathlib.Core.Bool.{Bool, true, false, ◌&&◌}
use mathlib.Core.Option.{Option, none, some}
use mathlib.Core.List.{List, [], ◌∷◌, ◌++◌}
use native.Mathlib.Omega.{arith}
use mathlib.Core.Logic.{inl, inr}
use crapnote.Base.Tests.{if◌then◌else◌, ◌==◌, Bool-cases}
use crapnote.Base.Lists.{All}
use crapnote.Base.Table.{delete, update, count, exists, first}
use crapnote.Base.Table.Rows.{exists-update, exists-false-delete}

-- The row, if it meets the test.
abbrev pub only {ℓ} : {A : Type ℓ} → (A → Bool) → Option A → Option A
only q none = none
only q (some x) = if q x then some x else none

abbrev pub one_if {ℓ} : {A : Type ℓ} → (A → Bool) → Option A → ℕ
one_if q none = 0
one_if q (some x) = if q x then 1 else 0

module _ {ℓ} {A : Type ℓ} (key : A → ℕ) where
  abbrev pub has_key : ℕ → A → Bool
  has_key k x = key x == k

  -- No two rows have one key.
  abbrev pub IsKeyed : List A → Type 0
  IsKeyed [] = Unit
  IsKeyed (x ∷ xs) = (exists (has_key (key x)) xs ≡ false) × IsKeyed xs

  -- Every key is at most `n`, the last number that AUTOINCREMENT gave out.
  abbrev pub KeysUpTo : ℕ → List A → Type 0
  KeysUpTo n = All (λ x. key x ≤ n)

  count-absent :
      (k : ℕ) (q : A → Bool) (xs : List A)
      → exists (has_key k) xs ≡ false
      → count (λ x. has_key k x && q x) xs ≡ 0
  unfolding exists count
  count-absent k q [] h = refl
  count-absent k q (x ∷ xs) h = ground (arith, count-absent k q xs)

  first-absent :
      (k : ℕ) (q : A → Bool) (xs : List A)
      → exists (has_key k) xs ≡ false
      → first (λ x. has_key k x && q x) xs ≡ none
  unfolding exists first
  first-absent k q [] h = refl
  first-absent k q (x ∷ xs) h = ground (arith, first-absent k q xs)

  pub first-key :
      (k : ℕ) (q : A → Bool) (xs : List A)
      → IsKeyed xs
      → first (λ x. has_key k x && q x) xs ≡ only q (first (has_key k) xs)
  unfolding first
  first-key k q [] h = refl
  first-key k q (x ∷ xs) (new, h) = ground (arith, first-key k q xs h, first-absent k q xs, moved)
    where
      moved : key x ≡ k → exists (has_key k) xs ≡ false
      moved e = rw (← e) new

  pub count-key :
      (k : ℕ) (q : A → Bool) (xs : List A)
      → IsKeyed xs
      → count (λ x. has_key k x && q x) xs ≡ one_if q (first (has_key k) xs)
  unfolding count first
  count-key k q [] h = refl
  count-key k q (x ∷ xs) (new, h) = ground (arith, count-key k q xs h, count-absent k q xs, moved)
    where
      moved : key x ≡ k → exists (has_key k) xs ≡ false
      moved e = rw (← e) new

  pub update-IsKeyed :
      (q : A → Bool) (f : A → A) (xs : List A)
      → ((x : A) → key (f x) ≡ key x)
      → IsKeyed xs
      → IsKeyed (update q f xs)
  unfolding update
  update-IsKeyed q f [] keeps h = tt
  update-IsKeyed q f (x ∷ xs) keeps (new, h) = (
    rw (same (q x)) (rw (exists-update (has_key (key x)) q f xs (λ y. rw (keeps y))) new),
    update-IsKeyed q f xs keeps h,
  )
    where
      same : (b : Bool) → key (if b then f x else x) ≡ key x
      same true = keeps x
      same false = refl

  pub delete-IsKeyed : (q : A → Bool) (xs : List A) → IsKeyed xs → IsKeyed (delete q xs)
  unfolding delete
  delete-IsKeyed q [] h = tt
  delete-IsKeyed q (x ∷ xs) (new, h) = elim (Bool-cases (q x)) [
    | inl e ↦ rw e (delete-IsKeyed q xs h)
    | inr e ↦ rw e (exists-false-delete (has_key (key x)) q xs new, delete-IsKeyed q xs h)
  ]

  exists-above : (n k : ℕ) (xs : List A) → KeysUpTo n xs → n < k → exists (has_key k) xs ≡ false
  unfolding exists
  exists-above n k [] h lt = refl
  exists-above n k (x ∷ xs) (le, h) lt = ground (arith, exists-above n k xs h)

  -- A row inserted at the end under the next number keeps the table keyed.
  exists-append_one :
      (p : A → Bool) (xs : List A) (y : A)
      → exists p (xs ++ y ∷ []) ≡ (if exists p xs then true else p y)
  unfolding exists
  exists-append_one p [] y = ground arith
  exists-append_one p (x ∷ xs) y = ground (arith, exists-append_one p xs y)

  pub append-IsKeyed :
      (n : ℕ) (xs : List A) (y : A)
      → KeysUpTo n xs
      → n < key y
      → IsKeyed xs
      → IsKeyed (xs ++ y ∷ [])
  unfolding exists
  append-IsKeyed n [] y le lt h = (refl, tt)
  append-IsKeyed n (x ∷ xs) y (le, les) lt (new, h) = (
    rw (exists-append_one (has_key (key x)) xs y, new) (ground arith),
    append-IsKeyed n xs y les lt h,
  )

  pub append-IsKeyed_fresh :
      (xs : List A) (y : A)
      → exists (has_key (key y)) xs ≡ false
      → IsKeyed xs
      → IsKeyed (xs ++ y ∷ [])
  unfolding exists
  append-IsKeyed_fresh [] y absent h = (refl, tt)
  append-IsKeyed_fresh (x ∷ xs) y absent (new, h) = (
    rw (exists-append_one (has_key (key x)) xs y, new) (ground arith),
    append-IsKeyed_fresh xs y (ground arith) h,
  )

  pub first-append_new :
      (n : ℕ) (xs : List A) (y : A)
      → KeysUpTo n xs
      → n < key y
      → first (has_key (key y)) (xs ++ y ∷ []) ≡ some y
  unfolding first
  first-append_new n [] y le lt = ground arith
  first-append_new n (x ∷ xs) y (le, les) lt = ground (arith, first-append_new n xs y les lt)

  count-absent_key :
      (k : ℕ) (xs : List A) → exists (has_key k) xs ≡ false → count (has_key k) xs ≡ 0
  unfolding exists count
  count-absent_key k [] h = refl
  count-absent_key k (x ∷ xs) h = ground (arith, count-absent_key k xs)

  pub count-has_key : (k : ℕ) (xs : List A) → IsKeyed xs → count (has_key k) xs ≤ 1
  unfolding count
  count-has_key k [] h = omega arith
  count-has_key k (x ∷ xs) (new, h) = ground (arith, count-has_key k xs h, moved)
    where
      moved : key x ≡ k → count (has_key k) xs ≡ 0
      moved e = count-absent_key k xs (rw (← e) new)
