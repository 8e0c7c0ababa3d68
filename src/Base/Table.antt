-- ===== src/Base/Table.antt =====
-- SQL statements over a table held as a list of rows in row order.
pub mod Rows
pub mod Appended
pub mod Every
pub mod Inspected
pub mod Keyed
use Prim.Native.Nat.{ℕ, suc, ◌+◌, ◌<◌}
use mathlib.Core.Path.{◌≡◌, refl}
use mathlib.Core.Bool.{Bool, true, false}
use mathlib.Core.Option.{Option, none, some}
use mathlib.Core.List.{List, [], ◌∷◌}
use native.Mathlib.Omega.{arith}
use crapnote.Base.Tests.{if◌then◌else◌, is_some}
use crapnote.Base.Lists.{length}

module _ {ℓ} {A : Type ℓ} where
  -- SELECT * FROM t WHERE p
  unfoldable pub select : (A → Bool) → List A → List A
  select p [] = []
  select p (x ∷ xs) = if p x then x ∷ select p xs else select p xs

  -- DELETE FROM t WHERE p
  unfoldable pub delete : (A → Bool) → List A → List A
  delete p [] = []
  delete p (x ∷ xs) = if p x then delete p xs else x ∷ delete p xs

  -- UPDATE t SET f WHERE p
  unfoldable pub update : (A → Bool) → (A → A) → List A → List A
  update p f [] = []
  update p f (x ∷ xs) = (if p x then f x else x) ∷ update p f xs

  -- SELECT COUNT(*) FROM t WHERE p; also the rows affected by a statement.
  unfoldable pub count : (A → Bool) → List A → ℕ
  count p [] = 0
  count p (x ∷ xs) = if p x then suc (count p xs) else count p xs

  -- EXISTS (SELECT 1 FROM t WHERE p)
  unfoldable pub exists : (A → Bool) → List A → Bool
  exists p [] = false
  exists p (x ∷ xs) = if p x then true else exists p xs

  -- The one row that QueryRow reads.
  unfoldable pub first : (A → Bool) → List A → Option A
  first p [] = none
  first p (x ∷ xs) = if p x then some x else first p xs

  pub first-holds : (p : A → Bool) (xs : List A) (x : A) → first p xs ≡ some x → p x ≡ true
  unfolding first
  first-holds p [] x e = ground arith
  first-holds p (y ∷ xs) x e = ground (arith, first-holds p xs x)

  pub exists-first : (p : A → Bool) (xs : List A) → exists p xs ≡ is_some (first p xs)
  unfolding exists first
  exists-first p [] = refl
  exists-first p (x ∷ xs) = ground (arith, exists-first p xs)

  pub count-zero-first : (p : A → Bool) (xs : List A) → count p xs ≡ 0 → first p xs ≡ none
  unfolding count first
  count-zero-first p [] h = refl
  count-zero-first p (x ∷ xs) h = ground (arith, count-zero-first p xs)

  pub length-delete : (p : A → Bool) (xs : List A) → length (delete p xs) + count p xs ≡ length xs
  unfolding delete count
  length-delete p [] = omega arith
  length-delete p (x ∷ xs) = ground (arith, length-delete p xs)

  pub count-delete : (p : A → Bool) (xs : List A) → count p (delete p xs) ≡ 0
  unfolding delete count
  count-delete p [] = refl
  count-delete p (x ∷ xs) = ground (arith, count-delete p xs)

  pub exists-count : (p : A → Bool) (xs : List A) → exists p xs ≡ true → 0 < count p xs
  unfolding exists count
  exists-count p [] h = ground arith
  exists-count p (x ∷ xs) h = ground (arith, exists-count p xs)

  pub first-count :
      (p q : A → Bool) (xs : List A) (x : A) → first p xs ≡ some x → q x ≡ true → 0 < count q xs
  unfolding first count
  first-count p q [] x e h = cc
  first-count p q (y ∷ xs) x e h = ground (arith, first-count p q xs x)

  pub exists-delete_own : (p : A → Bool) (xs : List A) → exists p (delete p xs) ≡ false
  unfolding exists delete
  exists-delete_own p [] = refl
  exists-delete_own p (x ∷ xs) = ground (arith, exists-delete_own p xs)

  pub exists-false-first :
      (p q : A → Bool) (xs : List A) (x : A)
      → exists q xs ≡ false
      → first p xs ≡ some x
      → q x ≡ false
  unfolding exists first
  exists-false-first p q [] x h e = cc
  exists-false-first p q (y ∷ xs) x h e = ground (arith, exists-false-first p q xs x)

  pub count-zero-exists : (p : A → Bool) (xs : List A) → count p xs ≡ 0 → exists p xs ≡ false
  unfolding count exists
  count-zero-exists p [] h = refl
  count-zero-exists p (x ∷ xs) h = ground (arith, count-zero-exists p xs)

  pub count-zero-update :
      (p : A → Bool) (f : A → A) (xs : List A) → count p xs ≡ 0 → update p f xs ≡ xs
  unfolding count update
  count-zero-update p f [] h = refl
  count-zero-update p f (x ∷ xs) h = ground (arith, count-zero-update p f xs)
