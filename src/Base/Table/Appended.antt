-- ===== src/Base/Table/Appended.antt =====
-- What is read of a table behind which rows are put.
use mathlib.Core.Path.{◌≡◌, refl}
use mathlib.Core.Bool.{Bool, true, false}
use mathlib.Core.Option.{none, some}
use mathlib.Core.List.{List, [], ◌∷◌, ◌++◌}
use native.Mathlib.Omega.{arith}
use crapnote.Base.Tests.{if◌then◌else◌}
use crapnote.Base.Table.{select, exists, first}

module _ {ℓ} {A : Type ℓ} where
  pub select-append_out :
      (p : A → Bool) (xs : List A) (y : A) → p y ≡ false → select p (xs ++ y ∷ []) ≡ select p xs
  unfolding select
  select-append_out p [] y out = rw out
  select-append_out p (x ∷ xs) y out = ground (arith, select-append_out p xs y out)

  pub first-append_absent :
      (p : A → Bool) (xs : List A) (y : A)
      → first p xs ≡ none
      → first p (xs ++ y ∷ []) ≡ (if p y then some y else none)
  unfolding first
  first-append_absent p [] y e = refl
  first-append_absent p (x ∷ xs) y e = ground (arith, first-append_absent p xs y)

  pub first-append_out :
      (p : A → Bool) (xs : List A) (y : A) → p y ≡ false → first p (xs ++ y ∷ []) ≡ first p xs
  unfolding first
  first-append_out p [] y out = rw out
  first-append_out p (x ∷ xs) y out = ground (arith, first-append_out p xs y out)

  pub exists-append :
      (p : A → Bool) (xs ys : List A)
      → exists p (xs ++ ys) ≡ (if exists p xs then true else exists p ys)
  unfolding exists
  exists-append p [] ys = refl
  exists-append p (x ∷ xs) ys = ground (arith, exists-append p xs ys)

  pub first-append_kept :
      (p : A → Bool) (xs ys : List A) (x : A) → first p xs ≡ some x → first p (xs ++ ys) ≡ some x
  unfolding first
  first-append_kept p [] ys x e = absurd (cc e)
  first-append_kept p (y ∷ xs) ys x e = ground (arith, first-append_kept p xs ys x)
