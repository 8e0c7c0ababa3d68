-- ===== src/Base/Table/Rows.antt =====
-- What a statement leaves alone, and what it does to the row that another statement reads.
use Prim.Native.Nat.{◌≤◌}
use mathlib.Core.Path.{◌≡◌, refl}
use mathlib.Core.Bool.{Bool, true, false, ◌&&◌}
use mathlib.Core.Option
use mathlib.Core.Option.{Option, none, some}
use mathlib.Core.List.{List, [], ◌∷◌}
use native.Mathlib.Omega.{arith}
use crapnote.Base.Tests.{if◌then◌else◌}
use crapnote.Base.Table.{select, delete, update, count, count-zero-first, exists, first}

module _ {ℓ} {A : Type ℓ} (p q : A → Bool) where
  -- An update outside a view that keeps rows outside it leaves the view as it was.
  pub select-update :
      (f : A → A) (xs : List A)
      → ((x : A) → q x ≡ true → p x ≡ false)
      → ((x : A) → q x ≡ true → p (f x) ≡ false)
      → select p (update q f xs) ≡ select p xs
  unfolding select update
  select-update f [] out stays = refl
  select-update f (x ∷ xs) out stays = ground (arith, out x, stays x, select-update f xs out stays)

  pub select-delete :
      (xs : List A) → ((x : A) → q x ≡ true → p x ≡ false) → select p (delete q xs) ≡ select p xs
  unfolding select delete
  select-delete [] out = refl
  select-delete (x ∷ xs) out = ground (arith, out x, select-delete xs out)

  pub exists-delete :
      (xs : List A) → ((x : A) → q x ≡ true → p x ≡ false) → exists p (delete q xs) ≡ exists p xs
  unfolding exists delete
  exists-delete [] out = refl
  exists-delete (x ∷ xs) out = ground (arith, out x, exists-delete xs out)

  pub first-delete :
      (xs : List A) → ((x : A) → q x ≡ true → p x ≡ false) → first p (delete q xs) ≡ first p xs
  unfolding first delete
  first-delete [] out = refl
  first-delete (x ∷ xs) out = ground (arith, out x, first-delete xs out)

  pub first-delete_hit :
      (xs : List A) → ((x : A) → p x ≡ true → q x ≡ true) → first p (delete q xs) ≡ none
  unfolding first delete
  first-delete_hit [] hit = refl
  first-delete_hit (x ∷ xs) hit = ground (arith, hit x, first-delete_hit xs hit)

  -- The row read after an update that keeps what the reader tests.
  pub first-update :
      (f : A → A) (xs : List A)
      → ((x : A) → p (f x) ≡ p x)
      → first p (update q f xs) ≡ Option.map (λ x. if q x then f x else x) (first p xs)
  unfolding first update
  first-update f [] keeps = refl
  first-update f (x ∷ xs) keeps = ground (arith, keeps x, first-update f xs keeps)

  pub exists-update :
      (f : A → A) (xs : List A) → ((x : A) → p (f x) ≡ p x) → exists p (update q f xs) ≡ exists p xs
  unfolding exists update
  exists-update f [] keeps = refl
  exists-update f (x ∷ xs) keeps = ground (arith, keeps x, exists-update f xs keeps)

module _ {ℓ} {A : Type ℓ} where
  -- A row that some test finds is still found if the deletion spares it.
  pub exists-delete_spared :
      (r q k : A → Bool) (xs : List A)
      → ((x : A) → r x ≡ true → k x ≡ true)
      → exists (λ x. q x && k x) xs ≡ false
      → exists r xs ≡ true
      → exists r (delete q xs) ≡ true
  unfolding exists delete
  exists-delete_spared r q k [] sub spared h = h
  exists-delete_spared r q k (x ∷ xs) sub spared h =
      ground (arith, sub x, exists-delete_spared r q k xs sub)

  pub exists-false-delete :
      (p q : A → Bool) (xs : List A) → exists p xs ≡ false → exists p (delete q xs) ≡ false
  unfolding exists delete
  exists-false-delete p q [] h = refl
  exists-false-delete p q (x ∷ xs) h = ground (arith, exists-false-delete p q xs)

  -- The row that is read first, if it is spared.
  pub first-delete_kept :
      (p q : A → Bool) (xs : List A) (x : A)
      → first p xs ≡ some x
      → q x ≡ false
      → first p (delete q xs) ≡ some x
  unfolding first delete
  first-delete_kept p q [] x e keep = e
  first-delete_kept p q (y ∷ xs) x e keep = ground (arith, first-delete_kept p q xs x)

  pub first-delete-none :
      (p q : A → Bool) (xs : List A) → first p xs ≡ none → first p (delete q xs) ≡ none
  unfolding first delete
  first-delete-none p q [] e = refl
  first-delete-none p q (y ∷ xs) e = ground (arith, first-delete-none p q xs)

  pub exists_mono :
      (p q : A → Bool) (xs : List A)
      → ((x : A) → p x ≡ true → q x ≡ true)
      → exists p xs ≡ true
      → exists q xs ≡ true
  unfolding exists
  exists_mono p q [] sub h = h
  exists_mono p q (x ∷ xs) sub h = ground (arith, sub x, exists_mono p q xs sub)

  pub exists-false_mono :
      (p q : A → Bool) (xs : List A)
      → ((x : A) → p x ≡ true → q x ≡ true)
      → exists q xs ≡ false
      → exists p xs ≡ false
  unfolding exists
  exists-false_mono p q [] sub h = refl
  exists-false_mono p q (x ∷ xs) sub h = ground (arith, sub x, exists-false_mono p q xs sub)

  pub first-delete_only :
      (p q : A → Bool) (xs : List A) (x : A)
      → count p xs ≤ 1
      → first p xs ≡ some x
      → q x ≡ true
      → first p (delete q xs) ≡ none
  unfolding count first delete
  first-delete_only p q [] x one e h = refl
  first-delete_only p q (y ∷ xs) x one e h =
      ground (arith, first-delete_only p q xs x, count-zero-first p xs, first-delete-none p q xs)

  pub first-exists :
      (p q : A → Bool) (xs : List A) (x : A) → first p xs ≡ some x → q x ≡ true → exists q xs ≡ true
  unfolding first exists
  first-exists p q [] x e h = absurd (cc e)
  first-exists p q (y ∷ xs) x e h = ground (arith, first-exists p q xs x)

  -- A row that a test finds is found after an update that keeps the test where it reaches the row.
  pub exists-update_kept :
      (r q : A → Bool) (f : A → A) (xs : List A)
      → ((x : A) → r x ≡ true → q x ≡ true → r (f x) ≡ true)
      → exists r xs ≡ true
      → exists r (update q f xs) ≡ true
  unfolding exists update
  exists-update_kept r q f [] keep h = h
  exists-update_kept r q f (x ∷ xs) keep h =
      ground (arith, keep x, exists-update_kept r q f xs keep)

  pub count-delete_le : (p q : A → Bool) (xs : List A) → count p (delete q xs) ≤ count p xs
  unfolding count delete
  count-delete_le p q [] = omega arith
  count-delete_le p q (x ∷ xs) = ground (arith, count-delete_le p q xs)
