-- ===== src/Base/Table/Inspected.antt =====
-- Tests over selections and images of tables.
use mathlib.Core.Path.{◌≡◌, refl}
use mathlib.Core.Bool.{Bool, true, ◌&&◌}
use mathlib.Core.List.{List, [], ◌∷◌, map}
use mathlib.Core.Logic.{inl, inr}
use native.Mathlib.Omega.{arith}
use crapnote.Base.Tests.{Bool-cases}
use crapnote.Base.Lists.{All}
use crapnote.Base.Table.{select, delete, exists, count}
use crapnote.Base.Table.Every.{All-map}

-- Every row meets a test that it meets of itself, among all rows.
pub exists_self {ℓ} :
    {A : Type ℓ} (q : A → Bool) (r : A → A → Bool) (xs : List A)
    → ((x : A) → q x ≡ true → r x x ≡ true)
    → All (λ x. q x ≡ true → exists (r x) xs ≡ true) xs
unfolding exists
exists_self q r [] h = tt
exists_self q r (x ∷ xs) h = (
  λ e. rw (h x e) refl,
  All-map _ _ xs (λ y k e. let k' = k e in ground arith) (exists_self q r xs h),
)

pub All-of_map {ℓ κ μ} :
    {A : Type ℓ} {B : Type κ} (f : A → B) (P : B → Type μ) (xs : List A)
    → All (λ x. P (f x)) xs
    → All P (map f xs)
All-of_map f P [] h = tt
All-of_map f P (x ∷ xs) (a, h) = (a, All-of_map f P xs h)

pub exists-map {ℓ κ} :
    {A : Type ℓ} {B : Type κ} (f : A → B) (p : B → Bool) (xs : List A)
    → exists p (map f xs) ≡ exists (λ x. p (f x)) xs
unfolding exists
exists-map f p [] = refl
exists-map f p (x ∷ xs) = ground (arith, exists-map f p xs)

-- The first row of a selection that is not empty.
pub select-first {ℓ} :
    {A : Type ℓ} (p : A → Bool) (xs : List A)
    → exists p xs ≡ true
    → (x : A) × (rest : List A) × (select p xs ≡ x ∷ rest)
unfolding exists select
select-first p [] h = absurd (cc h)
select-first p (x ∷ xs) h = elim (Bool-cases (p x)) [
  | inl e ↦ (x, select p xs, rw e refl)
  | inr e ↦ let (y, rest, s) = select-first p xs (rw e at h) in (y, rest, rw e s)
]

pub exists-select {ℓ} :
    {A : Type ℓ} (p q : A → Bool) (xs : List A)
    → exists p (select q xs) ≡ exists (λ x. q x && p x) xs
unfolding exists select
exists-select p q [] = refl
exists-select p q (x ∷ xs) = ground (arith, exists-select p q xs)

pub count-zero-delete {ℓ} :
    {A : Type ℓ} (p : A → Bool) (xs : List A) → count p xs ≡ 0 → delete p xs ≡ xs
unfolding count delete
count-zero-delete p [] h = refl
count-zero-delete p (x ∷ xs) h = ground (arith, count-zero-delete p xs)

pub exists_mono_All {ℓ} :
    {A : Type ℓ} (p q : A → Bool) (xs : List A)
    → All (λ x. p x ≡ true → q x ≡ true) xs
    → exists p xs ≡ true
    → exists q xs ≡ true
unfolding exists
exists_mono_All p q [] h e = e
exists_mono_All p q (x ∷ xs) (a, h) e = ground (arith, a, exists_mono_All p q xs h)
