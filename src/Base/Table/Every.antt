-- ===== src/Base/Table/Every.antt =====
-- What every row of a table meets, or every selected row, before and after a statement.
use mathlib.Core.Path.{◌≡◌, refl}
use mathlib.Core.Bool.{Bool, true, false}
use mathlib.Core.List.{List, [], ◌∷◌}
use native.Mathlib.Omega.{arith}
use mathlib.Core.Logic.{inl, inr}
use crapnote.Base.Tests.{if◌then◌else◌, Bool-cases}
use crapnote.Base.Lists.{All}
use crapnote.Base.Table.{select, delete, update}

module _ {ℓ} {A : Type ℓ} where
  pub All-update {κ} :
      (P : A → Type κ) (q : A → Bool) (f : A → A) (xs : List A)
      → ((x : A) → q x ≡ true → P x → P (f x))
      → All P xs
      → All P (update q f xs)
  unfolding update
  All-update P q f [] keep h = tt
  All-update P q f (x ∷ xs) keep (a, h) = (updated (q x) (keep x), All-update P q f xs keep h)
    where
      updated : (b : Bool) → (b ≡ true → P x → P (f x)) → P (if b then f x else x)
      updated true k = k refl a
      updated false k = a

  -- What the rows that are left satisfy.
  pub All-delete {κ μ} :
      (P : A → Type κ) (Q : A → Type μ) (q : A → Bool) (xs : List A)
      → ((x : A) → q x ≡ false → P x → Q x)
      → All P xs
      → All Q (delete q xs)
  unfolding delete
  All-delete P Q q [] keep h = tt
  All-delete P Q q (x ∷ xs) keep (a, h) = elim (Bool-cases (q x)) [
    | inl e ↦ rw e (All-delete P Q q xs keep h)
    | inr e ↦ rw e (keep x e a, All-delete P Q q xs keep h)
  ]

  pub All-map {κ μ} :
      (P : A → Type κ) (Q : A → Type μ) (xs : List A) → ((x : A) → P x → Q x) → All P xs → All Q xs
  All-map P Q [] f h = tt
  All-map P Q (x ∷ xs) f (a, h) = (f x a, All-map P Q xs f h)

  -- As `select-delete`, where the rows of the table keep clear of the view.
  pub select-delete-All :
      (p q : A → Bool) (xs : List A)
      → All (λ x. q x ≡ true → p x ≡ false) xs
      → select p (delete q xs) ≡ select p xs
  unfolding select delete
  select-delete-All p q [] h = refl
  select-delete-All p q (x ∷ xs) (a, h) = ground (arith, a, select-delete-All p q xs h)

  -- A selection holds rows that meet its test, and every such row.
  pub All-select : (p : A → Bool) (xs : List A) → All (λ x. p x ≡ true) (select p xs)
  unfolding select
  All-select p [] = tt
  All-select p (x ∷ xs) = elim (Bool-cases (p x)) [
    | inl e ↦ rw e (e, All-select p xs)
    | inr e ↦ rw e (All-select p xs)
  ]

  pub select-All {κ} :
      (P : A → Type κ) (p : A → Bool) (xs : List A)
      → All P (select p xs)
      → All (λ x. p x ≡ true → P x) xs
  unfolding select
  select-All P p [] h = tt
  select-All P p (x ∷ xs) h = elim (Bool-cases (p x)) [
    | inl e ↦ let h' : All P (x ∷ select p xs) = rw e at h in (λ _. h'.0, select-All P p xs h'.1)
    | inr e ↦
        let h' : All P (select p xs) = rw e at h in
        (λ t. let c = rw e at t in absurd (cc c), select-All P p xs h')
  ]

  pub All-select_of {κ} :
      (P : A → Type κ) (p : A → Bool) (xs : List A)
      → All (λ x. p x ≡ true → P x) xs
      → All P (select p xs)
  unfolding select
  All-select_of P p [] h = tt
  All-select_of P p (x ∷ xs) (make, h) = elim (Bool-cases (p x)) [
    | inl e ↦ rw e (make e, All-select_of P p xs h)
    | inr e ↦ rw e (All-select_of P p xs h)
  ]

  -- The rows that an update hit are as it made them.
  pub update-All_hit {κ} :
      (P : A → Type κ) (q : A → Bool) (f : A → A) (xs : List A)
      → ((x : A) → P (f x))
      → All (λ y. q y ≡ true → P y) (update q f xs)
  unfolding update
  update-All_hit P q f [] made = tt
  update-All_hit P q f (x ∷ xs) made = elim (Bool-cases (q x)) [
    | inl e ↦ rw e (λ _. made x, update-All_hit P q f xs made)
    | inr e ↦ rw e (λ t. let c = rw e at t in absurd (cc c), update-All_hit P q f xs made)
  ]
