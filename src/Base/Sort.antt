-- ===== src/Base/Sort.antt =====
-- ORDER BY as insertion sort by a comparison; rows that compare equal keep the table's order.
use mathlib.Core.Path.{◌≡◌, refl}
use mathlib.Core.Bool.{Bool, true, false}
use mathlib.Core.List.{List, [], ◌∷◌, Perm}
use mathlib.Core.List.Perm
use mathlib.Core.Logic.{inl, inr}
use crapnote.Base.Tests.{if◌then◌else◌, Bool-cases}
use Prim.Native.Nat.{ℕ, zero, suc}
use crapnote.Base.Ints.{ℤ, pos, negsuc, pos_part}
use native.Mathlib.Omega.{arith}
use crapnote.Base.Lists.{All, All-take, length, take, drop, page}
use crapnote.Base.Table.{exists}

module _ {A : Type 0} (before : A → A → Bool) where
  unfoldable pub insert_by : A → List A → List A
  insert_by x [] = x ∷ []
  insert_by x (y ∷ ys) = if before x y then x ∷ y ∷ ys else y ∷ insert_by x ys

  unfoldable pub sort_by : List A → List A
  unfolding insert_by
  sort_by [] = []
  sort_by (x ∷ xs) = insert_by x (sort_by xs)

  -- No row stands after one that it must precede.
  abbrev pub IsSorted : List A → Type 0
  IsSorted [] = Unit
  IsSorted (x ∷ xs) = All (λ y. before x y ≡ true) xs × IsSorted xs

  insert_by-perm : (x : A) (xs : List A) → Perm (insert_by x xs) (x ∷ xs)
  unfolding insert_by
  insert_by-perm x [] = Perm.refl _
  insert_by-perm x (y ∷ ys) = elim (Bool-cases (before x y)) [
    | inl e ↦ rw e (Perm.refl _)
    | inr e ↦ rw e (Perm.trans (Perm.cons y (insert_by-perm x ys)) (Perm.swap x y ys))
  ]

  pub sort_by-perm : (xs : List A) → Perm (sort_by xs) xs
  unfolding sort_by
  sort_by-perm [] = Perm.refl []
  sort_by-perm (x ∷ xs) = Perm.trans (insert_by-perm x (sort_by xs)) (Perm.cons x (sort_by-perm xs))

  pub insert_by-All {κ} :
      (P : A → Type κ) (x : A) (xs : List A) → P x → All P xs → All P (insert_by x xs)
  unfolding insert_by
  insert_by-All P x [] p h = (p, tt)
  insert_by-All P x (y ∷ ys) p (q, h) = elim (Bool-cases (before x y)) [
    | inl e ↦ rw e (p, (q, h))
    | inr e ↦ rw e (q, insert_by-All P x ys p h)
  ]

  pub sort_by-All {κ} : (P : A → Type κ) (xs : List A) → All P xs → All P (sort_by xs)
  unfolding sort_by
  sort_by-All P [] h = tt
  sort_by-All P (x ∷ xs) (p, h) = insert_by-All P x (sort_by xs) p (sort_by-All P xs h)

  insert_by-All_of {κ} :
      (P : A → Type κ) (x : A) (xs : List A) → All P (insert_by x xs) → P x × All P xs
  unfolding insert_by
  insert_by-All_of P x [] h = h
  insert_by-All_of P x (y ∷ ys) h = elim (Bool-cases (before x y)) [
    | inl e ↦ let h' : All P (x ∷ y ∷ ys) = rw e at h in h'
    | inr e ↦
        let h' : All P (y ∷ insert_by x ys) = rw e at h in
        let rest = insert_by-All_of P x ys h'.1 in (rest.0, (h'.0, rest.1))
  ]

  pub sort_by-All_of {κ} : (P : A → Type κ) (xs : List A) → All P (sort_by xs) → All P xs
  unfolding sort_by
  sort_by-All_of P [] h = tt
  sort_by-All_of P (x ∷ xs) h =
      let parts = insert_by-All_of P x (sort_by xs) h in (parts.0, sort_by-All_of P xs parts.1)

  exists-insert_by :
      (p : A → Bool) (x : A) (xs : List A)
      → exists p (insert_by x xs) ≡ (if p x then true else exists p xs)
  unfolding insert_by exists
  exists-insert_by p x [] = refl
  exists-insert_by p x (y ∷ ys) = ground (arith, exists-insert_by p x ys)

  pub exists-sort_by : (p : A → Bool) (xs : List A) → exists p (sort_by xs) ≡ exists p xs
  unfolding sort_by exists
  exists-sort_by p [] = refl
  exists-sort_by p (x ∷ xs) = ground (arith, exists-insert_by p x (sort_by xs), exists-sort_by p xs)

  length-insert_by : (x : A) (xs : List A) → length (insert_by x xs) ≡ suc (length xs)
  unfolding insert_by
  length-insert_by x [] = refl
  length-insert_by x (y ∷ ys) = ground (arith, length-insert_by x ys)

  pub length-sort_by : (xs : List A) → length (sort_by xs) ≡ length xs
  unfolding sort_by
  length-sort_by [] = refl
  length-sort_by (x ∷ xs) = omega (arith, length-insert_by x (sort_by xs), length-sort_by xs)

  IsSorted-take : (n : ℕ) (xs : List A) → IsSorted xs → IsSorted (take n xs)
  IsSorted-take zero xs h = tt
  IsSorted-take (suc n) [] h = tt
  IsSorted-take (suc n) (x ∷ xs) (p, h) =
      (All-take (λ y. before x y ≡ true) n xs p, IsSorted-take n xs h)

  IsSorted-drop : (n : ℕ) (xs : List A) → IsSorted xs → IsSorted (drop n xs)
  IsSorted-drop zero xs h = h
  IsSorted-drop (suc n) [] h = tt
  IsSorted-drop (suc n) (x ∷ xs) (p, h) = IsSorted-drop n xs h

  pub IsSorted-page :
      (limit offset : ℤ) (xs : List A) → IsSorted xs → IsSorted (page limit offset xs)
  unfolding page
  IsSorted-page (pos zero) offset xs h = h
  IsSorted-page (pos (suc n)) offset xs h =
      IsSorted-take (suc n) (drop (pos_part offset) xs) (IsSorted-drop (pos_part offset) xs h)
  IsSorted-page (negsuc n) offset xs h = h

  module _ (total : (x y : A) → before x y ≡ false → before y x ≡ true)
      (trans : (x y z : A) → before x y ≡ true → before y z ≡ true → before x z ≡ true) where
    All-before :
        (x y : A) (ys : List A)
        → before x y ≡ true
        → All (λ z. before y z ≡ true) ys
        → All (λ z. before x z ≡ true) ys
    All-before x y [] e h = tt
    All-before x y (z ∷ zs) e (p, h) = (trans x y z e p, All-before x y zs e h)

    insert_by-IsSorted : (x : A) (xs : List A) → IsSorted xs → IsSorted (insert_by x xs)
    unfolding insert_by
    insert_by-IsSorted x [] h = (tt, tt)
    insert_by-IsSorted x (y ∷ ys) (p, h) = elim (Bool-cases (before x y)) [
      | inl e ↦ rw e ((e, All-before x y ys e p), (p, h))
      | inr e ↦
          rw e
            (insert_by-All (λ z. before y z ≡ true) x ys (total x y e) p, insert_by-IsSorted x ys h)
    ]

    pub sort_by-IsSorted : (xs : List A) → IsSorted (sort_by xs)
    unfolding sort_by
    sort_by-IsSorted [] = tt
    sort_by-IsSorted (x ∷ xs) = insert_by-IsSorted x (sort_by xs) (sort_by-IsSorted xs)
