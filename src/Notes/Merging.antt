-- ===== src/Notes/Merging.antt =====
-- mergePinOrder against its contract: the pinned notes, each once, the requested ones first.
use crapnote.Base.{
  ℕ, ◌≡◌, refl, inl, inr, true, false, not, ◌&&◌, ◌||◌, List, [], ◌∷◌, ◌++◌, arith, ◌==◌,
  Bool-cases,
}
use crapnote.Notes.Pins.{contains, place_requested, place_rest, merge_pin_order}

-- No id stands twice.
abbrev pub IsOnce : List ℕ → Type 0
IsOnce [] = Unit
IsOnce (x ∷ xs) = (contains xs x ≡ false) × IsOnce xs

contains-append :
    (xs ys : List ℕ) (x : ℕ) → contains (xs ++ ys) x ≡ (contains xs x || contains ys x)
unfolding contains
contains-append [] ys x = refl
contains-append (y ∷ xs) ys x = ground (arith, contains-append xs ys x)

append-IsOnce : (xs : List ℕ) (y : ℕ) → contains xs y ≡ false → IsOnce xs → IsOnce (xs ++ y ∷ [])
unfolding contains
append-IsOnce [] y absent h = (refl, tt)
append-IsOnce (x ∷ xs) y absent (new, h) =
    (rw (contains-append xs (y ∷ []) x) (ground arith), append-IsOnce xs y (ground arith) h)

-- What is placed comes from `current`.
abbrev Sub : List ℕ → List ℕ → Type 0
Sub xs ys = (x : ℕ) → contains xs x ≡ true → contains ys x ≡ true

nothing-Sub : (ys : List ℕ) → Sub [] ys
unfolding contains
nothing-Sub ys x h = absurd (cc h)

append-Sub : (xs ys : List ℕ) (y : ℕ) → contains ys y ≡ true → Sub xs ys → Sub (xs ++ y ∷ []) ys
unfolding contains
append-Sub xs ys y there sub x h =
    let split = contains-append xs (y ∷ []) x in ground (arith, split, sub x)

place_requested-Sub :
    (current final ids : List ℕ)
    → Sub final current
    → Sub (place_requested current final ids) current
unfolding place_requested
place_requested-Sub current final [] sub = sub
place_requested-Sub current final (id ∷ ids) sub =
    elim (Bool-cases (not (contains current id) || contains final id)) [
      | inl e ↦ rw e (place_requested-Sub current final ids sub)
      | inr e ↦ rw e (
          place_requested-Sub current (final ++ id ∷ []) ids
            (append-Sub final current id (ground arith) sub))
    ]

place_requested-IsOnce :
    (current final ids : List ℕ) → IsOnce final → IsOnce (place_requested current final ids)
unfolding place_requested
place_requested-IsOnce current final [] h = h
place_requested-IsOnce current final (id ∷ ids) h =
    elim (Bool-cases (not (contains current id) || contains final id)) [
      | inl e ↦ rw e (place_requested-IsOnce current final ids h)
      | inr e ↦ rw e (
          place_requested-IsOnce current (final ++ id ∷ []) ids
            (append-IsOnce final id (ground arith) h))
    ]

contains-place_rest :
    (placed ids : List ℕ) (x : ℕ)
    → contains (place_rest placed ids) x ≡ (contains ids x && not (contains placed x))
unfolding place_rest contains
contains-place_rest placed [] x = refl
contains-place_rest placed (id ∷ ids) x =
    let rest = contains-place_rest placed ids x in
    elim (Bool-cases (id == x)) [
      | inl e ↦ let same : id ≡ x = ground arith in ground (arith, rest)
      | inr e ↦ ground (arith, rest)
    ]

place_rest-IsOnce : (placed ids : List ℕ) → IsOnce ids → IsOnce (place_rest placed ids)
unfolding place_rest
place_rest-IsOnce placed [] h = tt
place_rest-IsOnce placed (id ∷ ids) (new, h) = elim (Bool-cases (contains placed id)) [
  | inl e ↦ rw e (place_rest-IsOnce placed ids h)
  | inr e ↦ rw e (rw (contains-place_rest placed ids id, new) refl, place_rest-IsOnce placed ids h)
]

join-IsOnce :
    (xs ys : List ℕ)
    → IsOnce xs
    → IsOnce ys
    → ((x : ℕ) → contains ys x ≡ true → contains xs x ≡ false)
    → IsOnce (xs ++ ys)
unfolding contains
join-IsOnce [] ys h k apart = k
join-IsOnce (x ∷ xs) ys (new, h) k apart = (
  rw (contains-append xs ys x) (ground (arith, apart x)),
  join-IsOnce xs ys h k (λ y there. ground (arith, apart y there)),
)

-- The new order holds exactly the notes that are pinned, whatever was requested: an id that is not
-- pinned is left out, and a pinned note that the request omits stays in.
pub contains-merge_pin_order :
    (current requested : List ℕ) (x : ℕ)
    → contains (merge_pin_order current requested) x ≡ contains current x
unfolding merge_pin_order
contains-merge_pin_order current requested x =
    let placed = place_requested current [] requested in
    ground (
      arith,
      contains-append placed (place_rest placed current) x,
      contains-place_rest placed current x,
      place_requested-Sub current [] requested (nothing-Sub current) x,
    )

-- Where the order that was read has no note twice, no note gets two places in the new order,
-- however often the request names it.
pub merge_pin_order-IsOnce :
    (current requested : List ℕ) → IsOnce current → IsOnce (merge_pin_order current requested)
unfolding merge_pin_order
merge_pin_order-IsOnce current requested h =
    let placed = place_requested current [] requested in
    join-IsOnce placed (place_rest placed current) (place_requested-IsOnce current [] requested tt)
      (place_rest-IsOnce placed current h)
      (λ x there. ground (arith, contains-place_rest placed current x))
