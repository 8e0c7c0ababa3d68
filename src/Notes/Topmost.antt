-- ===== src/Notes/Topmost.antt =====
-- SetPinned gives a note the first place of the pinned section.
use crapnote.Base.{
  ℕ, ◌≡◌, refl, inl, inr, Bool, true, not, ◌&&◌, Option, none, some, List, [], ◌∷◌, arith, ◌==◌,
  All, Bool-cases, Option-cases,
}
use crapnote.Base.Ints.{ℤ, ltb_ℤ, ◌≤ℤ◌, ◌<ℤ◌, pred_ℤ, pred_ℤ-lt}
use crapnote.Base.Outcome.{ok}
use crapnote.Base.Table
use crapnote.Base.Table.{count, select}
use crapnote.Base.Table.Every.{All-map, All-update, select-All, All-select_of, update-All_hit}
use crapnote.Db.{Db, Note}
use crapnote.Notes.Pins.{min_pin_order, top_slot, with_pin, set_pinned}

IsMinimum : Option ℤ → List Note → Type 0
IsMinimum none ns = ns ≡ []
IsMinimum (some m) ns = All (λ n. m ≤ℤ n.pin_order) ns

min_pin_order-IsMinimum : (ns : List Note) → IsMinimum (min_pin_order ns) ns
unfolding min_pin_order IsMinimum
min_pin_order-IsMinimum [] = refl
min_pin_order-IsMinimum (n ∷ ns) =
    let rest = min_pin_order-IsMinimum ns in
    elim (Option-cases (min_pin_order ns)) [
      | inl e ↦ let none_left : ns ≡ [] = rw e at rest in rw (e, none_left) (omega arith, tt)
      | inr (m, e) ↦
          let above : All (λ x. m ≤ℤ x.pin_order) ns = rw e at rest in
          elim (Bool-cases (ltb_ℤ n.pin_order m)) [
            | inl less ↦
                rw (e, less)
                  (
                    omega arith,
                    All-map (λ x. m ≤ℤ x.pin_order) (λ x. n.pin_order ≤ℤ x.pin_order) ns
                        (λ x h. ground arith) above,
                  )
            | inr more ↦ rw (e, more) (ground arith, above)
          ]
    ]

pub top_slot-All :
    (notes : List Note) (user_id id : ℕ)
    → All
        (λ n. top_slot notes user_id id <ℤ n.pin_order)
        (select (λ p. p.user_id == user_id && (p.pinned && not (p.id == id))) notes)
unfolding top_slot IsMinimum
top_slot-All notes user_id id =
    let others = select (λ p. p.user_id == user_id && (p.pinned && not (p.id == id))) notes in
    let least = min_pin_order-IsMinimum others in
    elim (Option-cases (min_pin_order others)) [
      | inl e ↦ let none_left : others ≡ [] = rw e at least in rw none_left tt
      | inr (m, e) ↦
          let above : All (λ x. m ≤ℤ x.pin_order) others = rw e at least in
          let below = pred_ℤ-lt m in
          rw e (
            All-map (λ x. m ≤ℤ x.pin_order) (λ x. pred_ℤ m <ℤ x.pin_order) others
              (λ x h. omega arith) above)
    ]

abbrev pub is_own : ℕ → ℕ → Note → Bool
is_own user_id id n = n.id == id && n.user_id == user_id

abbrev pub is_other_pinned : ℕ → ℕ → Note → Bool
is_other_pinned user_id id p = p.user_id == user_id && (p.pinned && not (p.id == id))

-- A SetPinned that succeeds in pinning a note gives it a pin order below that of every other
-- pinned note of its user, and leaves the other notes as they were.
pub set_pinned-topmost :
    (id user_id : ℕ) (db : Db)
    → (set_pinned id user_id true db).0 ≡ ok tt
    → let notes = (set_pinned id user_id true db).1.notes in
      (slot : ℤ) × All
        (λ n. (n.pinned ≡ true) × (n.pin_order ≡ slot))
        (select (is_own user_id id) notes)
      × All (λ p. slot <ℤ p.pin_order) (select (is_other_pinned user_id id) notes)
      × (notes ≡ Table.update (is_own user_id id) (with_pin true slot) db.notes)
unfolding set_pinned
set_pinned-topmost id user_id db h =
    let slot = top_slot db.notes user_id id in
    let notes = Table.update (is_own user_id id) (with_pin true slot) db.notes in
    let own =
      update-All_hit (λ n. (n.pinned ≡ true) × (n.pin_order ≡ slot)) (is_own user_id id)
        (with_pin true slot) db.notes (λ x. (refl, refl)) in
    let others =
      All-update (λ p. is_other_pinned user_id id p ≡ true → slot <ℤ p.pin_order)
        (is_own user_id id) (with_pin true slot) db.notes (λ x hit _ other. absurd (ground arith))
        (select-All (λ p. slot <ℤ p.pin_order) (is_other_pinned user_id id) db.notes
          (top_slot-All db.notes user_id id)) in
    elim (Bool-cases (count (is_own user_id id) db.notes == 0)) [
      | inl e ↦ let h' = rw e at h in absurd (cc h')
      | inr e ↦ rw e (
        slot,
        All-select_of (λ n. (n.pinned ≡ true) × (n.pin_order ≡ slot)) (is_own user_id id) notes own,
        All-select_of (λ p. slot <ℤ p.pin_order) (is_other_pinned user_id id) notes others,
        refl,
      )
    ]
