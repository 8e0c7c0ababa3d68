-- ===== src/Lockout/Eviction.antt =====
-- Whom an eviction drops: standing locks last.
use crapnote.Base.{
  ℕ, zero, suc, ◌/◌, ◌≡◌, ◌⊎◌, inl, inr, Bool, true, false, not, List, [], ◌∷◌, ◌++◌, arith, length,
  take, drop, take-append-drop, All, All-append, All-drop, Bool-cases,
}
use crapnote.Base.Table.{exists}
use crapnote.Base.Table.Every.{All-delete, All-map}
use crapnote.Base.Sort.{sort_by, IsSorted, sort_by-IsSorted, sort_by-All_of}
use crapnote.Lockout.{
  Pair, Tracker, same_key, is_locked, evicts_before, victims, evict, at_least_one,
  lockout_evict_fraction,
}

module _ (now : ℕ) where
  abbrev before : Pair → Pair → Bool
  before a b = not (evicts_before now b a)

  abbrev pub Locked : Pair → Type 0
  Locked p = is_locked p.entry now ≡ true

  abbrev pub Unlocked : Pair → Type 0
  Unlocked p = is_locked p.entry now ≡ false

  before-total : (a b : Pair) → before a b ≡ false → before b a ≡ true
  unfolding evicts_before
  before-total a b h = ground arith

  before_trans : (a b c : Pair) → before a b ≡ true → before b c ≡ true → before a c ≡ true
  unfolding evicts_before
  before_trans a b c h k = ground arith

  before-Locked : (a b : Pair) → before a b ≡ true → Locked a → Locked b
  unfolding evicts_before
  before-Locked a b h l = ground arith

  -- In a sorted list either all of the first `n` are unlocked, or all of the others are locked.
  split :
      (n : ℕ) (ps : List Pair)
      → IsSorted before ps
      → All Unlocked (take n ps) ⊎ All Locked (drop n ps)
  split zero ps s = inl tt
  split (suc n) [] s = inl tt
  split (suc n) (p ∷ ps) (after, s) = elim (Bool-cases (is_locked p.entry now)) [
    | inl l ↦ inr (All-drop Locked n ps (All-map _ Locked ps (λ q h. before-Locked p q h l) after))
    | inr u ↦ elim (split n ps s) [ inl h ↦ inl (u, h) | inr h ↦ inr h ]
  ]

  -- The key of a dropped entry is found among the dropped.
  abbrev IsDropped : List Pair → Pair → Type 0
  IsDropped dropped p = exists (λ v. same_key v.key p.key) dropped ≡ true

  dropped_lem : (dropped : List Pair) → All (IsDropped dropped) dropped
  unfolding exists
  dropped_lem [] = tt
  dropped_lem (p ∷ ps) = (
    ground arith,
    All-map (IsDropped ps) (IsDropped (p ∷ ps)) ps (λ q h. ground arith) (dropped_lem ps),
  )

  abbrev Fate : List Pair → Pair → Type 0
  Fate dropped p = IsDropped dropped p ⊎ Locked p

  -- An eviction drops a pair that is serving a lockout only if every pair that it leaves in the table
  -- is serving one too.
  pub evict_spares-Locked :
      (t : Tracker) → All Unlocked (victims now t.entries) ⊎ All Locked (evict now t).entries
  unfolding evict victims
  evict_spares-Locked t =
      let sorted = sort_by before t.entries in
      let n = at_least_one (length t.entries / lockout_evict_fraction) in
      let dropped = take n sorted in
      elim (split n sorted (sort_by-IsSorted before before-total before_trans t.entries)) [
        | inl unlocked ↦ inl unlocked
        | inr locked ↦
            let fates : All (Fate dropped) (dropped ++ drop n sorted) =
              All-append (Fate dropped) dropped (drop n sorted)
                (All-map (IsDropped dropped) (Fate dropped) dropped (λ p h. inl h)
                  (dropped_lem dropped))
                (All-map Locked (Fate dropped) (drop n sorted) (λ p h. inr h) locked) in
            inr (
              All-delete (Fate dropped) Locked _ t.entries (λ p kept fate. ground arith)
                (sort_by-All_of before (Fate dropped) t.entries (rw take-append-drop at fates)))
      ]
