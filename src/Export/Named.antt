-- ===== src/Export/Named.antt =====
-- The file names of an archive: backend/internal/export/export.go.
use crapnote.Base.{
  ℕ, zero, suc, ◌+◌, ◌≤◌, ◌<◌, ◌≡◌, refl, sym, ◌∙◌, true, false, List, [], ◌∷◌, ◌++◌, arith, inl,
  inr, Bool-cases, length,
}
use crapnote.Base.Table.{exists, delete, length-delete, exists-count}
use crapnote.Db.{Bytes, Note}
use crapnote.Images.{same_bytes}
use crapnote.Images.Sweep.{has_id}
use crapnote.Images.Unused.{same_bytes-eq, has_id-delete}
use crapnote.Export.{Texts, candidate, probe, unused_name, base_name, note_entries, extension}

-- %d writes different numbers differently, and no two of its texts differ by the text behind them only.
abbrev pub IsDecimal : Texts → Type 0
IsDecimal texts = (i j : ℕ) → texts.decimal i ++ extension ≡ texts.decimal j ++ extension → i ≡ j

-- No two entries have one name, and none has a name of those that were assigned before.
abbrev pub IsDistinct : List Bytes → List (Bytes × Bytes) → Type 0
IsDistinct assigned [] = Unit
IsDistinct assigned (e ∷ entries) =
    (has_id e.0 assigned ≡ false) × IsDistinct (e.0 ∷ assigned) entries

append_left : (xs : Bytes) (ys zs : Bytes) → xs ++ ys ≡ xs ++ zs → ys ≡ zs
append_left [] ys zs e = e
append_left (x ∷ xs) ys zs e = append_left xs ys zs (cc e)

module _ (texts : Texts) (decimal : IsDecimal texts) where
  candidate-apart :
      (base : Bytes) (i j : ℕ)
      → i < j
      → same_bytes (candidate texts base j) (candidate texts base i) ≡ false
  candidate-apart base i j less =
      elim (Bool-cases (same_bytes (candidate texts base j) (candidate texts base i))) [
        | inl e ↦ absurd (differ i j less (same_bytes-eq _ _ e))
        | inr e ↦ e
      ]
    where
      differ : (i j : ℕ) → i < j → candidate texts base j ≡ candidate texts base i → ⊥
      differ i zero less e = absurd (omega arith)
      differ zero (suc j) less e =
          let tails = append_left base (45 ∷ (texts.decimal (j + 2) ++ extension)) extension e in
          let heads : ◌≡◌ {A = ℕ} 45 46 = cc tails in absurd (omega (arith, heads))
      differ (suc i) (suc j) less e =
          let tails =
            append_left base (45 ∷ (texts.decimal (j + 2) ++ extension))
              (45 ∷ (texts.decimal (i + 2) ++ extension)) e in
          let numbers : texts.decimal (j + 2) ++ extension ≡ texts.decimal (i + 2) ++ extension =
            cc tails in
          let same = decimal (j + 2) (i + 2) numbers in absurd (omega (arith, same))

  -- The probing misses at most as often as there are names left that may be met.
  probe-fresh :
      (rounds : ℕ) (base : Bytes) (i : ℕ) (assigned left : List Bytes)
      → length left ≤ rounds
      → ((j : ℕ)
          → i ≤ j
          → has_id (candidate texts base j) assigned ≡ has_id (candidate texts base j) left)
      → has_id (probe texts rounds base i assigned) assigned ≡ false
  unfolding probe
  probe-fresh zero base i assigned [] few agree = agree i (omega arith) ∙ unfold exists in refl
  probe-fresh zero base i assigned (x ∷ left) few agree = absurd (omega arith)
  probe-fresh (suc rounds) base i assigned left few agree =
      let c = candidate texts base i in
      elim (Bool-cases (has_id c assigned)) [
        | inl taken ↦
            let here : has_id c left ≡ true = sym (agree i (omega arith)) ∙ taken in
            let fewer = length-delete (same_bytes c) left in
            let some_gone = exists-count (same_bytes c) left here in
            rw taken (
              probe-fresh rounds base (suc i) assigned (delete (same_bytes c) left)
                (omega (arith, fewer, some_gone))
                (λ j above.
                  let apart = candidate-apart base i j (omega arith) in
                  let kept = has_id-delete (candidate texts base j) c left in
                  agree j (omega arith) ∙ sym (kept ∙ (rw apart (ground arith)))))
        | inr free ↦ rw free free
      ]

  -- The name that the loop ends with is not assigned yet, if %d tells numbers apart: a round for each
  -- assigned name is enough.
  pub unused_name-fresh :
      (title : Bytes) (assigned : List Bytes)
      → has_id (unused_name texts title assigned) assigned ≡ false
  unfolding unused_name
  unused_name-fresh title assigned =
      probe-fresh (length assigned) (base_name texts title) 0 assigned assigned (omega arith)
        (λ j _. refl)

  -- The notes of an archive have file names of which no two are the same, whatever their titles, if %d
  -- tells numbers apart.
  pub note_entries-IsDistinct :
      (files : List (Bytes × Bytes)) (assigned : List Bytes) (notes : List Note)
      → IsDistinct assigned (note_entries texts files assigned notes)
  unfolding note_entries
  note_entries-IsDistinct files assigned [] = tt
  note_entries-IsDistinct files assigned (n ∷ notes) = (
    unused_name-fresh n.title assigned,
    note_entries-IsDistinct files (unused_name texts n.title assigned ∷ assigned) notes,
  )
