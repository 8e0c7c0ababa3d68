-- ===== src/Tests/Export.antt =====
-- Three notes of which two have one title, and the third the name that the second would get.
use crapnote.Base.{
  arith, ℕ, zero, suc, ◌≡◌, refl, ap, true, false, List, [], ◌∷◌, codes, length, length-append,
}
use crapnote.Db.{Bytes, Note}
use crapnote.Export.{Texts, extension, note_entries}
use crapnote.Export.Named.{IsDecimal, IsDistinct, note_entries-IsDistinct}
use crapnote.Tests.{note}

-- Numbers as tallies.
abbrev tally : ℕ → Bytes
tally zero = []
tally (suc n) = 49 ∷ tally n

abbrev plain_texts : Texts
plain_texts = record {
  to_lower = λ s. s;
  trim_space = λ s. s;
  strings_map = λ f s. s;
  is_letter = λ c. true;
  is_digit = λ c. false;
  decimal = tally;
}

length-tally : (n : ℕ) → length (tally n) ≡ n
length-tally zero = refl
length-tally (suc n) = ap suc (length-tally n)

tally-IsDecimal : IsDecimal plain_texts
tally-IsDecimal i j e =
    let a = length-append (tally i) extension in
    let b = length-append (tally j) extension in
    let same = ap (λ (s : Bytes). length s) e in
    omega (arith, a, b, same, length-tally i, length-tally j)

abbrev titled : Bytes → Note
titled title = record (note 1 1 false) { title = title }

abbrev notes : List Note
notes = titled (codes "a-11") ∷ titled (codes "a") ∷ titled (codes "a") ∷ titled (codes "a") ∷ []

note_entries-IsDistinct_example : IsDistinct [] (note_entries plain_texts [] [] notes)
note_entries-IsDistinct_example = note_entries-IsDistinct plain_texts tally-IsDecimal [] [] notes
