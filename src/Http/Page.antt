-- ===== src/Http/Page.antt =====
-- backend/internal/httpx/pagination.go. strconv.Atoi is a parameter; a query value that is missing is
-- empty.
use crapnote.Base.{
  ℕ, false, Option, none, some, String, str_eq, if◌then◌else◌, ◌≤◌, ◌≡◌, arith, inl, inr,
  Bool-cases, refl, List, length, page, length-page,
}
use crapnote.Base.Ints.{ℤ, pos, negsuc, ltb_ℤ, leb_ℤ}

abbrev pub default_page_size : ℕ
default_page_size = 50

abbrev pub max_page_size : ℕ
max_page_size = 100

pub record Page : Type 0 where
  pub limit : ℤ
  pub offset : ℤ

abbrev pub clamp_limit : Option ℤ → ℤ
clamp_limit none = pos default_page_size
clamp_limit (some n) =
    if ltb_ℤ (pos 0) n
    then (if ltb_ℤ (pos max_page_size) n then pos max_page_size else n)
    else pos default_page_size

abbrev pub clamp_offset : Option ℤ → ℤ
clamp_offset none = pos 0
clamp_offset (some n) = if leb_ℤ (pos 0) n then n else pos 0

module _ (atoi : String → Option ℤ) where
  abbrev read_number : String → Option ℤ
  read_number s = if str_eq s "" then none else atoi s

  unfoldable pub parse_page : String → String → Page
  parse_page limit offset = record {
    limit = clamp_limit (read_number limit);
    offset = clamp_offset (read_number offset);
  }

  clamp_limit-bounds :
      (n : Option ℤ) → (k : ℕ) × (clamp_limit n ≡ pos k) × (1 ≤ k) × (k ≤ max_page_size)
  clamp_limit-bounds none = (50, refl, omega arith, omega arith)
  clamp_limit-bounds (some (negsuc n)) =
      let low : ltb_ℤ (pos 0) (negsuc n) ≡ false = ground arith in
      rw low (50, refl, omega arith, omega arith)
  clamp_limit-bounds (some (pos n)) = elim (Bool-cases (ltb_ℤ (pos 0) (pos n))) [
    | inl some_rows ↦ elim (Bool-cases (ltb_ℤ (pos max_page_size) (pos n))) [
      | inl above ↦ rw (some_rows, above) (100, refl, omega arith, omega arith)
      | inr within ↦ rw (some_rows, within) (n, refl, ground arith, ground arith)
    ]
    | inr no_rows ↦ rw no_rows (50, refl, omega arith, omega arith)
  ]

  -- Whatever the query says, a listing through a parsed page has at most 100 items.
  pub length-parse_page {ℓ} :
      {A : Type ℓ} (limit offset : String) (xs : List A)
      → length (page (parse_page limit offset).limit (parse_page limit offset).offset xs)
        ≤ max_page_size
  unfolding parse_page
  length-parse_page limit offset xs =
      let (k, e, low, high) = clamp_limit-bounds (read_number limit) in
      let bound = length-page k (clamp_offset (read_number offset)) xs (omega arith) in
      rw e (omega arith)
