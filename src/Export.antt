-- ===== src/Export.antt =====
-- backend/internal/export/export.go. The archive is the list of the entries that are written, in order;
-- the zip library, its encryption and a failing write are left out. strings.ToLower, strings.TrimSpace,
-- strings.Map, the classes of unicode and the decimals of fmt are parameters. Texts are their bytes.
pub mod Named
use crapnote.Base.{
  ℕ, zero, suc, ◌+◌, ◌-◌, Bool, true, false, ◌&&◌, ◌||◌, Option, none, some, List, [], ◌∷◌, ◌++◌,
  map, ◌==◌, String, codes, length, take, if◌then◌else◌,
}
use crapnote.Base.Table.{first, exists, select}
use crapnote.Db.{Db, Bytes, Note}
use crapnote.Images.{same_bytes, Data}
use crapnote.Images.Scan.{image_path, match_here, find_image_ids}
use crapnote.Images.Sweep.{has_id}

-- What the package calls of the standard library.
pub record Texts : Type 0 where
  pub to_lower : Bytes → Bytes
  pub trim_space : Bytes → Bytes
  pub strings_map : (ℕ → ℕ) → Bytes → Bytes
  pub is_letter : ℕ → Bool
  pub is_digit : ℕ → Bool
  -- %d
  pub decimal : ℕ → Bytes

-- [/\\:*?"<>|]
abbrev pub is_unsafe : ℕ → Bool
is_unsafe c =
    c == 47
    || (c == 92
        || (c == 58 || (c == 42 || (c == 63 || (c == 34 || (c == 60 || (c == 62 || c == 124)))))))

-- [\s\-]
abbrev pub is_separator : ℕ → Bool
is_separator c = c == 9 || (c == 10 || (c == 12 || (c == 13 || (c == 32 || c == 45))))

-- ReplaceAllString of each run of a class by one hyphen; `inside` says that a run has begun.
unfoldable pub replace_runs : (ℕ → Bool) → Bool → Bytes → Bytes
replace_runs p inside [] = []
replace_runs p true (c ∷ cs) =
    let after = replace_runs p false cs in
    let within = replace_runs p true cs in if p c then within else c ∷ after
replace_runs p false (c ∷ cs) =
    let after = replace_runs p false cs in
    let within = replace_runs p true cs in if p c then 45 ∷ within else c ∷ after

unfoldable pub trim_left : Bytes → Bytes
trim_left [] = []
trim_left (c ∷ cs) = let rest = trim_left cs in if c == 45 then rest else c ∷ cs

unfoldable pub reversed : Bytes → Bytes
reversed [] = []
reversed (c ∷ cs) = reversed cs ++ c ∷ []

-- strings.Trim(s, "-")
unfoldable pub trim_hyphens : Bytes → Bytes
unfolding trim_left reversed
trim_hyphens s = reversed (trim_left (reversed (trim_left s)))

abbrev pub or_note : Bytes → Bytes
or_note [] = codes "note"
or_note (c ∷ s) = c ∷ s

-- ".md"
abbrev pub extension : Bytes
extension = 46 ∷ 109 ∷ 100 ∷ []

module _ (texts : Texts) where
  open texts use {to_lower, trim_space, strings_map, is_letter, is_digit, decimal}

  abbrev pub safe_rune : ℕ → ℕ
  safe_rune r = if is_letter r || (is_digit r || (r == 45 || (r == 95 || r == 46))) then r else 45

  -- The name of a title, before its extension: at most 80 bytes.
  unfoldable pub base_name : Bytes → Bytes
  unfolding replace_runs trim_hyphens
  base_name title = take 80 (
      or_note (
        trim_hyphens (
          replace_runs is_separator false
            (strings_map safe_rune (replace_runs is_unsafe false (to_lower title))))))

  unfoldable pub sanitise_filename : Bytes → Bytes
  sanitise_filename title = base_name title ++ extension

  -- The name after `i` misses of the loop: the first is the sanitised name, then base-2.md and so on.
  abbrev pub candidate : Bytes → ℕ → Bytes
  candidate base zero = base ++ extension
  candidate base (suc i) = base ++ (45 ∷ (decimal (i + 2) ++ extension))

  -- The loop `for i := 2; assigned[name]; i++`, for at most `rounds` misses.
  unfoldable pub probe : ℕ → Bytes → ℕ → List Bytes → Bytes
  probe zero base i assigned = candidate base i
  probe (suc rounds) base i assigned =
      let later = probe rounds base (suc i) assigned in
      if has_id (candidate base i) assigned then later else candidate base i

  -- The rounds are enough: there are more candidates than assigned names.
  unfoldable pub unused_name : Bytes → List Bytes → Bytes
  unfolding probe
  unused_name title assigned = probe (length assigned) (base_name title) 0 assigned

  -- mimeToExt
  unfoldable pub after_slash : Bytes → Option Bytes
  after_slash [] = none
  after_slash (c ∷ cs) = let rest = after_slash cs in if c == 47 then some cs else rest

  abbrev pub or_bin : Option Bytes → Bytes
  or_bin none = codes "bin"
  or_bin (some s) = s

  unfoldable pub mime_to_ext : Bytes → Bytes
  unfolding after_slash
  mime_to_ext mime =
      let m = to_lower (trim_space mime) in
      if same_bytes m (codes "image/png")
      then codes "png"
      else if same_bytes m (codes "image/jpeg") || same_bytes m (codes "image/jpg")
      then codes "jpg"
      else if same_bytes m (codes "image/gif")
      then codes "gif"
      else if same_bytes m (codes "image/webp")
      then codes "webp"
      else if same_bytes m (codes "image/svg+xml")
      then codes "svg"
      else if same_bytes m (codes "image/avif")
      then codes "avif"
      else or_bin (after_slash mime)

  -- The image data by id, and the file name of each bundled image.
  abbrev pub find_in {ℓ} : {A : Type ℓ} → Bytes → List (Bytes × A) → Option A
  find_in id entries = elim (first (λ e. same_bytes id e.0) entries) [
    | none ↦ none
    | some e ↦ some e.1
  ]

  abbrev pub bundled : Bytes → Option Data → List (Bytes × Bytes)
  bundled id none = []
  bundled id (some d) = (id, id ++ (46 ∷ mime_to_ext (codes d.mime))) ∷ []

  unfoldable pub collect_images :
      List Bytes → List (Bytes × Data) → List (Bytes × Bytes) → List (Bytes × Bytes)
  collect_images [] images files = files
  collect_images (id ∷ ids) images files =
      let named = files ++ bundled id (find_in id images) in
      let known = exists (λ e. same_bytes id e.0) files in
      collect_images ids images (if known then files else named)

  abbrev pub relative : Bytes → Option Bytes → Bytes
  relative tok none = image_path ++ tok
  relative tok (some file) = codes "images/" ++ file

  -- ReplaceAllStringFunc, where `skip` bytes belong to the match before.
  unfoldable pub rewrite_from : List (Bytes × Bytes) → ℕ → Bytes → Bytes
  rewrite_from files skip [] = []
  rewrite_from files (suc skip) (c ∷ cs) = rewrite_from files skip cs
  rewrite_from files zero (c ∷ cs) = elim (match_here image_path (c ∷ cs)) [
    | none ↦ c ∷ rewrite_from files 0 cs
    | some tok ↦ relative tok (find_in tok files) ++ rewrite_from files (11 + length tok) cs
  ]

  unfoldable pub rewrite_image_srcs : List (Bytes × Bytes) → Bytes → Bytes
  unfolding rewrite_from
  rewrite_image_srcs files body = rewrite_from files 0 body

  abbrev pub note_content : List (Bytes × Bytes) → Note → Bytes
  note_content files n =
      codes "# " ++ (n.title ++ (10 ∷ (10 ∷ (rewrite_image_srcs files n.body ++ 10 ∷ []))))

  -- The loop over the notes, with the names that are assigned.
  unfoldable pub note_entries : List (Bytes × Bytes) → List Bytes → List Note → List (Bytes × Bytes)
  unfolding unused_name
  note_entries files assigned [] = []
  note_entries files assigned (n ∷ notes) =
      let name = unused_name n.title assigned in
      (name, note_content files n) ∷ note_entries files (name ∷ assigned) notes

  unfoldable pub image_entries : List (Bytes × Bytes) → List (Bytes × Data) → List (Bytes × Bytes)
  image_entries [] images = []
  image_entries ((id, file) ∷ files) images =
      let rest = image_entries files images in
      elim (find_in id images) [ none ↦ rest | some d ↦ (codes "images/" ++ file, d.bytes) ∷ rest ]

  unfoldable pub all_ids : List Note → List Bytes
  all_ids [] = []
  all_ids (n ∷ notes) = find_image_ids n.body ++ all_ids notes

  -- Build: the images, in the order in which the notes mention them, and the notes.
  unfoldable pub build : List Note → List (Bytes × Data) → List (Bytes × Bytes)
  unfolding collect_images image_entries note_entries
  build notes images =
      let files = collect_images (all_ids notes) images [] in
      image_entries files images ++ note_entries files [] notes
