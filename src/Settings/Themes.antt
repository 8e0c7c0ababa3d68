-- ===== src/Settings/Themes.antt =====
-- The stored theme: backend/internal/settings/service.go.
use crapnote.Base.{
  ℕ, ◌≡◌, refl, Bool, true, false, List, [], ◌∷◌, ◌⊎◌, inl, inr, Bool-cases, Option-cases, str_eq,
  if◌then◌else◌,
}
use crapnote.Base.Table.{exists, first, exists-first, first-holds}
use crapnote.Base.Table.Rows.{first-update}
use crapnote.Base.Table.Appended.{first-append_absent}
use crapnote.Db.{Bytes, current_timestamp}
use crapnote.Settings.{
  Setting, key_global_theme, get, set, with_value, is_theme_id, global_theme, set_global_theme,
  seeded, seed_global_theme,
}

abbrev has_theme_key : Setting → Bool
has_theme_key s = str_eq s.key key_global_theme

global_theme-set :
    (theme : Bytes) (now : ℕ) (settings : List Setting)
    → global_theme (set key_global_theme theme now settings).1 ≡ theme
unfolding global_theme set get
global_theme-set theme now settings =
    let there = exists-first has_theme_key settings in
    elim (Option-cases (first has_theme_key settings)) [
      | inl n ↦
          let absent : exists has_theme_key settings ≡ false = rw n at there in
          let row : Setting = record {
            key = key_global_theme;
            value = theme;
            updated_at = current_timestamp now;
          } in
          rw (absent, first-append_absent has_theme_key settings row n) refl
      | inr (s, n) ↦
          let present : exists has_theme_key settings ≡ true = rw n at there in
          let changed =
            first-update has_theme_key has_theme_key (with_value theme now) settings (λ x. refl) in
          let mine = first-holds has_theme_key settings s n in rw (present, changed, n, mine) refl
    ]

-- A theme that was stored is the theme that is read, if its id is well-formed; otherwise the write is
-- refused and the theme stays.
pub global_theme-set_global_theme :
    (theme : Bytes) (now : ℕ) (settings : List Setting)
    → global_theme (set_global_theme theme now settings).1
      ≡ (if is_theme_id theme then theme else global_theme settings)
unfolding set_global_theme
global_theme-set_global_theme theme now settings = elim (Bool-cases (is_theme_id theme)) [
  | inl e ↦ rw e (global_theme-set theme now settings)
  | inr e ↦ rw e refl
]

-- The theme is not set, or its id is well-formed.
unfoldable pub IsThemed : List Setting → Type 0
IsThemed settings = (global_theme settings ≡ []) ⊎ (is_theme_id (global_theme settings) ≡ true)

-- An administrator's choice, and the DEFAULT_THEME of a start of the server.
pub data ThemeCall : Type 0 where
  chooses : Bytes → ThemeCall
  starts : Bytes → ThemeCall

unfoldable pub theme_step : ℕ → ThemeCall → List Setting → List Setting
theme_step now (chooses theme) settings = (set_global_theme theme now settings).1
theme_step now (starts theme) settings = (seed_global_theme theme now settings).1

unfoldable pub theme_run : List (ℕ × ThemeCall) → List Setting → List Setting
theme_run [] settings = settings
theme_run ((now, c) ∷ calls) settings = theme_run calls (theme_step now c settings)

set_global_theme-IsThemed :
    (theme : Bytes) (now : ℕ) (settings : List Setting)
    → IsThemed settings
    → IsThemed (set_global_theme theme now settings).1
unfolding IsThemed
set_global_theme-IsThemed theme now settings h =
    let read = global_theme-set_global_theme theme now settings in
    elim (Bool-cases (is_theme_id theme)) [
      | inl e ↦ let same = rw e at read in inr (rw same e)
      | inr e ↦ let same = rw e at read in rw same h
    ]

seeded-IsThemed :
    (current theme : Bytes) (now : ℕ) (settings : List Setting)
    → IsThemed settings
    → IsThemed (seeded current theme now settings).1
seeded-IsThemed [] theme now settings h = set_global_theme-IsThemed theme now settings h
seeded-IsThemed (c ∷ cs) theme now settings h = h

theme_step-IsThemed :
    (now : ℕ) (c : ThemeCall) (settings : List Setting)
    → IsThemed settings
    → IsThemed (theme_step now c settings)
unfolding theme_step seed_global_theme
theme_step-IsThemed now (chooses theme) settings h = set_global_theme-IsThemed theme now settings h
theme_step-IsThemed now (starts theme) settings h =
    seeded-IsThemed (global_theme settings) theme now settings h

-- Through any choices of administrators and starts of the server, the theme that clients are given is
-- empty or has a well-formed id.
pub theme_run-IsThemed :
    (calls : List (ℕ × ThemeCall)) (settings : List Setting)
    → IsThemed settings
    → IsThemed (theme_run calls settings)
unfolding theme_run
theme_run-IsThemed [] settings h = h
theme_run-IsThemed ((now, c) ∷ calls) settings h =
    theme_run-IsThemed calls (theme_step now c settings) (theme_step-IsThemed now c settings h)
