-- ===== src/Settings.antt =====
-- backend/internal/settings: model.go, repository.go, service.go and handler.go. The table app_settings is
-- a state of its own, which nothing else refers to.
pub mod Themes
use crapnote.Base.{
  ℕ, Bool, true, false, not, ◌&&◌, ◌||◌, Option, none, some, List, [], ◌∷◌, ◌++◌, ◌==◌, leb, String,
  str_eq, length, if◌then◌else◌,
}
use crapnote.Base.Outcome.{Result, ok, err, Error, invalid_theme, or_not_found, Op, done}
use crapnote.Base.Table
use crapnote.Base.Table.{exists, first}
use crapnote.Db.{Bytes, current_timestamp}
use crapnote.Http.{
  Reply, sends, Handler, given, after, respond, write_error, internal_error, no_content,
}

pub record Setting : Type 0 where
  pub key : String
  pub value : Bytes
  pub updated_at : ℕ

abbrev pub key_global_theme : String
key_global_theme = "global_theme"

abbrev pub value_of : Option Setting → Result Bytes
value_of none = or_not_found none
value_of (some s) = ok s.value

unfoldable pub get : String → List Setting → Result Bytes
get key settings = value_of (first (λ s. str_eq s.key key) settings)

abbrev pub with_value : Bytes → ℕ → Setting → Setting
with_value value now s = record s { value = value; updated_at = current_timestamp now }

-- INSERT … ON CONFLICT(key) DO UPDATE
unfoldable pub set : String → Bytes → ℕ → Op (List Setting) (Unit {0})
set key value now settings =
    let row : Setting = record { key = key; value = value; updated_at = current_timestamp now } in
    done (
      if exists (λ s. str_eq s.key key) settings
      then Table.update (λ s. str_eq s.key key) (with_value value now) settings
      else settings ++ row ∷ [])

-- [a-z0-9] and [a-z0-9-]
abbrev pub is_theme_start : ℕ → Bool
is_theme_start c = (leb 97 c && leb c 122) || (leb 48 c && leb c 57)

unfoldable pub are_theme_chars : Bytes → Bool
are_theme_chars [] = true
are_theme_chars (c ∷ cs) = (is_theme_start c || c == 45) && are_theme_chars cs

-- ^[a-z0-9][a-z0-9-]{0,63}$
unfoldable pub is_theme_id : Bytes → Bool
is_theme_id [] = false
is_theme_id (c ∷ cs) = is_theme_start c && (leb (length cs) 63 && are_theme_chars cs)

abbrev pub or_empty : Result Bytes → Bytes
or_empty (ok v) = v
or_empty (err e) = []

-- GlobalTheme, whose only error here is a missing row.
unfoldable pub global_theme : List Setting → Bytes
unfolding get
global_theme settings = or_empty (get key_global_theme settings)

unfoldable pub set_global_theme : Bytes → ℕ → Op (List Setting) (Unit {0})
set_global_theme theme now settings =
    if is_theme_id theme
    then set key_global_theme theme now settings
    else (err invalid_theme, settings)

abbrev pub seeded : Bytes → Bytes → ℕ → Op (List Setting) (Unit {0})
seeded [] theme now settings = set_global_theme theme now settings
seeded (c ∷ cs) theme now settings = done settings

unfoldable pub seed_global_theme : Bytes → ℕ → Op (List Setting) (Unit {0})
seed_global_theme theme now settings = seeded (global_theme settings) theme now settings

abbrev pub theme_failure : {A : Type 0} → Error → Reply A
theme_failure invalid_theme = write_error 400 "invalid theme id"
theme_failure _ = internal_error

unfoldable pub get_theme : Handler (List Setting) Bytes
get_theme = respond (λ settings. sends 200 (global_theme settings))

unfoldable pub set_theme : Option Bytes → ℕ → Handler (List Setting) (Unit {0})
set_theme body now =
    given body "invalid json" (λ theme.
      after (set_global_theme theme now) theme_failure (λ done. respond (λ _. no_content)))
