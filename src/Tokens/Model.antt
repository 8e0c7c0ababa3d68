-- ===== src/Tokens/Model.antt =====
-- backend/internal/tokens/model.go: the prefix of a token, its scopes, and when it is active.
use crapnote.Base.{ℕ, ◌*◌, Bool, true, false, ◌&&◌, Option, none, some, [], ◌∷◌, ltb, is_none}
use crapnote.Db.{Bytes, Token, Scope, read, read_write, other, second}

-- "cnp_"
abbrev pub token_prefix : Bytes
token_prefix = 99 ∷ (110 ∷ (112 ∷ (95 ∷ [])))

abbrev pub display_prefix_len : ℕ
display_prefix_len = 8

-- 90 * 24 * time.Hour
abbrev pub default_ttl : ℕ
default_ttl = 90 * (24 * (3600 * second))

abbrev pub max_name_len : ℕ
max_name_len = 80

-- Scope.Valid and Scope.AllowsWrite
unfoldable pub valid : Scope → Bool
valid read = true
valid read_write = true
valid (other s) = false

unfoldable pub allows_write : Scope → Bool
allows_write read = false
allows_write read_write = true
allows_write (other s) = false

abbrev pub is_unexpired : Option ℕ → ℕ → Bool
is_unexpired none now = true
is_unexpired (some at) now = ltb now at

-- Token.Active
unfoldable pub active : Token → ℕ → Bool
active t now = is_none t.revoked_at && is_unexpired t.expires_at now
