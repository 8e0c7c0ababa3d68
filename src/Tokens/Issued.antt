-- ===== src/Tokens/Issued.antt =====
-- The row that Create of backend/internal/tokens/repository.go leaves.
use text.Mathlib.TextPositions.{eq_refl}
use crapnote.Base.{
  ℕ, suc, ◌≡◌, refl, Bool, not, ◌||◌, Option, none, ◌==◌, String, str_eq, arith, inl, inr,
  Bool-cases,
}
use crapnote.Base.Outcome.{ok, or_not_found-ok}
use crapnote.Base.Table.{first, exists, exists-first}
use crapnote.Base.Table.Appended.{first-append_absent}
use crapnote.Base.Table.Keyed.{KeysUpTo, first-append_new}
use crapnote.Db.{Db, Bytes, Token, Scope}
use crapnote.Tokens.Repo

-- A stored token, as its creation left it.
abbrev pub Stored : Db → Db → ℕ → Bytes → String → Bytes → Scope → Option ℕ → ℕ → Token → Type 0
Stored db db' user_id name hash prefix scope until now t =
    (t ≡ Repo.new_token (suc db.token_seq) user_id name hash prefix scope until now)
    × (Repo.find_by_hash hash db' ≡ ok t)
    × (db'.users ≡ db.users)

pub create-Stored :
    (user_id : ℕ) (name : Bytes) (hash : String) (prefix : Bytes) (scope : Scope) (until : Option ℕ)
    (now : ℕ) (db : Db) (t : Token)
    → KeysUpTo (λ (x : Token). x.id) db.token_seq db.tokens
    → (Repo.create user_id name hash prefix scope until now db).0 ≡ ok t
    → Stored db
        (Repo.create user_id name hash prefix scope until now db).1
        user_id
        name
        hash
        prefix
        scope
        until
        now
        t
unfolding Repo.create Repo.find_by_id Repo.find_by_hash
create-Stored user_id name hash prefix scope until now db t below h =
    let row = Repo.new_token (suc db.token_seq) user_id name hash prefix scope until now in
    let taken : Bool =
      exists (λ x. str_eq x.token_hash hash) db.tokens
      || not (exists (λ u. u.id == user_id) db.users) in
    elim (Bool-cases taken) [
      | inl e ↦ let h' = rw e at h in absurd (cc h')
      | inr e ↦
          let read = or_not_found-ok _ t (rw e at h) in
          let made =
            first-append_new (λ (x : Token). x.id) db.token_seq db.tokens row below (omega arith) in
          let fresh : first (λ x. str_eq x.token_hash hash) db.tokens ≡ none =
            ground (arith, exists-first (λ x. str_eq x.token_hash hash) db.tokens) in
          let found = first-append_absent (λ x. str_eq x.token_hash hash) db.tokens row fresh in
          let same : t ≡ row = cc (read, made) in
          rw (e, same) (refl, rw (found, eq_refl hash) refl, refl)
    ]
