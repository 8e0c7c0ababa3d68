-- ===== src/Auth/Rewritten.antt =====
-- The row of a user after set_password and unlock: backend/internal/auth/repository.go.
use crapnote.Base.{ℕ, ◌≡◌, refl, inl, inr, none, arith, ◌==◌, String, Bool-cases, Option-cases}
use crapnote.Base.Outcome.{ok, or_not_found-ok}
use crapnote.Base.Table.{first, count, first-holds, first-count}
use crapnote.Base.Table.Rows.{first-update}
use crapnote.Db.{Db, User}
use crapnote.Auth.Users
use crapnote.Auth.Users.{find_by_id, set_password, unlock}

pub set_password-hash :
    (id : ℕ) (hash : String) (db : Db) (u : User)
    → (set_password id hash db).0 ≡ ok tt
    → find_by_id id (set_password id hash db).1 ≡ ok u
    → u.password_hash ≡ hash
unfolding set_password find_by_id
set_password-hash id hash db u h e = elim (Bool-cases (count (λ v. v.id == id) db.users == 0)) [
  | inl c ↦ let h' = rw c at h in absurd (cc h')
  | inr c ↦
      let changed =
        first-update (λ v. v.id == id) (λ v. v.id == id) (λ v. record v { password_hash = hash })
          db.users (λ x. refl) in
      let e' = or_not_found-ok _ u (rw c at e) in
      elim (Option-cases (first (λ v. v.id == id) db.users)) [
        | inl n ↦ let x = rw n at changed in absurd (cc (x, e'))
        | inr (v, n) ↦
            let x = rw n at changed in
            let mine = first-holds (λ v. v.id == id) db.users v n in ground arith
      ]
]

pub unlock-found_by :
    (id : ℕ) (db : Db) (u : User)
    → find_by_id id (unlock id db).1 ≡ ok u
    → (u.id ≡ id)
      × (u.locked_at ≡ none)
      × (v : User) × (find_by_id id db ≡ ok v)
      × (u.password_hash ≡ v.password_hash)
unfolding unlock find_by_id
unlock-found_by id db u e =
    let changed =
      first-update (λ v. v.id == id) (λ v. v.id == id) (Users.with_lock none none) db.users
        (λ x. refl) in
    elim (Option-cases (first (λ v. v.id == id) db.users)) [
      | inl n ↦ let x = rw n at changed in ground arith
      | inr (v, n) ↦
          let x = rw n at changed in
          let mine = first-holds (λ v. v.id == id) db.users v n in
          let there = first-count (λ v. v.id == id) (λ v. v.id == id) db.users v n mine in
          elim (Bool-cases (count (λ v. v.id == id) db.users == 0)) [
            | inl c ↦ absurd (ground arith)
            | inr c ↦
                let e' = or_not_found-ok _ u (rw c at e) in
                (ground arith, ground arith, v, rw n refl, ground arith)
          ]
    ]

pub write-invites :
    (f : User → User) (id : ℕ) (db : Db) → (Users.write f id db).1.invites ≡ db.invites
unfolding Users.write
write-invites f id db = ground arith
