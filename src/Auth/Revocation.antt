-- ===== src/Auth/Revocation.antt =====
-- A new password ends the sessions of its user, and an invite is spent once.
use crapnote.Base.{
  ℕ, ◌≤◌, ◌≡◌, refl, ◌∙◌, inl, inr, Bool, true, false, none, some, arith, ◌==◌, ltb, String, str_eq,
  Bool-cases, Option-cases,
}
use crapnote.Base.Outcome.{ok, err, Result-cases, invite_invalid}
use crapnote.Base.Table.{first, count, exists-delete_own}
use crapnote.Base.Table.Rows.{first-delete_only}
use crapnote.Db.{Db, User, Invite}
use crapnote.Auth.Users
use crapnote.Auth.Users.{find_by_id, set_password, unlock}
use crapnote.Auth.Invites
use crapnote.Auth.Invites.{find_by_token_hash}
use crapnote.Auth.Service.{Crypto}
use crapnote.Auth.Account.{
  revoke_user_sessions, revoke_or_log, change_password, consume_invite, setup_with, complete_setup,
  validate_session,
}
use crapnote.Auth.Validation.{validate_session-none}
use crapnote.Auth.Rewritten.{set_password-hash, unlock-found_by, write-invites}

-- bcrypt accepts a password against a hash that it made from it.
abbrev pub IsBcrypt : Crypto → Type 0
IsBcrypt crypto =
    (salt : ℕ) (password hash : String)
    → crypto.generate_hash salt password ≡ some hash
    → crypto.compare_hash hash password ≡ true

-- Neither the rows of users nor the invites change when the sessions of a user are revoked.
logged-found :
    (lost : Bool) (user id : ℕ) (db : Db) (u : User)
    → find_by_id id (revoke_or_log lost user db).1 ≡ ok u
    → find_by_id id db ≡ ok u
unfolding find_by_id revoke_user_sessions
logged-found true user id db u h = h
logged-found false user id db u h = h

logged-invites :
    (lost : Bool) (user : ℕ) (db : Db) → (revoke_or_log lost user db).1.invites ≡ db.invites
unfolding revoke_user_sessions
logged-invites true user db = refl
logged-invites false user db = refl

-- A session that is accepted for a user whose sessions were to be revoked: the revocation failed.
logged-revokes :
    (lost : Bool) (session_id : String) (id now : ℕ) (db : Db) (u : User)
    → (validate_session session_id now (revoke_or_log lost id db).1).0 ≡ ok u
    → u.id ≡ id
    → lost ≡ true
unfolding revoke_user_sessions
logged-revokes true session_id id now db u accepted same = refl
logged-revokes false session_id id now db u accepted same = absurd (
    validate_session-none session_id id now (revoke_user_sessions id db).1 u
      (exists-delete_own (λ s. s.user_id == id) db.sessions) accepted same)

module _ (crypto : Crypto) where
  change_password-lem :
      (id : ℕ) (password : String) (salt : ℕ) (lost : Bool) (db : Db)
      → (change_password crypto id password salt lost db).0 ≡ ok tt
      → (hash : String) × (crypto.generate_hash salt password ≡ some hash)
        × ((set_password id hash db).0 ≡ ok tt)
        × ((change_password crypto id password salt lost db).1
            ≡ (revoke_or_log lost id (set_password id hash db).1).1)
  unfolding change_password
  change_password-lem id password salt lost db h = elim (Result-cases (find_by_id id db)) [
    | inl (u, e) ↦ elim (Option-cases (crypto.generate_hash salt password)) [
      | inl n ↦ let h' = rw n at (rw e at h) in absurd (cc h')
      | inr (hash, n) ↦ elim (Result-cases (set_password id hash db).0) [
        | inl (t, s) ↦ (hash, n, s, rw (e, n, s) refl)
        | inr (x, s) ↦ let h' = rw s at (rw n at (rw e at h)) in absurd (cc h')
      ]
    ]
    | inr (x, e) ↦ let h' = rw e at h in absurd (cc h')
  ]

  -- After a change of password that succeeds, the user's row holds a hash of the new password, if bcrypt
  -- accepts a password against a hash that it made from it.
  pub change_password-opens :
      (id : ℕ) (password : String) (salt : ℕ) (lost : Bool) (db : Db) (u : User)
      → IsBcrypt crypto
      → (change_password crypto id password salt lost db).0 ≡ ok tt
      → find_by_id id (change_password crypto id password salt lost db).1 ≡ ok u
      → crypto.compare_hash u.password_hash password ≡ true
  change_password-opens id password salt lost db u bcrypt h found =
      let (hash, made, wrote, after) = change_password-lem id password salt lost db h in
      let read = logged-found lost id id (set_password id hash db).1 u (rw after at found) in
      rw (set_password-hash id hash db u wrote read) (bcrypt salt password hash made)

  -- In the state that a successful change of password left, a session id is accepted for the user
  -- only if the revocation of the sessions failed.
  pub change_password-revokes :
      (id : ℕ) (password : String) (salt : ℕ) (lost : Bool) (db : Db) (session_id : String)
      (now : ℕ) (u : User)
      → (change_password crypto id password salt lost db).0 ≡ ok tt
      → (validate_session session_id now (change_password crypto id password salt lost db).1).0
        ≡ ok u
      → u.id ≡ id
      → lost ≡ true
  change_password-revokes id password salt lost db session_id now u h accepted same =
      let (hash, made, wrote, after) = change_password-lem id password salt lost db h in
      logged-revokes lost session_id id now (set_password id hash db).1 u (rw after at accepted)
        same

  -- What a setup leaves before its last step.
  abbrev unsettled : Invite → String → Db → Db
  unsettled inv hash db =
      (Invites.delete inv.id (unlock inv.user_id (set_password inv.user_id hash db).1).1).1

  consume_invite-lem :
      (inv : Invite) (password : String) (salt now : ℕ) (lost : Bool) (db : Db) (u : User)
      → (consume_invite crypto inv password salt now lost db).0 ≡ ok u
      → (now ≤ inv.expires_at)
        × (hash : String) × (crypto.generate_hash salt password ≡ some hash)
        × ((set_password inv.user_id hash db).0 ≡ ok tt)
        × (find_by_id inv.user_id (unsettled inv hash db) ≡ ok u)
        × ((consume_invite crypto inv password salt now lost db).1
            ≡ (revoke_or_log lost inv.user_id (unsettled inv hash db)).1)
  unfolding consume_invite
  consume_invite-lem inv password salt now lost db u h =
      elim (Bool-cases (ltb inv.expires_at now)) [
        | inl late ↦ let h' = rw late at h in absurd (cc h')
        | inr early ↦ elim (Option-cases (crypto.generate_hash salt password)) [
          | inl n ↦ let h' = rw n at (rw early at h) in absurd (cc h')
          | inr (hash, n) ↦ elim (Result-cases (set_password inv.user_id hash db).0) [
            | inl (t, s) ↦ (
              ground arith,
              hash,
              n,
              s,
              logged-found lost inv.user_id inv.user_id (unsettled inv hash db) u
                  (rw (early, n, s) at h),
              rw (early, n, s) refl,
            )
            | inr (x, s) ↦ let h' = rw s at (rw n at (rw early at h)) in absurd (cc h')
          ]
        ]
      ]

  -- A setup that succeeds was called with the token of an invite that had not expired. It unlocks the
  -- invite's user and gives the user the new password, if bcrypt accepts a password against a hash that
  -- it made from it.
  pub complete_setup-opens :
      (raw password : String) (salt now : ℕ) (lost : Bool) (db : Db) (u : User)
      → IsBcrypt crypto
      → (complete_setup crypto true raw password salt now lost db).0 ≡ ok u
      → (inv : Invite) × (find_by_token_hash (crypto.hash_invite_token raw) db ≡ ok inv)
        × (now ≤ inv.expires_at)
        × (u.id ≡ inv.user_id)
        × (u.locked_at ≡ none)
        × (crypto.compare_hash u.password_hash password ≡ true)
  unfolding complete_setup setup_with find_by_id Invites.delete
  complete_setup-opens raw password salt now lost db u bcrypt h =
      elim (Result-cases (find_by_token_hash (crypto.hash_invite_token raw) db)) [
        | inl (inv, e) ↦
            let (early, hash, made, wrote, found, after) =
              consume_invite-lem inv password salt now lost db u (rw e at h) in
            let written = (set_password inv.user_id hash db).1 in
            let (mine, open_row, v, before, same) = unlock-found_by inv.user_id written u found in
            let matched : crypto.compare_hash u.password_hash password ≡ true =
              rw (same, set_password-hash inv.user_id hash db v wrote before)
                (bcrypt salt password hash made) in
            (inv, e, early, mine, open_row, matched)
        | inr (x, e) ↦ let h' = rw e at h in absurd (cc h')
      ]

  -- In the state that a successful setup left, a session id is accepted for its user, at any time,
  -- only if the revocation of the user's sessions failed, which the setup logs and passes over.
  pub complete_setup-revokes :
      (raw password : String) (salt now : ℕ) (lost : Bool) (db : Db) (u : User)
      (session_id : String) (later : ℕ) (v : User)
      → (complete_setup crypto true raw password salt now lost db).0 ≡ ok u
      → (validate_session session_id later
          (complete_setup crypto true raw password salt now lost db).1).0
        ≡ ok v
      → v.id ≡ u.id
      → lost ≡ true
  unfolding complete_setup setup_with find_by_id Invites.delete
  complete_setup-revokes raw password salt now lost db u session_id later v h accepted same =
      elim (Result-cases (find_by_token_hash (crypto.hash_invite_token raw) db)) [
        | inl (inv, e) ↦
            let (early, hash, made, wrote, found, after) =
              consume_invite-lem inv password salt now lost db u (rw e at h) in
            let mine =
              (unlock-found_by inv.user_id (set_password inv.user_id hash db).1 u found).0 in
            logged-revokes lost session_id inv.user_id later (unsettled inv hash db) v
              (rw (e, after) at accepted) (same ∙ mine)
        | inr (x, e) ↦ let h' = rw e at h in absurd (cc h')
      ]

  settled-gone :
      (lost : Bool) (inv : Invite) (hash raw : String) (db : Db)
      → count (λ i. str_eq i.token_hash (crypto.hash_invite_token raw)) db.invites ≤ 1
      → first (λ i. str_eq i.token_hash (crypto.hash_invite_token raw)) db.invites ≡ some inv
      → first
          (λ i. str_eq i.token_hash (crypto.hash_invite_token raw))
          (revoke_or_log lost inv.user_id (unsettled inv hash db)).1.invites
        ≡ none
  unfolding Invites.delete unlock set_password
  settled-gone lost inv hash raw db once n =
      let named : Invite → Bool = λ i. str_eq i.token_hash (crypto.hash_invite_token raw) in
      rw
        (
          logged-invites lost inv.user_id (unsettled inv hash db),
          write-invites (Users.with_lock none none) inv.user_id
              (set_password inv.user_id hash db).1,
          write-invites (λ u. record u { password_hash = hash }) inv.user_id db,
        )
        (first-delete_only named (λ i. i.id == inv.id) db.invites inv once n (ground arith))

  -- An invite is spent once: where no two invites have one token hash, the token of a setup that
  -- succeeded is refused in the state that it left, whatever the password and the time.
  pub complete_setup-spent :
      (raw password password' : String) (salt salt' now later : ℕ) (lost lost' : Bool) (db : Db)
      (u : User)
      → count (λ i. str_eq i.token_hash (crypto.hash_invite_token raw)) db.invites ≤ 1
      → (complete_setup crypto true raw password salt now lost db).0 ≡ ok u
      → let db' = (complete_setup crypto true raw password salt now lost db).1 in
        complete_setup crypto true raw password' salt' later lost' db' ≡ (err invite_invalid, db')
  unfolding complete_setup setup_with find_by_token_hash
  complete_setup-spent raw password password' salt salt' now later lost lost' db u once h =
      let named : Invite → Bool = λ i. str_eq i.token_hash (crypto.hash_invite_token raw) in
      elim (Option-cases (first named db.invites)) [
        | inl n ↦ let h' = rw n at h in absurd (cc h')
        | inr (inv, n) ↦
            let (early, hash, made, wrote, found, after) =
              consume_invite-lem inv password salt now lost db u (rw n at h) in
            rw (n, after, settled-gone lost inv hash raw db once n) refl
      ]
