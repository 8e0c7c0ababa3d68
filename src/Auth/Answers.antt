-- ===== src/Auth/Answers.antt =====
-- What the answers of the public handlers tell: backend/internal/auth/handler.go and setup_handler.go.
use crapnote.Base.{
  ℕ, ◌<◌, ◌≤◌, ◌≡◌, refl, sym, ap, ◌∙◌, Bool, true, false, Option, some, String, str_eq, ltb, arith,
  inl, inr, Bool-cases, Option-cases,
}
use crapnote.Base.Outcome.{ok, err, Error, Result-cases}
use crapnote.Base.Table.{first}
use crapnote.Db.{Db, User, Invite}
use crapnote.Http.{
  after, respond, stop_if, given, authenticated, write_error, no_content, byte_length, failing,
}
use crapnote.Http.Rules.{after-fails, after-sends, failing-fails}
use crapnote.Auth.Users.{find_by_username}
use crapnote.Auth.Invites.{find_by_token_hash}
use crapnote.Auth.Service.{Crypto, Config, World}
use crapnote.Auth.Login
use crapnote.Auth.Account
use crapnote.Auth.Account.{validate_session}
use crapnote.Auth.Access.{login-Granted}
use crapnote.Auth.Oracle.{IsWrong, login-no_oracle}
use crapnote.Auth.Revocation.{change_password-revokes}
use crapnote.Auth.Handler.{
  Body, decoded, LoginRequest, Transport, login, login_failure, get_setup, show_invite,
  change_password, short_password,
}

module _ (crypto : Crypto) (cfg : Config) where
  -- A wrong password does not log in.
  login-fails :
      (username password client_ip : String) (session_id : Option String) (now : ℕ) (w : World)
      → IsWrong crypto password (find_by_username username w.db)
      → (e : Error) × ((Login.login crypto cfg username password client_ip session_id now w).0
          ≡ err e)
  login-fails username password client_ip session_id now w wrong =
      elim (Result-cases (Login.login crypto cfg username password client_ip session_id now w).0) [
        | inl (s, e) ↦
            let g = login-Granted crypto cfg username password client_ip session_id now w s e in
            let wrong' : IsWrong crypto password (ok g.user) = rw g.known at wrong in
            let m = g.matched in let c : true ≡ false = sym m ∙ wrong' in absurd (cc c)
        | inr (x, e) ↦ (x, e)
      ]

  answer :
      (t : Transport) (client_ip username password : String) (session_id : Option String) (now : ℕ)
      (w : World) (e : Error)
      → (Login.login crypto cfg username password client_ip session_id now w).0 ≡ err e
      → login crypto cfg t client_ip
          (decoded (record { username = username; password = password }))
          session_id
          now
          w
        ≡ (login_failure e, (Login.login crypto cfg username password client_ip session_id now w).1)
  unfolding login
  answer t client_ip username password session_id now w e h =
      after-fails (Login.login crypto cfg username password client_ip session_id now) login_failure
        _ w e h

  -- Where the password is wrong, the reply of the login endpoint and what the tracker records do not
  -- depend on the database: not on whether the username has an account, nor on whose it is, whether it
  -- is locked, or what its password is.
  pub login-uniform :
      (t : Transport) (client_ip username password : String)
      (session_id session_id' : Option String) (now : ℕ) (w w' : World)
      → w.attempts ≡ w'.attempts
      → IsWrong crypto password (find_by_username username w.db)
      → IsWrong crypto password (find_by_username username w'.db)
      → let body : Body LoginRequest =
          decoded (record { username = username; password = password }) in
        let r = login crypto cfg t client_ip body session_id now w in
        let r' = login crypto cfg t client_ip body session_id' now w' in
        (r.0 ≡ r'.0) × (r.1.attempts ≡ r'.1.attempts)
  login-uniform t client_ip username password session_id session_id' now w w' same wrong wrong' =
      let (e, f) = login-fails username password client_ip session_id now w wrong in
      let (e', f') = login-fails username password client_ip session_id' now w' wrong' in
      let (replies, tracked) =
        login-no_oracle crypto cfg username password client_ip session_id session_id' now w w' same
          wrong wrong' in
      let agree : e ≡ e' = cc (f, f', replies) in
      rw
        (
          answer t client_ip username password session_id now w e f,
          answer t client_ip username password session_id' now w' e' f',
        )
        (ap login_failure agree, tracked)

module _ (crypto : Crypto) where
  -- The page of a setup link answers a token that has no invite and one whose invite has expired
  -- alike, whatever the token.
  pub get_setup-gone :
      (token : String) (now : ℕ) (db : Db)
      → ((inv : Invite)
          → find_by_token_hash (crypto.hash_invite_token token) db ≡ ok inv
          → inv.expires_at < now)
      → (get_setup crypto token now db).0 ≡ write_error 404 "setup link invalid or expired"
  unfolding get_setup stop_if show_invite after find_by_token_hash
  get_setup-gone token now db gone = elim (Bool-cases (str_eq token "")) [
    | inl e ↦ rw e refl
    | inr e ↦
        elim (Option-cases
          (first (λ i. str_eq i.token_hash (crypto.hash_invite_token token)) db.invites)) [
            | inl n ↦ rw (e, n) refl
            | inr (inv, n) ↦
                let late : ltb inv.expires_at now ≡ true =
                  let g = gone inv (rw n refl) in ground arith in
                rw (e, n, late) refl
          ]
  ]

  -- A change of password that is answered with 204 was to a password of at least 12 bytes; and in the
  -- state that it left, a session id is accepted for its user, at any time, only if the revocation of the
  -- user's sessions failed, which the change logs and passes over.
  pub change_password-closes :
      (caller : User) (password : String) (salt : ℕ) (lost : Bool) (db : Db) (session_id : String)
      (later : ℕ) (u : User)
      → (change_password crypto (some caller) (some password) salt lost db).0 ≡ no_content
      → (validate_session session_id later
          (change_password crypto (some caller) (some password) salt lost db).1).0
        ≡ ok u
      → u.id ≡ caller.id
      → (12 ≤ byte_length password) × (lost ≡ true)
  unfolding change_password authenticated given stop_if respond
  change_password-closes caller password salt lost db session_id later u h accepted same =
      elim (Bool-cases (short_password password)) [
        | inl short ↦ let h' = rw short at h in absurd (cc h')
        | inr long ↦
            let op = Account.change_password crypto caller.id password salt lost in
            let (done, wrote, _, after_it) =
              after-sends op failing (λ d. respond (λ _. no_content)) db 204 tt failing-fails
                (rw long at h) in
            let accepted' = rw after_it at (rw long at accepted) in
            (
              ground arith,
              change_password-revokes crypto caller.id password salt lost db session_id later u
                  wrote accepted' same,
            )
      ]
