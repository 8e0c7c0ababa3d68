-- ===== src/Auth/Validation.antt =====
-- What ValidateSession grants, and what ends it: the changes that revoke the sessions of a user.
use crapnote.Base.{ℕ, ◌≤◌, ◌≡◌, ◌≢◌, inl, inr, false, arith, ◌==◌, ltb, String, str_eq, Bool-cases}
use crapnote.Base.Outcome.{Result, ok, err, Result-cases, or_not_found-ok}
use crapnote.Base.Table.{first, exists, first-holds, exists-false-first}
use crapnote.Db.{Db, User, Session}
use crapnote.Auth.Users
use crapnote.Auth.Users.{find_by_id}
use crapnote.Auth.Sessions
use crapnote.Auth.Account.{validate_session, check_session, check_user}

-- The session, its user, and that both still stand.
pub record Standing (session_id : String) (now : ℕ) (db : Db) (u : User) : Type 0 where
  pub session : Session
  pub stored : Sessions.find session_id db ≡ ok session
  pub unexpired : now ≤ session.expires_at
  pub owner : find_by_id session.user_id db ≡ ok u
  pub unlocked : Users.is_locked u now ≡ false

check_user-ok :
    (s : Session) (now : ℕ) (r : Result User) (db : Db) (u : User)
    → (check_user s now r db).0 ≡ ok u
    → (r ≡ ok u) × (Users.is_locked u now ≡ false)
unfolding check_user
check_user-ok s now (err e) db u h = cc
check_user-ok s now (ok v) db u h = elim (Bool-cases (Users.is_locked v now)) [
  | inl e ↦ let h' = rw e at h in absurd (cc h')
  | inr e ↦ let h' : ok v ≡ ok u = rw e at h in let same : v ≡ u = cc h' in (h', rw (← same) e)
]

-- A session that is accepted is stored and not expired, and its user has a row that is not locked.
pub validate_session-Standing :
    (session_id : String) (now : ℕ) (db : Db) (u : User)
    → (validate_session session_id now db).0 ≡ ok u
    → Standing session_id now db u
unfolding validate_session check_session
validate_session-Standing session_id now db u h =
    elim (Result-cases (Sessions.find session_id db)) [
      | inl (s, found) ↦ elim (Bool-cases (ltb s.expires_at now)) [
        | inl late ↦ let h' = rw late at (rw found at h) in absurd (cc h')
        | inr early ↦
            let h' = rw early at (rw found at h) in
            let (owner, free) = check_user-ok s now (find_by_id s.user_id db) db u h' in
            record {
              session = s;
              stored = found;
              unexpired = ground arith;
              owner = owner;
              unlocked = free;
            }
      ]
      | inr (e, missing) ↦ let h' = rw missing at h in absurd (cc h')
    ]

-- Without a session row of the user, no session id is accepted for that user.
pub validate_session-none :
    (session_id : String) (user_id now : ℕ) (db : Db) (u : User)
    → exists (λ s. s.user_id == user_id) db.sessions ≡ false
    → (validate_session session_id now db).0 ≡ ok u
    → u.id ≢ user_id
unfolding Sessions.find find_by_id
validate_session-none session_id user_id now db u gone h =
    let v = validate_session-Standing session_id now db u h in
    let row =
      or_not_found-ok (first (λ s. str_eq s.id session_id) db.sessions) v.session v.stored in
    let owner = or_not_found-ok (first (λ x. x.id == v.session.user_id) db.users) u v.owner in
    let other =
      exists-false-first (λ s. str_eq s.id session_id) (λ s. s.user_id == user_id) db.sessions
        v.session gone row in
    let mine = first-holds (λ x. x.id == v.session.user_id) db.users u owner in λ same. ground arith
