-- ===== src/Admin/Keeping.antt =====
-- No call of an administrator takes the caller's own row away, or locks it.
use crapnote.Base.{
  ℕ, suc, ◌≡◌, ◌≢◌, ◌≤◌, str_eq, refl, Bool, true, false, not, ◌&&◌, Option, none, some, [], ◌∷◌,
  ◌++◌, ◌==◌, String, arith, inl, inr, Bool-cases,
}
use crapnote.Base.Outcome.{Result, ok, err, Error, or_not_found-ok}
use crapnote.Base.Table.{exists, first-holds}
use crapnote.Base.Table.Rows.{exists-update_kept, exists-delete}
use crapnote.Base.Table.Appended.{exists-append}
use crapnote.Db.{Db, User, Invite}
use crapnote.Db.Cascade.{delete_user}
use crapnote.Http.{respond, after, failing}
use crapnote.Http.Rules.{Keeps, handler_rules, after-Keeps_result}
use crapnote.Content.Writes.{guarded}
use crapnote.Auth.Users
use crapnote.Auth.Users.{with_lock}
use crapnote.Auth.Invites
use crapnote.Auth.Service.{Crypto, Config, World, on_db}
use crapnote.Auth.Account.{create_invite, or_fail, ignoring, revoke_user_sessions}
use crapnote.Admin.{
  Origin, CreateUserRequest, InviteUserRequest, create_user, create_user_checked, invite_user,
  invite_user_checked, invited, make_invite, invite_ttl,
}

-- An administrator's row that no lock holds at a time; a lapsed lock does not.
abbrev pub is_active_admin : ℕ → ℕ → User → Bool
is_active_admin time id u = u.id == id && (u.is_admin && not (Users.is_locked u time))

-- The row is there, and its id was given out.
abbrev pub HasAdmin : ℕ → ℕ → Db → Type 0
HasAdmin time id db = (exists (is_active_admin time id) db.users ≡ true) × (id ≤ db.user_seq)

abbrev pub InWorld : ℕ → ℕ → World → Type 0
InWorld time id w = HasAdmin time id w.db

module _ (time admin : ℕ) where
  write-HasAdmin :
      (f : User → User) (id : ℕ) (db : Db)
      → ((u : User)
          → is_active_admin time admin u ≡ true
          → u.id == id ≡ true
          → is_active_admin time admin (f u) ≡ true)
      → HasAdmin time admin db
      → HasAdmin time admin (Users.write f id db).1
  unfolding Users.write
  write-HasAdmin f id db keep h =
      guarded (HasAdmin time admin) _ _ _ _ _ h
        (exists-update_kept (is_active_admin time admin) (λ u. u.id == id) f db.users keep h.0, h.1)

  create-HasAdmin :
      (name hash : String) (is_admin : Bool) (now : ℕ) (db : Db)
      → HasAdmin time admin db
      → HasAdmin time admin (Users.create name hash is_admin now db).1
  unfolding Users.create Users.is_locked
  create-HasAdmin name hash is_admin now db h =
      let row = Users.new_user (suc db.user_seq) name hash is_admin now in
      let there : exists (is_active_admin time admin) (db.users ++ row ∷ []) ≡ true =
        rw (exists-append (is_active_admin time admin) db.users (row ∷ []), h.0) refl in
      let low : admin ≤ suc db.user_seq = let l = h.1 in omega arith in
      guarded (HasAdmin time admin) _ _ _ _ _ h (there, low)

  delete-HasAdmin :
      (id : ℕ) (db : Db)
      → id ≢ admin
      → HasAdmin time admin db
      → HasAdmin time admin (Users.delete id db).1
  unfolding Users.delete delete_user
  delete-HasAdmin id db other h = (
    rw (exists-delete (is_active_admin time admin) (λ u. u.id == id) db.users (λ u e. ground arith))
        h.0,
    h.1,
  )

  create-id :
      (name hash : String) (is_admin : Bool) (now : ℕ) (db : Db) (u : User)
      → HasAdmin time admin db
      → (Users.create name hash is_admin now db).0 ≡ ok u
      → u.id ≢ admin
  unfolding Users.create Users.find_by_id
  create-id name hash is_admin now db u h e =
      elim (Bool-cases (exists (λ v. str_eq v.username name) db.users)) [
        | inl t ↦ let e' = rw t at e in absurd (cc e')
        | inr t ↦
            let e' = or_not_found-ok _ u (rw t at e) in
            let mine = first-holds (λ v. v.id == suc db.user_seq) _ u e' in
            let low = h.1 in ground arith
      ]

create_invite-users :
    (crypto : Crypto) (has : Bool) (user : ℕ) (drawn : Option String) (ttl now : ℕ) (db : Db)
    → ((create_invite crypto has user drawn ttl now db).1.users ≡ db.users)
      × ((create_invite crypto has user drawn ttl now db).1.user_seq ≡ db.user_seq)
unfolding create_invite Invites.delete_for_user Invites.create
create_invite-users crypto false user drawn ttl now db = (refl, refl)
create_invite-users crypto true user none ttl now db = (refl, refl)
create_invite-users crypto true user (some raw) ttl now db = (ground arith, ground arith)

module _ (crypto : Crypto) (cfg : Config) (caller : User) (time : ℕ) where
  create_invite-HasAdmin :
      (user : ℕ) (drawn : Option String) (ttl now : ℕ) (db : Db)
      → HasAdmin time caller.id db
      → HasAdmin time caller.id (create_invite crypto cfg.has_invites user drawn ttl now db).1
  create_invite-HasAdmin user drawn ttl now db h =
      let (users, seq) = create_invite-users crypto cfg.has_invites user drawn ttl now db in
      rw (users, seq) h

  pub or_fail-InWorld :
      {A : Type 0} (a : Option A) (e : Error) (w : World)
      → InWorld time caller.id w
      → InWorld time caller.id (on_db (or_fail a e) w).1
  or_fail-InWorld none e w h = h
  or_fail-InWorld (some a) e w h = h

  created-InWorld :
      (name hash : String) (is_admin : Bool) (now : ℕ) (w : World)
      → InWorld time caller.id w
      → InWorld time caller.id (on_db (Users.create name hash is_admin now) w).1
  created-InWorld name hash is_admin now w h =
      create-HasAdmin time caller.id name hash is_admin now w.db h

  pub create_user-Keeps :
      (body : Option CreateUserRequest) (salt now : ℕ)
      → Keeps (InWorld time caller.id) (create_user crypto cfg body salt now)
  unfolding create_user create_user_checked
  create_user-Keeps body salt now =
      search (handler_rules, or_fail-InWorld, created-InWorld) depth 12

  invited-InWorld :
      (origin : Origin) (now : ℕ) (u : User) (r : Result (String × Invite) × World)
      → u.id ≢ caller.id
      → InWorld time caller.id r.1
      → InWorld time caller.id (invited crypto cfg origin now u r).1
  unfolding respond
  invited-InWorld origin now u (ok drawn, w) other h = h
  invited-InWorld origin now u (err e, w) other h = delete-HasAdmin time caller.id u.id w.db other h

  -- The half-created user that is dropped has an id that was not given out before.
  make_invited-Keeps :
      (req : InviteUserRequest) (origin : Origin) (drawn : Option String) (hash : String) (now : ℕ)
      → Keeps (InWorld time caller.id) (
          after
            (on_db (Users.create req.username hash req.is_admin now))
            failing
            (make_invite crypto cfg origin drawn now))
  make_invited-Keeps req origin drawn hash now =
      after-Keeps_result _ _ _ (created-InWorld req.username hash req.is_admin now) (λ w u h made.
        let h' = created-InWorld req.username hash req.is_admin now w h in
        invited-InWorld origin now u _
          (create-id time caller.id req.username hash req.is_admin now w.db u h made)
          (create_invite-HasAdmin u.id drawn invite_ttl now _ h'))

  pub invite_user-Keeps :
      (user : Option User) (body : Option InviteUserRequest) (origin : Origin)
      (seed drawn : Option String) (salt now : ℕ)
      → Keeps (InWorld time caller.id) (invite_user crypto cfg user body origin seed drawn salt now)
  unfolding invite_user invite_user_checked
  invite_user-Keeps user body origin seed drawn salt now =
      search (handler_rules, or_fail-InWorld, make_invited-Keeps) depth 14

  pub create_invite-InWorld :
      (user : ℕ) (drawn : Option String) (ttl now : ℕ) (w : World)
      → InWorld time caller.id w
      → InWorld time caller.id (on_db (create_invite crypto cfg.has_invites user drawn ttl now) w).1
  create_invite-InWorld user drawn ttl now w h = create_invite-HasAdmin user drawn ttl now w.db h

  pub revoke-InWorld :
      (id : ℕ) (w : World)
      → InWorld time caller.id w
      → InWorld time caller.id (on_db (ignoring (revoke_user_sessions id)) w).1
  unfolding revoke_user_sessions
  revoke-InWorld id w h = h

  pub set_api_tokens_enabled-InWorld :
      (id : ℕ) (b : Bool) (w : World)
      → InWorld time caller.id w
      → InWorld time caller.id (on_db (Users.set_api_tokens_enabled id b) w).1
  unfolding Users.set_api_tokens_enabled Users.is_locked
  set_api_tokens_enabled-InWorld id b w h = write-HasAdmin time caller.id _ id w.db (λ u e _. e) h

  pub set_password-InWorld :
      (id : ℕ) (hash : String) (w : World)
      → InWorld time caller.id w
      → InWorld time caller.id (on_db (Users.set_password id hash) w).1
  unfolding Users.set_password Users.is_locked
  set_password-InWorld id hash w h = write-HasAdmin time caller.id _ id w.db (λ u e _. e) h

  pub unlock-InWorld :
      (id : ℕ) (w : World)
      → InWorld time caller.id w
      → InWorld time caller.id (on_db (Users.unlock id) w).1
  unfolding Users.unlock Users.is_locked
  unlock-InWorld id w h = write-HasAdmin time caller.id _ id w.db (λ u e _. ground arith) h

  pub ignored-InWorld :
      (id : ℕ) (w : World)
      → InWorld time caller.id w
      → InWorld time caller.id (on_db (ignoring (Users.unlock id)) w).1
  ignored-InWorld id w h = unlock-InWorld id w h

  pub lock-InWorld :
      (id now : ℕ) (w : World)
      → (id == caller.id) ≡ false
      → InWorld time caller.id w
      → InWorld time caller.id (on_db (Users.lock id now) w).1
  unfolding Users.lock
  lock-InWorld id now w other h =
      write-HasAdmin time caller.id _ id w.db (λ u e hit. absurd (ground arith)) h

  pub delete-InWorld :
      (id : ℕ) (w : World)
      → (id == caller.id) ≡ false
      → InWorld time caller.id w
      → InWorld time caller.id (on_db (Users.delete id) w).1
  delete-InWorld id w other h = delete-HasAdmin time caller.id id w.db (ground arith) h
