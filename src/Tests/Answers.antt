-- ===== src/Tests/Answers.antt =====
-- Answers of the public handlers, and requests on notes.
use crapnote.Base.{
  arith, ℕ, ◌<◌, ◌≤◌, ◌≡◌, refl, true, false, Option, none, some, List, [], ◌∷◌, codes,
}
use crapnote.Base.Outcome.{ok}
use crapnote.Base.Table
use crapnote.Base.Table.{first, exists, delete, count}
use crapnote.Db.{Db, User, Invite}
use crapnote.Http.{no_content, respond, after, given, stop_if, authenticated, byte_length, bytes_of}
use crapnote.Auth.Users
use crapnote.Auth.Users.{find_by_id, find_by_username, set_password}
use crapnote.Auth.Sessions
use crapnote.Auth.Invites.{find_by_token_hash}
use crapnote.Auth.Service.{World}
use crapnote.Auth.Account
use crapnote.Auth.Account.{validate_session, revoke_user_sessions}
use crapnote.Auth.Oracle.{IsWrong}
use crapnote.Auth.Handler.{Body, LoginRequest, Transport, decoded, login, change_password}
use crapnote.Auth.Answers.{login-uniform, change_password-closes}
use crapnote.Notes.Sized.{IsSized}
use crapnote.Notes.Requests.{NoteCall, note_run, note_run-IsSized}
use crapnote.Tests.{plain, policy, alice, store, world}

abbrev direct : Transport
direct = record { tls = true; proxy_trusted = false; forwarded_proto = "" }

-- A deployment without accounts.
abbrev deserted : World
deserted = record world { db = record store { users = [] } }

alice_missed : IsWrong plain "guess" (find_by_username "alice" world.db)
unfolding find_by_username first
alice_missed = refl

nobody_missed : IsWrong plain "guess" (find_by_username "alice" deserted.db)
unfolding find_by_username first
nobody_missed = tt

abbrev guess : Body LoginRequest
guess = decoded (record { username = "alice"; password = "guess" })

login-uniform_example :
    ((login plain policy direct "10.0.0.1" guess (some "s9") 50 world).0
      ≡ (login plain policy direct "10.0.0.1" guess (some "s8") 50 deserted).0)
    × ((login plain policy direct "10.0.0.1" guess (some "s9") 50 world).1.attempts
        ≡ (login plain policy direct "10.0.0.1" guess (some "s8") 50 deserted).1.attempts)
login-uniform_example =
    login-uniform plain policy direct "10.0.0.1" "alice" "guess" (some "s9") (some "s8") 50 world
      deserted refl alice_missed nobody_missed

-- The invite of the store ends at 500.
ended : (inv : Invite) → find_by_token_hash "inv" store ≡ ok inv → inv.expires_at < 600
unfolding find_by_token_hash first
ended inv e = let same : 500 ≡ inv.expires_at = cc e in ground arith

abbrev bob : User
bob = record alice { id = 2; username = "bob" }

abbrev shared : Db
shared = record store {
  users = alice ∷ bob ∷ [];
  sessions = record { id = "s2"; user_id = 2; expires_at = 500; created_at = 0 } ∷ store.sessions;
}

-- The revocation fails.
changed :
    (change_password plain (some alice) (some "long enough password") 0 true shared).0 ≡ no_content
unfolding change_password authenticated given stop_if after respond Account.change_password
    find_by_id set_password first count byte_length bytes_of
changed = refl

abbrev renewed : User
renewed = record alice { password_hash = "long enough password" }

lingers :
    (validate_session "s1" 42
      (change_password plain (some alice) (some "long enough password") 0 true shared).1).0
    ≡ ok renewed
unfolding validate_session change_password authenticated given stop_if after respond
    Account.change_password find_by_id set_password first count byte_length bytes_of Sessions.find
    Users.is_locked Table.update delete
lingers = refl

change_password-closes_example : (12 ≤ byte_length "long enough password") × (true ≡ true)
change_password-closes_example =
    change_password-closes plain alice "long enough password" 0 true shared "s1" 42 renewed changed
      lingers refl

abbrev requests : List (Option User × (ℕ × NoteCall))
requests =
    (some alice, (7, NoteCall.creates (some (record { title = []; body = codes "text" }))))
    ∷ (
      some alice,
      (8, NoteCall.updates (some 2) (some (record { title = some (codes "t"); body = none }))),
    )
    ∷ (none, (9, NoteCall.deletes (some 2)))
    ∷ []

store-IsSized : IsSized store
store-IsSized =
    ((omega arith, omega arith), ((omega arith, omega arith), ((omega arith, omega arith), tt)))

note_run-IsSized_example : IsSized (note_run requests store)
note_run-IsSized_example = note_run-IsSized requests store store-IsSized
