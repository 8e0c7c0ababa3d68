-- ===== src/Tests/Login.antt =====
-- Logins of a known user, and of an unknown one.
use crapnote.Base.{some, [], ◌≡◌, refl}
use crapnote.Base.Outcome.{ok}
use crapnote.Db.{Session, current_timestamp}
use crapnote.Lockout.{clear, locked}
use crapnote.Auth.Service.{World, clear_lapsed}
use crapnote.Base.Table.{first, exists, delete}
use crapnote.Auth.Users.{find_by_username}
use crapnote.Auth.Sessions
use crapnote.Auth.Login.{login, login_user, check_password, admit, attempt_key}
use crapnote.Auth.Access.{Granted, login-Granted}
use crapnote.Auth.Oracle.{IsWrong}
use crapnote.Tests.{plain, policy, store, world}

abbrev session : Session
session = record { id = "s2"; user_id = 1; expires_at = 1042; created_at = 0 }

granted : (login plain policy "alice" "secret" "ip" (some "s2") 42 world).0 ≡ ok session
unfolding login login_user check_password admit clear_lapsed find_by_username Sessions.create clear
    attempt_key locked first exists delete current_timestamp
granted = refl

login-Granted_example :
    Granted plain policy "alice" "secret" "ip" 42 world session
      (login plain policy "alice" "secret" "ip" (some "s2") 42 world).1
login-Granted_example =
    login-Granted plain policy "alice" "secret" "ip" (some "s2") 42 world session granted

-- A store without accounts.
abbrev nobody : World
nobody = record world { db = record store { users = [] } }

wrong : IsWrong plain "guess" (find_by_username "alice" store)
unfolding find_by_username first
wrong = refl

unknown : IsWrong plain "guess" (find_by_username "alice" nobody.db)
unfolding find_by_username first
unknown = tt
