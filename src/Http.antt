-- ===== src/Http.antt =====
-- What the handlers share: replies, and the steps by which a handler stops early. Each package of the
-- backend has its own copy of writeError and writeJSON, and reads ids with strconv.ParseInt.
pub mod Client
pub mod Page
pub mod Rules
use Prim.Native.Char.{Char, code}
use crapnote.Base.{
  ℕ, ◌+◌, Bool, true, false, Option, none, some, List, [], ◌∷◌, String, ltb, if◌then◌else◌, codes,
}
use crapnote.Base.Outcome.{Result, ok, err, Error, not_found, locked, Op}
use crapnote.Db.{User}

-- A body that is encoded as JSON with a status, or an error's status, message and `code` (which is
-- left out of the body if it is empty).
pub data Reply (A : Type 0) : Type 0 where
  sends : ℕ → A → Reply A
  fails : ℕ → String → String → Reply A

abbrev pub write_error : {A : Type 0} → ℕ → String → Reply A
write_error status message = fails status message ""

abbrev pub internal_error : {A : Type 0} → Reply A
internal_error = write_error 500 "internal error"

abbrev pub no_content : Reply (Unit {0})
no_content = sends 204 tt

abbrev pub Handler : Type 0 → Type 0 → Type 0
Handler S A = S → Reply A × S

-- A handler behind the check that the context carries a user.
unfoldable pub authenticated : {S A : Type 0} → Option User → (User → Handler S A) → Handler S A
authenticated none h s = (write_error 401 "not authenticated", s)
authenticated (some u) h s = h u s

-- A handler that needs a value of the request, which may not parse.
unfoldable pub given : {S A B : Type 0} → Option B → String → (B → Handler S A) → Handler S A
given none message h s = (write_error 400 message, s)
given (some b) message h s = h b s

-- if cond { writeError(...); return }
unfoldable pub stop_if : {S A : Type 0} → Bool → Reply A → Handler S A → Handler S A
stop_if true r h s = (r, s)
stop_if false r h s = h s

-- A step that reads the state.
unfoldable pub reading : {S A : Type 0} → (S → Handler S A) → Handler S A
reading f s = f s s

-- The next step, or the reply to an error.
abbrev pub continue :
    {S A B : Type 0} → (Error → Reply B) → (A → Handler S B) → Result A × S → Reply B × S
continue bad k (ok a, s) = k a s
continue bad k (err e, s) = (bad e, s)

unfoldable pub after :
    {S A B : Type 0} → Op S A → (Error → Reply B) → (A → Handler S B) → Handler S B
after op bad k s = continue bad k (op s)

-- The end of a handler: what it replies, which may read the state.
unfoldable pub respond : {S A : Type 0} → (S → Reply A) → Handler S A
respond r s = (r s, s)

abbrev pub send : {S A : Type 0} → ℕ → A → Handler S A
send status a = respond (λ _. sends status a)

abbrev pub failing : {A : Type 0} → Error → Reply A
failing e = internal_error

abbrev pub not_found_as : {A : Type 0} → String → Error → Reply A
not_found_as message not_found = write_error 404 message
not_found_as message _ = internal_error

-- The bytes of a code point in UTF-8, and of a text: len of a decoded JSON string.
abbrev pub utf8_length : ℕ → ℕ
utf8_length c = if ltb c 128 then 1 else if ltb c 2048 then 2 else if ltb c 65536 then 3 else 4

unfoldable pub bytes_of : List ℕ → ℕ
bytes_of [] = 0
bytes_of (c ∷ cs) = utf8_length c + bytes_of cs

unfoldable pub byte_length : String → ℕ
unfolding bytes_of
byte_length s = bytes_of (codes s)
