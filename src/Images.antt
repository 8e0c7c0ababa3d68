-- ===== src/Images.antt =====
-- backend/internal/images/handler.go. http.DetectContentType is a parameter. Whether the limiter let a
-- request through, and the id that newID draws, are arguments.
pub mod Scan
pub mod Sweep
pub mod Unused
pub mod Swept
pub mod Quota
pub mod Own
pub mod Progress
use crapnote.Base.{
  ℕ, ◌+◌, ◌*◌, Bool, true, false, not, ◌&&◌, ◌||◌, Option, none, some, List, [], ◌∷◌, ◌++◌, ◌==◌,
  ltb, String, str_eq, length, take, if◌then◌else◌,
}
use crapnote.Base.Ints.{ℤ, pos, pos_part, leb_ℤ}
use crapnote.Base.Outcome.{Error, constraint, ok, err, Op}
use crapnote.Base.Table.{exists, first, delete}
use crapnote.Db.{Db, Bytes, User, Image, current_timestamp}
use crapnote.Http.{
  reading, Reply, sends, fails, Handler, authenticated, given, stop_if, after, send, respond,
  failing, write_error,
}

unfoldable pub same_bytes : Bytes → Bytes → Bool
same_bytes [] [] = true
same_bytes (c ∷ cs) (d ∷ ds) = c == d && same_bytes cs ds
same_bytes _ _ = false

-- 10 << 20
abbrev pub max_image_size : ℕ
max_image_size = 10_485_760

-- Config
pub record Limits : Type 0 where
  pub uploads_per_minute : ℤ
  pub quota_bytes : ℤ

abbrev pub default_config : Limits
default_config = record { uploads_per_minute = pos 10; quota_bytes = pos 104_857_600 }

-- What NewHandlerWith makes of the limits.
unfoldable pub new_handler_with : Limits → Limits
new_handler_with cfg = record {
  uploads_per_minute =
      if leb_ℤ cfg.uploads_per_minute (pos 0)
      then default_config.uploads_per_minute
      else cfg.uploads_per_minute;
  quota_bytes =
      if leb_ℤ cfg.quota_bytes (pos 0) then default_config.quota_bytes else cfg.quota_bytes;
}

-- allowedImageMIMEs
unfoldable pub is_allowed_image : String → Bool
is_allowed_image mime =
    str_eq mime "image/jpeg"
    || (str_eq mime "image/png" || (str_eq mime "image/gif" || str_eq mime "image/webp"))

pub record Data : Type 0 where
  pub mime : String
  pub bytes : Bytes

abbrev pub data_of : Image → Data
data_of i = record { mime = i.mime_type; bytes = i.contents }

-- The map of FetchByIDs, which holds an id once.
abbrev pub put : Bytes → Data → List (Bytes × Data) → List (Bytes × Data)
put id d out = (id, d) ∷ delete (λ e. same_bytes id e.0) out

abbrev pub own_image : ℕ → Option Image → Option Image
own_image user_id none = none
own_image user_id (some i) = if i.user_id == user_id then some i else none

abbrev pub with_fetched : Bytes → Option Image → List (Bytes × Data) → List (Bytes × Data)
with_fetched id none out = out
with_fetched id (some i) out = put id (data_of i) out

abbrev pub find_image : Bytes → Db → Option Image
find_image id db = first (λ i. same_bytes i.id id) db.images

unfoldable pub fetch_each : ℕ → List Bytes → Db → List (Bytes × Data) → List (Bytes × Data)
fetch_each user_id [] db out = out
fetch_each user_id (id ∷ ids) db out =
    fetch_each user_id ids db (with_fetched id (own_image user_id (find_image id db)) out)

unfoldable pub fetch_by_ids : ℕ → List Bytes → Db → List (Bytes × Data)
unfolding fetch_each
fetch_by_ids user_id ids db = fetch_each user_id ids db []

-- SUM(LENGTH(data))
unfoldable pub bytes_in : ℕ → List Image → ℕ
bytes_in user_id [] = 0
bytes_in user_id (i ∷ is) =
    (if i.user_id == user_id then length i.contents else 0) + bytes_in user_id is

unfoldable pub current_image_bytes : ℕ → Db → ℕ
unfolding bytes_in
current_image_bytes user_id db = bytes_in user_id db.images

abbrev pub new_image : Bytes → ℕ → String → Bytes → ℕ → Image
new_image id user_id mime contents now = record {
  id = id;
  user_id = user_id;
  mime_type = mime;
  contents = contents;
  created_at = current_timestamp now;
}

-- `id` is the PRIMARY KEY, and `user_id` refers to a user.
unfoldable pub insert_image : Bytes → ℕ → String → Bytes → ℕ → Op Db (Unit {0})
insert_image id user_id mime contents now db =
    if exists (λ i. same_bytes i.id id) db.images || not (exists (λ u. u.id == user_id) db.users)
    then (err constraint, db)
    else (ok tt, record db { images = db.images ++ new_image id user_id mime contents now ∷ [] })

-- A form that does not parse or is too large, one without the field, or the file.
pub data Form : Type 0 where
  bad_form : Form
  no_image : Form
  image : Bytes → Form

-- What Upload has decided in front of its INSERT: a reply, or the bytes to store for a user.
pub data Admission : Type 0 where
  refused : Reply Bytes → Admission
  admitted : User → Bytes → Admission

module _ (detect_content_type : Bytes → String) (limits : Limits) where
  -- The file, of which io.LimitReader reads at most max_image_size bytes, with the SUM over the user's images.
  unfoldable pub admit_file : User → Bytes → Db → Admission
  unfolding current_image_bytes is_allowed_image
  admit_file u file db =
      let contents = take max_image_size file in
      if not (is_allowed_image (detect_content_type contents))
      then refused (write_error 415 "not an image")
      else if ltb (pos_part limits.quota_bytes) (current_image_bytes u.id db + length contents)
      then refused (write_error 507 "storage quota exceeded")
      else admitted u contents

  unfoldable pub admit_form : User → Form → Db → Admission
  unfolding admit_file
  admit_form u bad_form db = refused (write_error 400 "image too large or bad request")
  admit_form u no_image db = refused (write_error 400 "missing image field")
  admit_form u (image file) db = admit_file u file db

  unfoldable pub admit_upload : Option User → Bool → Form → Db → Admission
  unfolding admit_form
  admit_upload none allowed form db = refused (write_error 401 "not authenticated")
  admit_upload (some u) allowed form db =
      if allowed
      then admit_form u form db
      else refused (write_error 429 "upload rate limit exceeded")

  -- The INSERT, a statement of its own, and the reply.
  unfoldable pub keep_image : User → Bytes → Bytes → ℕ → Handler Db Bytes
  unfolding insert_image
  keep_image u id contents now =
      after (insert_image id u.id (detect_content_type contents) contents now) failing
        (λ done. send 201 id)

  abbrev pub store_admitted : Admission → Bytes → ℕ → Handler Db Bytes
  store_admitted (refused r) id now = respond (λ _. r)
  store_admitted (admitted u contents) id now = keep_image u id contents now

  -- Upload where no other statement runs between the SUM and the INSERT; the reply holds the id of the image's
  -- URL.
  unfoldable pub upload : Option User → Bool → Form → Bytes → ℕ → Handler Db Bytes
  unfolding admit_upload keep_image
  upload caller allowed form id now =
      reading (λ db. store_admitted (admit_upload caller allowed form db) id now)

-- http.NotFound
abbrev pub http_not_found : {A : Type 0} → Reply A
http_not_found = fails 404 "404 page not found" ""

abbrev pub served : Option Image → Reply Data
served none = http_not_found
served (some i) = sends 200 (data_of i)

unfoldable pub serve : Option User → Bytes → Handler Db Data
serve caller id =
    authenticated caller (λ u. respond (λ db. served (own_image u.id (find_image id db))))
