-- ===== src/Mcp/Captured.antt =====
-- The response writer of one tool call, which keeps a bounded body: captured in
-- backend/internal/mcp/dispatch.go.
use crapnote.Base.{
  ℕ, ◌+◌, ◌≡◌, refl, ◌∙◌, Bool, true, false, List, [], ◌∷◌, ◌++◌, ltb, if◌then◌else◌, length,
  length-append, arith,
}
use mathlib.Core.Path.{subst}
use mathlib.Core.List.{append-nil, append_assoc}
use crapnote.Db.{Bytes}

pub record Captured : Type 0 where
  pub status : ℕ
  pub body : Bytes
  pub overflow : Bool
  pub wrote_header : Bool
  pub content_type : Bytes

-- What a handler does to its ResponseWriter.
pub data WriterCall : Type 0 where
  write_header : ℕ → WriterCall
  write : Bytes → WriterCall
  -- Header().Set("Content-Type", …)
  set_content_type : Bytes → WriterCall

-- 32 << 20
abbrev pub max_dispatch_response : ℕ
max_dispatch_response = 33_554_432

abbrev pub new_captured : Captured
new_captured = record {
  status = 200;
  body = [];
  overflow = false;
  wrote_header = false;
  content_type = [];
}

unfoldable pub set_status : ℕ → Captured → Captured
set_status status c =
    if c.wrote_header then c else record c { wrote_header = true; status = status }

unfoldable pub written_bytes : ℕ → Bytes → Captured → Captured
written_bytes limit p c =
    let c' = record c { wrote_header = true } in
    if c.overflow
    then c'
    else if ltb limit (length c.body + length p)
    then record c' { overflow = true; body = [] }
    else record c' { body = c.body ++ p }

abbrev pub writer_step : ℕ → WriterCall → Captured → Captured
writer_step limit (write_header status) c = set_status status c
writer_step limit (write p) c = written_bytes limit p c
writer_step limit (set_content_type t) c = record c { content_type = t }

unfoldable pub writer_run : ℕ → List WriterCall → Captured → Captured
writer_run limit [] c = c
writer_run limit (k ∷ ks) c = writer_run limit ks (writer_step limit k c)

abbrev pub bytes_written : WriterCall → Bytes
bytes_written (write p) = p
bytes_written _ = []

-- All bytes of the calls, in order.
unfoldable pub all_bytes : List WriterCall → Bytes
all_bytes [] = []
all_bytes (k ∷ ks) = bytes_written k ++ all_bytes ks

-- The status that the first call decides.
unfoldable pub first_status : List WriterCall → ℕ
first_status [] = 200
first_status (write_header status ∷ ks) = status
first_status (write p ∷ ks) = 200
first_status (set_content_type t ∷ ks) = first_status ks

-- What is kept of the bytes that were written so far.
abbrev Keeps : ℕ → Bytes → Captured → Type 0
Keeps limit bs c =
    (c.overflow ≡ ltb limit (length bs)) × (c.body ≡ (if ltb limit (length bs) then [] else bs))

written_bytes-Keeps :
    (limit : ℕ) (bs p : Bytes) (c : Captured)
    → Keeps limit bs c
    → Keeps limit (bs ++ p) (written_bytes limit p c)
unfolding written_bytes
written_bytes-Keeps limit bs p c (over, body) =
    (ground (arith, length-append bs p), ground (arith, length-append bs p))

writer_step-Keeps :
    (limit : ℕ) (bs : Bytes) (k : WriterCall) (c : Captured)
    → Keeps limit bs c
    → Keeps limit (bs ++ bytes_written k) (writer_step limit k c)
unfolding set_status
writer_step-Keeps limit bs (write_header status) c (over, body) =
    rw (append-nil bs) (ground arith, ground arith)
writer_step-Keeps limit bs (write p) c h = written_bytes-Keeps limit bs p c h
writer_step-Keeps limit bs (set_content_type t) c h = rw (append-nil bs) h

writer_run-Keeps :
    (limit : ℕ) (ks : List WriterCall) (bs : Bytes) (c : Captured)
    → Keeps limit bs c
    → Keeps limit (bs ++ all_bytes ks) (writer_run limit ks c)
unfolding writer_run all_bytes
writer_run-Keeps limit [] bs c h = rw (append-nil bs) h
writer_run-Keeps limit (k ∷ ks) bs c h =
    let rest =
      writer_run-Keeps limit ks (bs ++ bytes_written k) (writer_step limit k c)
        (writer_step-Keeps limit bs k c h) in
    subst (λ all. Keeps limit all (writer_run limit ks (writer_step limit k c)))
      (append_assoc bs (bytes_written k) (all_bytes ks)) rest

-- The status once it is settled.
writer_run-settled :
    (limit : ℕ) (ks : List WriterCall) (c : Captured)
    → c.wrote_header ≡ true
    → (writer_run limit ks c).status ≡ c.status
unfolding writer_run set_status written_bytes
writer_run-settled limit [] c h = refl
writer_run-settled limit (write_header status ∷ ks) c h =
    writer_run-settled limit ks (set_status status c) (ground arith) ∙ ground arith
writer_run-settled limit (write p ∷ ks) c h =
    writer_run-settled limit ks (written_bytes limit p c) (ground arith) ∙ ground arith
writer_run-settled limit (set_content_type t ∷ ks) c h =
    writer_run-settled limit ks (record c { content_type = t }) h

writer_run-status :
    (limit : ℕ) (ks : List WriterCall) (c : Captured)
    → c.wrote_header ≡ false
    → c.status ≡ 200
    → (writer_run limit ks c).status ≡ first_status ks
unfolding writer_run set_status written_bytes first_status
writer_run-status limit [] c h e = e
writer_run-status limit (write_header status ∷ ks) c h e =
    writer_run-settled limit ks (set_status status c) (ground arith) ∙ ground arith
writer_run-status limit (write p ∷ ks) c h e =
    writer_run-settled limit ks (written_bytes limit p c) (ground arith) ∙ ground arith
writer_run-status limit (set_content_type t ∷ ks) c h e =
    writer_run-status limit ks (record c { content_type = t }) h e

-- Whatever a handler does to the writer, in whatever pieces it writes: the status is that of its first call,
-- or 200 if that is a write or there is none; the writer overflows exactly if more bytes than the limit are
-- written in all; and it then keeps none of them, and all of them otherwise.
pub writer_run-lem :
    (limit : ℕ) (ks : List WriterCall)
    → let c = writer_run limit ks new_captured in
      let all = all_bytes ks in
      (c.status ≡ first_status ks)
      × (c.overflow ≡ ltb limit (length all))
      × (c.body ≡ (if ltb limit (length all) then [] else all))
writer_run-lem limit ks =
    let (over, body) = writer_run-Keeps limit ks [] new_captured (ground arith, ground arith) in
    (writer_run-status limit ks new_captured refl refl, over, body)
