-- ===== src/Tokens/Usage.antt =====
-- backend/internal/tokens/usage_recorder.go: the buffered channel and its drain loop as steps, against
-- recording at once. The log and the write's timeout are left out.
use crapnote.Base.{
  ℕ, ◌+◌, ◌≤◌, ◌≡◌, refl, ap, ◌∙◌, true, List, [], ◌∷◌, ◌++◌, arith, if◌then◌else◌, ltb, length,
  length-append,
}
use crapnote.Base.Ints.{ℤ, pos, pos_part, leb_ℤ}
use crapnote.Db.{Db}
use crapnote.Tokens.Service.{record_usage}

pub record UsageEvent : Type 0 where
  pub token_id : ℕ
  pub ts : ℕ

-- The channel: what it holds, and its capacity.
pub record UsageRecorder : Type 0 where
  pub ch : List UsageEvent
  pub buffer_size : ℕ

unfoldable pub new_usage_recorder : ℤ → UsageRecorder
new_usage_recorder buffer_size = record {
  ch = [];
  buffer_size = if leb_ℤ buffer_size (pos 0) then 256 else pos_part buffer_size;
}

-- Record: a full buffer drops the event.
unfoldable pub record_event : UsageEvent → UsageRecorder → UsageRecorder
record_event ev r = if ltb (length r.ch) r.buffer_size then record r { ch = r.ch ++ ev ∷ [] } else r

abbrev pub written : UsageEvent → Db → Db
written ev db = (record_usage ev.token_id ev.ts db).1

-- A round of the drain loop.
abbrev pub drained : List UsageEvent → UsageRecorder → Db → UsageRecorder × Db
drained [] r db = (r, db)
drained (ev ∷ rest) r db = (record r { ch = rest }, written ev db)

pub data UsageStep : Type 0 where
  records : UsageEvent → UsageStep
  drains : UsageStep

unfoldable pub usage_step : UsageStep → UsageRecorder × Db → UsageRecorder × Db
usage_step (records ev) (r, db) = (record_event ev r, db)
usage_step drains (r, db) = drained r.ch r db

-- Requests and rounds of the loop, as they interleave.
unfoldable pub usage_run : List UsageStep → UsageRecorder × Db → UsageRecorder × Db
usage_run [] s = s
usage_run (step ∷ steps) s = usage_run steps (usage_step step s)

-- Recording at once.
unfoldable pub write_each : List UsageEvent → Db → Db
write_each [] db = db
write_each (ev ∷ evs) db = write_each evs (written ev db)

unfoldable pub recorded : List UsageStep → List UsageEvent
recorded [] = []
recorded (records ev ∷ steps) = ev ∷ recorded steps
recorded (drains ∷ steps) = recorded steps

-- The store that the recorder stands for: the one in which the buffered events are written too.
unfoldable pub stands_for : UsageRecorder × Db → Db
stands_for (r, db) = write_each r.ch db

write_each-append :
    (xs : List UsageEvent) (ev : UsageEvent) (db : Db)
    → write_each (xs ++ ev ∷ []) db ≡ written ev (write_each xs db)
unfolding write_each
write_each-append [] ev db = refl
write_each-append (x ∷ xs) ev db = write_each-append xs ev (written x db)

drained-stands_for :
    (ch : List UsageEvent) (r : UsageRecorder) (db : Db)
    → r.ch ≡ ch
    → (stands_for (drained ch r db) ≡ stands_for (r, db))
      × (length (drained ch r db).0.ch ≤ length ch)
      × ((drained ch r db).0.buffer_size ≡ r.buffer_size)
unfolding stands_for write_each
drained-stands_for [] r db same = (refl, rw same (omega arith), refl)
drained-stands_for (ev ∷ rest) r db same = (rw same refl, omega arith, refl)

record_event-room :
    (ev : UsageEvent) (r : UsageRecorder)
    → ltb (length r.ch) r.buffer_size ≡ true
    → record_event ev r ≡ record r { ch = r.ch ++ ev ∷ [] }
unfolding record_event
record_event-room ev r e = rw e refl

usage_run-from :
    (steps : List UsageStep) (r : UsageRecorder) (db : Db)
    → length r.ch + length (recorded steps) ≤ r.buffer_size
    → stands_for (usage_run steps (r, db)) ≡ write_each (recorded steps) (stands_for (r, db))
unfolding usage_run usage_step recorded write_each stands_for
usage_run-from [] r db room = refl
usage_run-from (records ev ∷ steps) r db room =
    let open_room : ltb (length r.ch) r.buffer_size ≡ true = ground arith in
    let l = length-append r.ch (ev ∷ []) in
    let room' : length (r.ch ++ ev ∷ []) + length (recorded steps) ≤ r.buffer_size =
      omega (arith, l) in
    ap (λ x. stands_for (usage_run steps (x, db))) (record_event-room ev r open_room)
    ∙ usage_run-from steps (record r { ch = r.ch ++ ev ∷ [] }) db room'
    ∙ ap (write_each (recorded steps)) (write_each-append r.ch ev db)
usage_run-from (drains ∷ steps) r db room =
    let (same, shorter, size) = drained-stands_for r.ch r db refl in
    let (r', db') = drained r.ch r db in
    let room' : length r'.ch + length (recorded steps) ≤ r'.buffer_size =
      omega (arith, shorter, size) in
    usage_run-from steps r' db' room' ∙ ap (write_each (recorded steps)) same

-- However requests and rounds of the drain loop interleave, if no more events are recorded than the
-- buffer holds, then the store and the events that are still buffered come to the store in which
-- every event was written at once, in order.
pub usage_run-stands_for :
    (buffer_size : ℤ) (steps : List UsageStep) (db : Db)
    → length (recorded steps) ≤ (new_usage_recorder buffer_size).buffer_size
    → stands_for (usage_run steps (new_usage_recorder buffer_size, db))
      ≡ write_each (recorded steps) db
unfolding new_usage_recorder stands_for write_each
usage_run-stands_for buffer_size steps db room =
    usage_run-from steps (new_usage_recorder buffer_size) db (omega (arith, room))
