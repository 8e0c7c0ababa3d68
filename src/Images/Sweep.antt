-- ===== src/Images/Sweep.antt =====
-- backend/internal/images/sweep.go: SweepOrphans and the statements that it runs. A failure of the driver
-- is left out.
use crapnote.Base.{
  ℕ, zero, suc, ◌+◌, ◌-◌, ◌*◌, ◌/◌, Bool, ◌&&◌, List, [], ◌∷◌, map, ◌==◌, leb, if◌then◌else◌,
  length, take, drop,
}
use crapnote.Base.Ints.{ℤ, pos, pos_part, leb_ℤ}
use crapnote.Base.Table.{select, delete, count, exists}
use crapnote.Base.Sort.{sort_by}
use crapnote.Db.{Db, Bytes, Note, Image, second}
use crapnote.Images.{same_bytes}
use crapnote.Images.Scan.{image_path, find_image_ids, contains, strike_off}

-- 24 * time.Hour
abbrev pub orphan_grace_period : ℕ
orphan_grace_period = 24 * (3600 * second)

abbrev pub sweep_orphan_batch : ℕ
sweep_orphan_batch = 500

abbrev pub delete_chunk : ℕ
delete_chunk = 100

-- `created_at < ?` compares texts, of which the left one ends with the seconds: the second of the cutoff
-- counts as before it.
unfoldable pub is_aged : ℕ → Image → Bool
is_aged cutoff i = leb (i.created_at / second) (cutoff / second)

unfoldable pub distinct : List ℕ → List ℕ
distinct [] = []
distinct (x ∷ xs) = x ∷ delete (λ y. y == x) (distinct xs)

unfoldable pub users_with_aged_images : ℕ → Db → List ℕ
unfolding distinct
users_with_aged_images cutoff db =
    distinct (map (λ i. i.user_id) (select (is_aged cutoff) db.images))

-- ORDER BY created_at
unfoldable pub older : Image → Image → Bool
older a b = leb a.created_at b.created_at

unfoldable pub aged_image_ids : ℕ → ℕ → Db → List Bytes
unfolding older
aged_image_ids user_id cutoff db =
    map (λ i. i.id)
      (sort_by older (select (λ i. i.user_id == user_id && is_aged cutoff i) db.images))

-- strikeOff of each match in the list.
unfoldable pub strike_matches : List Bytes → List Bytes → List Bytes
strike_matches [] pending = pending
strike_matches (tok ∷ toks) pending = strike_matches toks (strike_off pending tok)

-- A body without the path is skipped.
unfoldable pub strike_body : Bytes → List Bytes → List Bytes
unfolding strike_matches
strike_body body pending =
    if contains image_path body then strike_matches (find_image_ids body) pending else pending

-- The loop over the bodies, which ends when nothing is pending.
unfoldable pub scan_notes : List Note → List Bytes → List Bytes
scan_notes notes [] = []
scan_notes [] (id ∷ ids) = id ∷ ids
scan_notes (n ∷ notes) (id ∷ ids) = scan_notes notes (strike_body n.body (id ∷ ids))

abbrev pub has_id : Bytes → List Bytes → Bool
has_id id = exists (same_bytes id)

unfoldable pub unreferenced : ℕ → List Bytes → Db → List Bytes
unfolding scan_notes
unreferenced user_id ids db =
    let pending = scan_notes (select (λ n. n.user_id == user_id) db.notes) ids in
    select (λ id. has_id id pending) ids

-- DELETE FROM images WHERE user_id = ? AND id IN (…)
abbrev pub is_among : ℕ → List Bytes → Image → Bool
is_among user_id ids i = i.user_id == user_id && has_id i.id ids

abbrev pub without : ℕ → List Bytes → Db → Db
without user_id ids db = record db { images = delete (is_among user_id ids) db.images }

-- The loop of deleteImages; `rounds` bounds its rounds, and the length of `ids` is enough.
unfoldable pub delete_chunks : ℕ → ℕ → List Bytes → ℕ → Db → ℕ × Db
delete_chunks rounds user_id [] deleted db = (deleted, db)
delete_chunks zero user_id (id ∷ ids) deleted db = (deleted, db)
delete_chunks (suc rounds) user_id (id ∷ ids) deleted db =
    let chunk = take delete_chunk (id ∷ ids) in
    delete_chunks rounds user_id (drop delete_chunk (id ∷ ids))
      (deleted + count (is_among user_id chunk) db.images) (without user_id chunk db)

unfoldable pub delete_images : ℕ → List Bytes → Db → ℕ × Db
unfolding delete_chunks
delete_images user_id ids db = delete_chunks (length ids) user_id ids 0 db

-- The images of one user that a pass may still delete.
abbrev pub orphans_of : ℕ → ℕ → ℕ → Db → List Bytes
orphans_of user_id cutoff room db =
    take room (unreferenced user_id (aged_image_ids user_id cutoff db) db)

unfoldable pub sweep_users : ℕ → ℕ → List ℕ → ℕ × Db → ℕ × Db
sweep_users limit cutoff [] swept = swept
sweep_users limit cutoff (u ∷ us) (deleted, db) =
    let (n, db') = delete_images u (orphans_of u cutoff (limit - deleted) db) db in
    let rest = sweep_users limit cutoff us (deleted + n, db') in
    if leb limit deleted then (deleted, db) else rest

abbrev pub effective_limit : ℤ → ℕ
effective_limit limit = if leb_ℤ limit (pos 0) then sweep_orphan_batch else pos_part limit

unfoldable pub sweep_orphans : ℕ → ℤ → ℕ → Db → ℕ × Db
unfolding sweep_users
sweep_orphans grace limit now db =
    let cutoff = now - grace in
    sweep_users (effective_limit limit) cutoff (users_with_aged_images cutoff db) (0, db)
