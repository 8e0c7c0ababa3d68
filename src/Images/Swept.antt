-- ===== src/Images/Swept.antt =====
-- What a pass of the sweep deletes, and how much.
use crapnote.Base.{
  ℕ, zero, suc, ◌+◌, ◌-◌, ◌≤◌, ◌≡◌, refl, sym, ap, ◌∙◌, Bool, ◌||◌, List, [], ◌∷◌, ◌++◌, arith, inl,
  inr, Bool-cases, length, take, drop, take-append-drop, length-drop, length-take, leb,
}
use crapnote.Base.Ints.{ℤ}
use crapnote.Base.Table.{select, delete, exists, count}
use crapnote.Base.Table.Rows.{select-delete, count-delete_le}
use crapnote.Db.{Db, Bytes, Image}
use crapnote.Images.{same_bytes}
use crapnote.Images.Sweep.{
  has_id, is_among, without, delete_chunks, delete_images, orphans_of, sweep_users, sweep_orphans,
  effective_limit, users_with_aged_images, unreferenced, aged_image_ids,
}
use crapnote.Images.Unused.{is_referenced, orphans_of-unreferenced}

has_id-append :
    (id : Bytes) (xs ys : List Bytes) → has_id id (xs ++ ys) ≡ (has_id id xs || has_id id ys)
unfolding exists
has_id-append id [] ys = refl
has_id-append id (x ∷ xs) ys = ground (arith, has_id-append id xs ys)

module _ (user_id : ℕ) (xs ys : List Bytes) where
  delete-append :
      (is : List Image)
      → delete (is_among user_id (xs ++ ys)) is
        ≡ delete (is_among user_id ys) (delete (is_among user_id xs) is)
  unfolding delete
  delete-append [] = refl
  delete-append (i ∷ is) = ground (arith, has_id-append i.id xs ys, delete-append is)

  count-append :
      (is : List Image)
      → count (is_among user_id (xs ++ ys)) is
        ≡ count (is_among user_id xs) is
          + count (is_among user_id ys) (delete (is_among user_id xs) is)
  unfolding delete count
  count-append [] = omega arith
  count-append (i ∷ is) = ground (arith, has_id-append i.id xs ys, count-append is)

among-nil :
    (user_id : ℕ) (is : List Image)
    → (count (is_among user_id []) is ≡ 0) × (delete (is_among user_id []) is ≡ is)
unfolding delete count exists
among-nil user_id [] = (refl, refl)
among-nil user_id (i ∷ is) = let (c, d) = among-nil user_id is in (ground arith, ground arith)

left_with :
    (db : Db) (m n : ℕ) (xs ys : List Image)
    → m ≡ n
    → xs ≡ ys
    → ◌≡◌ {A = ℕ × Db} (m, record db { images = xs }) (n, record db { images = ys })
left_with db m n xs ys a b = rw (a, b) refl

delete_chunks-once :
    (rounds user_id : ℕ) (ids : List Bytes) (deleted : ℕ) (db : Db)
    → length ids ≤ rounds
    → delete_chunks rounds user_id ids deleted db
      ≡ (deleted + count (is_among user_id ids) db.images, without user_id ids db)
unfolding delete_chunks
delete_chunks-once rounds user_id [] deleted db h =
    let (c, d) = among-nil user_id db.images in
    left_with db deleted _ db.images _ (omega (arith, c)) (sym d)
delete_chunks-once zero user_id (id ∷ ids) deleted db h = absurd (omega arith)
delete_chunks-once (suc rounds) user_id (id ∷ ids) deleted db h =
    let chunk = id ∷ take 99 ids in
    let rest = drop 99 ids in
    let whole : chunk ++ rest ≡ id ∷ ids = ap (λ t. id ∷ t) (take-append-drop 99 ids) in
    let c =
      ap (λ t. count (is_among user_id t) db.images) (sym whole)
      ∙ count-append user_id chunk rest db.images in
    let d =
      ap (λ t. delete (is_among user_id t) db.images) (sym whole)
      ∙ delete-append user_id chunk rest db.images in
    let shorter : length rest ≤ rounds = let l = length-drop 99 ids in omega arith in
    delete_chunks-once rounds user_id rest (deleted + count (is_among user_id chunk) db.images)
      (without user_id chunk db) shorter
    ∙ left_with db _ _ _ _ (omega (arith, c)) (sym d)

-- Deleting ids in chunks of a hundred deletes what one statement with all of them would, and counts
-- the same rows; the length of the ids is rounds enough.
pub delete_images-once :
    (user_id : ℕ) (ids : List Bytes) (db : Db)
    → delete_images user_id ids db
      ≡ (count (is_among user_id ids) db.images, without user_id ids db)
unfolding delete_images
delete_images-once user_id ids db =
    delete_chunks-once (length ids) user_id ids 0 db (omega arith)
    ∙ left_with db _ _ _ _ (omega arith) refl

-- An image that a note of its own user mentions.
unfoldable pub is_live : Db → Image → Bool
is_live db i = is_referenced i.user_id db i.id

without-is_live :
    (user_id cutoff room : ℕ) (db : Db)
    → select (is_live db) (without user_id (orphans_of user_id cutoff room db) db).images
      ≡ select (is_live db) db.images
unfolding is_live
without-is_live user_id cutoff room db =
    let ids = orphans_of user_id cutoff room db in
    select-delete (is_live db) (is_among user_id ids) db.images (λ i h.
      let free = orphans_of-unreferenced user_id cutoff room db i.id (ground arith) in
      let mine : i.user_id ≡ user_id = ground arith in rw mine free)

sweep_users-is_live :
    (limit cutoff : ℕ) (us : List ℕ) (deleted : ℕ) (db : Db)
    → select (is_live db) (sweep_users limit cutoff us (deleted, db)).1.images
      ≡ select (is_live db) db.images
unfolding sweep_users is_live is_referenced
sweep_users-is_live limit cutoff [] deleted db = refl
sweep_users-is_live limit cutoff (u ∷ us) deleted db = elim (Bool-cases (leb limit deleted)) [
  | inl e ↦ rw e refl
  | inr e ↦
      let ids = orphans_of u cutoff (limit - deleted) db in
      let left = without u ids db in
      let n = count (is_among u ids) db.images in
      rw (e, delete_images-once u ids db)
        (sweep_users-is_live limit cutoff us (deleted + n) left
          ∙ without-is_live u cutoff (limit - deleted) db)
]

-- A pass of the sweep deletes no image that a note of its own user mentions, whatever the grace
-- period, the limit and the time: those images are left as they were, in their order.
pub sweep_orphans-is_live :
    (grace : ℕ) (limit : ℤ) (now : ℕ) (db : Db)
    → select (is_live db) (sweep_orphans grace limit now db).1.images
      ≡ select (is_live db) db.images
unfolding sweep_orphans
sweep_orphans-is_live grace limit now db =
    let cutoff = now - grace in
    sweep_users-is_live (effective_limit limit) cutoff (users_with_aged_images cutoff db) 0 db

-- No two images share an id.
unfoldable pub IsUnique : List Image → Type 0
IsUnique is = (id : Bytes) → count (λ i. same_bytes i.id id) is ≤ 1

count-split :
    (user_id : ℕ) (id : Bytes) (ids : List Bytes) (is : List Image)
    → count (is_among user_id (id ∷ ids)) is
      ≤ count (λ i. same_bytes i.id id) is + count (is_among user_id ids) is
unfolding count exists
count-split user_id id ids [] = omega arith
count-split user_id id ids (i ∷ is) = ground (arith, count-split user_id id ids is)

count-is_among :
    (user_id : ℕ) (ids : List Bytes) (is : List Image)
    → IsUnique is
    → count (is_among user_id ids) is ≤ length ids
unfolding IsUnique
count-is_among user_id [] is u = let (c, _) = among-nil user_id is in omega (arith, c)
count-is_among user_id (id ∷ ids) is u =
    let rest = count-is_among user_id ids is u in
    let here = u id in omega (arith, rest, here, count-split user_id id ids is)

without-IsUnique : (q : Image → Bool) (is : List Image) → IsUnique is → IsUnique (delete q is)
unfolding IsUnique
without-IsUnique q is u id =
    let here = u id in omega (arith, here, count-delete_le (λ i. same_bytes i.id id) q is)

sweep_users-limit :
    (limit cutoff : ℕ) (us : List ℕ) (deleted : ℕ) (db : Db)
    → deleted ≤ limit
    → IsUnique db.images
    → (sweep_users limit cutoff us (deleted, db)).0 ≤ limit
unfolding sweep_users
sweep_users-limit limit cutoff [] deleted db h u = h
sweep_users-limit limit cutoff (v ∷ us) deleted db h u = elim (Bool-cases (leb limit deleted)) [
  | inl e ↦ rw e h
  | inr e ↦
      let ids = orphans_of v cutoff (limit - deleted) db in
      let some_of = unreferenced v (aged_image_ids v cutoff db) db in
      let few = length-take (limit - deleted) some_of in
      let n = count (is_among v ids) db.images in
      let bound = count-is_among v ids db.images u in
      let room : deleted + n ≤ limit = omega (arith, few, bound) in
      rw (e, delete_images-once v ids db)
        (sweep_users-limit limit cutoff us (deleted + n) (without v ids db) room
          (without-IsUnique (is_among v ids) db.images u))
]

-- Where no two images share an id, a pass deletes at most as many images as its limit says: 500, if the
-- limit of the call is not above 0.
pub sweep_orphans-limit :
    (grace : ℕ) (limit : ℤ) (now : ℕ) (db : Db)
    → IsUnique db.images
    → (sweep_orphans grace limit now db).0 ≤ effective_limit limit
unfolding sweep_orphans
sweep_orphans-limit grace limit now db u =
    let cutoff = now - grace in
    sweep_users-limit (effective_limit limit) cutoff (users_with_aged_images cutoff db) 0 db
      (omega arith) u
