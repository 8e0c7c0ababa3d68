-- ===== src/Images/Progress.antt =====
-- A pass of the sweep does something while there is something to do: backend/internal/images/sweep.go.
use crapnote.Base.{
  ℕ, zero, suc, ◌+◌, ◌-◌, ◌≤◌, ◌<◌, ◌≡◌, refl, ap, ◌∙◌, Bool, true, false, not, ◌&&◌, List, [], ◌∷◌,
  map, ◌==◌, leb, arith, inl, inr, Bool-cases, take, All,
}
use crapnote.Base.Ints.{ℤ, pos, negsuc}
use crapnote.Base.Table.{select, exists, count, exists-count}
use crapnote.Base.Table.Rows.{exists-delete, exists_mono}
use crapnote.Base.Table.Every.{All-map, All-select_of}
use crapnote.Base.Table.Inspected.{
  exists_self, All-of_map, exists-map, select-first, exists-select, count-zero-delete,
  exists_mono_All,
}
use crapnote.Base.Sort.{sort_by, sort_by-All, exists-sort_by}
use crapnote.Db.{Db, Bytes, Image}
use crapnote.Images.{same_bytes}
use crapnote.Images.Sweep.{
  is_aged, distinct, older, users_with_aged_images, aged_image_ids, unreferenced, is_among, without,
  delete_images, orphans_of, sweep_users, sweep_orphans, effective_limit,
}
use crapnote.Images.Unused.{is_referenced, unreferenced-select, same_bytes_refl}
use crapnote.Images.Swept.{is_live, delete_images-once}

-- An image that the sweep is for.
unfoldable pub is_orphan : ℕ → Db → Image → Bool
is_orphan cutoff db i = is_aged cutoff i && not (is_live db i)

abbrev has_orphan : ℕ → Db → ℕ → Bool
has_orphan cutoff db u = exists (λ i. i.user_id == u && is_orphan cutoff db i) db.images

module _ (cutoff : ℕ) (db : Db) (u : ℕ) where
  abbrev mine : Image → Bool
  mine i = i.user_id == u && is_aged cutoff i

  -- Each aged id is that of a row of the user.
  aged-rows :
      All
        (λ id. exists (λ i. i.user_id == u && same_bytes i.id id) db.images ≡ true)
        (aged_image_ids u cutoff db)
  unfolding aged_image_ids
  aged-rows =
      let row : Image → Type 0 =
        λ x. exists (λ i. i.user_id == u && same_bytes i.id x.id) db.images ≡ true in
      let self =
        exists_self mine (λ x i. i.user_id == u && same_bytes i.id x.id) db.images
          (λ x e. let s = same_bytes_refl x.id in ground arith) in
      let picked = All-select_of row mine db.images self in
      All-of_map (λ (i : Image). i.id)
        (λ id. exists (λ i. i.user_id == u && same_bytes i.id id) db.images ≡ true) _
        (sort_by-All older row (select mine db.images) picked)

  orphan_free :
      (i : Image)
      → (i.user_id == u && is_orphan cutoff db i) ≡ true
      → (mine i && not (is_referenced u db i.id)) ≡ true
  unfolding is_orphan is_live
  orphan_free i e =
      let same : is_referenced i.user_id db i.id ≡ is_referenced u db i.id =
        ap (λ v. is_referenced v db i.id) (ground arith) in
      ground (arith, same)

  aged-orphans :
      has_orphan cutoff db u ≡ true
      → exists (λ id. not (is_referenced u db id)) (aged_image_ids u cutoff db) ≡ true
  unfolding aged_image_ids is_orphan is_live
  aged-orphans h =
      let free : Image → Bool = λ i. not (is_referenced u db i.id) in
      exists-map (λ (i : Image). i.id) (λ id. not (is_referenced u db id))
        (sort_by older (select mine db.images))
      ∙ exists-sort_by older free (select mine db.images)
      ∙ exists-select free mine db.images
      ∙ exists_mono (λ i. i.user_id == u && is_orphan cutoff db i) (λ i. mine i && free i) db.images
          (λ i e. orphan_free i e) h

  deletes-some :
      (room : ℕ)
      → 0 < room
      → has_orphan cutoff db u ≡ true
      → 0 < count (is_among u (orphans_of u cutoff room db)) db.images
  unfolding exists
  deletes-some zero low h = absurd (omega arith)
  deletes-some (suc room) low h =
      let aged = aged_image_ids u cutoff db in
      let free : Bytes → Bool = λ id. not (is_referenced u db id) in
      let row : Bytes → Type 0 =
        λ id. exists (λ i. i.user_id == u && same_bytes i.id id) db.images ≡ true in
      let (x, rest, first_of) = select-first free aged (aged-orphans h) in
      let left : unreferenced u aged db ≡ x ∷ rest = unreferenced-select u aged db ∙ first_of in
      let rows : All row (select free aged) =
        All-select_of row free aged (All-map _ _ aged (λ id r e. r) aged-rows) in
      let rows' : All row (x ∷ rest) = rw first_of at rows in
      let there : exists (is_among u (x ∷ take room rest)) db.images ≡ true =
        exists_mono (λ i. i.user_id == u && same_bytes i.id x) (is_among u (x ∷ take room rest))
          db.images (λ i e. ground arith) rows'.0 in
      rw left (exists-count (is_among u (x ∷ take room rest)) db.images there)

sweep_users_grows :
    (limit cutoff : ℕ) (us : List ℕ) (deleted : ℕ) (db : Db)
    → deleted ≤ (sweep_users limit cutoff us (deleted, db)).0
unfolding sweep_users
sweep_users_grows limit cutoff [] deleted db = omega arith
sweep_users_grows limit cutoff (u ∷ us) deleted db = elim (Bool-cases (leb limit deleted)) [
  | inl e ↦ rw e (omega arith)
  | inr e ↦
      let (n, db') = delete_images u (orphans_of u cutoff (limit - deleted) db) db in
      let more = sweep_users_grows limit cutoff us (deleted + n) db' in rw e (omega (arith, more))
]

sweep_users-progress :
    (limit cutoff : ℕ) (us : List ℕ) (db : Db)
    → 0 < limit
    → exists (has_orphan cutoff db) us ≡ true
    → 0 < (sweep_users limit cutoff us (0, db)).0
unfolding sweep_users exists
sweep_users-progress limit cutoff [] db low h = absurd (cc h)
sweep_users-progress limit cutoff (u ∷ us) db low h =
    let ids = orphans_of u cutoff (limit - 0) db in
    let n = count (is_among u ids) db.images in
    let open_room : leb limit 0 ≡ false = ground arith in
    elim (Bool-cases (n == 0)) [
      | inl none_gone ↦
          let same = count-zero-delete (is_among u ids) db.images (ground arith) in
          let later : exists (has_orphan cutoff db) us ≡ true =
            let some_gone = deletes-some cutoff db u (limit - 0) (omega arith) in ground arith in
          let still : 0 + n ≡ 0 = ground arith in
          rw (open_room, delete_images-once u ids db, same, still)
            (sweep_users-progress limit cutoff us db low later)
      | inr some_gone ↦
          let more = sweep_users_grows limit cutoff us (0 + n) (without u ids db) in
          rw (open_room, delete_images-once u ids db) (ground (arith, more))
    ]

exists-distinct : (p : ℕ → Bool) (xs : List ℕ) → exists p (distinct xs) ≡ exists p xs
unfolding exists distinct
exists-distinct p [] = refl
exists-distinct p (x ∷ xs) =
    let ih = exists-distinct p xs in
    elim (Bool-cases (p x)) [
      | inl e ↦ rw e refl
      | inr e ↦
          let apart : (y : ℕ) → y == x ≡ true → p y ≡ false = λ y h. ap p (ground arith) ∙ e in
          rw (e, exists-delete p (λ y. y == x) (distinct xs) apart) ih
    ]

-- The user of an orphan has one.
owners :
    (cutoff : ℕ) (db : Db)
    → All
        (λ x.
          is_orphan cutoff db x ≡ true
          → (is_aged cutoff x && has_orphan cutoff db x.user_id) ≡ true)
        db.images
unfolding is_orphan
owners cutoff db =
    All-map _ _ db.images (λ x own e. let own' = own e in ground arith)
      (exists_self (is_orphan cutoff db) (λ x i. i.user_id == x.user_id && is_orphan cutoff db i)
        db.images (λ x e. ground arith))

effective_limit-positive : (limit : ℤ) → 0 < effective_limit limit
effective_limit-positive (pos zero) = omega arith
effective_limit-positive (pos (suc n)) = ground arith
effective_limit-positive (negsuc n) = ground arith

-- A pass deletes an image whenever there is one that is old enough and that no note of its own user
-- mentions.
pub sweep_orphans-progress :
    (grace : ℕ) (limit : ℤ) (now : ℕ) (db : Db)
    → exists (is_orphan (now - grace) db) db.images ≡ true
    → 0 < (sweep_orphans grace limit now db).0
unfolding sweep_orphans users_with_aged_images
sweep_orphans-progress grace limit now db h =
    let cutoff = now - grace in
    let users = map (λ (i : Image). i.user_id) (select (is_aged cutoff) db.images) in
    let all =
      exists-map (λ (i : Image). i.user_id) (has_orphan cutoff db)
        (select (is_aged cutoff) db.images) in
    let picked =
      exists-select (λ (i : Image). has_orphan cutoff db i.user_id) (is_aged cutoff) db.images in
    let found =
      exists_mono_All (is_orphan cutoff db)
        (λ i. is_aged cutoff i && has_orphan cutoff db i.user_id) db.images (owners cutoff db) h in
    sweep_users-progress (effective_limit limit) cutoff (distinct users) db
      (effective_limit-positive limit)
      (exists-distinct (has_orphan cutoff db) users ∙ all ∙ picked ∙ found)
