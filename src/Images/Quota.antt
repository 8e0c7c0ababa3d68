-- ===== src/Images/Quota.antt =====
-- The storage quota of each user: backend/internal/images/handler.go, with the sweep and the deletion of
-- users beside it.
use crapnote.Base.{
  ℕ, ◌+◌, ◌-◌, ◌*◌, All, take, length-take, none, some, true, ◌≤◌, ◌≡◌, refl, Bool, false, not,
  ◌||◌, Option, List, [], ◌∷◌, ◌++◌, ◌==◌, ltb, leb, String, arith, inl, inr, Bool-cases,
  if◌then◌else◌, length, ap,
}
use crapnote.Base.Ints.{ℤ, pos_part}
use crapnote.Base.Table.{delete, exists, count}
use crapnote.Db.{Db, Bytes, User, Image}
use crapnote.Db.Cascade.{delete_user, delete_notes, delete_tags}
use crapnote.Http.{after, respond, send, failing}
use crapnote.Http.Rules.{continue-keeps}
use crapnote.Images.{
  same_bytes, Limits, Form, bad_form, no_image, image, bytes_in, new_image, insert_image,
  max_image_size, is_allowed_image, admitted, admit_file, admit_form, admit_upload, keep_image,
}
use crapnote.Images.Sweep.{
  without, is_among, orphans_of, sweep_users, sweep_orphans, effective_limit,
}
use crapnote.Images.Swept.{delete_images-once}

-- No user's images take more than the quota.
abbrev pub IsWithin : ℕ → Db → Type 0
IsWithin quota db = (user_id : ℕ) → bytes_in user_id db.images ≤ quota

bytes_in-append :
    (user_id : ℕ) (xs ys : List Image)
    → bytes_in user_id (xs ++ ys) ≡ bytes_in user_id xs + bytes_in user_id ys
unfolding bytes_in
bytes_in-append user_id [] ys = omega arith
bytes_in-append user_id (x ∷ xs) ys = omega (arith, bytes_in-append user_id xs ys)

bytes_in-delete :
    (user_id : ℕ) (q : Image → Bool) (xs : List Image)
    → bytes_in user_id (delete q xs) ≤ bytes_in user_id xs
unfolding bytes_in delete
bytes_in-delete user_id q [] = omega arith
bytes_in-delete user_id q (x ∷ xs) = ground (arith, bytes_in-delete user_id q xs)

sweep_users-less :
    (v limit cutoff : ℕ) (us : List ℕ) (deleted : ℕ) (db : Db)
    → bytes_in v (sweep_users limit cutoff us (deleted, db)).1.images ≤ bytes_in v db.images
unfolding sweep_users
sweep_users-less v limit cutoff [] deleted db = omega arith
sweep_users-less v limit cutoff (u ∷ us) deleted db = elim (Bool-cases (leb limit deleted)) [
  | inl e ↦ rw e (omega arith)
  | inr e ↦
      let ids = orphans_of u cutoff (limit - deleted) db in
      let fewer = bytes_in-delete v (is_among u ids) db.images in
      let rest =
        sweep_users-less v limit cutoff us (deleted + count (is_among u ids) db.images)
          (without u ids db) in
      rw (e, delete_images-once u ids db) (omega (arith, fewer, rest))
]

-- The bytes of a user among the uploads that were admitted and are not stored yet.
pub in_flight : ℕ → List (User × Bytes) → ℕ
in_flight v [] = 0
in_flight v ((u, contents) ∷ rest) = (if u.id == v then length contents else 0) + in_flight v rest

in_flight-middle :
    (v : ℕ) (xs ys : List (User × Bytes)) (f : User × Bytes)
    → in_flight v (xs ++ f ∷ ys) ≡ in_flight v (f ∷ []) + in_flight v (xs ++ ys)
unfolding in_flight
in_flight-middle v [] ys (u, c) = omega arith
in_flight-middle v ((w, d) ∷ xs) ys (u, c) = omega (arith, in_flight-middle v xs ys (u, c))

-- No upload holds more than one image may have.
abbrev AreSized : List (User × Bytes) → Type 0
AreSized flying = All (λ f. length f.1 ≤ max_image_size) flying

AreSized-middle :
    (xs ys : List (User × Bytes)) (f : User × Bytes) → AreSized (xs ++ f ∷ ys) → AreSized (xs ++ ys)
AreSized-middle [] ys f (a, h) = h
AreSized-middle (x ∷ xs) ys f (a, h) = (a, AreSized-middle xs ys f h)

in_flight-sized :
    (v : ℕ) (flying : List (User × Bytes))
    → AreSized flying
    → in_flight v flying ≤ length flying * max_image_size
unfolding in_flight
in_flight-sized v [] h = omega arith
in_flight-sized v ((u, c) ∷ rest) (a, h) = elim (Bool-cases (u.id == v)) [
  | inl e ↦ rw e (omega (arith, a, in_flight-sized v rest h))
  | inr e ↦ rw e (omega (arith, in_flight-sized v rest h))
]

insert_image-bytes :
    (v : ℕ) (id : Bytes) (u : User) (mime : String) (contents : Bytes) (now : ℕ) (db : Db)
    → bytes_in v (insert_image id u.id mime contents now db).1.images
      ≤ bytes_in v db.images + in_flight v ((u, contents) ∷ [])
unfolding insert_image in_flight
insert_image-bytes v id u mime contents now db =
    elim (Bool-cases
      (exists (λ i. same_bytes i.id id) db.images || not (exists (λ w. w.id == u.id) db.users))) [
        | inl e ↦ rw e (omega arith)
        | inr e ↦
            let row = new_image id u.id mime contents now in
            let own : bytes_in v (row ∷ []) ≡ (if u.id == v then length contents else 0) + 0 =
              unfold bytes_in in refl in
            rw e (omega (arith, bytes_in-append v db.images (row ∷ []), own))
      ]

module _ (detect : Bytes → String) (limits : Limits) where
  abbrev quota : ℕ
  quota = pos_part limits.quota_bytes

  -- What statements reach, in any order, with at most `suc k` uploads under way at a time: the SUM of an upload
  -- that is admitted, its INSERT or its end without one, the sweep, and the deletion of a user.
  pub data Reached (k : ℕ) (start : Db) : Db → List (User × Bytes) → Type 0 where
    begins : Reached k start start []
    admits :
        (db : Db) (flying : List (User × Bytes)) (caller : Option User) (allowed : Bool)
        (form : Form) (u : User) (contents : Bytes)
        → Reached k start db flying
        → length flying ≤ k
        → admit_upload detect limits caller allowed form db ≡ admitted u contents
        → Reached k start db ((u, contents) ∷ flying)
    stores :
        (db : Db) (xs ys : List (User × Bytes)) (u : User) (contents id : Bytes) (now : ℕ)
        → Reached k start db (xs ++ (u, contents) ∷ ys)
        → Reached k start (keep_image detect limits u id contents now db).1 (xs ++ ys)
    gives_up :
        (db : Db) (xs ys : List (User × Bytes)) (f : User × Bytes)
        → Reached k start db (xs ++ f ∷ ys)
        → Reached k start db (xs ++ ys)
    sweeps :
        (db : Db) (flying : List (User × Bytes)) (grace now : ℕ) (limit : ℤ)
        → Reached k start db flying
        → Reached k start (sweep_orphans grace limit now db).1 flying
    drops_user :
        (db : Db) (flying : List (User × Bytes)) (id : ℕ)
        → Reached k start db flying
        → Reached k start (delete_user id db) flying

  admit_file-fits :
      (v : User) (file : Bytes) (db : Db) (u : User) (contents : Bytes)
      → admit_file detect limits v file db ≡ admitted u contents
      → (length contents ≤ max_image_size) × (bytes_in u.id db.images + length contents ≤ quota)
  unfolding admit_file
  admit_file-fits v file db u contents h =
      let data_bytes = take max_image_size file in
      elim (Bool-cases (is_allowed_image (detect data_bytes))) [
        | inr e ↦ let h' = rw e at h in absurd (cc h')
        | inl e ↦ elim (Bool-cases (ltb quota (bytes_in v.id db.images + length data_bytes))) [
          | inl f ↦ let h' = rw (e, f) at h in absurd (cc h')
          | inr f ↦
              let h' = rw (e, f) at h in
              let same : v ≡ u = cc h' in
              let read : data_bytes ≡ contents = cc h' in
              let small : length data_bytes ≤ max_image_size =
                omega (arith, length-take max_image_size file) in
              let fits : bytes_in v.id db.images + length data_bytes ≤ quota = ground arith in
              (rw (← read) small, rw (← read, ← same) fits)
        ]
      ]

  admit_upload-fits :
      (caller : Option User) (allowed : Bool) (form : Form) (db : Db) (u : User) (contents : Bytes)
      → admit_upload detect limits caller allowed form db ≡ admitted u contents
      → (length contents ≤ max_image_size) × (bytes_in u.id db.images + length contents ≤ quota)
  unfolding admit_upload admit_form
  admit_upload-fits none allowed form db u contents h = absurd (cc h)
  admit_upload-fits (some v) false form db u contents h = absurd (cc h)
  admit_upload-fits (some v) true bad_form db u contents h = absurd (cc h)
  admit_upload-fits (some v) true no_image db u contents h = absurd (cc h)
  admit_upload-fits (some v) true (image file) db u contents h =
      admit_file-fits v file db u contents h

  -- What is stored and what is under way, together.
  abbrev Bounded : ℕ → Db → List (User × Bytes) → Type 0
  Bounded k db flying =
      AreSized flying
      × ((v : ℕ) → bytes_in v db.images + in_flight v flying ≤ quota + k * max_image_size)

  fewer-Bounded :
      (k : ℕ) (db db' : Db) (flying : List (User × Bytes))
      → ((v : ℕ) → bytes_in v db'.images ≤ bytes_in v db.images)
      → Bounded k db flying
      → Bounded k db' flying
  fewer-Bounded k db db' flying less (sized, h) = (sized, λ v. omega (arith, less v, h v))

  admits-Bounded :
      (k : ℕ) (db : Db) (flying : List (User × Bytes)) (u : User) (contents : Bytes)
      → length flying ≤ k
      → length contents ≤ max_image_size
      → bytes_in u.id db.images + length contents ≤ quota
      → Bounded k db flying
      → Bounded k db ((u, contents) ∷ flying)
  unfolding in_flight
  admits-Bounded k db flying u contents few size fits (sized, h) = ((size, sized), total)
    where
      total :
          (v : ℕ)
          → bytes_in v db.images + in_flight v ((u, contents) ∷ flying) ≤ quota + k * max_image_size
      total v = elim (Bool-cases (u.id == v)) [
        | inl e ↦
            let same : bytes_in u.id db.images ≡ bytes_in v db.images =
              ap (λ x. bytes_in x db.images) (ground arith) in
            rw e (omega (arith, same, fits, few, in_flight-sized v flying sized))
        | inr e ↦ rw e (omega (arith, h v))
      ]

  stores-Bounded :
      (k : ℕ) (db : Db) (xs ys : List (User × Bytes)) (u : User) (contents id : Bytes) (now : ℕ)
      → Bounded k db (xs ++ (u, contents) ∷ ys)
      → Bounded k (keep_image detect limits u id contents now db).1 (xs ++ ys)
  unfolding keep_image after respond
  stores-Bounded k db xs ys u contents id now (sized, h) = (
    AreSized-middle xs ys (u, contents) sized,
    λ v.
        continue-keeps
          (λ s. bytes_in v s.images + in_flight v (xs ++ ys) ≤ quota + k * max_image_size) failing
          (λ done. send 201 id) (insert_image id u.id (detect contents) contents now db) (kept v)
          (λ b _. kept v),
  )
    where
      kept :
          (v : ℕ)
          → bytes_in v (insert_image id u.id (detect contents) contents now db).1.images
              + in_flight v (xs ++ ys)
            ≤ quota + k * max_image_size
      kept v = omega (
        arith,
        insert_image-bytes v id u (detect contents) contents now db,
        in_flight-middle v xs ys (u, contents),
        h v,
      )

  Reached-Bounded :
      (k : ℕ) (start db : Db) (flying : List (User × Bytes))
      → IsWithin quota start
      → Reached k start db flying
      → Bounded k db flying
  unfolding sweep_orphans delete_user delete_notes delete_tags in_flight
  Reached-Bounded k start _ _ h begins = (tt, λ v. omega (arith, h v))
  Reached-Bounded k start _ _ h (admits db flying caller allowed form u contents r few e) =
      let (size, fits) = admit_upload-fits caller allowed form db u contents e in
      admits-Bounded k db flying u contents few size fits (Reached-Bounded k start db flying h r)
  Reached-Bounded k start _ _ h (stores db xs ys u contents id now r) =
      stores-Bounded k db xs ys u contents id now (Reached-Bounded k start db _ h r)
  Reached-Bounded k start _ _ h (gives_up db xs ys f r) =
      let (sized, b) = Reached-Bounded k start db _ h r in
      (AreSized-middle xs ys f sized, λ v. omega (arith, in_flight-middle v xs ys f, b v))
  Reached-Bounded k start _ _ h (sweeps db flying grace now limit r) =
      fewer-Bounded k db (sweep_orphans grace limit now db).1 flying
        (λ v. sweep_users-less v (effective_limit limit) _ _ 0 db)
        (Reached-Bounded k start db flying h r)
  Reached-Bounded k start _ _ h (drops_user db flying id r) =
      fewer-Bounded k db (delete_user id db) flying
        (λ v. bytes_in-delete v (λ i. i.user_id == id) db.images)
        (Reached-Bounded k start db flying h r)

  -- Whatever the order of the statements of uploads, sweeps and deletions of users: with at most `suc k` uploads under
  -- way at a time, the images of no user take more bytes than the quota and `k` images of the largest size, if none
  -- took more than the quota at the start. So the quota itself holds where uploads follow one another.
  pub Reached-IsWithin :
      (k : ℕ) (start db : Db) (flying : List (User × Bytes))
      → IsWithin quota start
      → Reached k start db flying
      → IsWithin (quota + k * max_image_size) db
  Reached-IsWithin k start db flying h r v =
      let (_, b) = Reached-Bounded k start db flying h r in omega (arith, b v)
