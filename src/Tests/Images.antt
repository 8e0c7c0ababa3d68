-- ===== src/Tests/Images.antt =====
-- Two users' images, of which one is mentioned.
use crapnote.Base.{
  ℕ, ◌*◌, ◌+◌, String, ◌-◌, ◌<◌, ◌≡◌, refl, arith, true, false, some, [], ◌∷◌, codes,
}
use crapnote.Base.Ints.{pos}
use crapnote.Base.Table.{select, exists, delete, count}
use crapnote.Db.{Db, Bytes, Image, second}
use crapnote.Http.{after, respond}
use crapnote.Images.{
  same_bytes, Limits, image, bytes_in, max_image_size, admitted, admit_file, admit_form,
  admit_upload, keep_image, insert_image, is_allowed_image,
}
use crapnote.Images.Scan.{contains, strike_off, find_image_ids, strip, token, is_id_char}
use crapnote.Images.Sweep.{unreferenced, sweep_orphans, is_aged, strike_body}
use crapnote.Images.Unused.{is_referenced, mentions, names}
use crapnote.Images.Swept.{is_live, IsUnique, sweep_orphans-is_live}
use crapnote.Images.Progress.{is_orphan, sweep_orphans-progress}
use crapnote.Images.Quota.{IsWithin, Reached, Reached-IsWithin}
use crapnote.Tests.{alice, note, store}

abbrev picture : Bytes → ℕ → Image
picture id user = record {
  id = id;
  user_id = user;
  mime_type = "image/png";
  contents = 1 ∷ 2 ∷ 3 ∷ [];
  created_at = 0;
}

abbrev used : Bytes
used = codes "ab-1"

abbrev unused : Bytes
unused = codes "ab-2"

abbrev gallery : Db
gallery = record store {
  notes = record (note 1 1 false) { body = codes "see /api/images/ab-1-9)" } ∷ [];
  images = picture used 1 ∷ picture unused 1 ∷ picture (codes "ab-1-9") 2 ∷ [];
}

abbrev later : ℕ
later = 100_000 * second

-- A suffix behind a hyphen is struck off with the id.
matches : find_image_ids (codes "see /api/images/ab-1-9)") ≡ codes "ab-1-9" ∷ []
unfolding find_image_ids strip token is_id_char
matches = refl

left_over : unreferenced 1 (used ∷ unused ∷ []) gallery ≡ unused ∷ []
unfolding unreferenced select exists strike_body contains strip find_image_ids strike_off delete
    same_bytes
left_over = refl

sweep_orphans-is_live_example :
    select (is_live gallery) (sweep_orphans 0 (pos 1) later gallery).1.images
    ≡ select (is_live gallery) gallery.images
sweep_orphans-is_live_example = sweep_orphans-is_live 0 (pos 1) later gallery

an_orphan : exists (is_orphan (later - 0) gallery) gallery.images ≡ true
unfolding exists is_orphan is_aged is_live mentions names find_image_ids is_referenced
an_orphan = refl

sweep_orphans-progress_example : 0 < (sweep_orphans 0 (pos 1) later gallery).0
sweep_orphans-progress_example = sweep_orphans-progress 0 (pos 1) later gallery an_orphan

abbrev one_image : Db
one_image = record gallery { images = picture used 1 ∷ [] }

one-IsUnique : IsUnique one_image.images
unfolding IsUnique count
one-IsUnique id = ground arith

abbrev small : Limits
small = record { uploads_per_minute = pos 10; quota_bytes = pos 8 }

small-IsWithin : IsWithin 8 one_image
unfolding bytes_in
small-IsWithin v = ground arith

abbrev sniff : Bytes → String
sniff s = "image/png"

abbrev three : Bytes
three = 7 ∷ 7 ∷ 7 ∷ []

-- Two uploads are both admitted before either is stored.
admits_three :
    admit_upload sniff small (some alice) true (image three) one_image ≡ admitted alice three
unfolding admit_upload admit_form admit_file bytes_in is_allowed_image
admits_three = refl

abbrev crowded : Db
crowded =
    (keep_image sniff small alice unused three 6
      (keep_image sniff small alice (codes "ab-3") three 5 one_image).1).1

interleaved : Reached sniff small 1 one_image crowded []
interleaved = Reached.stores _ [] [] alice three unused 6 (
    Reached.stores one_image [] ((alice, three) ∷ []) alice three (codes "ab-3") 5 (
      Reached.admits one_image ((alice, three) ∷ []) (some alice) true (image three) alice three
        (Reached.admits one_image [] (some alice) true (image three) alice three Reached.begins
          (omega arith) admits_three)
        (omega arith) admits_three))

-- They take a byte more than the quota.
exceeds_quota : bytes_in 1 crowded.images ≡ 9
unfolding keep_image after respond insert_image same_bytes exists bytes_in
exceeds_quota = refl

Reached-IsWithin_example : IsWithin (8 + 1 * max_image_size) crowded
Reached-IsWithin_example =
    Reached-IsWithin sniff small 1 one_image crowded [] small-IsWithin interleaved
