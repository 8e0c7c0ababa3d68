-- ===== src/Images/Own.antt =====
-- FetchByIDs and Serve answer with the images of their user: backend/internal/images/handler.go.
use mathlib.Core.Option
use crapnote.Base.{
  ℕ, ◌≡◌, refl, sym, ap, ◌∙◌, Bool, true, false, Option, none, some, List, [], ◌∷◌, inl, inr,
  Bool-cases, if◌then◌else◌,
}
use crapnote.Base.Table.{first, exists}
use crapnote.Base.Table.Rows.{first-delete}
use crapnote.Db.{Db, Bytes, Image}
use crapnote.Images.{
  same_bytes, Data, data_of, put, own_image, with_fetched, find_image, fetch_each, fetch_by_ids,
}
use crapnote.Images.Sweep.{has_id}
use crapnote.Images.Unused.{same_bytes-eq}

unfoldable pub data_at : Bytes → List (Bytes × Data) → Option Data
data_at id out = Option.map (λ e. e.1) (first (λ e. same_bytes id e.0) out)

abbrev pub or_else : Option Data → Option Data → Option Data
or_else none later = later
or_else (some d) later = some d

apart : (id x y : Bytes) → same_bytes id x ≡ false → same_bytes x y ≡ true → same_bytes id y ≡ false
apart id x y e h = ap (same_bytes id) (sym (same_bytes-eq x y h)) ∙ e

data_at-put :
    (id x : Bytes) (d : Data) (out : List (Bytes × Data))
    → data_at id (put x d out) ≡ (if same_bytes id x then some d else data_at id out)
unfolding data_at first
data_at-put id x d out = elim (Bool-cases (same_bytes id x)) [
  | inl e ↦ rw e refl
  | inr e ↦
      rw
        (
          e,
          first-delete (λ (r : Bytes × Data). same_bytes id r.0) (λ r. same_bytes x r.0) out
              (λ r. apart id x r.0 e),
        )
        refl
]

-- What a user may read under an id.
abbrev pub own_data : ℕ → Db → Bytes → Option Data
own_data user_id db id = Option.map data_of (own_image user_id (find_image id db))

data_at-with_fetched :
    (user_id : ℕ) (id x : Bytes) (db : Db) (out : List (Bytes × Data))
    → data_at id (with_fetched x (own_image user_id (find_image x db)) out) ≡ (
        if same_bytes id x
        then or_else (own_data user_id db id) (data_at id out)
        else data_at id out)
data_at-with_fetched user_id id x db out = elim (Bool-cases (same_bytes id x)) [
  | inl e ↦ rw (e, same_bytes-eq id x e) (found (own_image user_id (find_image x db)) e)
  | inr e ↦ rw e (other (own_image user_id (find_image x db)) e)
]
  where
    found :
        (r : Option Image)
        → same_bytes id x ≡ true
        → data_at x (with_fetched x r out) ≡ or_else (Option.map data_of r) (data_at x out)
    found none e = refl
    found (some i) e =
        let same : same_bytes x x ≡ true =
          ap (λ z. same_bytes z x) (sym (same_bytes-eq id x e)) ∙ e in
        data_at-put x x (data_of i) out ∙ rw same refl

    other :
        (r : Option Image)
        → same_bytes id x ≡ false
        → data_at id (with_fetched x r out) ≡ data_at id out
    other none e = refl
    other (some i) e = data_at-put id x (data_of i) out ∙ rw e refl

choose :
    (a b : Bool) (m p q : Option Data)
    → q ≡ (if a then or_else m p else p)
    → (if b then or_else m q else q) ≡ (if (if a then true else b) then or_else m p else p)
choose true true none p q e = e
choose true true (some d) p q e = refl
choose true false m p q e = e
choose false true m p q e = ap (or_else m) e
choose false false m p q e = e

no_default :
    (b : Bool) (m : Option Data) → (if b then or_else m none else none) ≡ (if b then m else none)
no_default true none = refl
no_default true (some d) = refl
no_default false m = refl

data_at-fetch_each :
    (user_id : ℕ) (id : Bytes) (ids : List Bytes) (db : Db) (out : List (Bytes × Data))
    → data_at id (fetch_each user_id ids db out) ≡ (
        if has_id id ids then or_else (own_data user_id db id) (data_at id out) else data_at id out)
unfolding fetch_each exists
data_at-fetch_each user_id id [] db out = refl
data_at-fetch_each user_id id (x ∷ ids) db out =
    let next = with_fetched x (own_image user_id (find_image x db)) out in
    let step = data_at-with_fetched user_id id x db out in
    data_at-fetch_each user_id id ids db next
    ∙ choose (same_bytes id x) (has_id id ids) (own_data user_id db id) (data_at id out)
        (data_at id next) step

-- The fetched images are those of the user, under the ids that were asked for: under any other id, and
-- under the id of another user's image, there is nothing.
pub data_at-fetch_by_ids :
    (user_id : ℕ) (id : Bytes) (ids : List Bytes) (db : Db)
    → data_at id (fetch_by_ids user_id ids db)
      ≡ (if has_id id ids then own_data user_id db id else none)
unfolding fetch_by_ids data_at first
data_at-fetch_by_ids user_id id ids db =
    data_at-fetch_each user_id id ids db [] ∙ no_default (has_id id ids) (own_data user_id db id)
