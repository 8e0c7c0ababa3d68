-- ===== src/Api/Typed.antt =====
-- What holds of every operation of the registry: backend/internal/apispec/spec.go.
use crapnote.Base.{
  ◌≡◌, refl, Bool, true, false, not, ◌==◌, leb, ◌&&◌, ◌||◌, List, [], ◌∷◌, map, str_eq, codes, All,
  arith, split_on,
}
use crapnote.Base.Table.{select, exists}
use crapnote.Db.{Bytes}
use crapnote.Images.{same_bytes}
use crapnote.Images.Unused.{same_bytes-eq}
use crapnote.Images.Sweep.{has_id}
use crapnote.Api.{
  ParamIn, in_path, in_body, ParamType, integer, string, base64, RequestKind, Param, Operation,
  is_public, is_write,
}
use crapnote.Api.Registry.{registry, path_params}

abbrev pub is_in_path : ParamIn → Bool
is_in_path in_path = true
is_in_path _ = false

abbrev pub is_in_body : ParamIn → Bool
is_in_body in_body = true
is_in_body _ = false

-- An argument of this type is one value, as a path or a query needs.
abbrev pub is_scalar : ParamType → Bool
is_scalar integer = true
is_scalar string = true
is_scalar ParamType.boolean = true
is_scalar _ = false

abbrev pub is_base64 : ParamType → Bool
is_base64 base64 = true
is_base64 _ = false

abbrev pub is_multipart : RequestKind → Bool
is_multipart RequestKind.multipart_image = true
is_multipart _ = false

abbrev same_names : List Bytes → List Bytes → Bool
same_names [] [] = true
same_names (x ∷ xs) (y ∷ ys) = same_bytes x y && same_names xs ys
same_names _ _ = false

abbrev param_name : Param → Bytes
param_name p = codes p.name

abbrev in_its_path : List Param → List Param
in_its_path ps = select (λ p. is_in_path p.place) ps

abbrev all : {A : Type 0} → (A → Bool) → List A → Bool
all p [] = true
all p (x ∷ xs) = p x && all p xs

abbrev are_distinct : List Bytes → Bool
are_distinct [] = true
are_distinct (x ∷ xs) = not (has_id x xs) && are_distinct xs

abbrev pub loose_path : Operation → Bool
loose_path o = exists (λ p. is_in_path p.place && not p.is_required) o.params

abbrev pub compound_argument : Operation → Bool
compound_argument o = exists (λ p. not (is_in_body p.place) && not (is_scalar p.kind)) o.params

abbrev pub reads_body : Operation → Bool
reads_body o = str_eq o.method "GET" && exists (λ p. is_in_body p.place) o.params

abbrev pub unguarded : Operation → Bool
unguarded o =
    (o.destructive && not (is_write o.scope))
    || (is_public o.scope && (o.admin_only || o.cookie_only))

abbrev lacks_file : Operation → Bool
lacks_file o =
    is_multipart o.request
    && not (exists (λ p. is_in_body p.place && is_base64 p.kind && p.is_required) o.params)

-- Lower case letters and underscores.
unfoldable pub is_word : Bytes → Bool
is_word [] = true
is_word (c ∷ cs) = (c == 95 || (leb 97 c && leb c 122)) && is_word cs

abbrev pub odd_name : Operation → Bool
odd_name o = exists (λ p. not (is_word (codes p.name))) o.params

-- What the server and the clients of the registry rely on.
pub record IsTyped (o : Operation) : Type 0 where
  pub placeholders : map param_name (in_its_path o.params) ≡ path_params o.path
  pub path_required : loose_path o ≡ false
  pub scalars : compound_argument o ≡ false
  pub bodiless : reads_body o ≡ false
  pub guarded : unguarded o ≡ false
  pub file : lacks_file o ≡ false
  pub plain_names : odd_name o ≡ false
  pub distinct_params : are_distinct (map param_name o.params) ≡ true

flaw : Operation → Bool
unfolding exists is_word
flaw o =
    loose_path o || compound_argument o || reads_body o || unguarded o || lacks_file o || odd_name o

is_typed : Operation → Bool
unfolding flaw select path_params
is_typed o =
    same_names (map param_name (in_its_path o.params)) (path_params o.path)
    && (not (flaw o) && are_distinct (map param_name o.params))

same_names-eq : (xs ys : List Bytes) → same_names xs ys ≡ true → xs ≡ ys
same_names-eq [] [] h = refl
same_names-eq [] (y ∷ ys) h = absurd (cc h)
same_names-eq (x ∷ xs) [] h = absurd (cc h)
same_names-eq (x ∷ xs) (y ∷ ys) h = ground (arith, same_bytes-eq x y, same_names-eq xs ys)

is_typed-IsTyped : (o : Operation) → is_typed o ≡ true → IsTyped o
unfolding is_typed flaw
is_typed-IsTyped o h = record {
  placeholders =
      same_names-eq (map param_name (in_its_path o.params)) (path_params o.path) (ground arith);
  path_required = ground arith;
  scalars = ground arith;
  bodiless = ground arith;
  guarded = ground arith;
  file = ground arith;
  plain_names = ground arith;
  distinct_params = ground arith;
}

all-IsTyped : (os : List Operation) → all is_typed os ≡ true → All IsTyped os
all-IsTyped [] h = tt
all-IsTyped (o ∷ os) h = (is_typed-IsTyped o (ground arith), all-IsTyped os (ground arith))

are_typed : all is_typed registry ≡ true
unfolding is_typed registry exists split_on same_bytes
are_typed = refl

-- No two operations of the registry have one name. In each of them, the placeholders of the path are its
-- parameters in the path, in their order, all of them required; no two parameters have one name, and a name is
-- of lower case letters and underscores; those in
-- the path and in the query are texts, integers or booleans; a GET has none in the body; a multipart
-- request has a required file; what destroys data needs the scope write; and nothing that is public is
-- kept for administrators or for cookies.
pub registry-IsTyped :
    All IsTyped registry × (are_distinct (map (λ o. codes o.name) registry) ≡ true)
unfolding registry exists same_bytes
registry-IsTyped = (all-IsTyped registry are_typed, refl)
