-- ===== src/Domain/RoundTrip/Readers.antt =====
-- The readers of Domain/Fields on what Domain/Encoding writes.
use goal_router.Common.{String, List, [], ◌∷◌, map, ◌≡◌, refl, All, Option, some, none}
use goal_router.Errors.{ok}
use goal_router.Domain.Platform.{Platform}
use goal_router.Domain.Json.{
  JsonValue, null, bool, int, float, str, array, object, Items, Members, nil, cons, end, member,
  elements, items,
}
use goal_router.Domain.FilePath
use goal_router.Domain.FilePath.{FilePath}
use goal_router.Domain.FilePath.RoundTrip.{IsNormal, of_text-to_text}
use goal_router.Domain.Encoding.{optional}
use goal_router.Domain.Fields.{
  each, plain_string, optional_text, json_value, json_items, json_members,
}

module _ (P : Platform) where
  pub each-strings :
      (xs : List String) → each (plain_string {P = P}) (elements (items (map str xs))) ≡ ok xs
  unfolding each plain_string
  each-strings [] = refl
  each-strings (x ∷ xs) = rw (each-strings xs) refl

pub map-paths :
    (ps : List FilePath) → All IsNormal ps → map FilePath.of_text (map FilePath.to_text ps) ≡ ps
map-paths [] h = refl
map-paths (p ∷ ps) h = λ i. of_text-to_text p h.0 i ∷ map-paths ps h.1 i

mutual
  unfolding json_value json_items json_members

  json_value_lem : {P : Platform} (x : JsonValue P) → json_value x ≡ ok x
  json_value_lem null = refl
  json_value_lem (bool b) = refl
  json_value_lem (int n) = refl
  json_value_lem (float x) = refl
  json_value_lem (str s) = refl
  json_value_lem (array xs) = rw (json_items_lem xs) refl
  json_value_lem (object d) = rw (json_members_lem d) refl

  json_items_lem : {P : Platform} (xs : Items P) → json_items xs ≡ ok xs
  json_items_lem nil = refl
  json_items_lem (cons x xs) = rw (json_value_lem x, json_items_lem xs) refl

  json_members_lem : {P : Platform} (d : Members P) → json_members d ≡ ok d
  json_members_lem end = refl
  json_members_lem (member k x d) = rw (json_value_lem x, json_members_lem d) refl

pub each-json_value :
    {P : Platform} (xs : List (JsonValue P)) → each json_value (elements (items xs)) ≡ ok xs
unfolding each
each-json_value [] = refl
each-json_value (x ∷ xs) = rw (json_value_lem x, each-json_value xs) refl

pub optional_text-optional :
    (P : Platform) (o : Option String) → optional_text (optional {P = P} o) ≡ ok o
unfolding optional_text
optional_text-optional P none = refl
optional_text-optional P (some s) = refl
