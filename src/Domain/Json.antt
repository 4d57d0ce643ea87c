-- ===== src/Domain/Json.antt =====
-- src/goalrouter/domain.py: `JsonValue`. A JSON object is a dictionary; the lists and dictionaries
-- inside a value are types of the same block, with conversions to the shared ones.
use goal_router.Common.{String, List, [], ◌∷◌, Bool, ◌≡◌, refl, ap}
use goal_router.Common.Integers.{ℤ}
use goal_router.Common.Dict.{Dict}
use goal_router.Domain.Platform.{Platform}

mutual
  pub data JsonValue (P : Platform) : Type 0 where
    null : JsonValue P
    bool : Bool → JsonValue P
    int : ℤ → JsonValue P
    float : P.Float → JsonValue P
    str : String → JsonValue P
    array : Items P → JsonValue P
    object : Members P → JsonValue P

  pub data Items (P : Platform) : Type 0 where
    nil : Items P
    cons : JsonValue P → Items P → Items P

  pub data Members (P : Platform) : Type 0 where
    end : Members P
    member : String → JsonValue P → Members P → Members P

module _ {P : Platform} where
  abbrev pub items : List (JsonValue P) → Items P
  items [] = nil
  items (x ∷ xs) = cons x (items xs)

  abbrev pub elements : Items P → List (JsonValue P)
  elements nil = []
  elements (cons x xs) = x ∷ elements xs

  abbrev pub members : Dict (JsonValue P) → Members P
  members [] = end
  members ((k, v) ∷ d) = member k v (members d)

  abbrev pub entries : Members P → Dict (JsonValue P)
  entries end = []
  entries (member k v d) = (k, v) ∷ entries d

  -- a JSON array and a JSON object
  abbrev pub list : List (JsonValue P) → JsonValue P
  list xs = array (items xs)

  abbrev pub dict : Dict (JsonValue P) → JsonValue P
  dict d = object (members d)

  pub elements-items : (xs : List (JsonValue P)) → elements (items xs) ≡ xs
  elements-items [] = refl
  elements-items (x ∷ xs) = ap (λ r. x ∷ r) (elements-items xs)

  pub entries-members : (d : Dict (JsonValue P)) → entries (members d) ≡ d
  entries-members [] = refl
  entries-members ((k, v) ∷ d) = ap (λ r. (k, v) ∷ r) (entries-members d)
