-- ===== src/Domain/Fields.antt =====
-- src/goalrouter/domain.py: the typed readers of a field of a decoded JSON object. Every mismatch
-- is a StateError. `isinstance(item, bool)` tells a Boolean from an integer by its constructor.
use goal_router.Common.{String, List, [], ◌∷◌, Bool, Option, none, some, if◌then◌else◌}
use goal_router.Common.Integers.{ℤ}
use goal_router.Common.Dict
use goal_router.Common.Dict.{Dict}
use goal_router.Errors.{Result, ok, err, state_error, overflow_error, ◌>>=◌}
use goal_router.Domain.Platform.{Platform}
use goal_router.Domain.Enums.{StrEnum, of_value}
use goal_router.Domain.Json.{
  JsonValue, null, bool, int, float, str, array, object, elements, entries, Items, Members, nil,
  cons, end, member,
}

module _ {ℓ} {A : Type ℓ} where
  unfoldable pub or_raise : Option A → Result A
  or_raise none = err state_error
  or_raise (some a) = ok a

  -- `float(n)`, which overflows on a large integer
  finite : Option A → Result A
  finite none = err overflow_error
  finite (some x) = ok x

  -- The decoded time must be aware of its time zone.
  instant : (A → Bool) → Option A → Result A
  instant is_aware none = err state_error
  instant is_aware (some t) = if is_aware t then ok t else err state_error

module _ {A B : Type 0} where
  -- `tuple(read(item) for item in values)`
  unfoldable pub each : (A → Result B) → List A → Result (List B)
  each read [] = ok []
  each read (x ∷ xs) = do y ← read x; ys ← each read xs; ok (y ∷ ys)

  -- `{key: read(item) for key, item in d.items()}`
  unfoldable pub each_value : (A → Result B) → Dict A → Result (Dict B)
  each_value read [] = ok []
  each_value read ((k, x) ∷ d) = do y ← read x; ys ← each_value read d; ok ((k, y) ∷ ys)

module _ {P : Platform} where
  unfoldable pub field : Dict (JsonValue P) → String → Result (JsonValue P)
  unfolding or_raise Dict.get
  field value name = or_raise (Dict.get value name)

  unfoldable pub plain_string : JsonValue P → Result String
  plain_string (str s) = ok s
  plain_string _ = err state_error

  unfoldable pub string : Dict (JsonValue P) → String → Result String
  unfolding field plain_string
  string value name = do item ← field value name; plain_string item

  unfoldable pub optional_text : JsonValue P → Result (Option String)
  unfolding plain_string
  optional_text null = ok none
  optional_text item = do s ← plain_string item; ok (some s)

  unfoldable pub optional_string : Dict (JsonValue P) → String → Result (Option String)
  unfolding field
  optional_string value name = do item ← field value name; optional_text item

  truth : JsonValue P → Result Bool
  truth (bool b) = ok b
  truth _ = err state_error

  unfoldable pub boolean : Dict (JsonValue P) → String → Result Bool
  unfolding field truth
  boolean value name = do item ← field value name; truth item

  whole : JsonValue P → Result ℤ
  whole (int n) = ok n
  whole _ = err state_error

  unfoldable pub integer : Dict (JsonValue P) → String → Result ℤ
  unfolding field whole
  integer value name = do item ← field value name; whole item

  real : JsonValue P → Result P.Float
  unfolding finite
  real (int n) = finite (P.float_of_int n)
  real (float x) = ok x
  real _ = err state_error

  unfoldable pub number : Dict (JsonValue P) → String → Result P.Float
  unfolding field real
  number value name = do item ← field value name; real item

  parts : JsonValue P → Result (List (JsonValue P))
  parts (array xs) = ok (elements xs)
  parts _ = err state_error

  unfoldable pub sequence : Dict (JsonValue P) → String → Result (List (JsonValue P))
  unfolding field parts
  sequence value name = do item ← field value name; parts item

  -- The keys of a JSON object are strings.
  unfoldable pub mapping : JsonValue P → Result (Dict (JsonValue P))
  mapping (object d) = ok (entries d)
  mapping _ = err state_error

  unfoldable pub field_mapping : Dict (JsonValue P) → String → Result (Dict (JsonValue P))
  unfolding field mapping
  field_mapping value name = do item ← field value name; mapping item

  unfoldable pub datetime : Dict (JsonValue P) → String → Result P.Datetime
  unfolding string instant
  datetime value name = do raw ← string value name; instant P.is_aware (P.fromisoformat raw)

  -- `enum_type(raw)`
  unfoldable pub enum : {E : Type 0} ⦃e : StrEnum E⦄ → Dict (JsonValue P) → String → Result E
  unfolding string or_raise
  enum value name = do raw ← string value name; or_raise (of_value raw)

  -- `[_plain_string(item) for item in _sequence(value, name)]`
  unfoldable pub strings : Dict (JsonValue P) → String → Result (List String)
  unfolding sequence
  strings value name = do xs ← sequence value name; each plain_string xs

-- `_json_value`: a deep copy of a JSON value.
unfoldable mutual
  pub json_value : {P : Platform} → JsonValue P → Result (JsonValue P)
  json_value null = ok null
  json_value (bool b) = ok (bool b)
  json_value (int n) = ok (int n)
  json_value (float x) = ok (float x)
  json_value (str s) = ok (str s)
  json_value (array xs) = do ys ← json_items xs; ok (array ys)
  json_value (object d) = do e ← json_members d; ok (object e)

  pub json_items : {P : Platform} → Items P → Result (Items P)
  json_items nil = ok nil
  json_items (cons x xs) = do y ← json_value x; ys ← json_items xs; ok (cons y ys)

  pub json_members : {P : Platform} → Members P → Result (Members P)
  json_members end = ok end
  json_members (member k x d) = do y ← json_value x; e ← json_members d; ok (member k y e)
