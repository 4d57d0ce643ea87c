-- ===== src/Config/Fields.antt =====
-- src/goalrouter/config.py: the typed readers of the decoded YAML. A mismatch is a
-- ConfigurationError. A YAML value is read as a JSON value; other YAML scalars, as dates, are
-- not modelled.
use goal_router.Common.{String, Bool, Option, none, some, List, [], ◌∷◌}
use goal_router.Common.Integers.{ℤ}
use goal_router.Common.Dict
use goal_router.Common.Dict.{Dict}
use goal_router.Errors.{Result, ok, err, configuration_error, value_error, ◌>>=◌}
use goal_router.Domain.Platform.{Platform}
use goal_router.Domain.Json.{JsonValue, null, bool, int, str, array, object, elements, entries}
use goal_router.Domain.Enums.{StrEnum, of_value}
use goal_router.Domain.Fields.{each}

module _ {A : Type 0} where
  known : Option A → Result A
  known none = err configuration_error
  known (some a) = ok a

  member_of : Option A → Result A
  member_of none = err value_error
  member_of (some a) = ok a

module _ {A B : Type 0} where
  -- `{name: read(name, value) for name, value in d.items()}`
  unfoldable pub each_entry : (String → A → Result B) → Dict A → Result (Dict B)
  each_entry read [] = ok []
  each_entry read ((k, x) ∷ d) = do y ← read k x; ys ← each_entry read d; ok ((k, y) ∷ ys)

-- `enum_type(raw)`
unfoldable pub enum : {E : Type 0} ⦃e : StrEnum E⦄ → String → Result E
unfolding member_of
enum raw = member_of (of_value raw)

module _ {P : Platform} where
  unfoldable pub field : Dict (JsonValue P) → String → Result (JsonValue P)
  unfolding known
  field raw name = known (Dict.get raw name)

  unfoldable pub mapping : JsonValue P → Result (Dict (JsonValue P))
  mapping (object d) = ok (entries d)
  mapping _ = err configuration_error

  text : JsonValue P → Result String
  text (str s) = ok s
  text _ = err configuration_error

  unfoldable pub string : Dict (JsonValue P) → String → Result String
  unfolding field text
  string raw name = do value ← field raw name; text value

  optional_text : Option (JsonValue P) → Result (Option String)
  optional_text none = ok none
  optional_text (some null) = ok none
  optional_text (some (str s)) = ok (some s)
  optional_text (some _) = err configuration_error

  unfoldable pub optional_string : Dict (JsonValue P) → String → Result (Option String)
  unfolding optional_text
  optional_string raw name = optional_text (Dict.get raw name)

  whole : JsonValue P → Result ℤ
  whole (int n) = ok n
  whole _ = err configuration_error

  unfoldable pub integer : Dict (JsonValue P) → String → Result ℤ
  unfolding field whole
  integer raw name = do value ← field raw name; whole value

  truth : Bool → Option (JsonValue P) → Result Bool
  truth default none = ok default
  truth default (some (bool b)) = ok b
  truth default (some _) = err configuration_error

  unfoldable pub optional_boolean : Dict (JsonValue P) → String → Bool → Result Bool
  unfolding truth
  optional_boolean raw name default = truth default (Dict.get raw name)

  parts : Option (JsonValue P) → Result (List (JsonValue P))
  parts none = ok []
  parts (some (array xs)) = ok (elements xs)
  parts (some _) = err configuration_error

  unfoldable pub optional_sequence : Dict (JsonValue P) → String → Result (List (JsonValue P))
  unfolding parts
  optional_sequence raw name = parts (Dict.get raw name)

  unfoldable pub strings : List (JsonValue P) → Result (List String)
  unfolding text
  strings values = each text values
