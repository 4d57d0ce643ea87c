-- ===== src/Planner/Fields.antt =====
-- src/goalrouter/planner.py: the typed readers of the planner's response. A mismatch is a
-- PlannerOutputError, and for an object the structural kind, which may be corrected once.
use goal_router.Common.{String, Option, none, some, List}
use goal_router.Common.Dict
use goal_router.Common.Dict.{Dict}
use goal_router.Errors.{
  Result, ok, err, planner_output_error, structural_planner_output_error, overflow_error, ◌>>=◌,
}
use goal_router.Domain.Platform.{Platform}
use goal_router.Domain.Json.{JsonValue, int, float, str, array, object, elements, entries}
use goal_router.Domain.Fields.{each}

module _ {A : Type 0} where
  required : Option A → Result A
  required none = err planner_output_error
  required (some a) = ok a

  finite : Option A → Result A
  finite none = err overflow_error
  finite (some x) = ok x

module _ {P : Platform} where
  unfoldable pub field : Dict (JsonValue P) → String → Result (JsonValue P)
  unfolding required
  field raw name = required (Dict.get raw name)

  unfoldable pub mapping : JsonValue P → Result (Dict (JsonValue P))
  mapping (object d) = ok (entries d)
  mapping _ = err structural_planner_output_error

  unfoldable pub sequence : JsonValue P → Result (List (JsonValue P))
  sequence (array xs) = ok (elements xs)
  sequence _ = err planner_output_error

  unfoldable pub plain_string : JsonValue P → Result String
  plain_string (str s) = ok s
  plain_string _ = err planner_output_error

  unfoldable pub string : Dict (JsonValue P) → String → Result String
  unfolding field plain_string
  string raw name = do item ← field raw name; plain_string item

  unfoldable pub string_tuple : Dict (JsonValue P) → String → Result (List String)
  unfolding field sequence
  string_tuple raw name = do item ← field raw name; xs ← sequence item; each plain_string xs

  real : JsonValue P → Result P.Float
  unfolding finite
  real (int n) = finite (P.float_of_int n)
  real (float x) = ok x
  real _ = err planner_output_error

  unfoldable pub number : Dict (JsonValue P) → String → Result P.Float
  unfolding field real
  number raw name = do item ← field raw name; real item
