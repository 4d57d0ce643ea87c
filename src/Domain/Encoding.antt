-- ===== src/Domain/Encoding.antt =====
-- src/goalrouter/domain.py: how the records write optional texts, lists of texts and paths, and
-- read paths back.
use goal_router.Common.{String, Option, none, some, List, map}
use goal_router.Common.Dict.{Dict}
use goal_router.Errors.{Result, ok, ◌>>=◌}
use goal_router.Domain.Platform.{Platform}
use goal_router.Domain.Json.{JsonValue, null, str, list}
use goal_router.Domain.FilePath
use goal_router.Domain.FilePath.{FilePath}
use goal_router.Domain.Fields.{string, strings}

module _ {P : Platform} where
  -- a value that may be None
  abbrev pub optional : Option String → JsonValue P
  optional none = null
  optional (some s) = str s

  -- `list(texts)`
  abbrev pub string_list : List String → JsonValue P
  string_list xs = list (map str xs)

  -- `[str(path) for path in paths]`
  abbrev pub path_list : List FilePath → JsonValue P
  path_list xs = string_list (map FilePath.to_text xs)

  -- `Path(_string(value, name))`
  unfoldable pub file_path : Dict (JsonValue P) → String → Result FilePath
  unfolding string
  file_path value name = do s ← string value name; ok (FilePath.of_text s)

  -- `tuple(Path(_plain_string(item)) for item in _sequence(value, name))`
  unfoldable pub file_paths : Dict (JsonValue P) → String → Result (List FilePath)
  unfolding strings
  file_paths value name = do xs ← strings value name; ok (map FilePath.of_text xs)
