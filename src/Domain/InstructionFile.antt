-- ===== src/Domain/InstructionFile.antt =====
-- src/goalrouter/domain.py: `InstructionFile`, its JSON object and the object read back.
use goal_router.Common.{String, [], ◌∷◌}
use goal_router.Common.Dict.{Dict}
use goal_router.Errors.{Result, ok, ◌>>=◌}
use goal_router.Domain.Platform.{Platform}
use goal_router.Domain.Json.{JsonValue, str, dict}
use goal_router.Domain.FilePath
use goal_router.Domain.FilePath.{FilePath}
use goal_router.Domain.Fields.{string}
use goal_router.Domain.Encoding.{file_path}

pub record InstructionFile : Type 0 where
  pub path : FilePath
  pub content : String

unfoldable pub fields : {P : Platform} → InstructionFile → Dict (JsonValue P)
fields x = ("path", str (FilePath.to_text x.path)) ∷ ("content", str x.content) ∷ []

abbrev pub to_dict : {P : Platform} → InstructionFile → JsonValue P
to_dict x = dict (fields x)

unfoldable pub from_dict : {P : Platform} → Dict (JsonValue P) → Result InstructionFile
unfolding file_path string
from_dict value = do
  path' ← file_path value "path"
  content' ← string value "content"
  ok (record { path = path'; content = content' })
