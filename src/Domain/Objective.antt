-- ===== src/Domain/Objective.antt =====
-- src/goalrouter/domain.py: `Objective`, its JSON object and the object read back.
use goal_router.Common.{String, Option, [], ◌∷◌}
use goal_router.Common.Dict.{Dict}
use goal_router.Errors.{Result, ok, ◌>>=◌}
use goal_router.Domain.Platform.{Platform}
use goal_router.Domain.Json.{JsonValue, str, dict}
use goal_router.Domain.FilePath
use goal_router.Domain.FilePath.{FilePath}
use goal_router.Domain.Fields.{string, optional_string, datetime}
use goal_router.Domain.Encoding.{optional, file_path}

pub record Objective (P : Platform) : Type 0 where
  pub id : String
  pub prompt : String
  pub project_path : FilePath
  pub explicit_task : Option String
  pub config_path : FilePath
  pub created_at : P.Datetime

unfoldable pub fields : {P : Platform} → Objective P → Dict (JsonValue P)
fields {P} x =
    ("id", str x.id)
    ∷ ("prompt", str x.prompt)
    ∷ ("project_path", str (FilePath.to_text x.project_path))
    ∷ ("explicit_task", optional x.explicit_task)
    ∷ ("config_path", str (FilePath.to_text x.config_path))
    ∷ ("created_at", str (P.isoformat x.created_at))
    ∷ []

abbrev pub to_dict : {P : Platform} → Objective P → JsonValue P
to_dict x = dict (fields x)

unfoldable pub from_dict : {P : Platform} → Dict (JsonValue P) → Result (Objective P)
unfolding datetime file_path optional_string string
from_dict value = do
  id' ← string value "id"
  prompt' ← string value "prompt"
  project_path' ← file_path value "project_path"
  explicit_task' ← optional_string value "explicit_task"
  config_path' ← file_path value "config_path"
  created_at' ← datetime value "created_at"
  ok (record {
    id = id';
    prompt = prompt';
    project_path = project_path';
    explicit_task = explicit_task';
    config_path = config_path';
    created_at = created_at';
  })
