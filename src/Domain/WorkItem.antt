-- ===== src/Domain/WorkItem.antt =====
-- src/goalrouter/domain.py: `WorkItem`, its JSON object and the object read back.
use goal_router.Common.{String, List, [], ◌∷◌}
use goal_router.Common.Strings.{sort, frozenset}
use goal_router.Common.Dict.{Dict}
use goal_router.Errors.{Result, ok, ◌>>=◌}
use goal_router.Domain.Platform.{Platform}
use goal_router.Domain.Json.{JsonValue, str, float, dict}
use goal_router.Domain.FilePath.{FilePath}
use goal_router.Domain.Enums.{AccessMode, value, access_mode_enum}
use goal_router.Domain.Fields.{string, number, enum, strings}
use goal_router.Domain.Encoding.{string_list, path_list, file_paths}

pub record WorkItem (P : Platform) : Type 0 where
  pub id : String
  pub title : String
  pub instructions : String
  pub task : String
  pub phase : String
  pub dependencies : List String
  pub access : AccessMode
  pub affected_paths : List FilePath
  pub expected_result : String
  pub verification : List String
  pub confidence : P.Float
  pub risk_flags : List String

-- `frozenset(_plain_string(item) for item in _sequence(value, name))`
flags : {P : Platform} → Dict (JsonValue P) → String → Result (List String)
unfolding strings
flags value name = do xs ← strings value name; ok (frozenset xs)

unfoldable pub fields : {P : Platform} → WorkItem P → Dict (JsonValue P)
fields x =
    ("id", str x.id)
    ∷ ("title", str x.title)
    ∷ ("instructions", str x.instructions)
    ∷ ("task", str x.task)
    ∷ ("phase", str x.phase)
    ∷ ("dependencies", string_list x.dependencies)
    ∷ ("access", str (value x.access))
    ∷ ("affected_paths", path_list x.affected_paths)
    ∷ ("expected_result", str x.expected_result)
    ∷ ("verification", string_list x.verification)
    ∷ ("confidence", float x.confidence)
    ∷ ("risk_flags", string_list (sort x.risk_flags))
    ∷ []

abbrev pub to_dict : {P : Platform} → WorkItem P → JsonValue P
to_dict x = dict (fields x)

unfoldable pub from_dict : {P : Platform} → Dict (JsonValue P) → Result (WorkItem P)
unfolding enum file_paths flags number string strings
from_dict value = do
  id' ← string value "id"
  title' ← string value "title"
  instructions' ← string value "instructions"
  task' ← string value "task"
  phase' ← string value "phase"
  dependencies' ← strings value "dependencies"
  access' ← enum value "access"
  affected_paths' ← file_paths value "affected_paths"
  expected_result' ← string value "expected_result"
  verification' ← strings value "verification"
  confidence' ← number value "confidence"
  risk_flags' ← flags value "risk_flags"
  ok (record {
    id = id';
    title = title';
    instructions = instructions';
    task = task';
    phase = phase';
    dependencies = dependencies';
    access = access';
    affected_paths = affected_paths';
    expected_result = expected_result';
    verification = verification';
    confidence = confidence';
    risk_flags = risk_flags';
  })
