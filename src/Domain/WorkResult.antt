-- ===== src/Domain/WorkResult.antt =====
-- src/goalrouter/domain.py: `WorkResult`, its JSON object and the object read back.
use goal_router.Common.{String, Bool, Option, List, [], ◌∷◌}
use goal_router.Common.Integers.{ℤ}
use goal_router.Common.Dict.{Dict}
use goal_router.Errors.{Result, ok, ◌>>=◌}
use goal_router.Domain.Platform.{Platform}
use goal_router.Domain.Json.{JsonValue, str, bool, int, float, list, dict}
use goal_router.Domain.FilePath.{FilePath}
use goal_router.Domain.Enums.{WorkStatus, value, work_status_enum}
use goal_router.Domain.Fields.{
  string, optional_string, boolean, integer, number, sequence, enum, strings, each, json_value,
}
use goal_router.Domain.Encoding.{optional, string_list, path_list, file_paths}

pub record WorkResult (P : Platform) : Type 0 where
  pub work_item_id : String
  pub thread_id : Option String
  pub turn_id : Option String
  pub status : WorkStatus
  pub final_response : Option String
  pub sdk_items : List (JsonValue P)
  pub input_tokens : ℤ
  pub cached_input_tokens : ℤ
  pub output_tokens : ℤ
  pub duration_seconds : P.Float
  pub changed_paths : List FilePath
  pub verification : List String
  pub confidence : P.Float
  pub escalation_requested : Bool
  pub error : Option String

json_values : {P : Platform} → Dict (JsonValue P) → String → Result (List (JsonValue P))
unfolding sequence
json_values value name = do xs ← sequence value name; each json_value xs

unfoldable pub fields : {P : Platform} → WorkResult P → Dict (JsonValue P)
fields x =
    ("work_item_id", str x.work_item_id)
    ∷ ("thread_id", optional x.thread_id)
    ∷ ("turn_id", optional x.turn_id)
    ∷ ("status", str (value x.status))
    ∷ ("final_response", optional x.final_response)
    ∷ ("sdk_items", list x.sdk_items)
    ∷ ("input_tokens", int x.input_tokens)
    ∷ ("cached_input_tokens", int x.cached_input_tokens)
    ∷ ("output_tokens", int x.output_tokens)
    ∷ ("duration_seconds", float x.duration_seconds)
    ∷ ("changed_paths", path_list x.changed_paths)
    ∷ ("verification", string_list x.verification)
    ∷ ("confidence", float x.confidence)
    ∷ ("escalation_requested", bool x.escalation_requested)
    ∷ ("error", optional x.error)
    ∷ []

abbrev pub to_dict : {P : Platform} → WorkResult P → JsonValue P
to_dict x = dict (fields x)

unfoldable pub from_dict : {P : Platform} → Dict (JsonValue P) → Result (WorkResult P)
unfolding boolean enum file_paths integer json_values number optional_string string strings
from_dict value = do
  work_item_id' ← string value "work_item_id"
  thread_id' ← optional_string value "thread_id"
  turn_id' ← optional_string value "turn_id"
  status' ← enum value "status"
  final_response' ← optional_string value "final_response"
  sdk_items' ← json_values value "sdk_items"
  input_tokens' ← integer value "input_tokens"
  cached_input_tokens' ← integer value "cached_input_tokens"
  output_tokens' ← integer value "output_tokens"
  duration_seconds' ← number value "duration_seconds"
  changed_paths' ← file_paths value "changed_paths"
  verification' ← strings value "verification"
  confidence' ← number value "confidence"
  escalation_requested' ← boolean value "escalation_requested"
  error' ← optional_string value "error"
  ok (record {
    work_item_id = work_item_id';
    thread_id = thread_id';
    turn_id = turn_id';
    status = status';
    final_response = final_response';
    sdk_items = sdk_items';
    input_tokens = input_tokens';
    cached_input_tokens = cached_input_tokens';
    output_tokens = output_tokens';
    duration_seconds = duration_seconds';
    changed_paths = changed_paths';
    verification = verification';
    confidence = confidence';
    escalation_requested = escalation_requested';
    error = error';
  })
