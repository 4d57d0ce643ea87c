-- ===== src/Reporting/Render.antt =====
-- reporting.py: `ReportRenderer.render`, the lines of a report.
use Prim.Native.String.{◌++◌}
use mathlib.Core.List
use goal_router.Common.{suc, String, Bool, true, false, Option, none, some, List, [], ◌∷◌, map}
use goal_router.Common.Strings.{sort, join}
use goal_router.Common.Dict
use goal_router.Common.Dict.{Dict, keys, values}
use goal_router.Common.Integers.{ℤ, pos, negsuc, ◌+ℤ◌}
use goal_router.Errors.{Result, ok, err, key_error, ◌>>=◌}
use goal_router.Domain.Platform.{Platform}
use goal_router.Domain.Json.{JsonValue, list}
use goal_router.Domain.Enums.{
  value, run_status_enum, work_status_enum, sandbox_mode_enum, approval_mode_enum,
}
use goal_router.Domain.InstructionFile.{InstructionFile}
use goal_router.Domain.WorkItem.{WorkItem}
use goal_router.Domain.WorkResult.{WorkResult}
use goal_router.Domain.RouteDecision.{RouteDecision}
use goal_router.Domain.RunState.{RunState}
use goal_router.Store.{redact_json}
use goal_router.Reporting.{display_path, text_or_none, or_none, paths, dirty_summary, branch_text}

-- `lines.extend(more)`
abbrev lines_then : List String → List String → List String
lines_then lines more = List.◌++◌ lines more

-- `d[key]`
abbrev pub lookup : {A : Type 0} → Option A → Result A
lookup none = err key_error
lookup (some a) = ok a

-- What the renderer takes from Python: `{x:g}`, the sum of two floats, `rstrip` and `json.dumps`.
pub record Formats (P : Platform) : Type 0 where
  pub general : P.Float → String
  pub plus : P.Float → P.Float → P.Float
  pub rstrip : String → String
  pub dumps : JsonValue P → String

module _ {P : Platform} (formats : Formats P) where
  -- `str(n)`
  unfoldable pub integer : ℤ → String
  integer (pos n) = P.decimal n
  integer (negsuc n) = "-" ++ P.decimal (suc n)

  unfoldable pub pair : String × ℤ → String
  unfolding integer
  pair (name, count) = name ++ ("=" ++ integer count)

  unfoldable pub pairs : List (String × ℤ) → String
  unfolding pair
  pairs ps = text_or_none (join ", " (map pair ps))

  unfoldable pub safe_json : JsonValue P → String
  safe_json v = formats.dumps (redact_json v)

  -- the sum of a field of the results
  unfoldable pub sum_integers : (WorkResult P → ℤ) → List (WorkResult P) → ℤ
  sum_integers field [] = pos 0
  sum_integers field (r ∷ rs) = field r +ℤ sum_integers field rs

  -- `sum` adds from the left; the integer 0 of an empty sum is written like 0.0
  unfoldable pub sum_floats : P.Float → List (WorkResult P) → P.Float
  sum_floats total [] = total
  sum_floats total (r ∷ rs) = sum_floats (formats.plus total r.duration_seconds) rs

  unfoldable pub yes_no : Bool → String
  yes_no true = "yes"
  yes_no false = "no"

  unfoldable pub header_lines : RunState P → List String
  unfolding pairs yes_no
  header_lines state =
      ("# GoalRouter run " ++ state.objective.id)
      ∷ ""
      ∷ "## Objective"
      ∷ ""
      ∷ ("- Prompt: " ++ state.objective.prompt)
      ∷ ("- Project path: " ++ display_path state.objective.project_path)
      ∷ ("- Status: " ++ value state.status)
      ∷ ("- Created: " ++ P.isoformat state.objective.created_at)
      ∷ ("- Configuration: " ++ display_path state.objective.config_path)
      ∷ ("- Configuration digest: " ++ state.configuration_digest)
      ∷ ""
      ∷ "## Repository"
      ∷ ""
      ∷ ("- Git worktree: " ++ yes_no state.repository.is_git_worktree)
      ∷ ("- Branch: " ++ branch_text state.repository.branch)
      ∷ ("- Dirty state: " ++ dirty_summary state.repository)
      ∷ ("- Languages: " ++ pairs state.repository.language_counts)
      ∷ ("- Docker files: " ++ paths state.repository.docker_files)
      ∷ ""
      ∷ "### Instruction files"
      ∷ ""
      ∷ []

  each_instruction : List InstructionFile → List String
  each_instruction [] = []
  each_instruction (f ∷ fs) =
      ("#### " ++ display_path f.path) ∷ "" ∷ formats.rstrip f.content ∷ "" ∷ each_instruction fs

  unfoldable pub instruction_lines : List InstructionFile → List String
  unfolding each_instruction
  instruction_lines [] = "(none)" ∷ "" ∷ []
  instruction_lines (f ∷ fs) = each_instruction (f ∷ fs)

  abbrev thread_of : Option (WorkResult P) → Option String
  thread_of none = none
  thread_of (some r) = r.thread_id

  abbrev turn_of : Option (WorkResult P) → Option String
  turn_of none = none
  turn_of (some r) = r.turn_id

  abbrev status_of : Option (WorkResult P) → String
  status_of none = "pending"
  status_of (some r) = value r.status

  unfoldable pub item_lines : WorkItem P → RouteDecision → Option (WorkResult P) → List String
  item_lines item route result =
      ("### " ++ (item.id ++ (": " ++ item.title)))
      ∷ ""
      ∷ ("- Phase: " ++ item.phase)
      ∷ ("- Task: " ++ route.task)
      ∷ ("- Route reason: " ++ route.reason)
      ∷ ("- Model: " ++ route.model)
      ∷ ("- Reasoning effort: " ++ route.reasoning_effort)
      ∷ ("- Sandbox: " ++ value route.sandbox)
      ∷ ("- Approval: " ++ value route.approval)
      ∷ ("- Dependencies: " ++ text_or_none (join ", " item.dependencies))
      ∷ ("- Affected paths: " ++ paths item.affected_paths)
      ∷ ("- Required verification: " ++ text_or_none (join ", " item.verification))
      ∷ ("- Status: " ++ status_of result)
      ∷ ("- Thread ID: " ++ or_none (thread_of result))
      ∷ ("- Turn ID: " ++ or_none (turn_of result))
      ∷ []

  unfoldable pub result_lines : Option (WorkResult P) → List String
  unfolding integer safe_json
  result_lines none = "" ∷ []
  result_lines (some r) =
      ("- Usage: input "
        ++ (integer r.input_tokens
            ++ (", cached "
                ++ (integer r.cached_input_tokens ++ (", output " ++ integer r.output_tokens)))))
      ∷ ("- Duration seconds: " ++ formats.general r.duration_seconds)
      ∷ ("- Changed paths: " ++ paths r.changed_paths)
      ∷ ("- Verification evidence: " ++ text_or_none (join ", " r.verification))
      ∷ ("- Confidence: " ++ formats.general r.confidence)
      ∷ ("- Error: " ++ or_none r.error)
      ∷ ""
      ∷ "#### Final response"
      ∷ ""
      ∷ or_none r.final_response
      ∷ ""
      ∷ "#### Safe SDK item summary"
      ∷ ""
      ∷ safe_json (list r.sdk_items)
      ∷ ""
      ∷ []

  unfoldable pub work_item_lines : RunState P → List String → Result (List String)
  unfolding item_lines result_lines
  work_item_lines state [] = ok []
  work_item_lines state (id ∷ ids) = do
    item ← lookup (Dict.get state.work_items id)
    route ← lookup (Dict.get state.routes id)
    rest ← work_item_lines state ids
    let result = Dict.get state.results id
    ok (lines_then (item_lines item route result) (lines_then (result_lines result) rest))

  unfoldable pub usage_lines : List (WorkResult P) → List String
  unfolding integer sum_integers sum_floats
  usage_lines results =
      "## Total usage"
      ∷ ""
      ∷ ("- Input tokens: " ++ integer (sum_integers (λ r. r.input_tokens) results))
      ∷ ("- Cached input tokens: " ++ integer (sum_integers (λ r. r.cached_input_tokens) results))
      ∷ ("- Output tokens: " ++ integer (sum_integers (λ r. r.output_tokens) results))
      ∷ ("- Duration seconds: " ++ formats.general (sum_floats P.float_zero results))
      ∷ ""
      ∷ []

  unfoldable pub render : RunState P → Result String
  unfolding header_lines instruction_lines work_item_lines usage_lines
  render state = do
    items ← work_item_lines state (sort (keys state.work_items))
    ok (
        join "\n" (
          lines_then (header_lines state) (
            lines_then (instruction_lines state.repository.instruction_files)
              ("## Work items" ∷ "" ∷ lines_then items (usage_lines (values state.results))))))
