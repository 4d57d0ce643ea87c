-- ===== src/Planner/Planning.antt =====
-- src/goalrouter/planner.py: `_planner_work_item`, `_parse_and_validate` and
-- `StructuredPlanner.plan`. The client, `json.loads`, the schema validator and the prompts are
-- parameters: the prompts are texts that no later step reads.
use goal_router.Common.{String, Bool, Option, none, some, List, [], if◌then◌else◌}
use goal_router.Common.Dict.{Dict}
use goal_router.Errors.{
  Error, Result, ok, err, planner_output_error, structural_planner_output_error, ◌>>=◌,
}
use goal_router.Domain.Platform.{Platform}
use goal_router.Domain.Json.{JsonValue}
use goal_router.Domain.FilePath.{FilePath}
use goal_router.Domain.Enums.{AccessMode}
use goal_router.Domain.Objective.{Objective}
use goal_router.Domain.RouteDecision.{RouteDecision}
use goal_router.Domain.WorkItem.{WorkItem}
use goal_router.Config.{RouterConfig}
use goal_router.Routing.{route}
use goal_router.Planner.Fields.{mapping}
use goal_router.Planner.Validation.{parse_semantic_work_items}

-- What a client's turn gives: the thread and the final response.
pub record Turn : Type 0 where
  pub thread_id : Option String
  pub final_response : Option String

-- The calls of the client, in order.
pub data Call : Type 0 where
  run_new_thread : RouteDecision → Call
  resume_thread : String → RouteDecision → Call

module _ {P : Platform} where
  -- `_planner_work_item`
  unfoldable pub planner_work_item : Objective P → RouterConfig → WorkItem P
  planner_work_item objective config = record {
    id = "objective-plan";
    title = "Plan objective";
    instructions = objective.prompt;
    task = config.planner_task;
    phase = "planning";
    dependencies = [];
    access = AccessMode.read_only;
    affected_paths = [];
    expected_result = "A validated graph of bounded work items.";
    verification = [];
    confidence = P.float_one;
    risk_flags = [];
  }

-- The exceptions that `except _StructuralPlannerOutputError` catches.
unfoldable pub is_structural : Error → Bool
is_structural structural_planner_output_error = Bool.true
is_structural _ = Bool.false

module _ {P : Platform} (resolve : FilePath → FilePath) (loads : String → Option (JsonValue P))
    (accepts : Dict (JsonValue P) → Bool) (objective : Objective P) (config : RouterConfig) where
  unfoldable pub validate_loaded : Option (JsonValue P) → Result (List (WorkItem P))
  validate_loaded none = err structural_planner_output_error
  validate_loaded (some loaded) = do
    raw ← mapping loaded
    let items = parse_semantic_work_items resolve objective config raw
    if accepts raw then items else err structural_planner_output_error

  unfoldable pub parse_and_validate : Option String → Result (List (WorkItem P))
  parse_and_validate none = err structural_planner_output_error
  parse_and_validate (some content) = validate_loaded (loads content)

  module _ (run : Call → Result Turn) where
    -- the correction of a response, in the thread it came from
    unfoldable pub correct : RouteDecision → Option String → Result (List (WorkItem P)) × List Call
    correct route none = (err planner_output_error, [])
    correct route (some thread) = (
      do turn ← run (resume_thread thread route); parse_and_validate turn.final_response,
      List.◌∷◌ (resume_thread thread route) [],
    )

    -- the `try` block around the first response
    unfoldable pub handle :
        RouteDecision → Turn → Result (List (WorkItem P)) → Result (List (WorkItem P)) × List Call
    handle route turn (ok items) = (ok items, [])
    handle route turn (err e) =
        if is_structural e then correct route turn.thread_id else (err e, [])

    -- the first turn
    unfoldable pub respond : RouteDecision → Result Turn → Result (List (WorkItem P)) × List Call
    respond route (err e) = (err e, List.◌∷◌ (run_new_thread route) [])
    respond route (ok turn) =
        let (result, calls) = handle route turn (parse_and_validate turn.final_response) in
        (result, List.◌∷◌ (run_new_thread route) calls)

    unfoldable pub after_route : Result RouteDecision → Result (List (WorkItem P)) × List Call
    after_route (err e) = (err e, [])
    after_route (ok decision) = respond decision (run (run_new_thread decision))

    -- The result of `plan`, and the calls it made.
    unfoldable pub plan : Result (List (WorkItem P)) × List Call
    unfolding after_route
    plan = after_route (route config (planner_work_item objective config) none)
