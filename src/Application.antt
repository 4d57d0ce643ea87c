-- ===== src/Application.antt =====
-- src/goalrouter/application.py: the items that the coordinator makes itself, and the change of a
-- loaded run to the present configuration.
pub mod Adoption
pub mod Ports
pub mod Operations
pub mod Coordinator
use Prim.Native.String.{◌++◌}
use goal_router.Common.{
  String, Bool, true, false, not, ◌&&◌, Option, none, some, List, [], ◌∷◌, ◌==◌, if◌then◌else◌, all,
  filter,
}
use goal_router.Common.Strings.{sort, join}
use goal_router.Common.Dict
use goal_router.Common.Dict.{Dict, keys}
use goal_router.Errors.{Result, ok, err, key_error, ◌>>=◌}
use goal_router.Domain.Platform.{Platform}
use goal_router.Domain.Enums.{AccessMode, SandboxMode}
use goal_router.Domain.FilePath.{FilePath}
use goal_router.Domain.Objective.{Objective}
use goal_router.Domain.WorkItem.{WorkItem}
use goal_router.Domain.WorkResult.{WorkResult}
use goal_router.Domain.RouteDecision.{RouteDecision}
use goal_router.Domain.RunState.{RunState}
use goal_router.Config.{RouterConfig}
use goal_router.Routing.{route}
use goal_router.Scheduler.Status.{is_pending, is_succeeded, result_is}

abbrev pub completion_id : String
completion_id = "__goalrouter_completion_review__"

-- `text or '(no response)'`
unfoldable pub response_text : Option String → String
response_text none = "(no response)"
response_text (some text) = if text == "" then "(no response)" else text

unfoldable pub access_of : SandboxMode → AccessMode
access_of SandboxMode.workspace_write = AccessMode.workspace_write
access_of SandboxMode.read_only = AccessMode.read_only

-- `bool(ids)`
unfoldable pub is_nonempty : List String → Bool
is_nonempty [] = false
is_nonempty (id ∷ ids) = true

module _ {P : Platform} where
  -- a line of `summaries`
  summary : String → Option (WorkResult P) → Result String
  summary id none = err key_error
  summary id (some r) = ok ("- " ++ (id ++ (": " ++ response_text r.final_response)))

  unfoldable pub summaries : RunState P → List String → Result (List String)
  unfolding summary
  summaries state [] = ok []
  summaries state (id ∷ ids) = do
    line ← summary id (Dict.get state.results id)
    lines ← summaries state ids
    ok (line ∷ lines)

  unfoldable pub completion_item : RunState P → String → Result (WorkItem P)
  completion_item state task' = do
    lines ← summaries state (sort (keys state.results))
    ok (record {
      id = completion_id;
      title = "Independent completion review";
      instructions =
          "Independently verify that the objective scope and required evidence are complete. Do not modify files. Report any missing verification explicitly.\n\nObjective: "
          ++ (state.objective.prompt ++ ("\n\nCompleted work:\n" ++ join "\n" lines));
      task = task';
      phase = "completion";
      dependencies = sort (keys state.work_items);
      access = AccessMode.read_only;
      affected_paths = [];
      expected_result = "An independent completion decision with evidence.";
      verification = [];
      confidence = P.float_one;
      risk_flags = [];
    })

  -- `provisional`
  unfoldable pub provisional_item : String → String → List FilePath → WorkItem P
  provisional_item task' prompt paths = record {
    id = "task";
    title = "Run " ++ task';
    instructions = prompt;
    task = task';
    phase = "explicit";
    dependencies = [];
    access = AccessMode.read_only;
    affected_paths = paths;
    expected_result = "The requested bounded task is complete.";
    verification = [];
    confidence = P.float_one;
    risk_flags = [];
  }

  unfoldable pub explicit_item :
      RouterConfig → String → String → List FilePath → Result (WorkItem P × RouteDecision)
  explicit_item config task prompt paths = do
    decision ← route config (provisional_item task prompt paths) (some task)
    ok (
      record (provisional_item task prompt paths) { access = access_of decision.sandbox },
      decision,
    )

  -- `_objective`, with the values that the coordinator keeps: the configuration's path and the time
  unfoldable pub objective_of :
      FilePath → P.Datetime → FilePath → String → Option String → String → Objective P
  objective_of config_path' now project_path' prompt' explicit_task' run_id = record {
    id = run_id;
    prompt = prompt';
    project_path = project_path';
    explicit_task = explicit_task';
    config_path = config_path';
    created_at = now;
  }

  unfoldable pub base_ids : RunState P → List String
  base_ids state = filter (λ id. not (id == completion_id)) (keys state.work_items)

  unfoldable pub base_work_succeeded : RunState P → Bool
  base_work_succeeded state =
      is_nonempty (base_ids state)
      && all (λ id. result_is is_succeeded (Dict.get state.results id)) (base_ids state)

  -- The body of the loop of `_adopt_current_configuration`. Its test is that of `_pending_items`.
  unfoldable pub adopt_route :
      RouterConfig
      → RunState P
      → String
      → WorkItem P
      → Dict RouteDecision
      → Result (Dict RouteDecision)
  adopt_route config state id item routes =
      let routed = (do decision ← route config item none; ok (Dict.put routes id decision)) in
      if is_pending state id then routed else ok routes

  unfoldable pub adopt_routes :
      RouterConfig
      → RunState P
      → Dict (WorkItem P)
      → Dict RouteDecision
      → Result (Dict RouteDecision)
  adopt_routes config state [] routes = ok routes
  adopt_routes config state ((id, item) ∷ items) routes = do
    routes' ← adopt_route config state id item routes
    adopt_routes config state items routes'

  unfoldable pub adopt_current_configuration : RouterConfig → RunState P → Result (RunState P)
  adopt_current_configuration config state = do
    routes' ← adopt_routes config state state.work_items state.routes
    ok (record state { routes = routes'; configuration_digest = config.digest; approvals = [] })

  -- `{item.id: item for item in items}`
  unfoldable pub work_items_of : List (WorkItem P) → List (String × WorkItem P)
  work_items_of [] = []
  work_items_of (item ∷ items) = (item.id, item) ∷ work_items_of items

  -- `{item.id: self._router.route(item) for item in items}`
  unfoldable pub routes_of :
      RouterConfig → List (WorkItem P) → Result (List (String × RouteDecision))
  routes_of config [] = ok []
  routes_of config (item ∷ items) = do
    decision ← route config item none
    rest ← routes_of config items
    ok ((item.id, decision) ∷ rest)
