-- ===== src/Application/Operations.antt =====
-- src/goalrouter/application.py: what the use cases of the coordinator are made of: its parts, and the
-- operations that they share.
use goal_router.Common.{
  ℕ, String, Bool, not, ◌&&◌, Option, none, some, List, [], ◌∷◌, ◌==◌, if◌then◌else◌,
}
use goal_router.Common.Dict.{Dict}
use goal_router.Common.Integers.{pos}
use goal_router.Errors.{Result, ok, err, resume_configuration_changed_error}
use goal_router.Domain.Platform.{Platform}
use goal_router.Domain.Json.{JsonValue}
use goal_router.Domain.FilePath.{FilePath}
use goal_router.Domain.Enums.{RunStatus}
use goal_router.Domain.Objective.{Objective}
use goal_router.Domain.RepositoryContext.{RepositoryContext}
use goal_router.Domain.WorkItem.{WorkItem}
use goal_router.Domain.RouteDecision.{RouteDecision}
use goal_router.Domain.RunState.{RunState}
use goal_router.Config.{RouterConfig}
use goal_router.Routing.{validate_models}
use goal_router.Planner.Planning.{plan}
use goal_router.Scheduler.{run_ready}
use goal_router.Application.{objective_of}
use goal_router.Application.Ports.{Effect, Ports, Action, pure, lift, perform, ◌>>=◌, ◌>>◌}

-- `JsonRunStore.load`: the test of the digest, after the snapshot is read
unfoldable pub check_digest :
    {P : Platform} → Option String → Bool → RunState P → Result (RunState P)
check_digest none acknowledge state = ok state
check_digest (some expected) acknowledge state =
    if not (state.configuration_digest == expected) && not acknowledge
    then err resume_configuration_changed_error
    else ok state

-- What the coordinator is made with.
pub record Parts (P : Platform) : Type 0 where
  pub config : RouterConfig
  pub config_path : FilePath
  pub digest : JsonValue P → String
  pub resolve : FilePath → FilePath
  pub loads : String → Option (JsonValue P)
  pub accepts : Dict (JsonValue P) → Bool
  pub max_read_concurrency : ℕ
  pub render : RunState P → Result String

module _ {P : Platform} (parts : Parts P) (ports : Ports P) where
  unfoldable pub validate_model_inventory : Action P (Unit {0})
  validate_model_inventory = do
    models ← perform Effect.available_models ports.available_models
    lift (validate_models parts.config models)

  unfoldable pub event :
      RunState P → String → Option String → Dict (JsonValue P) → Action P (Unit {0})
  event state name item_id details' log =
      perform
        (Effect.append_event state.objective.id (record {
          timestamp = ports.now log;
          event = name;
          work_item_id = item_id;
          details = details';
        }))
        ports.append_event log

  unfoldable pub write_report : RunState P → Action P String
  write_report state = do
    content ← lift (parts.render state)
    perform (Effect.write_report state.objective.id content) ports.write_report
    pure content

  -- `self._scheduler.run_ready(state)`, with the state that it leaves
  unfoldable pub run_scheduler : RunState P → Action P (RunState P)
  run_scheduler state' log =
      let (r, w) =
        run_ready (ports.scheduler log) parts.digest parts.max_read_concurrency
          (record { state = state'; log = [] }) in
      (elim r [ err e ↦ err e | ok _ ↦ ok w.state ], Effect.scheduled state' w.log ∷ log)

  unfoldable pub run_planner : Objective P → Action P (List (WorkItem P))
  run_planner objective log =
      let (items, calls) =
        plan parts.resolve parts.loads parts.accepts objective parts.config (ports.turn log) in
      (items, Effect.planned objective.id calls ∷ log)

  unfoldable pub new_objective : FilePath → String → Option String → String → Action P (Objective P)
  new_objective project_path prompt explicit_task run_id log = (
    ok (objective_of parts.config_path (ports.now log) project_path prompt explicit_task run_id),
    log,
  )

  -- The state of a new run.
  abbrev pub initial :
      Objective P → RepositoryContext → Dict (WorkItem P) → Dict RouteDecision → RunState P
  initial objective' repository' work_items' routes' = record {
    schema_version = pos 1;
    configuration_digest = parts.config.digest;
    objective = objective';
    repository = repository';
    work_items = work_items';
    routes = routes';
    results = [];
    approvals = [];
    status = RunStatus.planned;
  }
