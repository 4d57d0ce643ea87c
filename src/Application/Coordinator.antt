-- ===== src/Application/Coordinator.antt =====
-- src/goalrouter/application.py: the use cases of `GoalRouterApplication`. The planner, the router, the
-- scheduler and the approval service are those of this library; what they take from outside (`resolve`,
-- `loads`, the schema, the digest of canonical JSON, the renderer of reports) are parameters.
pub mod Guard
pub mod WorkItems
pub mod Stages
pub mod Guarded
pub mod Continued
pub mod Resumed
pub mod NewRun
pub mod Review
pub mod UseCase
pub mod UseCases
pub mod Refusals
pub mod Lease
use goal_router.Common.{
  ℕ, String, Bool, true, false, not, ◌&&◌, Option, none, some, List, [], ◌∷◌, ◌==◌, if◌then◌else◌,
  any,
}
use goal_router.Common.Dict
use goal_router.Common.Dict.{Dict}
use goal_router.Common.Integers.{ℤ, pos}
use goal_router.Errors.{
  Error, Result, ok, err, planner_output_error, resume_configuration_changed_error, guard,
}
use goal_router.Domain.Platform.{Platform}
use goal_router.Domain.Json.{JsonValue, str}
use goal_router.Domain.FilePath.{FilePath}
use goal_router.Domain.Enums.{RunStatus}
use goal_router.Domain.Objective.{Objective}
use goal_router.Domain.RepositoryContext.{RepositoryContext}
use goal_router.Domain.WorkItem.{WorkItem}
use goal_router.Domain.RouteDecision.{RouteDecision}
use goal_router.Domain.RunState.{RunState, RunEvent}
use goal_router.Config.{RouterConfig}
use goal_router.Routing.{route, validate_models}
use goal_router.Approvals
use goal_router.Planner.Planning.{plan}
use goal_router.Scheduler.{run_ready}
use goal_router.Scheduler.Effects.{World}
use goal_router.Application.{
  completion_id, completion_item, explicit_item, objective_of, base_work_succeeded,
  adopt_current_configuration, work_items_of, routes_of,
}
use goal_router.Application.Operations.{
  check_digest, Parts, validate_model_inventory, event, write_report, run_scheduler, run_planner,
  new_objective, initial,
}
use goal_router.Application.Ports.{
  Effect, Log, Ports, Action, pure, lift, perform, ◌>>=◌, ◌>>◌, with_run_lease,
}

module _ {P : Platform} (parts : Parts P) (ports : Ports P) where
  unfoldable pub plan_objective_unlocked : FilePath → String → String → Action P (RunState P)
  plan_objective_unlocked project_path prompt run_id = do
    repository ← perform (Effect.inspect project_path) ports.inspect
    validate_model_inventory parts ports
    objective ← new_objective parts ports repository.project_path prompt none run_id
    items ← run_planner parts ports objective
    lift (
        guard (not (any (λ (item : WorkItem P). item.id == completion_id) items))
          planner_output_error)
    routes ← lift (routes_of parts.config items)
    let state =
        initial parts ports objective repository (Dict.of_items (work_items_of items))
          (Dict.of_items routes)
    perform (Effect.create state) ports.create
    event parts ports state "objective-planned" none []
    pure state

  -- `run_id or self._run_id_factory()`
  unfoldable pub selected_run_id : Option String → Log P → String
  selected_run_id none log = ports.run_id log
  selected_run_id (some id) log = if id == "" then ports.run_id log else id

  unfoldable pub with_selected_run :
      {A : Type 0} → Option String → (String → Action P A) → Action P A
  with_selected_run run_id body log =
      let id = selected_run_id run_id log in with_run_lease ports id (body id) log

  unfoldable pub plan_objective : FilePath → String → Option String → Action P (RunState P)
  plan_objective project_path prompt run_id =
      with_selected_run run_id (plan_objective_unlocked project_path prompt)

  unfoldable pub run_task_unlocked :
      FilePath → String → String → List FilePath → String → Action P (RunState P)
  run_task_unlocked project_path task prompt affected_paths run_id = do
    repository ← perform (Effect.inspect project_path) ports.inspect
    validate_model_inventory parts ports
    (item, decision) ← lift (explicit_item parts.config task prompt affected_paths)
    objective ← new_objective parts ports repository.project_path prompt (some task) run_id
    let state =
        initial parts ports objective repository ((item.id, item) ∷ []) ((item.id, decision) ∷ [])
    perform (Effect.create state) ports.create
    event parts ports state "task-created" none []
    final ← run_scheduler parts ports state
    write_report parts ports final
    pure final

  unfoldable pub run_task :
      FilePath → String → String → List FilePath → Option String → Action P (RunState P)
  run_task project_path task prompt affected_paths run_id =
      with_selected_run run_id (run_task_unlocked project_path task prompt affected_paths)

  -- the state with its completion review
  abbrev pub reviewed_state : RunState P → WorkItem P → RouteDecision → RunState P
  reviewed_state state completion decision = record state {
    work_items = Dict.put state.work_items completion.id completion;
    routes = Dict.put state.routes completion.id decision;
    status = RunStatus.planned;
  }

  -- the review of a run whose own work has succeeded
  unfoldable pub append_review : RunState P → Action P (RunState P)
  append_review state = do
    completion ← lift (completion_item state parts.config.completion_task)
    decision ← lift (route parts.config completion none)
    let reviewed = reviewed_state state completion decision
    perform (Effect.save reviewed) ports.save
    event parts ports reviewed "completion-review-appended" none []
    pure reviewed

  unfoldable pub ensure_review : RunState P → Action P (RunState P)
  ensure_review state =
      if Dict.has state.work_items completion_id then pure state else append_review state

  unfoldable pub run_review : RunState P → Action P (RunState P)
  run_review state =
      if Dict.has state.results completion_id then pure state else run_scheduler parts ports state

  unfoldable pub review : RunState P → Action P (RunState P)
  review state = do reviewed ← ensure_review state; run_review reviewed

  -- `state.objective.explicit_task is None and self._base_work_succeeded(state)`
  unfoldable pub wants_review : RunState P → Bool
  wants_review state = elim state.objective.explicit_task [
    | none ↦ base_work_succeeded state
    | some _ ↦ false
  ]

  -- `_continue`
  unfoldable pub continue_run : RunState P → Action P (RunState P)
  continue_run state = do
    ran ← run_scheduler parts ports state
    final ← (if wants_review ran then review ran else pure ran)
    write_report parts ports final
    pure final

  unfoldable pub run_objective : FilePath → String → Option String → Action P (RunState P)
  run_objective project_path prompt run_id =
      with_selected_run run_id
        (λ id. plan_objective_unlocked project_path prompt id >>= continue_run)

  -- `self._store.load`
  unfoldable pub load_run : String → Option String → Bool → Action P (RunState P)
  load_run run_id expected acknowledge = do
    state ← perform (Effect.load run_id) ports.load
    lift (check_digest expected acknowledge state)

  -- the state that a result of `approve` carries
  abbrev approved_state : {A : Type 0} → Result (A × RunState P) → Result (RunState P)
  approved_state (err e) = err e
  approved_state (ok (_, state)) = ok state

  unfoldable pub approve_unlocked : String → String → String → Action P (RunState P)
  approve_unlocked run_id work_item_id approved_by = do
    state ← load_run run_id (some parts.config.digest) false
    approved ← (λ log.
        lift
          (approved_state
            (Approvals.approve parts.digest state work_item_id approved_by (ports.now log)))
          log)
    perform (Effect.save approved) ports.save
    event parts ports approved "approval-recorded" (some work_item_id)
        (("approved_by", str approved_by) ∷ [])
    write_report parts ports approved
    pure approved

  unfoldable pub approve : String → String → String → Action P (RunState P)
  approve run_id work_item_id approved_by =
      with_run_lease ports run_id (approve_unlocked run_id work_item_id approved_by)

  -- the change of a loaded run to the present configuration
  unfoldable pub adopt : RunState P → Action P (RunState P)
  adopt state = do
    adopted ← lift (adopt_current_configuration parts.config state)
    perform (Effect.save adopted) ports.save
    event parts ports adopted "configuration-change-acknowledged" none []
    pure adopted

  unfoldable pub ensure_current : RunState P → Action P (RunState P)
  ensure_current state =
      if state.configuration_digest == parts.config.digest then pure state else adopt state

  unfoldable pub resume_unlocked : String → Bool → Action P (RunState P)
  resume_unlocked run_id acknowledge = do
    state ← load_run run_id (some parts.config.digest) acknowledge
    current ← ensure_current state
    validate_model_inventory parts ports
    continue_run current

  unfoldable pub resume : String → Bool → Action P (RunState P)
  resume run_id acknowledge = with_run_lease ports run_id (resume_unlocked run_id acknowledge)

  unfoldable pub status : String → Action P (RunState P)
  status run_id = load_run run_id none false

  unfoldable pub report_unlocked : String → Action P String
  report_unlocked run_id = do state ← load_run run_id none false; write_report parts ports state

  unfoldable pub report : String → Action P String
  report run_id = with_run_lease ports run_id (report_unlocked run_id)

  unfoldable pub models : Action P (List String)
  models = do
    available ← perform Effect.available_models ports.available_models
    lift (validate_models parts.config available)
    pure available

  unfoldable pub route_task : String → String → List FilePath → Action P RouteDecision
  route_task task prompt affected_paths = do
    validate_model_inventory parts ports
    (item, decision) ← lift (explicit_item {P = P} parts.config task prompt affected_paths)
    pure decision
