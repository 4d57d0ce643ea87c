-- ===== src/Tests/Coordinator.antt =====
-- The use cases of the coordinator, at a run of one item that waits for approval and at a stored run.
use goal_router.Common.{
  String, Bool, true, false, Option, none, some, List, [], ◌∷◌, ◌≡◌, refl, sym, ◌==◌, eq_iff, arith,
  if◌then◌else◌,
}
use goal_router.Common.Strings.{contains}
use goal_router.Common.Dict.{Dict}
use goal_router.Common.Integers.{pos}
use mathlib.Core.Path.{subst}
use goal_router.Errors.{
  ok-injective, Result, ok, err, state_error, resume_configuration_changed_error,
}
use goal_router.Domain.Json.{JsonValue, str, int, list, dict}
use goal_router.Domain.RunState.{RunState}
use goal_router.Scheduler.Pending.{IsWellFormed}
use goal_router.Application.Ports.{Effect, Log, Ports}
use goal_router.Application.Operations.{Parts}
use goal_router.Application.Coordinator.{
  plan_objective, run_objective, resume, approve, selected_run_id,
}
use goal_router.Application.Coordinator.Lease.{Closed}
use goal_router.Application.Coordinator.NewRun.{IsNewRun}
use goal_router.Application.Coordinator.UseCase.{UseCase}
use goal_router.Application.Coordinator.Resumed.{IsStored, IsFormed}
use goal_router.Application.Coordinator.UseCases.{
  log_of, IsRunOf, use_cases-Closed, plan_objective-IsNewRun, run_objective-IsRunOf,
}
use goal_router.Application.Coordinator.Refusals.{changed_configuration, refused_log}
use goal_router.Samples.{platform, project, config_file, config, repository, approved, digest}
use goal_router.Tests.Steps.{working}

abbrev cache_item : JsonValue platform
cache_item = dict (
    ("id", str "a")
    ∷ ("task", str "coding")
    ∷ ("access", str "workspace-write")
    ∷ ("verification", list (str "pytest" ∷ []))
    ∷ ("affected-paths", list [])
    ∷ ("title", str "Cache")
    ∷ ("instructions", str "add it")
    ∷ ("phase", str "build")
    ∷ ("dependencies", list [])
    ∷ ("expected-result", str "a cache")
    ∷ ("confidence", int (pos 1))
    ∷ ("risk-flags", list (str "security" ∷ []))
    ∷ [])

abbrev parts : Parts platform
parts = record {
  config = config;
  config_path = config_file;
  digest = digest;
  resolve = λ path. path;
  loads = λ text. some (dict (("work-items", list (cache_item ∷ [])) ∷ []));
  accepts = λ raw. true;
  max_read_concurrency = 1;
  render = λ state. ok "report";
}

abbrev stored_run : RunState platform
stored_run = record approved { configuration_digest = "old" }

-- The store has the one run.
abbrev answer_load : Log platform → Result (RunState platform)
answer_load (Effect.load id ∷ log) = if id == "run-1" then ok stored_run else err state_error
answer_load log = err state_error

-- Every other port answers.
abbrev ports : Ports platform
ports = record {
  acquire = λ log. ok tt;
  release = λ log. ok tt;
  inspect = λ log. ok repository;
  available_models = λ log. ok ("small" ∷ "large" ∷ []);
  turn = λ log call. ok (record { thread_id = some "t"; final_response = some "plan" });
  create = λ log. ok tt;
  load = λ log. answer_load log;
  save = λ log. ok tt;
  append_event = λ log. ok tt;
  write_report = λ log. ok tt;
  scheduler = λ log. working;
  now = λ log. "2025-01-03";
  run_id = λ log. "run-1";
}

stored_run-IsWellFormed : IsWellFormed stored_run.work_items
unfolding contains
stored_run-IsWellFormed = record { distinct = (refl, tt); keyed = (refl, tt) }

stored_run-IsFormed :
    (run : String) (test : Bool) (state : RunState platform)
    → (run == "run-1") ≡ test
    → (if test then ok stored_run else err state_error) ≡ ok state
    → IsFormed run state
stored_run-IsFormed run true state same h =
    subst (IsFormed run) (ok-injective h)
      (stored_run-IsWellFormed, sym ((eq_iff run "run-1").0 same))
stored_run-IsFormed run false state same h = absurd (ground (arith, h))

stored : IsStored ports
stored run log state h = stored_run-IsFormed run (run == "run-1") state refl h

-- the value of a run, or the stored run
abbrev value_of : Result (RunState platform) → RunState platform
value_of (ok state) = state
value_of (err e) = stored_run

abbrev calls : List UseCase
calls =
    UseCase.resume "run-1" true
    ∷ UseCase.approve "run-1" "a" "ann"
    ∷ UseCase.run_objective project "add a cache" none
    ∷ []

use_cases-Closed_example : Closed parts ports (log_of parts ports calls)
use_cases-Closed_example = use_cases-Closed parts ports stored calls

abbrev new_run : RunState platform
new_run = value_of (plan_objective parts ports project "add a cache" none []).0

plans : (plan_objective parts ports project "add a cache" none []).0 ≡ ok new_run
unfolding goal_router.Planner.Planning.plan goal_router.Planner.Validation.parse_semantic_work_items
    goal_router.Planner.Fields.field goal_router.Common.Dict.get goal_router.Planner.Fields.sequence
    goal_router.Planner.Validation.parse_work_items goal_router.Planner.Fields.mapping
    goal_router.Planner.Validation.parse_work_item goal_router.Planner.Fields.string
    goal_router.Common.Strings.contains goal_router.Common.Dict.has
    goal_router.Planner.Validation.access_mode goal_router.Domain.Enums.of_value
    goal_router.Planner.Fields.string_tuple goal_router.Domain.Fields.each
    goal_router.Planner.Validation.has_verification
    goal_router.Planner.Validation.complete_work_item goal_router.Planner.Validation.affected_path
    goal_router.Planner.Validation.contained_relative_path goal_router.Common.Dict.of_items
    goal_router.Common.Dict.put goal_router.Common.Strings.add goal_router.Common.Strings.frozenset
    goal_router.Domain.FilePath.of_text goal_router.Domain.FilePath.root_of
    goal_router.Domain.FilePath.split goal_router.Planner.Cycles.graph_of
    goal_router.Planner.Cycles.neighbours goal_router.Planner.Cycles.reject_cycles
    goal_router.Planner.Cycles.visit goal_router.Planner.Cycles.visit_all
    goal_router.Planner.Fields.number goal_router.Planner.Fields.plain_string
    goal_router.Planner.Validation.check_dependencies goal_router.Planner.Validation.joinpath
    goal_router.Planner.Validation.relative_to goal_router.Planner.Validation.strip_prefix
    goal_router.Planner.Planning.planner_work_item goal_router.Planner.Planning.respond
    goal_router.Planner.Planning.handle goal_router.Planner.Planning.parse_and_validate
    goal_router.Planner.Planning.validate_loaded goal_router.Planner.Planning.is_structural
    goal_router.Planner.Planning.correct goal_router.Planner.Planning.after_route
    goal_router.Routing.route goal_router.Routing.select_task goal_router.Routing.route_selected
    goal_router.Routing.apply_rules goal_router.Routing.is_active goal_router.Routing.select_alias
    goal_router.Routing.candidates goal_router.Routing.decide goal_router.Routing.apply_rule
    goal_router.Routing.first_glob_match goal_router.Routing.first_match
    goal_router.Routing.min_rank goal_router.Routing.require_alias goal_router.Routing.require_task
    goal_router.Routing.rule_reason goal_router.Common.Strings.join
    goal_router.Application.Operations.validate_model_inventory
    goal_router.Application.Operations.event goal_router.Application.Operations.run_planner
    goal_router.Application.Operations.new_objective
    goal_router.Application.Coordinator.plan_objective_unlocked
    goal_router.Application.Coordinator.plan_objective
    goal_router.Application.Coordinator.with_selected_run
    goal_router.Application.Coordinator.selected_run_id goal_router.Application.objective_of
    goal_router.Application.work_items_of goal_router.Application.routes_of
    goal_router.Application.Ports.leave goal_router.Application.Ports.enter
    goal_router.Application.Ports.with_run_lease goal_router.Routing.validate_models
    goal_router.Common.Strings.sort goal_router.Routing.absent
plans = refl

plan_objective-IsNewRun_example :
    IsNewRun parts "add a cache" (selected_run_id parts ports none []) new_run
plan_objective-IsNewRun_example =
    plan_objective-IsNewRun parts ports project "add a cache" none [] new_run tt plans

abbrev final : RunState platform
final = value_of (run_objective parts ports project "add a cache" none []).0

runs : (run_objective parts ports project "add a cache" none []).0 ≡ ok final
unfolding goal_router.Planner.Planning.plan goal_router.Planner.Validation.parse_semantic_work_items
    goal_router.Planner.Fields.field goal_router.Common.Dict.get goal_router.Planner.Fields.sequence
    goal_router.Planner.Validation.parse_work_items goal_router.Planner.Fields.mapping
    goal_router.Planner.Validation.parse_work_item goal_router.Planner.Fields.string
    goal_router.Common.Strings.contains goal_router.Common.Dict.has
    goal_router.Planner.Validation.access_mode goal_router.Domain.Enums.of_value
    goal_router.Planner.Fields.string_tuple goal_router.Domain.Fields.each
    goal_router.Planner.Validation.has_verification
    goal_router.Planner.Validation.complete_work_item goal_router.Planner.Validation.affected_path
    goal_router.Planner.Validation.contained_relative_path goal_router.Common.Dict.of_items
    goal_router.Common.Dict.put goal_router.Common.Strings.add goal_router.Common.Strings.frozenset
    goal_router.Domain.FilePath.of_text goal_router.Domain.FilePath.root_of
    goal_router.Domain.FilePath.split goal_router.Planner.Cycles.graph_of
    goal_router.Planner.Cycles.neighbours goal_router.Planner.Cycles.reject_cycles
    goal_router.Planner.Cycles.visit goal_router.Planner.Cycles.visit_all
    goal_router.Planner.Fields.number goal_router.Planner.Fields.plain_string
    goal_router.Planner.Validation.check_dependencies goal_router.Planner.Validation.joinpath
    goal_router.Planner.Validation.relative_to goal_router.Planner.Validation.strip_prefix
    goal_router.Planner.Planning.planner_work_item goal_router.Planner.Planning.respond
    goal_router.Planner.Planning.handle goal_router.Planner.Planning.parse_and_validate
    goal_router.Planner.Planning.validate_loaded goal_router.Planner.Planning.is_structural
    goal_router.Planner.Planning.correct goal_router.Planner.Planning.after_route
    goal_router.Routing.route goal_router.Routing.select_task goal_router.Routing.route_selected
    goal_router.Routing.apply_rules goal_router.Routing.is_active goal_router.Routing.select_alias
    goal_router.Routing.candidates goal_router.Routing.decide goal_router.Routing.apply_rule
    goal_router.Routing.first_glob_match goal_router.Routing.first_match
    goal_router.Routing.min_rank goal_router.Routing.require_alias goal_router.Routing.require_task
    goal_router.Routing.rule_reason goal_router.Common.Strings.join
    goal_router.Application.Operations.validate_model_inventory
    goal_router.Application.Operations.event goal_router.Application.Operations.run_planner
    goal_router.Application.Operations.new_objective
    goal_router.Application.Coordinator.plan_objective_unlocked
    goal_router.Application.Coordinator.plan_objective
    goal_router.Application.Coordinator.with_selected_run
    goal_router.Application.Coordinator.selected_run_id goal_router.Application.objective_of
    goal_router.Application.work_items_of goal_router.Application.routes_of
    goal_router.Application.Ports.leave goal_router.Application.Ports.enter
    goal_router.Application.Ports.with_run_lease goal_router.Routing.validate_models
    goal_router.Application.Operations.run_scheduler goal_router.Application.Operations.write_report
    goal_router.Application.Coordinator.append_review
    goal_router.Application.Coordinator.ensure_review goal_router.Application.Coordinator.run_review
    goal_router.Application.Coordinator.review goal_router.Application.Coordinator.wants_review
    goal_router.Application.Coordinator.continue_run
    goal_router.Application.Coordinator.run_objective goal_router.Application.completion_item
    goal_router.Application.summaries goal_router.Application.base_ids
    goal_router.Application.base_work_succeeded goal_router.Scheduler.run_ready
    goal_router.Common.Strings.sort goal_router.Routing.absent goal_router.Scheduler.rounds
    goal_router.Scheduler.turn goal_router.Scheduler.Status.newly_blocked
    goal_router.Scheduler.Status.pending_items goal_router.Common.Dict.sorted_items
    goal_router.Scheduler.dispatchable goal_router.Scheduler.Status.is_ready
    goal_router.Scheduler.may_dispatch goal_router.Approvals.require_dispatchable
    goal_router.Scheduler.Dispatch.run_one goal_router.Scheduler.Dispatch.persist_result
    goal_router.Scheduler.finish goal_router.Scheduler.Status.final_status
    goal_router.Application.is_nonempty goal_router.Scheduler.Dispatch.run_read_batch
    goal_router.Application.response_text goal_router.Approvals.fingerprint
    goal_router.Approvals.payload goal_router.Approvals.require_item_and_route
    goal_router.Common.Dict.from goal_router.Domain.FilePath.to_text
    goal_router.Domain.RouteDecision.fields goal_router.Domain.WorkItem.fields
    goal_router.Routing.missing_models goal_router.Scheduler.Dispatch.answer_one
    goal_router.Scheduler.Dispatch.append_event goal_router.Scheduler.Dispatch.block_items
    goal_router.Scheduler.Dispatch.calls goal_router.Scheduler.Dispatch.developer_instructions
    goal_router.Scheduler.Dispatch.dispatch_request goal_router.Scheduler.Dispatch.execute
    goal_router.Scheduler.Dispatch.executed goal_router.Scheduler.Dispatch.executed_batch
    goal_router.Scheduler.Dispatch.instruction_section goal_router.Scheduler.Dispatch.persist_all
    goal_router.Scheduler.Dispatch.previous_thread goal_router.Scheduler.Dispatch.request_for
    goal_router.Scheduler.Dispatch.save goal_router.Scheduler.Dispatch.settle
    goal_router.Scheduler.Dispatch.start_batch goal_router.Scheduler.Dispatch.with_route
    goal_router.Scheduler.Status.any_waits goal_router.Scheduler.Status.failure_result
    goal_router.Scheduler.Status.is_pending goal_router.Scheduler.Status.waiting_status
    goal_router.Scheduler.go_on goal_router.Scheduler.normalize goal_router.Scheduler.run_batch
    goal_router.Scheduler.run_readers goal_router.Scheduler.run_writer
    goal_router.Scheduler.set_status goal_router.Scheduler.with_lease
runs = refl

run_objective-IsRunOf_example :
    IsRunOf parts ports "add a cache" (selected_run_id parts ports none []) final
run_objective-IsRunOf_example =
    run_objective-IsRunOf parts ports project "add a cache" none [] final tt runs

changed_configuration_example :
    (resume parts ports "run-1" false []
      ≡ (err resume_configuration_changed_error, refused_log parts ports "run-1" []))
    × (approve parts ports "run-1" "a" "ann" []
        ≡ (err resume_configuration_changed_error, refused_log parts ports "run-1" []))
changed_configuration_example =
    changed_configuration parts ports "run-1" [] stored_run "a" "ann" refl refl refl
