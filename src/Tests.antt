-- ===== src/Tests.antt =====
-- The theorems at concrete runs.
pub mod Adoption
pub mod Writing
pub mod Steps
pub mod Leases
pub mod Commands
pub mod Reports
pub mod Snapshots
pub mod Coordinator
pub mod RunIds
pub mod Evidence
pub mod Configuration
pub mod Redaction
use goal_router.Common.{
  ℕ, String, Bool, true, false, Option, none, some, List, [], ◌∷◌, ◌≡◌, refl, inl, inr, arith, In,
  ◌↔◌, length, ◌≤◌, ◌==◌, ◌⊎◌, if◌then◌else◌,
}
use goal_router.Common.Dict
use goal_router.Common.Dict.{Dict, values}
use goal_router.Common.Strings.{contains, join, frozenset}
use goal_router.Errors.{Result, ok, err, approval_required_error, planner_output_error}
use goal_router.Domain.Json.{JsonValue, list, dict}
use goal_router.Domain.FilePath
use goal_router.Domain.FilePath.{FilePath}
use goal_router.Domain.FilePath.RoundTrip.{IsNormal, of_text-to_text}
use goal_router.Domain.WorkItem.{WorkItem}
use goal_router.Domain.ApprovalRecord.{ApprovalRecord}
use goal_router.Domain.RunState
use goal_router.Domain.RunState.{RunState}
use goal_router.Domain.RoundTrip.State.{RunState-round_trip, RunStateIsNormal, canonical}
use goal_router.Domain.RoundTrip.Records.{WorkItemIsNormal}
use goal_router.Approvals.{approve, require_dispatchable}
use goal_router.Approvals.Binding.{
  approve-IsDispatchable, approval_is_bound, require_dispatchable_iff, IsDispatchable,
  require_dispatchable-error,
}
use goal_router.Planner.Cycles.Acyclic.{Leads, reject_cycles-acyclic}
use goal_router.Planner.Cycles.Decides.{IsGrounded, reject_cycles-decides}
use goal_router.Planner.Planning.{Turn, Call, run_new_thread, resume_thread, plan}
use goal_router.Planner.Outcome.{plan-IsPlan, plan-calls}
use goal_router.Scheduler.Status.{final_status}
use goal_router.Scheduler.Completion.{final_status-completed, Succeeded}
use goal_router.Routing.{
  route, select_task, route_selected, apply_rules, is_active, apply_rule, select_alias, candidates,
  decide,
}
use goal_router.Routing.Decision.{IsSound, route-IsSound}
use goal_router.Domain.Enums.{RunStatus, RouteSource}
use goal_router.Domain.RouteDecision.{RouteDecision}
use goal_router.Planner.Cycles.{ids_of, reject_cycles, visit_all, visit, neighbours, graph_of}
use goal_router.Planner.Validation.{parse_semantic_work_items}
use goal_router.Planner.Accepted.{IsPlan, parse_semantic_work_items-IsPlan}
use goal_router.Samples.{
  platform, project, config_file, objective, config, item, decision, waiting, planned_item, digest,
  approval, approved,
}

approves : approve digest waiting "a" "ada" "2025-01-02" ≡ ok (approval, approved)
unfolding approve Dict.get Dict.put
approves = refl

approve-IsDispatchable_example : require_dispatchable digest approved "a" ≡ ok tt
approve-IsDispatchable_example =
    approve-IsDispatchable digest waiting "a" "ada" "2025-01-02" approves

refused : require_dispatchable digest waiting "a" ≡ err approval_required_error
unfolding require_dispatchable Dict.get
refused = refl

require_dispatchable-error_example : approval_required_error ≡ approval_required_error
require_dispatchable-error_example =
    require_dispatchable-error digest waiting "a" approval_required_error refused

require_dispatchable_iff_example :
    (require_dispatchable digest approved "a" ≡ ok tt) ↔ IsDispatchable digest approved "a"
require_dispatchable_iff_example = require_dispatchable_iff digest approved "a"

project_IsNormal : IsNormal project
project_IsNormal = record {
  rooted = inr (inl refl);
  named = ((refl, (refl, (refl, (refl, tt)))), tt);
}

config_file_IsNormal : IsNormal config_file
config_file_IsNormal = record {
  rooted = inr (inl refl);
  named = ((refl, (refl, (refl, (refl, tt)))), tt);
}

item_IsNormal : WorkItemIsNormal item
item_IsNormal = record { paths = tt; flags = (tt, tt) }

approval_is_bound_example :
    (waiting.configuration_digest ≡ approved.configuration_digest)
    × (decision ≡ decision)
    × (item ≡ item)
    × (RunState.run_id waiting ≡ RunState.run_id approved)
unfolding Dict.get
approval_is_bound_example =
    approval_is_bound digest waiting approved "a" "ada" "2025-01-02" {r = approval}
      {next = approved} item item decision decision approves (refl, refl) (refl, refl) refl refl
      (item_IsNormal, item_IsNormal) (λ _. refl) approve-IsDispatchable_example

waiting_IsNormal : RunStateIsNormal waiting
waiting_IsNormal = record {
  objective = record { project = project_IsNormal; config = config_file_IsNormal; aware = refl };
  repository = record { project = project_IsNormal; dirty = tt; instructions = tt; docker = tt };
  work_items = (item_IsNormal, tt);
  results = tt;
  approvals = tt;
}

RunState-round_trip_example : RunState.from_dict (RunState.fields waiting) ≡ ok (canonical waiting)
RunState-round_trip_example = RunState-round_trip waiting (λ t. refl) waiting_IsNormal

acyclic_run : reject_cycles (item ∷ []) ≡ ok ("a" ∷ [])
unfolding reject_cycles graph_of visit_all visit neighbours contains Dict.get Dict.of_items
acyclic_run = refl

IsGrounded-one : IsGrounded (ids_of (item ∷ [])) (item ∷ [])
IsGrounded-one = (tt, tt)

reject_cycles-decides_example :
    ((visited : List String) × (reject_cycles (item ∷ []) ≡ ok visited))
    ⊎ ((reject_cycles (item ∷ []) ≡ err planner_output_error)
        × ((x : String) × Leads (graph_of (item ∷ [])) x x))
reject_cycles-decides_example = reject_cycles-decides (item ∷ []) IsGrounded-one

-- An item that needs itself.
abbrev looping : WorkItem platform
looping = record item { dependencies = "a" ∷ [] }

looping_run : reject_cycles (looping ∷ []) ≡ err planner_output_error
unfolding reject_cycles graph_of visit_all visit neighbours contains Dict.get Dict.of_items
looping_run = refl

reject_cycles-acyclic_example : ¬ Leads (graph_of (item ∷ [])) "a" "a"
reject_cycles-acyclic_example = reject_cycles-acyclic (item ∷ []) acyclic_run "a" (inl refl)

abbrev routed : RouteDecision
routed = record decision {
  source = RouteSource.planner;
  reason = "planner task coding; hard floors security:strong";
}

routes_item : route config item none ≡ ok routed
unfolding route select_task Dict.has route_selected Dict.get apply_rules is_active contains
    apply_rule select_alias candidates decide join
routes_item = refl

route-IsSound_example : IsSound config item routed
route-IsSound_example = route-IsSound config item none routed routes_item

abbrev plan_object : Dict (JsonValue platform)
plan_object = ("work-items", list (planned_item ∷ [])) ∷ []

abbrev planned : WorkItem platform
planned = record item {
  affected_paths = record { root = ""; parts = "src" ∷ "cache.py" ∷ [] } ∷ [];
}

abbrev resolve : FilePath → FilePath
resolve path = path

parses : parse_semantic_work_items resolve objective config plan_object ≡ ok (planned ∷ [])
unfolding parse_semantic_work_items goal_router.Planner.Fields.field goal_router.Common.Dict.get
    goal_router.Planner.Fields.sequence goal_router.Planner.Validation.parse_work_items
    goal_router.Planner.Fields.mapping goal_router.Planner.Validation.parse_work_item
    goal_router.Planner.Fields.string goal_router.Common.Strings.contains
    goal_router.Common.Dict.has goal_router.Planner.Validation.access_mode
    goal_router.Domain.Enums.of_value goal_router.Planner.Fields.string_tuple
    goal_router.Domain.Fields.each goal_router.Planner.Validation.has_verification
    goal_router.Planner.Validation.complete_work_item goal_router.Planner.Validation.affected_path
    goal_router.Planner.Validation.contained_relative_path goal_router.Common.Dict.of_items
    goal_router.Common.Dict.put goal_router.Common.Strings.add goal_router.Common.Strings.frozenset
    goal_router.Domain.FilePath.of_text goal_router.Domain.FilePath.root_of
    goal_router.Domain.FilePath.split goal_router.Planner.Cycles.graph_of
    goal_router.Planner.Cycles.neighbours goal_router.Planner.Cycles.reject_cycles
    goal_router.Planner.Cycles.visit goal_router.Planner.Cycles.visit_all
    goal_router.Planner.Fields.number goal_router.Planner.Fields.plain_string
    goal_router.Planner.Validation.check_dependencies goal_router.Planner.Validation.joinpath
    goal_router.Planner.Validation.relative_to goal_router.Planner.Validation.strip_prefix
parses = refl

parse_semantic_work_items-IsPlan_example : IsPlan config (planned ∷ [])
parse_semantic_work_items-IsPlan_example =
    parse_semantic_work_items-IsPlan resolve objective config plan_object (planned ∷ []) parses

-- A client that answers every call.
abbrev answers : Call → Result Turn
answers call = ok (record { thread_id = some "t"; final_response = some "plan" })

-- The first response is not JSON, and the correction is the plan.
abbrev corrects : Call → Result Turn
corrects (run_new_thread _) = ok (record { thread_id = some "t"; final_response = some "oops" })
corrects (resume_thread _ _) = ok (record { thread_id = some "t"; final_response = some "plan" })

abbrev loads : String → Option (JsonValue platform)
loads text = if text == "plan" then some (dict plan_object) else none

abbrev accepts : Dict (JsonValue platform) → Bool
accepts raw = true

plans : (plan resolve loads accepts objective config corrects).0 ≡ ok (planned ∷ [])
unfolding plan parse_semantic_work_items goal_router.Planner.Fields.field
    goal_router.Common.Dict.get goal_router.Planner.Fields.sequence
    goal_router.Planner.Validation.parse_work_items goal_router.Planner.Fields.mapping
    goal_router.Planner.Validation.parse_work_item goal_router.Planner.Fields.string
    goal_router.Common.Strings.contains goal_router.Common.Dict.has
    goal_router.Planner.Validation.access_mode goal_router.Domain.Enums.of_value
    goal_router.Planner.Fields.string_tuple goal_router.Domain.Fields.each
    goal_router.Planner.Validation.has_verification
    goal_router.Planner.Validation.complete_work_item goal_router.Planner.Validation.affected_path
    goal_router.Planner.Validation.contained_relative_path goal_router.Common.Dict.of_items
    goal_router.Common.Dict.put goal_router.Common.Strings.add goal_router.Common.Strings.frozenset
    goal_router.Domain.FilePath.of_text goal_router.Domain.FilePath.root_of
    goal_router.Domain.FilePath.split goal_router.Planner.Cycles.graph_of
    goal_router.Planner.Cycles.neighbours goal_router.Planner.Cycles.reject_cycles
    goal_router.Planner.Cycles.visit goal_router.Planner.Cycles.visit_all
    goal_router.Planner.Fields.number goal_router.Planner.Fields.plain_string
    goal_router.Planner.Validation.check_dependencies goal_router.Planner.Validation.joinpath
    goal_router.Planner.Validation.relative_to goal_router.Planner.Validation.strip_prefix
    goal_router.Planner.Planning.planner_work_item goal_router.Planner.Planning.respond
    goal_router.Planner.Planning.handle goal_router.Planner.Planning.parse_and_validate
    goal_router.Planner.Planning.validate_loaded goal_router.Planner.Planning.is_structural
    goal_router.Planner.Planning.correct goal_router.Planner.Planning.after_route
    goal_router.Routing.route goal_router.Routing.select_task goal_router.Routing.route_selected
    goal_router.Routing.apply_rules goal_router.Routing.is_active goal_router.Routing.select_alias
    goal_router.Routing.candidates goal_router.Routing.decide goal_router.Routing.apply_rule
    goal_router.Routing.first_glob_match goal_router.Routing.first_match
    goal_router.Routing.min_rank goal_router.Routing.require_alias goal_router.Routing.require_task
    goal_router.Routing.rule_reason goal_router.Common.Strings.join
plans = refl

plan-IsPlan_example : IsPlan config (planned ∷ [])
plan-IsPlan_example =
    plan-IsPlan resolve loads accepts objective config corrects (planned ∷ []) plans

plan-calls_example : length (plan resolve loads accepts objective config corrects).1 ≤ 2
plan-calls_example = plan-calls resolve loads accepts objective config corrects

final_status-completed_example :
    (final_status waiting ≡ ok RunStatus.completed)
    ↔ ((length waiting.results ≡ length waiting.work_items) × Succeeded (values waiting.results))
final_status-completed_example = final_status-completed waiting
