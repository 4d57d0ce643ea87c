-- ===== src/Scheduler/Status.antt =====
-- src/goalrouter/scheduler.py: the status sets, which items are pending, blocked or ready, and the
-- final status of a run.
use goal_router.Common.{
  String, Bool, true, false, ◌&&◌, Option, none, some, List, [], ◌∷◌, if◌then◌else◌, length, eqb,
  any, all, filter,
}
use goal_router.Common.Integers.{pos}
use goal_router.Common.Dict
use goal_router.Common.Dict.{values, sorted_items}
use goal_router.Errors.{Result, ok, err, key_error}
use goal_router.Domain.Platform.{Platform}
use goal_router.Domain.Enums.{WorkStatus, RunStatus, AccessMode, ApprovalMode}
use goal_router.Domain.WorkItem.{WorkItem}
use goal_router.Domain.WorkResult.{WorkResult}
use goal_router.Domain.RunState.{RunState}

-- The status sets of the module, and the tests by `is`.
abbrev pub is_dependency_failure : WorkStatus → Bool
is_dependency_failure WorkStatus.failed = true
is_dependency_failure WorkStatus.blocked = true
is_dependency_failure _ = false

abbrev pub is_resumable : WorkStatus → Bool
is_resumable WorkStatus.pending = true
is_resumable WorkStatus.awaiting_approval = true
is_resumable WorkStatus.running = true
is_resumable _ = false

abbrev pub is_pre_writer : RunStatus → Bool
is_pre_writer RunStatus.awaiting_approval = true
is_pre_writer RunStatus.running = true
is_pre_writer _ = false

abbrev pub is_succeeded : WorkStatus → Bool
is_succeeded WorkStatus.succeeded = true
is_succeeded _ = false

abbrev pub is_failed : WorkStatus → Bool
is_failed WorkStatus.failed = true
is_failed _ = false

abbrev pub is_blocked : WorkStatus → Bool
is_blocked WorkStatus.blocked = true
is_blocked _ = false

abbrev pub is_write : AccessMode → Bool
is_write AccessMode.workspace_write = true
is_write AccessMode.read_only = false

abbrev pub is_required : ApprovalMode → Bool
is_required ApprovalMode.required = true
is_required ApprovalMode.automatic = false

abbrev pub same_status : RunStatus → RunStatus → Bool
same_status RunStatus.planned RunStatus.planned = true
same_status RunStatus.awaiting_approval RunStatus.awaiting_approval = true
same_status RunStatus.running RunStatus.running = true
same_status RunStatus.completed RunStatus.completed = true
same_status RunStatus.failed RunStatus.failed = true
same_status RunStatus.blocked RunStatus.blocked = true
same_status _ _ = false

module _ {P : Platform} where
  -- the test of a result that may be missing
  abbrev pub result_is : (WorkStatus → Bool) → Option (WorkResult P) → Bool
  result_is test none = false
  result_is test (some r) = test r.status

  abbrev unfinished : Option (WorkResult P) → Bool
  unfinished none = true
  unfinished (some r) = is_resumable r.status

  -- The item of this identifier has no result yet or one that can be resumed.
  unfoldable pub is_pending : RunState P → String → Bool
  is_pending state id = unfinished (Dict.get state.results id)

  unfoldable pub pending_items : RunState P → List (WorkItem P)
  unfolding is_pending
  pending_items state = values (
      filter (λ (entry : String × WorkItem P). is_pending state entry.0)
        (sorted_items state.work_items))

  unfoldable pub newly_blocked : RunState P → List (WorkItem P)
  newly_blocked state =
      filter
        (λ (item : WorkItem P).
          any (λ d. result_is is_dependency_failure (Dict.get state.results d)) item.dependencies)
        (pending_items state)

  -- all dependencies have succeeded
  unfoldable pub is_ready : RunState P → WorkItem P → Bool
  is_ready state item =
      all (λ d. result_is is_succeeded (Dict.get state.results d)) item.dependencies

  unfoldable pub failure_result : WorkItem P → WorkStatus → String → WorkResult P
  failure_result item status message = record {
    work_item_id = item.id;
    thread_id = none;
    turn_id = none;
    status = status;
    final_response = none;
    sdk_items = [];
    input_tokens = pos 0;
    cached_input_tokens = pos 0;
    output_tokens = pos 0;
    duration_seconds = P.float_zero;
    changed_paths = [];
    verification = [];
    confidence = P.float_zero;
    escalation_requested = false;
    error = some message;
  }

unfoldable pub waiting_status : Result Bool → Result RunStatus
waiting_status (err e) = err e
waiting_status (ok true) = ok RunStatus.awaiting_approval
waiting_status (ok false) = ok RunStatus.planned

module _ {P : Platform} where
  -- `any(item.id not in results and routes[item.id].approval.value == "required" for item in items)`
  unfoldable pub any_waits : RunState P → List (WorkItem P) → Result Bool
  any_waits state [] = ok false
  any_waits state (item ∷ items) =
      let rest = any_waits state items in
      if Dict.has state.results item.id then rest else elim (Dict.get state.routes item.id) [
        | none ↦ err key_error
        | some route ↦ (if is_required route.approval then ok true else rest)
      ]

  unfoldable pub final_status : RunState P → Result RunStatus
  unfolding waiting_status
  final_status state =
      let results = values state.results in
      if any (λ (r : WorkResult P). is_failed r.status) results
      then ok RunStatus.failed
      else if any (λ (r : WorkResult P). is_blocked r.status) results
      then ok RunStatus.blocked
      else if eqb (length state.results) (length state.work_items)
          && all (λ (r : WorkResult P). is_succeeded r.status) results
      then ok RunStatus.completed
      else waiting_status (any_waits state (values state.work_items))
