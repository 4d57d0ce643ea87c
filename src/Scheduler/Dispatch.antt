-- ===== src/Scheduler/Dispatch.antt =====
-- src/goalrouter/scheduler.py: the calls of the Codex client for one item and for a batch, and how
-- results are recorded.
use Prim.Native.String
use goal_router.Common.{ℕ, ◌+◌, String, Option, none, some, List, [], ◌∷◌, map, if◌then◌else◌}
use goal_router.Common.Strings.{join}
use goal_router.Common.Dict
use goal_router.Errors.{Result, ok, err, cancelled_error, key_error}
use goal_router.Domain.Platform.{Platform}
use goal_router.Domain.Json.{str}
use goal_router.Domain.FilePath
use goal_router.Domain.Enums.{WorkStatus, value, work_status_enum}
use goal_router.Domain.InstructionFile.{InstructionFile}
use goal_router.Domain.WorkItem.{WorkItem}
use goal_router.Domain.WorkResult.{WorkResult}
use goal_router.Domain.RouteDecision.{RouteDecision}
use goal_router.Domain.RunState.{RunState, RunEvent, run_id}
use goal_router.Scheduler.Effects.{
  Request, run_new_thread, resume_thread, Outcome, returned, raised, cancelled, Effect, Environment,
  History, World, Action, pure, raise, modify, perform, ◌>>◌,
}
use goal_router.Scheduler.Status.{failure_result}

infixr 66 ◌⋅◌
abbrev ◌⋅◌ : String → String → String
s ⋅ t = String.◌++◌ s t

unfoldable pub instruction_section : InstructionFile → String
instruction_section f =
    "Repository instructions from " ⋅ FilePath.to_text f.path ⋅ ":\n" ⋅ f.content

module _ {P : Platform} where
  unfoldable pub developer_instructions : RunState P → String
  unfolding instruction_section
  developer_instructions state = join "\n\n" (
      "Respect the declared sandbox and make only the bounded change described by the work item."
      ∷ map instruction_section state.repository.instruction_files)

  unfoldable pub previous_thread : Option (WorkResult P) → Option String
  previous_thread none = none
  previous_thread (some r) = r.thread_id

  unfoldable pub request_for : RunState P → WorkItem P → Option String → RouteDecision → Request
  unfolding developer_instructions
  request_for state item (some thread_id) route =
      resume_thread thread_id state.objective.project_path route item.instructions
  request_for state item none route =
      run_new_thread state.objective.project_path route item.instructions
        (developer_instructions state)

  unfoldable pub with_route :
      RunState P → WorkItem P → Option String → Option RouteDecision → Result Request
  unfolding request_for
  with_route state item thread none = err key_error
  with_route state item thread (some route) = ok (request_for state item thread route)

  -- The call that `_dispatch` makes for the item.
  unfoldable pub dispatch_request : RunState P → WorkItem P → Result Request
  unfolding with_route previous_thread
  dispatch_request state item =
      with_route state item (previous_thread (Dict.get state.results item.id))
        (Dict.get state.routes item.id)

module _ {P : Platform} (env : Environment P) where
  unfoldable pub save : Action P (Unit {0})
  save = perform (λ w. Effect.save w.state) env.save

  unfoldable pub append_event : RunEvent P → Action P (Unit {0})
  append_event event = perform (λ w. Effect.append_event (run_id w.state) event) env.append_event

  unfoldable pub persist_result : WorkResult P → Action P (Unit {0})
  unfolding save append_event
  persist_result result = do
    modify (λ s. record s { results = Dict.put s.results result.work_item_id result })
    save
    (λ w.
        append_event
          (record {
            timestamp = env.now w.log;
            event = "work-item-finished";
            work_item_id = some result.work_item_id;
            details = ("status", str (value result.status)) ∷ [];
          })
          w)

  unfoldable pub persist_all : List (WorkResult P) → Action P (Unit {0})
  persist_all [] = pure tt
  persist_all (result ∷ rest) = do persist_result result; persist_all rest

  -- the text of an exception makes a failed result; CancelledError is none of `Exception`
  unfoldable pub settle : WorkItem P → Outcome P → Result (WorkResult P)
  unfolding failure_result
  settle item (returned r) = ok (record r { work_item_id = item.id })
  settle item (raised text) = ok (failure_result item WorkStatus.failed text)
  settle item cancelled = err cancelled_error

  unfoldable pub answer_one : WorkItem P → Result Request → Action P (WorkResult P)
  unfolding settle failure_result
  answer_one item (err e) w = pure (failure_result item WorkStatus.failed (env.describe e)) w
  answer_one item (ok request) w =
      let log = Effect.call w.state item request ∷ w.log in
      (settle item (env.answer log), record w { log = log })

  unfoldable pub run_one : WorkItem P → Action P (WorkResult P)
  unfolding answer_one dispatch_request
  run_one item w = answer_one item (dispatch_request w.state item) w

  -- the effect of one task's start
  unfoldable pub calls : RunState P → WorkItem P → Result Request → History P → History P
  calls state item (ok request) log = Effect.call state item request ∷ log
  calls state item (err e) log = log

  unfoldable pub executed : WorkItem P → Result Request → Outcome P → WorkResult P
  unfolding failure_result
  executed item (err e) outcome = failure_result item WorkStatus.failed (env.describe e)
  executed item (ok request) (returned r) = record r { work_item_id = item.id }
  executed item (ok request) (raised text) = failure_result item WorkStatus.failed text
  executed item (ok request) cancelled =
      failure_result item WorkStatus.failed "Cancelled because a sibling task failed"

  -- The tasks of a batch make their calls in the order of the items, before any of them ends.
  unfoldable pub start_batch : List (WorkItem P) → Action P (Unit {0})
  unfolding dispatch_request
  start_batch [] w = pure tt w
  start_batch (item ∷ items) w =
      start_batch items
        (record w { log = calls w.state item (dispatch_request w.state item) w.log })

  -- what `execute` leaves in `results` for the item at this place of the batch
  unfoldable pub execute : ℕ → WorkItem P → World P → WorkResult P
  execute place item w = executed item (dispatch_request w.state item) (env.batch w.log place)

  unfoldable pub executed_batch : ℕ → List (WorkItem P) → World P → List (WorkResult P)
  executed_batch place [] w = []
  executed_batch place (item ∷ items) w = execute place item w ∷ executed_batch (place + 1) items w

  -- A cancellation of the scheduler itself passes through the task group.
  unfoldable pub run_read_batch : List (WorkItem P) → Action P (List (WorkResult P))
  unfolding start_batch executed_batch
  run_read_batch items = do
    start_batch items
    (λ w.
        if env.interrupted w.log
        then raise cancelled_error w
        else pure (executed_batch 0 items w) w)

  unfoldable pub block_items : List (WorkItem P) → Action P (Unit {0})
  unfolding failure_result
  block_items [] = pure tt
  block_items (item ∷ items) = do
    persist_result (failure_result item WorkStatus.blocked "A dependency did not succeed")
    block_items items
