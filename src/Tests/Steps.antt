-- ===== src/Tests/Steps.antt =====
-- The steps of the scheduler at a run of one approved item that writes.
use goal_router.Common.{false, none, some, [], refl}
use goal_router.Common.Integers.{pos}
use goal_router.Common.Strings.{contains}
use goal_router.Errors.{ok}
use goal_router.Domain.Enums.{WorkStatus}
use goal_router.Domain.WorkResult.{WorkResult}
use goal_router.Scheduler.{run_ready}
use goal_router.Scheduler.Effects.{Environment, World, Outcome}
use goal_router.Scheduler.Pending.{IsWellFormed}
use goal_router.Scheduler.Steps.{Reach}
use goal_router.Scheduler.Steps.Safety.{Keeps}
use goal_router.Scheduler.Refinement.Rounds.{run_ready-Reach}
use goal_router.Scheduler.Refinement.Safety.{run_ready-Keeps}
use goal_router.Samples.{platform, approved, digest}

abbrev done : WorkResult platform
done = record {
  work_item_id = "a";
  thread_id = some "t";
  turn_id = none;
  status = WorkStatus.succeeded;
  final_response = some "done";
  sdk_items = [];
  input_tokens = pos 1;
  cached_input_tokens = pos 0;
  output_tokens = pos 1;
  duration_seconds = 2;
  changed_paths = [];
  verification = [];
  confidence = 1;
  escalation_requested = false;
  error = none;
}

-- The lease is given, and every call succeeds.
abbrev pub working : Environment platform
working = record {
  save = λ log. ok tt;
  append_event = λ log. ok tt;
  acquire = λ log. ok tt;
  release = λ log. ok tt;
  now = λ log. "2025-01-03";
  answer = λ log. Outcome.returned done;
  batch = λ log n. Outcome.returned done;
  interrupted = λ log. false;
  describe = λ e. "";
}

abbrev start : World platform
start = record { state = approved; log = [] }

well_formed : IsWellFormed approved.work_items
unfolding contains
well_formed = record { distinct = (refl, tt); keyed = (refl, tt) }

run_ready-Reach_example : Reach working digest start (run_ready working digest 1 start).1
run_ready-Reach_example = run_ready-Reach working digest 1 start well_formed

run_ready-Keeps_example : Keeps working digest approved (run_ready working digest 1 start).1.state
run_ready-Keeps_example = run_ready-Keeps working digest 1 start well_formed
