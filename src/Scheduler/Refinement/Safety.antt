-- ===== src/Scheduler/Refinement/Safety.antt =====
-- scheduler.py: what follows for `run_ready` from the steps that it is made of.
use goal_router.Domain.Platform.{Platform}
use goal_router.Domain.Json.{JsonValue}
use goal_router.Common.{ℕ, String}
use goal_router.Scheduler.{run_ready}
use goal_router.Scheduler.Effects.{Environment, World}
use goal_router.Scheduler.Pending.{IsWellFormed}
use goal_router.Scheduler.Steps.Safety.{IsSafe, Keeps, Reach-IsSafe, Reach-Keeps}
use goal_router.Scheduler.Refinement.Rounds.{run_ready-Reach}

module _ {P : Platform} (env : Environment P) (digest : JsonValue P → String) (limit : ℕ)
    (w : World P) (h : IsWellFormed w.state.work_items) where
  pub run_ready-IsSafe :
      IsSafe env digest w.log → IsSafe env digest (run_ready env digest limit w).1.log
  run_ready-IsSafe safe = Reach-IsSafe env digest (run_ready-Reach env digest limit w h) safe

  -- Whether it returns or raises, `run_ready` keeps every result that is not to be resumed, and changes
  -- nothing of the state but results and the status, if the work items are stored under their
  -- identifiers, each once.
  pub run_ready-Keeps : Keeps env digest w.state (run_ready env digest limit w).1.state
  run_ready-Keeps = Reach-Keeps env digest (run_ready-Reach env digest limit w h)
