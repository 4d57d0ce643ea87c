-- ===== src/Application/Ports.antt =====
-- src/goalrouter/application.py: the ports of `GoalRouterApplication` (run lease, inspector, client,
-- planner, store, clock, run ids), answered from the log of what was done, the latest first. A run of
-- the scheduler is one entry of the log, with the history that it leaves.
use goal_router.Common.{String, List, ◌∷◌}
use goal_router.Errors.{Result, ok, err}
use goal_router.Actions
pub use goal_router.Actions.{pure, lift, continue, ◌>>=◌, ◌>>◌}
use goal_router.Domain.Platform.{Platform}
use goal_router.Domain.FilePath.{FilePath}
use goal_router.Domain.RepositoryContext.{RepositoryContext}
use goal_router.Domain.RunState.{RunState, RunEvent}
use goal_router.Planner.Planning.{Turn, Call}
use goal_router.Scheduler.Effects.{History, Environment, first_error}

pub data Effect (P : Platform) : Type 0 where
  acquire : (run_id : String) → Effect P
  release : (run_id : String) → Effect P
  inspect : (project_path : FilePath) → Effect P
  available_models : Effect P
  -- the run of the objective that was planned, and the calls that `plan` made
  planned : (run_id : String) → List Call → Effect P
  create : RunState P → Effect P
  load : (run_id : String) → Effect P
  save : RunState P → Effect P
  append_event : (run_id : String) → RunEvent P → Effect P
  write_report : (run_id content : String) → Effect P
  -- the state given to `run_ready`, and what it did
  scheduled : RunState P → History P → Effect P

abbrev pub Log : Platform → Type 0
Log P = List (Effect P)

pub record Ports (P : Platform) : Type 0 where
  pub acquire : Log P → Result (Unit {0})
  pub release : Log P → Result (Unit {0})
  pub inspect : Log P → Result RepositoryContext
  pub available_models : Log P → Result (List String)
  -- the answers to the planner's calls
  pub turn : Log P → Call → Result Turn
  pub create : Log P → Result (Unit {0})
  pub load : Log P → Result (RunState P)
  pub save : Log P → Result (Unit {0})
  pub append_event : Log P → Result (Unit {0})
  pub write_report : Log P → Result (Unit {0})
  -- the outside world of a run of the scheduler
  pub scheduler : Log P → Environment P
  pub now : Log P → P.Datetime
  pub run_id : Log P → String

abbrev pub Action : Platform → Type 0 → Type 0
Action P A = Actions.Action (Log P) A

module _ {P : Platform} {A : Type 0} where
  -- an effect, with the answer of its port
  abbrev pub perform : Effect P → (Log P → Result A) → Action P A
  perform e answer log = (answer (e ∷ log), e ∷ log)

module _ {P : Platform} (ports : Ports P) {A : Type 0} where
  -- the end of the block: an error of the body wins over one of the release
  unfoldable pub leave : String → Result A × Log P → Result A × Log P
  leave run_id (r, log) =
      let log' = Effect.release run_id ∷ log in (first_error r (ports.release log'), log')

  unfoldable pub enter : String → Action P A → Result (Unit {0}) → Action P A
  unfolding leave
  enter run_id body (err e) log = (err e, log)
  enter run_id body (ok _) log = leave run_id (body log)

  -- `async with self._run_lease.acquire(run_id)`
  unfoldable pub with_run_lease : String → Action P A → Action P A
  unfolding enter
  with_run_lease run_id body log =
      let log' = Effect.acquire run_id ∷ log in enter run_id body (ports.acquire log') log'
