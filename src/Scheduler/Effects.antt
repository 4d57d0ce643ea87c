-- ===== src/Scheduler/Effects.antt =====
-- The ports of src/goalrouter/scheduler.py (the Codex client, the run store, the project lease, the
-- clock) as an environment that answers from the history of the run, and the methods as actions that
-- keep the mutated state also when they raise.
use goal_router.Common.{ℕ, String, Bool, List, ◌∷◌}
use goal_router.Errors.{Error, Result, ok, err}
use goal_router.Domain.Platform.{Platform}
use goal_router.Domain.FilePath.{FilePath}
use goal_router.Domain.WorkItem.{WorkItem}
use goal_router.Domain.WorkResult.{WorkResult}
use goal_router.Domain.RouteDecision.{RouteDecision}
use goal_router.Domain.RunState.{RunState, RunEvent}

-- sdk/protocol.py: the two calls that the scheduler makes.
pub data Request : Type 0 where
  run_new_thread :
      (project_path : FilePath) (route : RouteDecision) (prompt developer_instructions : String)
      → Request
  resume_thread :
      (thread_id : String) (project_path : FilePath) (route : RouteDecision) (prompt : String)
      → Request

-- How a call ends: a result, an exception (with the text `Name: message`), or CancelledError.
pub data Outcome (P : Platform) : Type 0 where
  returned : WorkResult P → Outcome P
  raised : String → Outcome P
  cancelled : Outcome P

-- What the scheduler did outside its own memory. A call carries the state in which it was made.
pub data Effect (P : Platform) : Type 0 where
  save : RunState P → Effect P
  append_event : String → RunEvent P → Effect P
  acquire : FilePath → Effect P
  release : FilePath → Effect P
  call : RunState P → WorkItem P → Request → Effect P

abbrev pub History : Platform → Type 0
History P = List (Effect P)

-- The answers of the outside world, given everything that was done so far, the latest first.
pub record Environment (P : Platform) : Type 0 where
  pub save : History P → Result (Unit {0})
  pub append_event : History P → Result (Unit {0})
  pub acquire : History P → Result (Unit {0})
  pub release : History P → Result (Unit {0})
  pub now : History P → P.Datetime
  -- the answer to the call at the head of the history
  pub answer : History P → Outcome P
  -- the ends of a batch of concurrent calls, by the place in the batch; `true` for a cancellation
  -- of the scheduler itself while it waits
  pub batch : History P → ℕ → Outcome P
  pub interrupted : History P → Bool
  -- `f"{type(error).__name__}: {error}"`
  pub describe : Error → String

pub record World (P : Platform) : Type 0 where
  pub state : RunState P
  pub log : History P

abbrev pub Action : Platform → Type 0 → Type 0
Action P A = World P → Result A × World P

module _ {P : Platform} {A : Type 0} where
  abbrev pub pure : A → Action P A
  pure a w = (ok a, w)

  abbrev pub raise : Error → Action P A
  raise e w = (err e, w)

  abbrev pub lift : Result A → Action P A
  lift r w = (r, w)

  -- reads the state
  abbrev pub gets : (RunState P → A) → Action P A
  gets f w = (ok (f w.state), w)

module _ {P : Platform} where
  abbrev pub modify : (RunState P → RunState P) → Action P (Unit {0})
  modify f w = (ok tt, record w { state = f w.state })

  -- does an effect, with the answer of the environment
  abbrev pub perform : {A : Type 0} → (World P → Effect P) → (History P → Result A) → Action P A
  perform effect answer w = let log = effect w ∷ w.log in (answer log, record w { log = log })

module _ {P : Platform} {A B : Type 0} where
  abbrev pub continue : Result A → (A → Action P B) → Action P B
  continue (ok a) f = f a
  continue (err e) f = raise e

  infixl 5 ◌>>=◌ ◌>>◌
  abbrev pub ◌>>=◌ : Action P A → (A → Action P B) → Action P B
  ◌>>=◌ m f w = let (r, w') = m w in continue r f w'

  abbrev pub ◌>>◌ : Action P A → Action P B → Action P B
  m >> n = m >>= λ _. n

module _ {A : Type 0} where
  abbrev pub first_error : Result A → Result (Unit {0}) → Result A
  first_error (err e) c = err e
  first_error (ok a) (ok _) = ok a
  first_error (ok a) (err e) = err e

module _ {P : Platform} {A : Type 0} where
  -- `try: body` / `finally: cleanup`: an error of the body wins over one of the cleanup.
  abbrev pub try_finally : Action P A → Action P (Unit {0}) → Action P A
  try_finally body cleanup w =
      let (r, w') = body w in let (c, w'') = cleanup w' in (first_error r c, w'')
