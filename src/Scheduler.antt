-- ===== src/Scheduler.antt =====
-- src/goalrouter/scheduler.py: `WorkScheduler.run_ready`. The mutated run state and the effects are
-- threaded by the actions of Scheduler/Effects. `max_read_concurrency` is the argument `limit`, and
-- the approval service comes with its parameter `digest`.
pub mod Effects
pub mod Status
pub mod Dispatch
pub mod Completion
pub mod Lease
pub mod Ready
pub mod Steps
pub mod Pending
pub mod Refinement
use goal_router.Common.{
  ℕ, zero, suc, Bool, true, false, ◌&&◌, List, [], ◌∷◌, String, if◌then◌else◌, length, take, filter,
}
use goal_router.Common.Integers.{ℤ, pos}
use goal_router.Errors.{Result, ok, err, configuration_error}
use goal_router.Domain.Platform.{Platform}
use goal_router.Domain.Json.{JsonValue}
use goal_router.Domain.Enums.{RunStatus}
use goal_router.Domain.WorkItem.{WorkItem}
use goal_router.Domain.RunState.{RunState}
use goal_router.Approvals.{require_dispatchable}
use goal_router.Scheduler.Effects.{
  Effect, Environment, Action, pure, lift, gets, modify, perform, ◌>>=◌, ◌>>◌, try_finally,
}
use goal_router.Scheduler.Status.{
  is_pre_writer, is_write, same_status, pending_items, newly_blocked, is_ready, final_status,
}
use goal_router.Scheduler.Dispatch.{
  save, persist_result, persist_all, run_one, run_read_batch, block_items,
}

-- no exception
abbrev pub passed : {A : Type 0} → Result A → Bool
passed (ok a) = true
passed (err e) = false

module _ {P : Platform} (digest : JsonValue P → String) where
  unfoldable pub may_dispatch : RunState P → WorkItem P → Bool
  may_dispatch state item = passed (require_dispatchable digest state item.id)

  unfoldable pub dispatchable : RunState P → List (WorkItem P)
  dispatchable state =
      filter (λ (item : WorkItem P). is_ready state item && may_dispatch state item)
        (pending_items state)

module _ {P : Platform} (env : Environment P) (digest : JsonValue P → String) where
  unfoldable pub normalize : Action P (Unit {0})
  normalize w =
      (if is_pre_writer w.state.status
          then (do modify (λ s. record s { status = RunStatus.planned }); save env)
          else pure tt)
        w

  unfoldable pub with_lease : WorkItem P → Action P (Unit {0})
  with_lease item = do
    (λ w. lift (require_dispatchable digest w.state item.id) w)
    modify (λ s. record s { status = RunStatus.running })
    result ← run_one env item
    persist_result env result

  unfoldable pub run_writer : WorkItem P → Action P (Unit {0})
  unfolding normalize with_lease
  run_writer item = do
    normalize
    path ← gets (λ s. s.objective.project_path)
    perform (λ w. Effect.acquire path) env.acquire
    try_finally (with_lease item) (perform (λ w. Effect.release path) env.release)

  unfoldable pub run_readers : ℕ → List (WorkItem P) → Action P (Unit {0})
  unfolding persist_all
  run_readers max_read_concurrency ready = do
    modify (λ s. record s { status = RunStatus.running })
    results ← run_read_batch env (take max_read_concurrency ready)
    persist_all env results

  unfoldable pub run_batch : ℕ → List (WorkItem P) → List (WorkItem P) → Action P (Unit {0})
  unfolding run_writer run_readers
  run_batch limit ready [] = run_readers limit ready
  run_batch limit ready (writer ∷ _) = run_writer writer

  unfoldable pub go_on : ℕ → List (WorkItem P) → Action P Bool
  unfolding run_batch
  go_on limit [] = pure false
  go_on limit ready = do
    run_batch limit ready (filter (λ (item : WorkItem P). is_write item.access) ready)
    pure true

  -- One turn of the loop: `true` if it goes on, `false` for `break`.
  unfoldable pub turn : ℕ → Action P Bool
  unfolding go_on block_items
  turn limit = do
    blocked ← gets newly_blocked
    block_items env blocked
    ready ← gets (dispatchable digest)
    go_on limit ready

  unfoldable pub set_status : RunStatus → Action P (Unit {0})
  set_status status w =
      (if same_status w.state.status status
          then pure tt
          else (do modify (λ s. record s { status = status }); save env))
        w

  unfoldable pub finish : Action P (Unit {0})
  unfolding set_status
  finish = do status ← (λ w. lift (final_status w.state) w); set_status status

  unfoldable pub rounds : ℕ → ℕ → Action P (Unit {0})
  rounds limit zero = finish
  rounds limit (suc n) = do more ← turn limit; if more then rounds limit n else finish

  unfoldable pub run_ready : ℕ → Action P (Unit {0})
  run_ready limit w = rounds limit (length w.state.work_items) w

-- `__init__`
unfoldable pub scheduler : ℤ → Result ℕ
scheduler (pos (suc n)) = ok (suc n)
scheduler _ = err configuration_error
