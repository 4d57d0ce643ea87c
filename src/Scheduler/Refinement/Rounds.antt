-- ===== src/Scheduler/Refinement/Rounds.antt =====
-- scheduler.py: a turn of the loop and the whole of `run_ready`, each as a sequence of the steps of
-- Scheduler/Steps.
use mathlib.Core.Path.{subst}
use goal_router.Common.{
  ℕ, zero, suc, String, Bool, true, false, List, [], ◌∷◌, ◌≡◌, refl, sym, ap, inl, inr, Bool-cases,
  if◌then◌else◌, filter,
}
use goal_router.Common.Distinct.{labels, All-map}
use goal_router.Domain.Platform.{Platform}
use goal_router.Domain.Json.{JsonValue}
use goal_router.Domain.Enums.{RunStatus, WorkStatus}
use goal_router.Domain.WorkItem.{WorkItem}
use goal_router.Domain.WorkResult.{WorkResult}
use goal_router.Scheduler.{
  dispatchable, run_batch, go_on, turn, set_status, finish, rounds, run_ready,
}
use goal_router.Scheduler.Effects.{Environment, World, Action, ◌>>◌, pure}
use goal_router.Scheduler.Status.{
  is_write, same_status, failure_result, newly_blocked, final_status,
}
use goal_router.Scheduler.Dispatch.{persist_result, persist_all, block_items}
use goal_router.Scheduler.Lease.{Result-cases}
use goal_router.Scheduler.Pending.{
  item_id, IsWellFormed, AreTasks, newly_blocked-AreTasks, dispatchable-AreTasks,
}
use goal_router.Scheduler.Steps.{Reach, Reach-trans, set, here, next}
use goal_router.Scheduler.Steps.Safety.{Reach-Keeps}
use goal_router.Scheduler.Refinement.{
  result_id, with_status, IsReady, bind-Reach, save-Reach, persist_all-Reach,
}
use goal_router.Scheduler.Refinement.Batches.{tasks-ArePending, run_batch-Reach}

module _ {P : Platform} (env : Environment P) (digest : JsonValue P → String) where
  go_on-Reach :
      (limit : ℕ) (ready : List (WorkItem P)) (w : World P)
      → AreTasks w.state (IsReady digest w.state) ready
      → Reach env digest w (go_on env digest limit ready w).1
  unfolding go_on
  go_on-Reach limit [] w h = here
  go_on-Reach limit (item ∷ items) w h =
      bind-Reach env digest
        (run_batch env digest limit (item ∷ items)
          (filter (λ (i : WorkItem P). is_write i.access) (item ∷ items)))
        (λ _. pure true) w (run_batch-Reach env digest limit (item ∷ items) _ w h refl)
        (λ a e. here)

  blocked_results : List (WorkItem P) → List (WorkResult P)
  blocked_results [] = []
  blocked_results (item ∷ items) =
      failure_result item WorkStatus.blocked "A dependency did not succeed" ∷ blocked_results items

  block_items-persist_all :
      (items : List (WorkItem P)) → block_items env items ≡ persist_all env (blocked_results items)
  unfolding block_items persist_all blocked_results
  block_items-persist_all [] = refl
  block_items-persist_all (item ∷ items) =
      ap
        (λ (m : Action P (Unit {0})).
          persist_result env (failure_result item WorkStatus.blocked "A dependency did not succeed")
          >> m)
        (block_items-persist_all items)

  blocked_results-ids :
      (items : List (WorkItem P)) → labels result_id (blocked_results items) ≡ labels item_id items
  unfolding blocked_results failure_result
  blocked_results-ids [] = refl
  blocked_results-ids (item ∷ items) = ap (λ r. item.id ∷ r) (blocked_results-ids items)

  block_items-Reach :
      (items : List (WorkItem P)) (w : World P)
      → AreTasks w.state (λ _. Unit {0}) items
      → Reach env digest w (block_items env items w).1
  block_items-Reach items w h = rw (block_items-persist_all items) (
      persist_all-Reach env digest (blocked_results items) w
        (rw (blocked_results-ids items) h.distinct)
        (rw (blocked_results-ids items) (tasks-ArePending w.state (λ _. Unit {0}) items h.tasks)))

  keep-IsWellFormed :
      (w u : World P)
      → Reach env digest w u
      → IsWellFormed w.state.work_items
      → IsWellFormed u.state.work_items
  keep-IsWellFormed w u r h = subst IsWellFormed (sym (Reach-Keeps env digest r).work_items) h

  turn-Reach :
      (limit : ℕ) (w : World P)
      → IsWellFormed w.state.work_items
      → Reach env digest w (turn env digest limit w).1
  unfolding turn
  turn-Reach limit w h =
      let blocks = block_items-Reach (newly_blocked w.state) w (newly_blocked-AreTasks w.state h) in
      bind-Reach env digest (block_items env (newly_blocked w.state)) _ w blocks (λ a e.
        let u = (block_items env (newly_blocked w.state) w).1 in
        let tasks = dispatchable-AreTasks u.state (keep-IsWellFormed w u blocks h) digest in
        go_on-Reach limit (dispatchable digest u.state) u (record {
          distinct = tasks.distinct;
          tasks =
              All-map (IsReady digest u.state) _ (λ i q. (q.0, q)) (dispatchable digest u.state)
                tasks.tasks;
        }))

  set_status-Reach :
      (x : RunStatus) (w : World P) → Reach env digest w (set_status env digest x w).1
  unfolding set_status
  set_status-Reach x w = elim (Bool-cases (same_status w.state.status x)) [
    | inl e ↦ rw e here
    | inr e ↦ rw e (
        Reach-trans env digest (next here (set x refl))
          (save-Reach env digest (record w { state = with_status w.state x })))
  ]

  finish-Reach : (w : World P) → Reach env digest w (finish env digest w).1
  unfolding finish
  finish-Reach w = elim (Result-cases (final_status w.state)) [
    | inl (e, h) ↦ rw h here
    | inr (x, h) ↦ rw h (set_status-Reach x w)
  ]

  go_round :
      (more : Bool) (yes_ no_ : Action P (Unit {0})) (w : World P)
      → Reach env digest w (yes_ w).1
      → Reach env digest w (no_ w).1
      → Reach env digest w ((if more then yes_ else no_) w).1
  go_round true yes_ no_ w h k = h
  go_round false yes_ no_ w h k = k

  rounds-Reach :
      (limit n : ℕ) (w : World P)
      → IsWellFormed w.state.work_items
      → Reach env digest w (rounds env digest limit n w).1
  unfolding rounds
  rounds-Reach limit zero w h = finish-Reach w
  rounds-Reach limit (suc n) w h =
      let first = turn-Reach limit w h in
      let u = (turn env digest limit w).1 in
      bind-Reach env digest (turn env digest limit)
        (λ more. if more then rounds env digest limit n else finish env digest) w first
        (λ more e.
          go_round more (rounds env digest limit n) (finish env digest) u
            (rounds-Reach limit n u (keep-IsWellFormed w u first h)) (finish-Reach u))

  -- Every run of `run_ready` is a sequence of the steps that the scheduler may take, also when it
  -- raises, from a state whose work items are stored under their identifiers, each once.
  pub run_ready-Reach :
      (limit : ℕ) (w : World P)
      → IsWellFormed w.state.work_items
      → Reach env digest w (run_ready env digest limit w).1
  unfolding run_ready
  run_ready-Reach limit w h = rounds-Reach limit _ w h
