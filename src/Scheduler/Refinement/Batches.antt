-- ===== src/Scheduler/Refinement/Batches.antt =====
-- scheduler.py: the batches of readers, and a writer alone, as sequences of the steps of
-- Scheduler/Steps.
use mathlib.Core.Path.{subst}
use goal_router.Common.{
  ℕ, ◌+◌, String, true, false, List, [], ◌∷◌, ◌≡◌, refl, sym, ap, ◌∙◌, inl, inr, arith, All,
  Bool-cases, if◌then◌else◌, filter, take,
}
use goal_router.Common.Distinct.{IsDistinct, labels, All-map, All-both, filter-All, filter_empty}
use goal_router.Errors.{Result, ok, err, ok-injective, cancelled_error}
use goal_router.Domain.Platform.{Platform}
use goal_router.Domain.Json.{JsonValue}
use goal_router.Domain.Enums.{RunStatus}
use goal_router.Domain.WorkItem.{WorkItem}
use goal_router.Domain.WorkResult.{WorkResult}
use goal_router.Domain.RunState.{RunState}
use goal_router.Scheduler.{run_readers, run_batch}
use goal_router.Scheduler.Effects.{
  Effect, Environment, World, Action, Request, Outcome, raise, pure,
}
use goal_router.Scheduler.Status.{is_pending, is_write, failure_result}
use goal_router.Scheduler.Dispatch.{
  persist_all, dispatch_request, calls, executed, execute, executed_batch, start_batch,
  run_read_batch,
}
use goal_router.Scheduler.Lease.{Result-cases}
use goal_router.Scheduler.Pending.{item_id, AreTasks, take-AreTasks}
use goal_router.Scheduler.Steps.{Reach, Reach-trans, set, do_effect, here, next}
use goal_router.Scheduler.Refinement.{
  result_id, with_status, ArePending, IsReady, IsReady-with_status, bind-Reach, persist_all-Reach,
  may_call, run_writer-Reach,
}

module _ {P : Platform} where
  pub tasks-ArePending :
      (s : RunState P) (Q : WorkItem P → Type 0) (items : List (WorkItem P))
      → All (λ i. (is_pending s i.id ≡ true) × Q i) items
      → ArePending s (labels item_id items)
  tasks-ArePending s Q [] h = tt
  tasks-ArePending s Q (i ∷ items) ((p, q), h) = (p, tasks-ArePending s Q items h)

module _ {P : Platform} (env : Environment P) (digest : JsonValue P → String) where
  -- A task of a batch: it may be dispatched, and it does not write.
  abbrev pub IsReader : RunState P → WorkItem P → Type 0
  IsReader s item = IsReady digest s item × (is_write item.access ≡ false)

  started : World P → WorkItem P → World P
  started w item = record w { log = calls env w.state item (dispatch_request w.state item) w.log }

  started-Reach :
      (item : WorkItem P) (w : World P)
      → IsReader w.state item
      → Reach env digest w (started w item)
  unfolding started calls
  started-Reach item w (h, reads) = elim (Result-cases (dispatch_request w.state item)) [
    | inl (e, k) ↦ rw k here
    | inr (request, k) ↦ rw k (
        next here (
          do_effect (Effect.call w.state item request)
            (may_call env digest item w request h (λ writes. ground arith) k) refl))
  ]

  start_batch-Reach :
      (items : List (WorkItem P)) (w : World P)
      → All (IsReader w.state) items
      → Reach env digest w (start_batch env items w).1
  unfolding start_batch started
  start_batch-Reach [] w h = here
  start_batch-Reach (item ∷ items) w (q, h) =
      Reach-trans env digest (started-Reach item w q) (start_batch-Reach items (started w item) h)

  start_batch-state :
      (items : List (WorkItem P)) (w : World P) → (start_batch env items w).1.state ≡ w.state
  unfolding start_batch started
  start_batch-state [] w = refl
  start_batch-state (item ∷ items) w = start_batch-state items (started w item)

  executed-id :
      (item : WorkItem P) (request : Result Request) (o : Outcome P)
      → (executed env item request o).work_item_id ≡ item.id
  unfolding executed failure_result
  executed-id item (err e) o = refl
  executed-id item (ok r) (Outcome.returned x) = refl
  executed-id item (ok r) (Outcome.raised text) = refl
  executed-id item (ok r) Outcome.cancelled = refl

  executed_batch-ids :
      (place : ℕ) (items : List (WorkItem P)) (w : World P)
      → labels result_id (executed_batch env place items w) ≡ labels item_id items
  unfolding executed_batch execute
  executed_batch-ids place [] w = refl
  executed_batch-ids place (item ∷ items) w = λ n.
      executed-id item (dispatch_request w.state item) (env.batch w.log place) n
      ∷ executed_batch-ids (place + 1) items w n

  start_batch-ok : (items : List (WorkItem P)) (w : World P) → (start_batch env items w).0 ≡ ok tt
  unfolding start_batch started
  start_batch-ok [] w = refl
  start_batch-ok (item ∷ items) w = start_batch-ok items (started w item)

  -- what follows the start of the tasks
  ended : List (WorkItem P) → Action P (List (WorkResult P))
  ended items w =
      if env.interrupted w.log
      then raise cancelled_error w
      else pure (executed_batch env 0 items w) w

  ended-Reach : (items : List (WorkItem P)) (w : World P) → Reach env digest w (ended items w).1
  unfolding ended
  ended-Reach items w = elim (Bool-cases (env.interrupted w.log)) [
    | inl e ↦ rw e here
    | inr e ↦ rw e here
  ]

  ended-state : (items : List (WorkItem P)) (w : World P) → (ended items w).1.state ≡ w.state
  unfolding ended
  ended-state items w = elim (Bool-cases (env.interrupted w.log)) [
    | inl e ↦ rw e refl
    | inr e ↦ rw e refl
  ]

  ended-ids :
      (items : List (WorkItem P)) (w : World P) (rs : List (WorkResult P))
      → (ended items w).0 ≡ ok rs
      → labels result_id rs ≡ labels item_id items
  unfolding ended
  ended-ids items w rs h = elim (Bool-cases (env.interrupted w.log)) [
    | inl e ↦ absurd (ground arith)
    | inr e ↦
        let h' : ok (executed_batch env 0 items w) ≡ ok rs = rw e at h in
        ap (labels result_id) (sym (ok-injective h')) ∙ executed_batch-ids 0 items w
  ]

  run_read_batch-ended :
      (items : List (WorkItem P)) (w : World P)
      → run_read_batch env items w ≡ ended items (start_batch env items w).1
  unfolding run_read_batch ended
  run_read_batch-ended items w = rw (start_batch-ok items w) refl

  run_read_batch-Reach :
      (items : List (WorkItem P)) (w : World P)
      → All (IsReader w.state) items
      → Reach env digest w (run_read_batch env items w).1
  run_read_batch-Reach items w h =
      rw (run_read_batch-ended items w)
        (Reach-trans env digest (start_batch-Reach items w h) (ended-Reach items _))

  run_read_batch-state :
      (items : List (WorkItem P)) (w : World P) → (run_read_batch env items w).1.state ≡ w.state
  run_read_batch-state items w =
      rw (run_read_batch-ended items w) (ended-state items _ ∙ start_batch-state items w)

  run_read_batch-ids :
      (items : List (WorkItem P)) (w : World P) (rs : List (WorkResult P))
      → (run_read_batch env items w).0 ≡ ok rs
      → labels result_id rs ≡ labels item_id items
  run_read_batch-ids items w rs h =
      ended-ids items _ rs (ap (λ r. r.0) (sym (run_read_batch-ended items w)) ∙ h)

  run_readers-Reach :
      (limit : ℕ) (ready : List (WorkItem P)) (w : World P)
      → AreTasks w.state (λ i. IsReader w.state i) ready
      → Reach env digest w (run_readers env digest limit ready w).1
  unfolding run_readers
  run_readers-Reach limit ready w h =
      let batch = take limit ready in
      let running : World P = record w { state = with_status w.state RunStatus.running } in
      let tasks = take-AreTasks w.state _ ready h limit in
      let readers : All (IsReader running.state) batch =
        All-map (λ i. (is_pending w.state i.id ≡ true) × IsReader w.state i)
          (IsReader running.state)
          (λ i q. (IsReady-with_status digest w.state RunStatus.running i q.1.0, q.1.1)) batch
          tasks.tasks in
      Reach-trans env digest (next here (set RunStatus.running refl)) (
        bind-Reach env digest (run_read_batch env batch) (persist_all env) running
          (run_read_batch-Reach batch running readers)
          (λ rs e.
            let same = run_read_batch-ids batch running rs e in
            persist_all-Reach env digest rs _ (subst IsDistinct (sym same) tasks.distinct) (
              rw (run_read_batch-state batch running, same)
                (tasks-ArePending running.state (λ i. IsReader running.state i) batch
                  (All-map (IsReader running.state) _ (λ i q. (q.0.0, q)) batch readers)))))

  pub run_batch-Reach :
      (limit : ℕ) (ready writers : List (WorkItem P)) (w : World P)
      → AreTasks w.state (IsReady digest w.state) ready
      → filter (λ (i : WorkItem P). is_write i.access) ready ≡ writers
      → Reach env digest w (run_batch env digest limit ready writers w).1
  unfolding run_batch
  run_batch-Reach limit ready [] w h e =
      let readers = filter_empty (λ (i : WorkItem P). is_write i.access) ready e in
      run_readers-Reach limit ready w (record {
        distinct = h.distinct;
        tasks =
            All-map _ (λ i. (is_pending w.state i.id ≡ true) × IsReader w.state i)
              (λ i q. (q.0.0, (q.0.1, q.1))) ready
              (All-both (λ i. (is_pending w.state i.id ≡ true) × IsReady digest w.state i)
                (λ i. is_write i.access ≡ false) ready h.tasks readers);
      })
  run_batch-Reach limit ready (writer ∷ rest) w h e =
      let left =
        filter-All (λ i. (is_pending w.state i.id ≡ true) × IsReady digest w.state i)
          (λ (i : WorkItem P). is_write i.access) ready h.tasks in
      run_writer-Reach env digest writer w
        (subst
          (λ l.
            All
              (λ i.
                ((is_pending w.state i.id ≡ true) × IsReady digest w.state i)
                × (is_write i.access ≡ true))
              l)
          e left).0.0.1
