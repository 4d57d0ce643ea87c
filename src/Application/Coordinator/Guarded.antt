-- ===== src/Application/Coordinator/Guarded.antt =====
-- application.py: every use case, with its lease and its order of effects.
use goal_router.Common.{
  String, Option, Bool, true, false, none, some, List, [], ◌∷◌, ◌≡◌, refl, sym, ap, ◌∙◌,
}
use mathlib.Core.Path.{subst}
use goal_router.Common.Strings.{contains}
use goal_router.Errors.{Result, ok, err}
use goal_router.Domain.Platform.{Platform}
use goal_router.Domain.FilePath.{FilePath}
use goal_router.Domain.Objective.{Objective}
use goal_router.Domain.WorkItem.{WorkItem}
use goal_router.Domain.RunState.{RunState}
use goal_router.Scheduler.Pending.{IsWellFormed}
use goal_router.Application.{objective_of, explicit_item}
use goal_router.Application.Ports.{Effect, Log, Ports, pure, lift, perform, ◌>>=◌, ◌>>◌}
use goal_router.Application.Operations.{
  Parts, event, write_report, run_scheduler, new_objective, initial,
}
use goal_router.Application.Coordinator.{run_task_unlocked}
use goal_router.Application.Coordinator.Guard.{
  is_held, is_validated, held_as, Does, After, Does->>=, Does-pure, Does-lift, Does-perform,
}
use goal_router.Application.Coordinator.Stages.{
  Anything, HasRun, IsReady, validate_model_inventory-Does, event-Does, write_report-Does,
  run_scheduler-Does,
}

module _ {P : Platform} (parts : Parts P) (ports : Ports P) (run : String) where
  pub inspect-Does :
      {v : Bool} (path : FilePath)
      → Does parts ports run v (perform (Effect.inspect path) ports.inspect) v Anything
  unfolding is_held is_validated
  inspect-Does path =
      Does-perform parts ports run _ ports.inspect (λ l. (refl, refl)) (λ l i. tt) (λ a l h. tt)

  create-Does :
      (state : RunState P)
      → state.objective.id ≡ run
      → IsWellFormed state.work_items
      → Does parts ports run true (perform (Effect.create state) ports.create) true Anything
  unfolding is_held is_validated
  create-Does state own formed =
      Does-perform parts ports run _ ports.create (λ l. (refl, refl))
        (λ l i. (held_as parts ports run state.objective.id own i, i.models refl, formed))
        (λ a l h. tt)

  pub save-Does :
      {v : Bool} (state : RunState P)
      → state.objective.id ≡ run
      → IsWellFormed state.work_items
      → Does parts ports run v (perform (Effect.save state) ports.save) v Anything
  unfolding is_held is_validated
  save-Does state own formed =
      Does-perform parts ports run _ ports.save (λ l. (refl, refl))
        (λ l i. (held_as parts ports run state.objective.id own i, formed)) (λ a l h. tt)

  -- An objective with this text, this task and this run's identifier.
  abbrev pub IsObjective : String → Option String → String → Objective P → Type 0
  IsObjective prompt task id objective =
      (objective.prompt ≡ prompt) × (objective.id ≡ id) × (objective.explicit_task ≡ task)

  pub new_objective-Does :
      {v : Bool} (path : FilePath) (prompt : String) (task : Option String) (id : String)
      → Does parts ports run v
          (new_objective parts ports path prompt task id)
          v
          (IsObjective prompt task id)
  unfolding new_objective objective_of
  new_objective-Does path prompt task id = record {
    leaves = λ log inside. ((refl, refl, refl), inside);
  }

  pub untold-Does :
      {A : Type 0} {v : Bool} (r : Result A) → Does parts ports run v (lift r) v Anything
  untold-Does r = Does-lift parts ports run r (λ a h. tt)

  -- the end of a new run's first stage
  -- a computation without effects, with the equation for its value
  pub known-Does :
      {A : Type 0} {v : Bool} (r : Result A) → Does parts ports run v (lift r) v (λ a. r ≡ ok a)
  known-Does r = Does-lift parts ports run r (λ a h. h)

  pub recorded-Does :
      (state : RunState P) (name : String) (Q : RunState P → Type 0)
      → state.objective.id ≡ run
      → IsWellFormed state.work_items
      → Q state
      → Does parts ports run true
          (perform (Effect.create state) ports.create
            >> (event parts ports state name none [] >> pure state))
          true
          Q
  recorded-Does state name Q own formed q =
      Does->>= parts ports run _ _ (create-Does state own formed) (λ _ _.
        Does->>= parts ports run _ _ (event-Does parts ports run state name none [] own)
          (λ _ _. Does-pure parts ports run state q))

  pub reported-Does :
      {v : Bool} (state : RunState P) (Q : RunState P → Type 0)
      → state.objective.id ≡ run
      → Q state
      → Does parts ports run v (write_report parts ports state >> pure state) v Q
  reported-Does state Q own q =
      Does->>= parts ports run _ _ (write_report-Does parts ports run state own)
        (λ _ _. Does-pure parts ports run state q)

  ran-IsReady :
      (state s : RunState P) → IsReady parts run state → HasRun state s → IsReady parts run s
  ran-IsReady state s ready ran = record {
    id = ap (λ o. o.id) ran.objective ∙ ready.id;
    formed = subst IsWellFormed (sym ran.work_items) ready.formed;
    current = ran.configuration_digest ∙ ready.current;
  }

  -- a state that may be run again
  abbrev pub HasRunReady : RunState P → RunState P → Type 0
  HasRunReady before after = IsReady parts run after × HasRun before after

  weaken :
      (state : RunState P) (o : Result (RunState P) × Log P)
      → IsReady parts run state
      → After parts ports run true (HasRun state) o
      → After parts ports run true (HasRunReady state) o
  weaken state (ok s, log) formed (same, inside) = ((ran-IsReady state s formed same, same), inside)
  weaken state (err e, log) formed inside = inside

  single : (item : WorkItem P) → IsWellFormed ((item.id, item) ∷ [])
  unfolding contains
  single item = record { distinct = (refl, tt); keyed = (refl, tt) }

  -- the scheduler keeps the identifiers
  pub scheduled-Does :
      (state : RunState P)
      → IsReady parts run state
      → Does parts ports run true (run_scheduler parts ports state) true (HasRunReady state)
  scheduled-Does state formed = record {
    leaves = λ log inside.
        weaken state (run_scheduler parts ports state log) formed
          ((run_scheduler-Does parts ports run state formed).leaves log inside);
  }

  -- the end of `run_task`, from its first state on
  started-Does :
      (state : RunState P)
      → IsReady parts run state
      → Does parts ports run true
          (perform (Effect.create state) ports.create
            >> (event parts ports state "task-created" none []
                >> (run_scheduler parts ports state >>= λ final.
                    write_report parts ports final >> pure final)))
          true
          (IsReady parts run)
  started-Does state ready =
      Does->>= parts ports run _ _ (create-Does state ready.id ready.formed) (λ _ _.
        Does->>= parts ports run _ _
          (event-Does parts ports run state "task-created" none [] ready.id)
          (λ _ _.
            Does->>= parts ports run _ _ (scheduled-Does state ready)
              (λ final formed'. reported-Does final (IsReady parts run) formed'.0.id formed'.0)))

  pub run_task_unlocked-Does :
      (path : FilePath) (task prompt : String) (paths : List FilePath)
      → Does parts ports run false
          (run_task_unlocked parts ports path task prompt paths run)
          true
          (IsReady parts run)
  unfolding run_task_unlocked
  run_task_unlocked-Does path task prompt paths =
      Does->>= parts ports run _ _ (inspect-Does path) (λ repository _.
        Does->>= parts ports run _ _ (validate_model_inventory-Does parts ports run) (λ _ _.
          Does->>= parts ports run _ _ (untold-Does (explicit_item parts.config task prompt paths))
            (λ made _.
              Does->>= parts ports run _ _
                (new_objective-Does repository.project_path prompt (some task) run)
                (λ objective own.
                  started-Does
                    (initial parts ports objective repository ((made.0.id, made.0) ∷ [])
                      ((made.0.id, made.1) ∷ []))
                    (record { id = own.1; formed = single made.0; current = refl })))))
