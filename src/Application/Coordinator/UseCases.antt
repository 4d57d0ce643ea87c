-- ===== src/Application/Coordinator/UseCases.antt =====
-- application.py: the use cases of `GoalRouterApplication`, one after another.
use goal_router.Common.{String, true, false, Option, List, [], ◌∷◌, ◌≡◌, refl}
use goal_router.Errors.{Result, ok, err}
use goal_router.Domain.Platform.{Platform}
use goal_router.Domain.FilePath.{FilePath}
use goal_router.Domain.RunState.{RunState}
use goal_router.Application.{explicit_item}
use goal_router.Routing.{validate_models}
use goal_router.Application.Ports.{Effect, Log, Ports, Action, continue, ◌>>=◌}
use goal_router.Application.Operations.{Parts, validate_model_inventory}
use goal_router.Application.Coordinator.{
  plan_objective_unlocked, selected_run_id, with_selected_run, plan_objective, run_task,
  continue_run, run_objective, load_run, approve, resume, status, report, models, route_task,
}
use goal_router.Application.Coordinator.UseCase.{UseCase}
use goal_router.Application.Coordinator.Guard.{is_held, AreGuarded, Does, Does->>=, Does-map}
use goal_router.Application.Coordinator.Lease.{Closed, with_run_lease-Closed, with_run_lease-value}
use goal_router.Application.Coordinator.NewRun.{IsNewRun, plan_objective_unlocked-Does}
use goal_router.Application.Coordinator.Guarded.{run_task_unlocked-Does}
use goal_router.Application.Coordinator.Continued.{continue_run-Does, HasProgressed}
use goal_router.Application.Coordinator.Resumed.{
  IsStored, approve_unlocked-Does, resume_unlocked-Does, report_unlocked-Does,
}

module _ {P : Platform} (parts : Parts P) (ports : Ports P) where
  -- the log after a use case, whether it returns or raises
  abbrev pub after : UseCase → Log P → Log P
  after UseCase.models log = (models parts ports log).1
  after (UseCase.route_task task prompt paths) log =
      (route_task parts ports task prompt paths log).1
  after (UseCase.plan_objective path prompt id) log =
      (plan_objective parts ports path prompt id log).1
  after (UseCase.run_task path task prompt paths id) log =
      (run_task parts ports path task prompt paths id log).1
  after (UseCase.run_objective path prompt id) log =
      (run_objective parts ports path prompt id log).1
  after (UseCase.approve id item by) log = (approve parts ports id item by log).1
  after (UseCase.resume id acknowledge) log = (resume parts ports id acknowledge log).1
  after (UseCase.status id) log = (status parts ports id log).1
  after (UseCase.report id) log = (report parts ports id log).1

  -- the log of these use cases, the latest of them first
  abbrev pub log_of : List UseCase → Log P
  log_of [] = []
  log_of (u ∷ earlier) = after u (log_of earlier)

  continue-Closed :
      {A B : Type 0} (r : Result A) (f : A → Action P B) (log : Log P)
      → ((a : A) → Closed parts ports (f a log).1)
      → Closed parts ports log
      → Closed parts ports (continue r f log).1
  continue-Closed (ok a) f log next h = next a
  continue-Closed (err e) f log next h = h

  asked-Closed :
      (log : Log P) → Closed parts ports log → Closed parts ports (Effect.available_models ∷ log)
  unfolding is_held
  asked-Closed log h = record { guarded = (tt, h.guarded); free = h.free }

  loaded-Closed :
      (id : String) (log : Log P)
      → Closed parts ports log
      → Closed parts ports (Effect.load id ∷ log)
  unfolding is_held
  loaded-Closed id log h = record { guarded = (tt, h.guarded); free = h.free }

  validate_model_inventory-Closed :
      (log : Log P)
      → Closed parts ports log
      → Closed parts ports (validate_model_inventory parts ports log).1
  unfolding validate_model_inventory
  validate_model_inventory-Closed log h =
      continue-Closed (ports.available_models (Effect.available_models ∷ log)) _ _
        (λ found. asked-Closed log h) (asked-Closed log h)

  -- the objective of a new run, and what was done with it
  abbrev pub IsRunOf : String → String → RunState P → Type 0
  IsRunOf prompt id final =
      (start : RunState P) × IsNewRun parts prompt id start
      × HasProgressed parts ports id start final

  run_objective_unlocked-Does :
      (path : FilePath) (prompt id : String)
      → Does parts ports id false
          (plan_objective_unlocked parts ports path prompt id >>= continue_run parts ports)
          true
          (IsRunOf prompt id)
  run_objective_unlocked-Does path prompt id =
      Does->>= parts ports id _ (continue_run parts ports)
        (plan_objective_unlocked-Does parts ports id path prompt)
        (λ start new.
          Does-map parts ports id (continue_run parts ports start)
            (λ final done. (start, new, done)) (continue_run-Does parts ports id start new.ready))

  step-Closed :
      (stored : IsStored ports) (u : UseCase) (log : Log P)
      → Closed parts ports log
      → Closed parts ports (after u log)
  unfolding models route_task plan_objective run_task run_objective approve resume status report
      with_selected_run load_run
  step-Closed stored UseCase.models log h =
      continue-Closed (ports.available_models (Effect.available_models ∷ log)) _ _
        (λ found.
          continue-Closed (validate_models parts.config found) _ _ (λ _. asked-Closed log h)
            (asked-Closed log h))
        (asked-Closed log h)
  step-Closed stored (UseCase.route_task task prompt paths) log h =
      let asked = validate_model_inventory-Closed log h in
      continue-Closed (validate_model_inventory parts ports log).0 _ _
        (λ _.
          continue-Closed (explicit_item {P = P} parts.config task prompt paths) _ _ (λ _. asked)
            asked)
        asked
  step-Closed stored (UseCase.plan_objective path prompt id) log h =
      with_run_lease-Closed parts ports _ _ log h.guarded
        (plan_objective_unlocked-Does parts ports (selected_run_id parts ports id log) path prompt)
  step-Closed stored (UseCase.run_task path task prompt paths id) log h =
      with_run_lease-Closed parts ports _ _ log h.guarded (
        run_task_unlocked-Does parts ports (selected_run_id parts ports id log) path task prompt
          paths)
  step-Closed stored (UseCase.run_objective path prompt id) log h =
      with_run_lease-Closed parts ports _ _ log h.guarded
        (run_objective_unlocked-Does path prompt (selected_run_id parts ports id log))
  step-Closed stored (UseCase.approve id item by) log h =
      with_run_lease-Closed parts ports _ _ log h.guarded
        (approve_unlocked-Does parts ports id stored item by)
  step-Closed stored (UseCase.resume id acknowledge) log h =
      with_run_lease-Closed parts ports _ _ log h.guarded
        (resume_unlocked-Does parts ports id stored acknowledge)
  step-Closed stored (UseCase.status id) log h =
      continue-Closed (ports.load (Effect.load id ∷ log)) _ _ (λ state. loaded-Closed id log h)
        (loaded-Closed id log h)
  step-Closed stored (UseCase.report id) log h =
      with_run_lease-Closed parts ports _ _ log h.guarded
        (report_unlocked-Does parts ports id stored)

  -- Whichever use cases were run one after another, and whether they returned or raised, each effect was
  -- begun under its conditions: the planner, the scheduler and every write of the store only for a run
  -- whose lease was held, and a lease given back only while held; the planner, the scheduler and the
  -- creation of a run only after the models of the configuration were found available under that lease;
  -- the scheduler only on a state with the digest of the present configuration, and then with a safe
  -- history; and every state that is created, saved or scheduled has its work items under their
  -- identifiers, each once. No lease is left held. The store is taken to load the run that is asked for,
  -- with its work items under their identifiers.
  pub use_cases-Closed :
      (stored : IsStored ports) (calls : List UseCase) → Closed parts ports (log_of calls)
  unfolding is_held
  use_cases-Closed stored [] = record { guarded = tt; free = λ run. refl }
  use_cases-Closed stored (u ∷ earlier) =
      step-Closed stored u (log_of earlier) (use_cases-Closed stored earlier)

  -- If `plan_objective` returns, from a guarded log, the state is that of a new run of the prompt
  -- under the selected identifier: an accepted plan without the completion review, all planned, each
  -- item with the route that the configuration gives it, and no result and no approval.
  pub plan_objective-IsNewRun :
      (path : FilePath) (prompt : String) (id : Option String) (log : Log P) (state : RunState P)
      → AreGuarded parts ports log
      → (plan_objective parts ports path prompt id log).0 ≡ ok state
      → IsNewRun parts prompt (selected_run_id parts ports id log) state
  unfolding plan_objective with_selected_run
  plan_objective-IsNewRun path prompt id log state guarded h =
      with_run_lease-value parts ports _ _ log state guarded
        (plan_objective_unlocked-Does parts ports (selected_run_id parts ports id log) path prompt)
        h

  -- If `run_objective` returns, from a guarded log, its state comes from a new run of the prompt under the
  -- selected identifier: it has the objective of that run, with the prompt and the identifier, and no
  -- approval; and the work items and routes of that run, or these and the completion review. The review
  -- is then read-only, after every item, on the route that the configuration gives it, and every item of
  -- the plan has succeeded.
  pub run_objective-IsRunOf :
      (path : FilePath) (prompt : String) (id : Option String) (log : Log P) (final : RunState P)
      → AreGuarded parts ports log
      → (run_objective parts ports path prompt id log).0 ≡ ok final
      → IsRunOf prompt (selected_run_id parts ports id log) final
  unfolding run_objective with_selected_run
  run_objective-IsRunOf path prompt id log final guarded h =
      with_run_lease-value parts ports _ _ log final guarded
        (run_objective_unlocked-Does path prompt (selected_run_id parts ports id log)) h
