-- ===== src/Application/Coordinator/Stages.antt =====
-- application.py: what the stages of a use case leave in the log, and the work items they pass on.
use goal_router.Common.{String, Option, Bool, true, false, List, [], ◌∷◌, ◌≡◌, refl}
use goal_router.Common.Dict
use goal_router.Common.Dict.{Dict, keys, of_items-keeps}
use goal_router.Errors.{Result, ok, err}
use goal_router.Domain.Platform.{Platform}
use goal_router.Domain.Json.{JsonValue}
use goal_router.Domain.Objective.{Objective}
use goal_router.Domain.WorkItem.{WorkItem}
use goal_router.Domain.RunState.{RunState}
use goal_router.Routing.{validate_models}
use goal_router.Planner.Planning.{Call}
use goal_router.Scheduler.Steps.Safety.{IsSafe, Keeps}
use goal_router.Planner.Accepted.{IsPlan}
use goal_router.Planner.Outcome.{plan-IsPlan}
use goal_router.Scheduler.{run_ready}
use goal_router.Scheduler.Effects.{World, Environment}
use goal_router.Scheduler.Status.{is_pending}
use goal_router.Scheduler.Pending.{IsWellFormed}
use goal_router.Scheduler.Refinement.Safety.{run_ready-IsSafe, run_ready-Keeps}
use goal_router.Application.Ports.{Effect, Log, Ports, lift, continue}
use goal_router.Application.Operations.{
  Parts, validate_model_inventory, event, write_report, run_scheduler, run_planner,
}
use goal_router.Application.Coordinator.Guard.{
  is_held, is_validated, Inside, held_as, After, Does, Does->>=, Does-pure, Does-lift, Does-perform,
}

-- Nothing is said of the value.
abbrev pub Anything : {A : Type 0} → A → Type 0
Anything a = Unit {0}

-- A state of this run that may be run: its work items are stored under their identifiers, and the
-- configuration is its own.
pub record IsReady {P : Platform} (parts : Parts P) (run : String) (state : RunState P)
    : Type 0 where
  pub id : state.objective.id ≡ run
  pub formed : IsWellFormed state.work_items
  pub current : state.configuration_digest ≡ parts.config.digest

-- A state after a run of the scheduler.
pub record HasRun {P : Platform} (before after : RunState P) : Type 0 where
  pub work_items : after.work_items ≡ before.work_items
  pub configuration_digest : after.configuration_digest ≡ before.configuration_digest
  pub objective : after.objective ≡ before.objective
  pub routes : after.routes ≡ before.routes
  pub approvals : after.approvals ≡ before.approvals
  pub results :
      (id : String)
      → is_pending before id ≡ false
      → Dict.get after.results id ≡ Dict.get before.results id

module _ {P : Platform} (parts : Parts P) (ports : Ports P) (run : String) where
  after_validation :
      {v : Bool} (log : Log P) (models : List String) (r : Result (Unit {0}))
      → Inside parts ports run v log
      → ports.available_models (Effect.available_models ∷ log) ≡ ok models
      → validate_models parts.config models ≡ r
      → After parts ports run true Anything (r, Effect.available_models ∷ log)
  unfolding is_held is_validated
  after_validation log models (err e) inside same found = record {
    guarded = (tt, inside.guarded);
    held = inside.held;
    models = λ x. cc;
  }
  after_validation log models' (ok _) inside same found = (
    tt,
    record {
      guarded = (tt, inside.guarded);
      held = inside.held;
      models = λ x. rw same (rw found refl);
    },
  )

  after_models :
      {v : Bool} (log : Log P) (found : Result (List String))
      → Inside parts ports run v log
      → ports.available_models (Effect.available_models ∷ log) ≡ found
      → After parts ports run true Anything (
          continue found
            (λ models. lift (validate_models parts.config models))
            (Effect.available_models ∷ log))
  unfolding is_held is_validated
  after_models log (err e) inside same = record {
    guarded = (tt, inside.guarded);
    held = inside.held;
    models = λ x. cc;
  }
  after_models log (ok models) inside same =
      after_validation log models (validate_models parts.config models) inside same refl

  pub validate_model_inventory-Does :
      {v : Bool} → Does parts ports run v (validate_model_inventory parts ports) true Anything
  unfolding validate_model_inventory
  validate_model_inventory-Does = record {
    leaves = λ log inside.
        after_models log (ports.available_models (Effect.available_models ∷ log)) inside refl;
  }

  pub event-Does :
      {v : Bool} (state : RunState P) (name : String) (item_id : Option String)
      (details : Dict (JsonValue P))
      → state.objective.id ≡ run
      → Does parts ports run v (event parts ports state name item_id details) v Anything
  unfolding event is_held is_validated
  event-Does state name item_id details own = record {
    leaves = λ log inside.
        (Does-perform parts ports run {Q = Anything} _ ports.append_event (λ l. (refl, refl))
            (λ l i. held_as parts ports run state.objective.id own i) (λ a l h. tt)).leaves
          log inside;
  }

  pub write_report-Does :
      {v : Bool} (state : RunState P)
      → state.objective.id ≡ run
      → Does parts ports run v (write_report parts ports state) v Anything
  unfolding write_report is_held is_validated
  write_report-Does state own =
      Does->>= parts ports run _ _
        (Does-lift parts ports run {Q = Anything} (parts.render state) (λ a h. tt))
        (λ content _.
          Does->>= parts ports run _ _
            (Does-perform parts ports run {Q = Anything} _ ports.write_report (λ l. (refl, refl))
              (λ l i. held_as parts ports run state.objective.id own i) (λ a l h. tt))
            (λ u _. Does-pure parts ports run content tt))

  ran :
      (state : RunState P) (log : Log P) (r : Result (Unit {0})) (w : World P)
      → Inside parts ports run true log
      → IsSafe (ports.scheduler log) parts.digest w.log
      → IsReady parts run state
      → HasRun state w.state
      → After parts ports run true
          (HasRun state)
          (elim r [ err e ↦ err e | ok _ ↦ ok w.state ], Effect.scheduled state w.log ∷ log)
  unfolding is_held is_validated
  ran state log (err e) w inside safe ready same = record {
    guarded = (
      (
        held_as parts ports run state.objective.id ready.id inside,
        inside.models refl,
        ready.formed,
        ready.current,
        safe,
      ),
      inside.guarded,
    );
    held = inside.held;
    models = λ x. cc;
  }
  ran state log (ok _) w inside safe ready same = (
    same,
    record {
      guarded = (
        (
          held_as parts ports run state.objective.id ready.id inside,
          inside.models refl,
          ready.formed,
          ready.current,
          safe,
        ),
        inside.guarded,
      );
      held = inside.held;
      models = inside.models;
    },
  )

  HasRun-of : (s t : RunState P) (env : Environment P) → Keeps env parts.digest s t → HasRun s t
  HasRun-of s t env k = record {
    work_items = k.work_items;
    configuration_digest = k.configuration_digest;
    objective = k.objective;
    routes = k.routes;
    approvals = k.approvals;
    results = k.results;
  }

  pub run_scheduler-Does :
      (state : RunState P)
      → IsReady parts run state
      → Does parts ports run true (run_scheduler parts ports state) true (HasRun state)
  unfolding run_scheduler
  run_scheduler-Does state' ready = record {
    leaves = λ log inside.
        let w : World P = record { state = state'; log = [] } in
        let env = ports.scheduler log in
        ran state' log _ _ inside
          (run_ready-IsSafe env parts.digest parts.max_read_concurrency w ready.formed tt) ready
          (HasRun-of state' (run_ready env parts.digest parts.max_read_concurrency w).1.state env
            (run_ready-Keeps env parts.digest parts.max_read_concurrency w ready.formed));
  }

  planned :
      (id : String) (log : Log P) (items : Result (List (WorkItem P))) (calls : List Call)
      → id ≡ run
      → Inside parts ports run true log
      → ((found : List (WorkItem P)) → items ≡ ok found → IsPlan parts.config found)
      → After parts ports run true (IsPlan parts.config) (items, Effect.planned id calls ∷ log)
  unfolding is_held is_validated
  planned id log (err e) calls own inside good = record {
    guarded = ((held_as parts ports run id own inside, inside.models refl), inside.guarded);
    held = inside.held;
    models = λ x. cc;
  }
  planned id log (ok found) calls own inside good = (
    good found refl,
    record {
      guarded = ((held_as parts ports run id own inside, inside.models refl), inside.guarded);
      held = inside.held;
      models = inside.models;
    },
  )

  pub run_planner-Does :
      (objective : Objective P)
      → objective.id ≡ run
      → Does parts ports run true (run_planner parts ports objective) true (IsPlan parts.config)
  unfolding run_planner
  run_planner-Does objective own = record {
    leaves = λ log inside. planned objective.id log _ _ own inside (
        plan-IsPlan parts.resolve parts.loads parts.accepts objective parts.config
          (ports.turn log));
  }
