-- ===== src/Application/Coordinator/Guard.antt =====
-- application.py: what the coordinator may do, and under which conditions, read off its log.
use goal_router.Common.{
  String, Bool, true, false, ◌&&◌, ◌||◌, ◌==◌, List, [], ◌∷◌, ◌≡◌, refl, sym, ◌∙◌,
}
use mathlib.Core.Path.{subst}
use goal_router.Errors.{Result, ok, err}
use goal_router.Domain.Platform.{Platform}
use goal_router.Routing.{validate_models}
use goal_router.Scheduler.{passed}
use goal_router.Scheduler.Pending.{IsWellFormed}
use goal_router.Scheduler.Steps.Safety.{IsSafe}
use goal_router.Application.Ports.{
  Effect, Log, Ports, Action, pure, lift, perform, ◌>>=◌, continue, acquire, release,
  available_models, planned, create, save, append_event, write_report, scheduled,
}
use goal_router.Application.Operations.{Parts}

-- whether a list of models is one that the configuration accepts
abbrev pub accepts_models : {P : Platform} → Parts P → Result (List String) → Bool
accepts_models parts (err e) = false
accepts_models parts (ok models) = passed (validate_models parts.config models)

module _ {P : Platform} (parts : Parts P) (ports : Ports P) where
  -- The latest run lease that was asked for is that of this run, it was given, and none was given back
  -- since.
  unfoldable pub is_held : String → Log P → Bool
  is_held run [] = false
  is_held run (acquire id ∷ log) = run == id && passed (ports.acquire (acquire id ∷ log))
  is_held run (release id ∷ log) = false
  is_held run (_ ∷ log) = is_held run log

  -- Since the run lease was asked for, the models of the configuration were found available.
  unfoldable pub is_validated : Log P → Bool
  is_validated [] = false
  is_validated (acquire id ∷ log) = false
  is_validated (available_models ∷ log) =
      accepts_models parts (ports.available_models (available_models ∷ log)) || is_validated log
  is_validated (_ ∷ log) = is_validated log

  -- What holds when an effect is done after these: the planner, the scheduler and a store write are for
  -- the run whose lease is held, and it is that lease that is given back.
  abbrev pub IsGuarded : Effect P → Log P → Type 0
  IsGuarded (release id) log = is_held id log ≡ true
  IsGuarded (planned id calls) log = (is_held id log ≡ true) × (is_validated log ≡ true)
  IsGuarded (create s) log =
      (is_held s.objective.id log ≡ true) × (is_validated log ≡ true) × IsWellFormed s.work_items
  IsGuarded (save s) log = (is_held s.objective.id log ≡ true) × IsWellFormed s.work_items
  IsGuarded (append_event id e) log = is_held id log ≡ true
  IsGuarded (write_report id content) log = is_held id log ≡ true
  IsGuarded (scheduled s history) log =
      (is_held s.objective.id log ≡ true)
      × (is_validated log ≡ true)
      × IsWellFormed s.work_items
      × (s.configuration_digest ≡ parts.config.digest)
      × IsSafe (ports.scheduler log) parts.digest history
  IsGuarded _ log = Unit

  abbrev pub AreGuarded : Log P → Type 0
  AreGuarded [] = Unit
  AreGuarded (e ∷ log) = IsGuarded e log × AreGuarded log

module _ {P : Platform} (parts : Parts P) (ports : Ports P) (run : String) where
  -- Inside a use case: the lease of the run is held, and the models are validated if so much is asked.
  pub record Inside (validated : Bool) (log : Log P) : Type 0 where
    pub guarded : AreGuarded parts ports log
    pub held : is_held parts ports run log ≡ true
    pub models : validated ≡ true → is_validated parts ports log ≡ true

  -- What an operation leaves inside a use case, with what is known of its value.
  abbrev pub After : {A : Type 0} → Bool → (A → Type 0) → Result A × Log P → Type 0
  After validated Q (ok a, log) = Q a × Inside validated log
  After validated Q (err e, log) = Inside false log

  -- The operation, started inside a use case.
  pub record Does {A : Type 0} (before : Bool) (m : Action P A) (after : Bool) (Q : A → Type 0)
      : Type 0 where
    pub leaves : (log : Log P) → Inside before log → After after Q (m log)

  pub weaker : {v : Bool} {log : Log P} → Inside v log → Inside false log
  weaker h = record { guarded = h.guarded; held = h.held; models = λ e. cc }

  -- what is held, by another name of the run
  pub held_as :
      {v : Bool} {log : Log P} (id : String)
      → id ≡ run
      → Inside v log
      → is_held parts ports id log ≡ true
  held_as {log} id own inside = subst (λ r. is_held parts ports r log ≡ true) (sym own) inside.held

  continue-After :
      {A B : Type 0} (Q : A → Type 0) (R : B → Type 0) (u v : Bool) (f : A → Action P B)
      → ((a : A) → Q a → Does u (f a) v R)
      → (o : Result A × Log P) → After u Q o
      → After v R (continue o.0 f o.1)
  continue-After Q R u v f h (ok a, log) (q, inside) = (h a q).leaves log inside
  continue-After Q R u v f h (err e, log) inside = weaker inside

  mapped :
      {A : Type 0} (v : Bool) (Q R : A → Type 0)
      → ((a : A) → Q a → R a)
      → (o : Result A × Log P) → After v Q o
      → After v R o
  mapped v Q R f (ok a, log) (q, inside) = (f a q, inside)
  mapped v Q R f (err e, log) inside = inside

  -- one operation after another
  pub Does->>= :
      {A B : Type 0} {Q : A → Type 0} {R : B → Type 0} {t u v : Bool} (m : Action P A)
      (f : A → Action P B)
      → Does t m u Q
      → ((a : A) → Q a → Does u (f a) v R)
      → Does t (m >>= f) v R
  Does->>= {Q} {R} {t} {u} {v} m f h k = record {
    leaves = λ log inside. continue-After Q R u v f k (m log) (h.leaves log inside);
  }

  pub Does-pure : {A : Type 0} {v : Bool} {Q : A → Type 0} (a : A) → Q a → Does v (pure a) v Q
  Does-pure a q = record { leaves = λ log inside. (q, inside) }

  lifted :
      {A : Type 0} {v : Bool} (Q : A → Type 0) (r : Result A) (log : Log P)
      → ((a : A) → r ≡ ok a → Q a)
      → Inside v log
      → After v Q (r, log)
  lifted Q (ok a) log h inside = (h a refl, inside)
  lifted Q (err e) log h inside = weaker inside

  -- what is known of the value of a computation without effects
  pub Does-lift :
      {A : Type 0} {v : Bool} {Q : A → Type 0} (r : Result A)
      → ((a : A) → r ≡ ok a → Q a)
      → Does v (lift r) v Q
  Does-lift {v} {Q} r h = record { leaves = λ log inside. lifted Q r log h inside }

  -- An effect that neither takes nor gives up the lease, and is not the list of models.
  abbrev pub IsOrdinary : Effect P → Type 0
  IsOrdinary e =
      (log : Log P)
      → (is_held parts ports run (e ∷ log) ≡ is_held parts ports run log)
        × (is_validated parts ports (e ∷ log) ≡ is_validated parts ports log)

  pub Inside-effect :
      {v : Bool} {log : Log P} (e : Effect P)
      → IsOrdinary e
      → IsGuarded parts ports e log
      → Inside v log
      → Inside v (e ∷ log)
  Inside-effect {v} {log} e ordinary guarded inside = record {
    guarded = (guarded, inside.guarded);
    held = (ordinary log).0 ∙ inside.held;
    models = λ asked. (ordinary log).1 ∙ inside.models asked;
  }

  pub Does-perform :
      {A : Type 0} {v : Bool} {Q : A → Type 0} (e : Effect P) (answer : Log P → Result A)
      → IsOrdinary e
      → ((log : Log P) → Inside v log → IsGuarded parts ports e log)
      → ((a : A) (log : Log P) → answer (e ∷ log) ≡ ok a → Q a)
      → Does v (perform e answer) v Q
  Does-perform {v} {Q} e answer ordinary guarded known = record {
    leaves = λ log inside.
        lifted Q (answer (e ∷ log)) (e ∷ log) (λ a h. known a log h)
          (Inside-effect e ordinary (guarded log inside) inside);
  }

  -- A weaker statement of the value.
  pub Does-map :
      {A : Type 0} {u v : Bool} {Q R : A → Type 0} (m : Action P A)
      → ((a : A) → Q a → R a)
      → Does u m v Q
      → Does u m v R
  Does-map {v} {Q} {R} m f h = record {
    leaves = λ log inside. mapped v Q R f (m log) (h.leaves log inside);
  }
