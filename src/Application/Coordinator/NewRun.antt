-- ===== src/Application/Coordinator/NewRun.antt =====
-- application.py: the state that `_plan_objective_unlocked` makes and returns.
use goal_router.Common.{
  String, true, false, not, none, List, [], ◌∷◌, ◌≡◌, refl, sym, ap, ◌==◌, any, arith,
}
use mathlib.Core.Path.{subst}
use goal_router.Common.Dict
use goal_router.Common.Dict.{Dict}
use goal_router.Errors.{
  Result, ok, guard, planner_output_error, >>=-eq-ok, ok-injective, guard-eq-ok,
}
use goal_router.Domain.Platform.{Platform}
use goal_router.Domain.FilePath.{FilePath}
use goal_router.Domain.Objective.{Objective}
use goal_router.Domain.RepositoryContext.{RepositoryContext}
use goal_router.Domain.WorkItem.{WorkItem}
use goal_router.Domain.RouteDecision.{RouteDecision}
use goal_router.Domain.RunState.{RunState}
use goal_router.Config.{RouterConfig}
use goal_router.Routing.{route}
use goal_router.Planner.Accepted.{IsPlan}
use goal_router.Application.{work_items_of, routes_of, completion_id}
use goal_router.Application.Ports.{Ports}
use goal_router.Application.Operations.{Parts, initial}
use goal_router.Application.Coordinator.{plan_objective_unlocked}
use goal_router.Application.Coordinator.WorkItems.{of_items-IsWellFormed}
use goal_router.Application.Coordinator.Guard.{Does, Does->>=}
use goal_router.Application.Coordinator.Stages.{
  IsReady, validate_model_inventory-Does, run_planner-Does,
}
use goal_router.Application.Coordinator.Guarded.{
  inspect-Does, new_objective-Does, recorded-Does, known-Does, IsObjective,
}
use goal_router.Common.Items.{of_items-distinct}
use goal_router.Common.Dict.{keys}
use goal_router.Common.Distinct.{IsDistinct}
use goal_router.Domain.Enums.{RunStatus}
use goal_router.Planner.Cycles.{ids_of}

module _ {P : Platform} (config : RouterConfig) where
  -- Each item, in order, with the route that the configuration gives it.
  abbrev pub AreRouted : List (WorkItem P) → List (String × RouteDecision) → Type 0
  AreRouted [] [] = Unit
  AreRouted [] (e ∷ routes) = ⊥
  AreRouted (item ∷ items) [] = ⊥
  AreRouted (item ∷ items) ((id, decision) ∷ routes) =
      (id ≡ item.id) × (route config item none ≡ ok decision) × AreRouted items routes

  pub routes_of-AreRouted :
      (items : List (WorkItem P)) (routes : List (String × RouteDecision))
      → routes_of config items ≡ ok routes
      → AreRouted items routes
  unfolding routes_of
  routes_of-AreRouted [] [] h = tt
  routes_of-AreRouted [] (e ∷ routes) h = absurd (ground (arith, h))
  routes_of-AreRouted (item ∷ items) routes h =
      let (decision, routed, next) = >>=-eq-ok (route config item none) _ h in
      let (rest, found, done) = >>=-eq-ok (routes_of config items) _ next in
      subst (AreRouted (item ∷ items)) (ok-injective done)
        (refl, routed, routes_of-AreRouted items rest found)

  AreRouted-keys :
      (items : List (WorkItem P)) (routes : List (String × RouteDecision))
      → AreRouted items routes
      → keys routes ≡ ids_of items
  AreRouted-keys [] [] h = refl
  AreRouted-keys [] (e ∷ routes) h = absurd h
  AreRouted-keys (item ∷ items) [] h = absurd h
  AreRouted-keys (item ∷ items) ((id, decision) ∷ routes) (e, _, h) =
      let ih = AreRouted-keys items routes h in cc

  keys_of_work_items : (items : List (WorkItem P)) → keys (work_items_of items) ≡ ids_of items
  unfolding work_items_of
  keys_of_work_items [] = refl
  keys_of_work_items (item ∷ items) = ap (λ ids. item.id ∷ ids) (keys_of_work_items items)

-- The state of a new run: an accepted plan, without the completion review, whose items are all
-- planned, each with the route that the configuration gives it.
pub record IsNewRun {P : Platform} (parts : Parts P) (prompt id : String) (state : RunState P)
    : Type 0 where
  pub ready : IsReady parts id state
  pub items : List (WorkItem P)
  pub plan : IsPlan parts.config items
  pub stored : state.work_items ≡ work_items_of items
  pub unreserved : any (λ (item : WorkItem P). item.id == completion_id) items ≡ false
  pub routed : AreRouted parts.config items state.routes
  pub fresh :
      (state.status ≡ RunStatus.planned)
      × (state.results ≡ [])
      × (state.approvals ≡ [])
      × (state.objective.prompt ≡ prompt)
      × (state.objective.id ≡ id)
      × (state.objective.explicit_task ≡ none)

module _ {P : Platform} (parts : Parts P) (ports : Ports P) (run : String) where
  -- The guard of `plan_objective`: no work item of the plan is the completion review.
  abbrev pub without_completion : List (WorkItem P) → Result (Unit {0})
  without_completion items =
      guard (not (any (λ (item : WorkItem P). item.id == completion_id) items)) planner_output_error

  initial-IsNewRun :
      (objective : Objective P) (repository : RepositoryContext) (items : List (WorkItem P))
      (routes : List (String × RouteDecision)) (prompt id : String)
      → IsPlan parts.config items
      → without_completion items ≡ ok tt
      → routes_of parts.config items ≡ ok routes
      → IsObjective parts ports run prompt none id objective
      → IsNewRun parts prompt id (
          initial parts ports objective repository
            (Dict.of_items (work_items_of items))
            (Dict.of_items routes))
  initial-IsNewRun objective repository items routes prompt id plan unreserved routed (p, i, t) =
      let pairs = routes_of-AreRouted parts.config items routes routed in
      let kept =
        subst IsDistinct (sym (AreRouted-keys parts.config items routes pairs)) plan.distinct in
      let passes = guard-eq-ok _ planner_output_error unreserved in
      record {
        ready = record { id = i; formed = of_items-IsWellFormed items; current = refl };
        items = items;
        plan = plan;
        stored =
            of_items-distinct (work_items_of items)
              (subst IsDistinct (sym (keys_of_work_items parts.config items)) plan.distinct);
        unreserved = ground (arith, passes);
        routed = subst (AreRouted parts.config items) (sym (of_items-distinct routes kept)) pairs;
        fresh = (refl, refl, refl, p, i, t);
      }

  pub plan_objective_unlocked-Does :
      (path : FilePath) (prompt : String)
      → Does parts ports run false
          (plan_objective_unlocked parts ports path prompt run)
          true
          (IsNewRun parts prompt run)
  unfolding plan_objective_unlocked
  plan_objective_unlocked-Does path prompt =
      Does->>= parts ports run _ _ (inspect-Does parts ports run path) (λ repository _.
        Does->>= parts ports run _ _ (validate_model_inventory-Does parts ports run) (λ _ _.
          Does->>= parts ports run _ _
            (new_objective-Does parts ports run repository.project_path prompt none run)
            (λ objective own.
              Does->>= parts ports run _ _ (run_planner-Does parts ports run objective own.1)
                (λ items plan.
                  Does->>= parts ports run _ _
                    (known-Does parts ports run (without_completion items))
                    (λ u unreserved.
                      Does->>= parts ports run _ _
                        (known-Does parts ports run (routes_of parts.config items))
                        (λ routes routed.
                          recorded-Does parts ports run
                            (initial parts ports objective repository
                              (Dict.of_items (work_items_of items)) (Dict.of_items routes))
                            "objective-planned" (IsNewRun parts prompt run) own.1
                            (of_items-IsWellFormed items)
                            (initial-IsNewRun objective repository items routes prompt run plan
                              unreserved routed own)))))))
