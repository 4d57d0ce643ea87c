-- ===== src/Routing/Decision.antt =====
-- routing.py: the contract of `route`.
use goal_router.Common.{String, Option, some, [], ◌≡◌, refl, ap, ◌↔◌, ◌⊎◌, All, In, All-In, arith}
use goal_router.Common.Integers.{◌≤ℤ◌}
use goal_router.Common.Dict
use goal_router.Common.Dict.{values}
use goal_router.Errors.{Error, key_error, ok, >>=-eq-ok, ok-injective}
use goal_router.Domain.Platform.{Platform}
use goal_router.Domain.Enums.{ApprovalMode, RouteSource}
use goal_router.Domain.Policy.{ModelAlias, TaskPolicy}
use goal_router.Domain.WorkItem.{WorkItem}
use goal_router.Domain.RouteDecision.{RouteDecision}
use goal_router.Config.{RouterConfig}
use goal_router.Routing.{
  or_error, require_alias, route, route_selected, select_task, is_active, Constraints, apply_rules,
  candidates, decide, select_alias,
}
use goal_router.Routing.Floors.{
  Covers, SomeDemands, rules-mono, rules-cover, All-Covers, rules-least, rules-approval,
  candidates-In, In-candidates, select_alias-IsLeastOf,
}

module _ {P : Platform} (config : RouterConfig) (item : WorkItem P) (d : RouteDecision) where
  -- The promise. `policy` is the entry of the task, `original` its alias, `selected` the alias taken.
  pub record IsSound : Type 0 where
    pub policy : TaskPolicy
    pub original : ModelAlias
    pub selected : ModelAlias
    pub task : Dict.get config.tasks d.task ≡ some policy
    pub alias : Dict.get config.model_aliases policy.model_alias ≡ some original
    pub configured : In selected (values config.model_aliases)
    pub named : d.model_alias ≡ selected.name
    pub model : d.model ≡ selected.model
    pub effort : d.reasoning_effort ≡ selected.reasoning_effort
    pub sandbox : d.sandbox ≡ policy.sandbox
    pub never_downgraded : original.rank ≤ℤ selected.rank
    pub floors : All (Covers config (is_active item policy) selected.rank) config.hard_risk_rules
    pub cheapest :
        (other : ModelAlias)
        → In other (values config.model_aliases)
        → original.rank ≤ℤ other.rank
        → All (Covers config (is_active item policy) other.rank) config.hard_risk_rules
        → selected.rank ≤ℤ other.rank
    pub approval : (d.approval ≡ ApprovalMode.required) ↔ (
        (policy.approval ≡ ApprovalMode.required)
        ⊎ SomeDemands (is_active item policy) config.hard_risk_rules)

or_error-eq-ok : {A : Type 0} (e : Error) (o : Option A) {a : A} → or_error e o ≡ ok a → o ≡ some a
unfolding or_error
or_error-eq-ok e o h = ground arith

module _ {P : Platform} (config : RouterConfig) (item : WorkItem P) (d : RouteDecision) where
  -- The promise, from the values that the steps of `route_selected` pass on.
  IsSound-of :
      (policy : TaskPolicy) (original selected : ModelAlias) (start c : Constraints)
      (selection : String × RouteSource × String)
      → Dict.get config.tasks selection.0 ≡ some policy
      → Dict.get config.model_aliases policy.model_alias ≡ some original
      → start.minimum_rank ≡ original.rank
      → start.approval ≡ policy.approval
      → apply_rules config (is_active item policy) config.hard_risk_rules start ≡ ok c
      → select_alias (candidates config c.minimum_rank) ≡ ok selected
      → decide config item selection policy selected c ≡ d
      → IsSound config item d
  unfolding decide
  IsSound-of policy original selected start c selection task alias low ask loop least made =
      let (smallest, candidate) =
        select_alias-IsLeastOf (candidates config c.minimum_rank) selected least in
      let (configured, above) = candidates-In config c.minimum_rank selected candidate in
      let active = is_active item policy in
      record {
        policy = policy;
        original = original;
        selected = selected;
        task = rw (← made) task;
        alias = alias;
        configured = configured;
        named = rw (← made) refl;
        model = rw (← made) refl;
        effort = rw (← made) refl;
        sandbox = rw (← made) refl;
        never_downgraded =
            ground (arith, rules-mono config active config.hard_risk_rules start c loop);
        floors =
            All-Covers config active c.minimum_rank selected.rank above config.hard_risk_rules
              (rules-cover config active config.hard_risk_rules start c loop);
        cheapest = λ other i h k.
            All-In (λ (a : ModelAlias). selected.rank ≤ℤ a.rank) other
              (candidates config c.minimum_rank) smallest
              (In-candidates config c.minimum_rank other i (
                rules-least config active config.hard_risk_rules start c other.rank loop
                  (ground (arith, low)) k));
        approval = ground (
          arith,
          rules-approval config active config.hard_risk_rules start c loop,
          ap (λ (r : RouteDecision). r.approval) made,
        );
      }

  route_selected-IsSound :
      (selection : String × RouteSource × String)
      → route_selected config item selection ≡ ok d
      → IsSound config item d
  unfolding route_selected
  route_selected-IsSound selection h =
      let (policy, task, h1) =
        >>=-eq-ok (or_error key_error (Dict.get config.tasks selection.0)) _ h in
      let (original, alias, h2) = >>=-eq-ok (require_alias config policy.model_alias) _ h1 in
      let start : Constraints = record {
        minimum_rank = original.rank;
        approval = policy.approval;
        applied_floors = [];
      } in
      let (c, loop, h3) =
        >>=-eq-ok (apply_rules config (is_active item policy) config.hard_risk_rules start) _ h2 in
      let (selected, least, h4) =
        >>=-eq-ok (select_alias (candidates config c.minimum_rank)) _ h3 in
      IsSound-of policy original selected start c selection (or_error-eq-ok _ _ task)
        (or_error-eq-ok _ _ alias) refl refl loop least (ok-injective h4)

-- A route that is returned is sound, whatever selected its task: it names a configured alias whose
-- rank meets the task's own alias and the floor of every active rule, no cheaper alias does, and it
-- asks for approval exactly if the policy or an active rule asks.
pub route-IsSound :
    {P : Platform} (config : RouterConfig) (item : WorkItem P) (explicit_task : Option String)
    (d : RouteDecision)
    → route config item explicit_task ≡ ok d
    → IsSound config item d
unfolding route
route-IsSound config item explicit_task d h =
    let (selection, _, rest) =
      >>=-eq-ok
        (select_task _ config item.instructions item.affected_paths explicit_task (some item.task))
        (route_selected config item) h in
    route_selected-IsSound config item d selection rest
