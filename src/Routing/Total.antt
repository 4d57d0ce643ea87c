-- ===== src/Routing/Total.antt =====
-- routing.py: `route` under a valid configuration.
use mathlib.Core.Path.{subst}
use Prim.Native.String
use goal_router.Common.{
  String, Bool, true, Option, none, some, List, [], ◌∷◌, ◌≡◌, refl, inl, inr, All, In, Bool-cases,
  some-injective, ◌==◌,
}
use goal_router.Common.Integers.{ℤ, ◌≤ℤ◌, leb_ℤ, ≤ℤ-refl}
use goal_router.Common.Dict
use goal_router.Common.Dict.{Dict, values, get-All}
use goal_router.Errors.{ok, bind-ok, key_error}
use goal_router.Domain.Platform.{Platform}
use goal_router.Domain.Enums.{RouteSource}
use goal_router.Domain.Policy.{ModelAlias, HardRiskRule}
use goal_router.Domain.WorkItem.{WorkItem}
use goal_router.Domain.RouteDecision.{RouteDecision}
use goal_router.Config.{RouterConfig}
use goal_router.Config.Semantics.{has_optional}
use goal_router.Config.Validity.{TaskRefers, IsValid}
use goal_router.Routing.{
  Constraints, larger, apply_rule, apply_rules, select_alias, candidates, require_task, select_task,
  require_alias, or_error, raise_rank, route_selected, route, is_active,
}
use goal_router.Routing.Floors.{In-candidates}

-- The value of a key that a dict has.
present :
    {V : Type 0}
    → (d : Dict V) (k : String) → Dict.has d k ≡ true
    → (v : V) × (Dict.get d k ≡ some v)
unfolding Dict.has Dict.get
present [] k h = cc
present ((j, v) ∷ d) k h = elim (Bool-cases (j == k)) [
  | inl e ↦ (v, rw e refl)
  | inr e ↦ let (w, found) = present d k (rw e at h) in (w, rw e found)
]

get-In : {V : Type 0} → (d : Dict V) (k : String) {v : V} → Dict.get d k ≡ some v → In v (values d)
unfolding Dict.get
get-In [] k h = cc
get-In ((j, v) ∷ d) k h = elim (Bool-cases (j == k)) [
  | inl e ↦ inl (some-injective (rw e at h))
  | inr e ↦ inr (get-In d k (rw e at h))
]

module _ (config : RouterConfig) where
  -- Some alias has this rank.
  Attained : ℤ → Type 0
  Attained r = (a : ModelAlias) × In a (values config.model_aliases) × (a.rank ≡ r)

  larger-Attained : (a b : ℤ) → Attained a → Attained b → Attained (larger a b)
  unfolding Attained
  larger-Attained a b at_a at_b = elim (Bool-cases (leb_ℤ b a)) [
    | inl e ↦ rw e at_a
    | inr e ↦ rw e at_b
  ]

  alias_present :
      (name : String)
      → Dict.has config.model_aliases name ≡ true
      → (a : ModelAlias) × (require_alias config name ≡ ok a) × In a (values config.model_aliases)
  unfolding require_alias
  alias_present name known =
      let (a, found) = present config.model_aliases name known in
      (a, rw found refl, get-In config.model_aliases name found)

  raise_rank-total :
      (flag : String) (minimum : Option String) (c : Constraints)
      → has_optional config.model_aliases minimum ≡ true
      → Attained c.minimum_rank
      → (c' : Constraints) × (raise_rank config flag minimum c ≡ ok c') × Attained c'.minimum_rank
  unfolding Attained raise_rank
  raise_rank-total flag none c known at = (c, refl, at)
  raise_rank-total flag (some name) c known at =
      let (a, found, a_in) = alias_present name known in
      (
        _,
        bind-ok (require_alias config name) _ found refl,
        larger-Attained c.minimum_rank a.rank at (a, a_in, refl),
      )

  apply_rule-total :
      (rule : HardRiskRule) (c : Constraints)
      → has_optional config.model_aliases rule.minimum_model_alias ≡ true
      → Attained c.minimum_rank
      → (c' : Constraints) × (apply_rule config rule c ≡ ok c') × Attained c'.minimum_rank
  unfolding apply_rule
  apply_rule-total rule c known at =
      let (m, raised, at') = raise_rank-total rule.flag rule.minimum_model_alias c known at in
      (_, bind-ok (raise_rank config rule.flag rule.minimum_model_alias c) _ raised refl, at')

  apply_rules-total :
      (active : String → Bool) (rules : List HardRiskRule) (c : Constraints)
      → All
          (λ (r : HardRiskRule). has_optional config.model_aliases r.minimum_model_alias ≡ true)
          rules
      → Attained c.minimum_rank
      → (c' : Constraints) × (apply_rules config active rules c ≡ ok c') × Attained c'.minimum_rank
  unfolding apply_rules
  apply_rules-total active [] c known at = (c, refl, at)
  apply_rules-total active (rule ∷ rules) c (known, more) at =
      elim (Bool-cases (active rule.flag)) [
        | inl on ↦
            let (m, first, at') = apply_rule-total rule c known at in
            let (c', rest, at'') = apply_rules-total active rules m more at' in
            (c', rw on (rw first rest), at'')
        | inr off ↦
            let (c', rest, at') = apply_rules-total active rules c more at in (c', rw off rest, at')
      ]

  select_alias-total :
      (xs : List ModelAlias) (a : ModelAlias)
      → In a xs
      → (m : ModelAlias) × (select_alias xs ≡ ok m)
  unfolding select_alias
  select_alias-total [] a h = absurd h
  select_alias-total (x ∷ xs) a h = (_, refl)

  candidate-total :
      (r : ℤ) → Attained r → (m : ModelAlias) × (select_alias (candidates config r) ≡ ok m)
  unfolding Attained
  candidate-total r (a, a_in, e) =
      select_alias-total (candidates config r) a
        (In-candidates config r a a_in (subst (λ q. q ≤ℤ a.rank) e (≤ℤ-refl a.rank)))

  -- the task that is asked for, or else the item's own
  abbrev pub wanted_task : {P : Platform} → WorkItem P → Option String → String
  wanted_task item none = item.task
  wanted_task item (some task) = task

  module _ {P : Platform} (valid : IsValid config) where
    route_selected-total :
        (item : WorkItem P) (selection : String × RouteSource × String)
        → Dict.has config.tasks selection.0 ≡ true
        → (d : RouteDecision) × (route_selected config item selection ≡ ok d)
    unfolding route_selected or_error Attained
    route_selected-total item selection known =
        let (policy, found) = present config.tasks selection.0 known in
        let (alias_known, _) =
          get-All (TaskRefers config.model_aliases config.tasks) config.tasks selection.0
            valid.tasks found in
        let (a, alias_found, a_in) = alias_present policy.model_alias alias_known in
        let (c, applied, at) =
          apply_rules-total (is_active item policy) config.hard_risk_rules
            (record { minimum_rank = a.rank; approval = policy.approval; applied_floors = [] })
            valid.hard_risk_rules (a, a_in, refl) in
        let (m, selected) = candidate-total c.minimum_rank at in
        (
          _,
          bind-ok (or_error key_error (Dict.get config.tasks selection.0)) _ (rw found refl) (
              bind-ok (require_alias config policy.model_alias) _ alias_found (
                bind-ok (apply_rules config _ config.hard_risk_rules _) _ applied
                  (bind-ok (select_alias _) _ selected refl))),
        )

    -- Under a valid configuration an item gets a route whenever the task that is asked for, or else,
    -- if none is, the item's own, is a task of the configuration.
    pub route-total :
        (item : WorkItem P) (explicit_task : Option String)
        → Dict.has config.tasks (wanted_task item explicit_task) ≡ true
        → (d : RouteDecision) × (route config item explicit_task ≡ ok d)
    unfolding route select_task require_task
    route-total item none known =
        let (d, e) =
          route_selected-total item
            (item.task, RouteSource.planner, String.◌++◌ "planner task " (P.repr item.task))
            known in
        (
          d,
          bind-ok (select_task P config item.instructions item.affected_paths none (some item.task))
              _ (rw known refl) e,
        )
    route-total item (some task) known =
        let (d, e) =
          route_selected-total item
            (task, RouteSource.explicit, String.◌++◌ "explicit task " (P.repr task)) known in
        (
          d,
          bind-ok
              (select_task P config item.instructions item.affected_paths (some task)
                (some item.task))
              _ (rw known refl) e,
        )
