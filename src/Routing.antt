-- ===== src/Routing.antt =====
-- src/goalrouter/routing.py: `TaskRouter`. The configuration is an argument of each method.
pub mod Floors
pub mod Decision
pub mod Total
use mathlib.Core.List.{◌++◌}
use Prim.Native.String
use text.Mathlib.Text.{find?, starts_with}
use goal_router.Common.{
  ℕ, ◌+◌, String, Bool, true, false, ◌||◌, ◌&&◌, Option, none, some, List, [], ◌∷◌, ◌==◌,
  if◌then◌else◌, filter,
}
use goal_router.Common.Integers.{ℤ, leb_ℤ}
use goal_router.Common.Strings.{contains, join, sort, frozenset}
use goal_router.Common.Dict
use goal_router.Common.Dict.{Dict, values}
use goal_router.Errors.{
  Error, Result, ok, err, configuration_error, unknown_task_error, model_unavailable_error,
  key_error, ◌>>=◌, ◌>>◌, guard,
}
use goal_router.Domain.Platform.{Platform}
use goal_router.Domain.FilePath
use goal_router.Domain.FilePath.{FilePath}
use goal_router.Domain.Enums.{ApprovalMode, RouteSource}
use goal_router.Domain.Policy.{ModelAlias, TaskPolicy, MatchRule, HardRiskRule}
use goal_router.Domain.WorkItem.{WorkItem}
use goal_router.Domain.RouteDecision.{RouteDecision}
use goal_router.Config.{RouterConfig}

infixr 66 ◌⋅◌
-- the parts of an f-string
abbrev ◌⋅◌ : String → String → String
s ⋅ t = String.◌++◌ s t

or_error : {A : Type 0} → Error → Option A → Result A
or_error e none = err e
or_error e (some a) = ok a

module _ (config : RouterConfig) where
  unfoldable pub require_task : String → Result (Unit {0})
  require_task task = guard (Dict.has config.tasks task) unknown_task_error

  unfoldable pub require_alias : String → Result ModelAlias
  unfolding or_error
  require_alias name = or_error configuration_error (Dict.get config.model_aliases name)

module _ (P : Platform) where
  found : Option ℕ → Bool
  found none = false
  found (some _) = true

  -- `next((c for c in phrases if c.casefold() in folded_prompt), None)`
  first_phrase : String → List String → Option String
  unfolding found
  first_phrase folded [] = none
  first_phrase folded (c ∷ rest) =
      if found (find? folded (P.casefold c)) then some c else first_phrase folded rest

  -- `pattern[3:]`
  drop_three : String → String
  drop_three (String.◌∷◌ a (String.◌∷◌ b (String.◌∷◌ c rest))) = rest
  drop_three _ = ""

  matches : String → String → Bool
  unfolding drop_three
  matches name pattern =
      P.fnmatch name pattern || (starts_with pattern "**/" && P.fnmatch name (drop_three pattern))

  first_pattern : String → List String → Option String
  unfolding matches
  first_pattern name [] = none
  first_pattern name (pattern ∷ rest) =
      if matches name pattern then some pattern else first_pattern name rest

  unfoldable pub first_glob_match : List FilePath → List String → Option (FilePath × String)
  unfolding first_pattern
  first_glob_match [] patterns = none
  first_glob_match (path ∷ paths) patterns =
      let rest = first_glob_match paths patterns in
      elim (first_pattern (FilePath.to_text path) patterns) [
        | none ↦ rest
        | some pattern ↦ some (path, pattern)
      ]

  module _ (config : RouterConfig) (prompt : String) (affected_paths : List FilePath) where
    phrase_reason : ℕ → String → String
    phrase_reason index phrase = "matching rule " ⋅ P.decimal index ⋅ " phrase " ⋅ P.repr phrase

    glob_reason : ℕ → FilePath × String → String
    glob_reason index (path, pattern) =
        "matching rule "
        ⋅ P.decimal index
        ⋅ " glob "
        ⋅ P.repr pattern
        ⋅ " matched "
        ⋅ P.repr (FilePath.to_text path)

    -- The reason why a rule applies, if it does: its first phrase in the prompt, or its first glob.
    unfoldable pub rule_reason : ℕ → MatchRule → Option String
    unfolding first_phrase phrase_reason glob_reason
    rule_reason index rule = elim (first_phrase (P.casefold prompt) rule.phrases) [
      | some phrase ↦ some (phrase_reason index phrase)
      | none ↦ elim (first_glob_match affected_paths rule.file_globs) [
        | some hit ↦ some (glob_reason index hit)
        | none ↦ none
      ]
    ]

    -- The loop over the matching rules.
    unfoldable pub first_match : ℕ → List MatchRule → Option (String × String)
    first_match index [] = none
    first_match index (rule ∷ rules) =
        let rest = first_match (index + 1) rules in
        elim (rule_reason index rule) [ some reason ↦ some (rule.task, reason) | none ↦ rest ]

    matched : Option (String × String) → Result (String × RouteSource × String)
    unfolding require_task
    matched (some (task, reason)) = ok (task, RouteSource.match, reason)
    matched none = do
      require_task config config.default_task
      ok (config.default_task, RouteSource.default, "default task " ⋅ P.repr config.default_task)

    unfoldable pub select_task :
        (explicit_task planned_task : Option String) → Result (String × RouteSource × String)
    unfolding require_task matched
    select_task (some task) planned_task = do
      require_task config task
      ok (task, RouteSource.explicit, "explicit task " ⋅ P.repr task)
    select_task none (some task) = do
      require_task config task
      ok (task, RouteSource.planner, "planner task " ⋅ P.repr task)
    select_task none none = matched (first_match 0 config.matching)

-- The constraints that the loop over the hard-risk rules builds up.
pub record Constraints : Type 0 where
  pub minimum_rank : ℤ
  pub approval : ApprovalMode
  pub applied_floors : List String

abbrev pub larger : ℤ → ℤ → ℤ
larger a b = if leb_ℤ b a then a else b

raise_approval : Option ApprovalMode → ApprovalMode → ApprovalMode
raise_approval (some ApprovalMode.required) approval = ApprovalMode.required
raise_approval _ approval = approval

module _ (config : RouterConfig) where
  raise_rank : String → Option String → Constraints → Result Constraints
  unfolding require_alias
  raise_rank flag none c = ok c
  raise_rank flag (some name) c = do
    minimum ← require_alias config name
    ok (record c {
      minimum_rank = larger c.minimum_rank minimum.rank;
      applied_floors = c.applied_floors ++ (flag ⋅ ":" ⋅ name) ∷ [];
    })

  -- one turn of the loop, for a rule whose flag is active
  unfoldable pub apply_rule : HardRiskRule → Constraints → Result Constraints
  unfolding raise_rank raise_approval
  apply_rule rule c = do
    c' ← raise_rank rule.flag rule.minimum_model_alias c
    ok (record c' { approval = raise_approval rule.approval c'.approval })

  unfoldable pub apply_rules :
      (String → Bool) → List HardRiskRule → Constraints → Result Constraints
  apply_rules active [] c = ok c
  apply_rules active (rule ∷ rules) c = do
    c' ← (if active rule.flag then apply_rule rule c else ok c)
    apply_rules active rules c'

-- `rule.flag in active_flags`
unfoldable pub is_active : {P : Platform} → WorkItem P → TaskPolicy → String → Bool
is_active item policy flag =
    contains item.risk_flags flag
    || (policy.destructive && flag == "destructive")
    || (policy.external_write && flag == "external-write")

-- `min(candidates, key=lambda alias: alias.rank)`: the first of the smallest
unfoldable pub min_rank : ModelAlias → List ModelAlias → ModelAlias
min_rank best [] = best
min_rank best (a ∷ rest) = min_rank (if leb_ℤ best.rank a.rank then best else a) rest

unfoldable pub candidates : RouterConfig → ℤ → List ModelAlias
candidates config minimum_rank =
    filter (λ a. leb_ℤ minimum_rank a.rank) (values config.model_aliases)

unfoldable pub select_alias : List ModelAlias → Result ModelAlias
unfolding min_rank
select_alias [] = err configuration_error
select_alias (a ∷ rest) = ok (min_rank a rest)

with_floors : String → List String → String
with_floors reason [] = reason
with_floors reason floors = reason ⋅ "; hard floors " ⋅ join ", " floors

module _ {P : Platform} (config : RouterConfig) where
  -- The decision for a selected task.
  unfoldable pub decide :
      WorkItem P
      → String × RouteSource × String
      → TaskPolicy
      → ModelAlias
      → Constraints
      → RouteDecision
  unfolding with_floors
  decide item (task_name, source, reason) policy selected c = record {
    task = task_name;
    model_alias = selected.name;
    model = selected.model;
    reasoning_effort = selected.reasoning_effort;
    sandbox = policy.sandbox;
    approval = c.approval;
    timeout_seconds = policy.timeout_seconds;
    max_attempts = policy.max_attempts;
    destructive = policy.destructive || contains item.risk_flags "destructive";
    external_write = policy.external_write || contains item.risk_flags "external-write";
    escalation_task = policy.escalate_to;
    source = source;
    reason = with_floors reason c.applied_floors;
  }

  -- What `route` does once the task is selected.
  unfoldable pub route_selected : WorkItem P → String × RouteSource × String → Result RouteDecision
  unfolding or_error require_alias
  route_selected item selection = do
    policy ← or_error key_error (Dict.get config.tasks selection.0)
    original ← require_alias config policy.model_alias
    c ←
        apply_rules config (is_active item policy) config.hard_risk_rules
          (record { minimum_rank = original.rank; approval = policy.approval; applied_floors = [] })
    selected ← select_alias (candidates config c.minimum_rank)
    ok (decide item selection policy selected c)

  unfoldable pub route : WorkItem P → Option String → Result RouteDecision
  route item explicit_task = do
    selection ←
        select_task P config item.instructions item.affected_paths explicit_task (some item.task)
    route_selected item selection

-- the loop over the aliases: the models that are not available
unfoldable pub absent : List String → List ModelAlias → List String
absent available [] = []
absent available (a ∷ rest) =
    if contains available a.model then absent available rest else a.model ∷ absent available rest

-- The models of the configuration that are not available, sorted and each once.
unfoldable pub missing_models : RouterConfig → List String → List String
missing_models config available = sort (frozenset (absent available (values config.model_aliases)))

unfoldable pub validate_models : RouterConfig → List String → Result (Unit {0})
unfolding missing_models
validate_models config available = elim (missing_models config available) [
  | [] ↦ ok tt
  | m ∷ rest ↦ err model_unavailable_error
]
