-- ===== src/Config/Loaded.antt =====
-- config.py: `load_router_config` when it succeeds.
use mathlib.Core.Path.{subst}
use goal_router.Common.{String, true, Option, none, some, ◌≡◌, refl, sym, ap, ◌∙◌, All}
use goal_router.Common.Dict
use goal_router.Common.Dict.{Dict, values}
use goal_router.Errors.{Result, ok, ◌>>=◌, >>=-eq-ok}
use goal_router.Domain.Platform.{Platform}
use goal_router.Domain.Json.{JsonValue}
use goal_router.Domain.FilePath.{FilePath}
use goal_router.Domain.Policy.{ModelAlias, TaskPolicy, MatchRule, HardRiskRule}
use goal_router.Config.{RouterConfig}
use goal_router.Config.Fields.{field, mapping, string, optional_sequence}
use goal_router.Config.Semantics.{
  has_optional, check_each, check_role, check_task, check_matching, check_hard_risk,
  validate_semantics,
}
use goal_router.Config.Parse.{
  parse_model_alias, parse_task_policy, parse_match_rule, parse_hard_risk_rule, in_mapping,
  check_and_parse, load_router_config,
}
use goal_router.Config.Validity.{
  TaskRefers, IsValid, each_entry-has, each_entry-All, each-All, same_value, task_refers,
}
use goal_router.Config.Reads.{
  match_refers, risk_refers, role_refers, IsChecked, IsParsed, validate_semantics-IsChecked,
  parse_router_config-IsParsed,
}

has_optional_same :
    {A B : Type 0}
    → (d : Dict A) (r : Dict B) → ((k : String) → Dict.has r k ≡ Dict.has d k)
    → (name : Option String) → has_optional r name ≡ has_optional d name
has_optional_same d r same none = refl
has_optional_same d r same (some name) = same name

module _ {P : Platform} (raw : Dict (JsonValue P)) (config : RouterConfig) (c : IsChecked raw)
    (p : IsParsed raw config) where
  same_aliases : c.aliases ≡ p.aliases_raw
  same_aliases = same_value (field raw "model-aliases" >>= mapping) c.read_aliases p.read_aliases

  same_tasks : c.tasks ≡ p.tasks_raw
  same_tasks = same_value (field raw "tasks" >>= mapping) c.read_tasks p.read_tasks

  has_alias : (k : String) → Dict.has p.aliases k ≡ Dict.has p.aliases_raw k
  has_alias =
      each_entry-has (λ name. in_mapping (parse_model_alias name)) p.aliases_raw p.aliases
        p.each_alias

  has_task : (k : String) → Dict.has p.tasks k ≡ Dict.has p.tasks_raw k
  has_task =
      each_entry-has (λ name. in_mapping (parse_task_policy name)) p.tasks_raw p.tasks p.each_task

  has_role :
      (name : String) {task : String}
      → check_role raw c.tasks name ≡ ok tt
      → string raw name ≡ ok task
      → Dict.has config.tasks task ≡ true
  has_role name {task} h k =
      ap (λ (d : Dict TaskPolicy). Dict.has d task) p.entries.tasks'
      ∙ has_task task
      ∙ role_refers raw p.tasks_raw name
          (subst (λ (d : Dict (JsonValue P)). check_role raw d name ≡ ok tt) same_tasks h) k

  tasks_refer : All (TaskRefers p.aliases p.tasks) (values p.tasks)
  tasks_refer =
      each_entry-All (λ name. in_mapping (parse_task_policy name)) (check_task c.aliases c.tasks)
        (TaskRefers p.aliases p.tasks)
        (λ k x y h r.
          let (f, g) = task_refers c.aliases c.tasks k x y h r in
          (
            has_alias y.model_alias
                ∙ ap (λ (d : Dict (JsonValue P)). Dict.has d y.model_alias) (sym same_aliases)
                ∙ f,
            has_optional_same p.tasks_raw p.tasks has_task y.escalate_to
                ∙ ap (λ (d : Dict (JsonValue P)). has_optional d y.escalate_to) (sym same_tasks)
                ∙ g,
          ))
        p.tasks_raw p.tasks
        (subst
          (λ (d : Dict (JsonValue P)). check_each (check_task c.aliases c.tasks) (values d) ≡ ok tt)
          same_tasks c.each_task)
        p.each_task

  rules_refer : All (λ (r : MatchRule). Dict.has p.tasks r.task ≡ true) p.matching
  rules_refer =
      each-All (check_matching c.tasks) (in_mapping parse_match_rule)
        (λ (r : MatchRule). Dict.has p.tasks r.task ≡ true)
        (λ x y h r.
          has_task y.task
          ∙ ap (λ (d : Dict (JsonValue P)). Dict.has d y.task) (sym same_tasks)
          ∙ match_refers c.tasks x y h r)
        p.rules p.matching
        (ap (check_each (check_matching c.tasks))
            (same_value (optional_sequence raw "matching") p.read_rules c.read_rules)
          ∙ c.each_rule)
        p.each_rule

  risks_refer :
      All
        (λ (r : HardRiskRule). has_optional p.aliases r.minimum_model_alias ≡ true)
        p.hard_risk_rules
  risks_refer =
      each-All (check_hard_risk c.aliases) (in_mapping parse_hard_risk_rule)
        (λ (r : HardRiskRule). has_optional p.aliases r.minimum_model_alias ≡ true)
        (λ x y h r.
          has_optional_same p.aliases_raw p.aliases has_alias y.minimum_model_alias
          ∙ ap (λ (d : Dict (JsonValue P)). has_optional d y.minimum_model_alias) (sym same_aliases)
          ∙ risk_refers c.aliases x y h r)
        p.risks p.hard_risk_rules
        (ap (check_each (check_hard_risk c.aliases))
            (same_value (optional_sequence raw "hard-risk-rules") p.read_risks c.read_risks)
          ∙ c.each_risk)
        p.each_risk

  loaded-IsValid : IsValid config
  loaded-IsValid = record {
    default_task = has_role "default-task" c.default_task p.entries.default_task;
    planner_task = has_role "planner-task" c.planner_task p.entries.planner_task;
    completion_task = has_role "completion-task" c.completion_task p.entries.completion_task;
    tasks =
        subst (λ (d : Dict TaskPolicy). All (TaskRefers config.model_aliases d) (values d))
          (sym p.entries.tasks')
          (subst (λ (d : Dict ModelAlias). All (TaskRefers d p.tasks) (values p.tasks))
            (sym p.entries.model_aliases) tasks_refer);
    matching =
        subst (All (λ (r : MatchRule). Dict.has config.tasks r.task ≡ true))
          (sym p.entries.matching')
          (subst
            (λ (d : Dict TaskPolicy). All (λ (r : MatchRule). Dict.has d r.task ≡ true) p.matching)
            (sym p.entries.tasks') rules_refer);
    hard_risk_rules =
        subst
          (All
            (λ (r : HardRiskRule). has_optional config.model_aliases r.minimum_model_alias ≡ true))
          (sym p.entries.hard_risk_rules')
          (subst
            (λ (d : Dict ModelAlias).
              All (λ (r : HardRiskRule). has_optional d r.minimum_model_alias ≡ true)
                p.hard_risk_rules)
            (sym p.entries.model_aliases) risks_refer);
  }

module _ {P : Platform} (read_yaml : FilePath → Option (JsonValue P × String))
    (validate_json_schema : Dict (JsonValue P) → Result (Unit {0})) where
  check_and_parse-IsValid :
      (found : Option (JsonValue P × String)) (config : RouterConfig)
      → check_and_parse read_yaml validate_json_schema found ≡ ok config
      → IsValid config
  unfolding check_and_parse
  check_and_parse-IsValid none config h = cc
  check_and_parse-IsValid (some (loaded, digest)) config h =
      let (raw, _, h1) = >>=-eq-ok (mapping loaded) _ h in
      let (_, _, h2) = >>=-eq-ok (validate_json_schema raw) _ h1 in
      let (_, checked, parsed) = >>=-eq-ok (validate_semantics raw) _ h2 in
      loaded-IsValid raw config (validate_semantics-IsChecked raw checked)
        (parse_router_config-IsParsed raw digest config parsed)

  -- In a configuration that loads, every task that is named has an entry: the three roles, the
  -- escalations and the tasks of the matching rules; and so has every model alias that a task or a
  -- hard-risk rule names.
  pub load_router_config-IsValid :
      (path : FilePath) (config : RouterConfig)
      → load_router_config read_yaml validate_json_schema path ≡ ok config
      → IsValid config
  unfolding load_router_config
  load_router_config-IsValid path config h = check_and_parse-IsValid (read_yaml path) config h
