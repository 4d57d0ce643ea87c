-- ===== src/Config/Reads.antt =====
-- config.py: what `_validate_semantics` and `_parse_router_config` read, and each check beside the
-- reading of the same value.
use goal_router.Common.{String, true, List, [], ◌≡◌, sym, ap, ◌∙◌}
use goal_router.Common.Dict
use goal_router.Common.Dict.{Dict, values}
use goal_router.Errors.{bind-ok, ok, ◌>>=◌, guard-eq-ok, >>=-eq-ok, ok-injective}
use goal_router.Domain.Platform.{Platform}
use goal_router.Domain.Json.{JsonValue}
use goal_router.Domain.Fields.{each}
use goal_router.Domain.Policy.{ModelAlias, TaskPolicy, MatchRule, HardRiskRule}
use goal_router.Config.{RouterConfig}
use goal_router.Config.Fields.{
  field, mapping, string, optional_string, integer, optional_sequence, each_entry, strings,
}
use goal_router.Config.Semantics.{
  has_optional, check_each, check_ranks, check_role, check_task, check_matching, check_hard_risk,
  validate_semantics,
}
use goal_router.Config.Parse.{
  optional_approval, parse_model_alias, parse_task_policy, parse_match_rule, parse_hard_risk_rule,
  in_mapping, parse_router_config, with_entries,
}
use goal_router.Config.Validity.{same_value}

module _ {P : Platform} where
  pub match_refers :
      (tasks : Dict (JsonValue P)) (x : JsonValue P) (rule : MatchRule)
      → check_matching tasks x ≡ ok tt
      → in_mapping parse_match_rule x ≡ ok rule
      → Dict.has tasks rule.task ≡ true
  unfolding check_matching parse_match_rule
  match_refers tasks x rule c h =
      let (raw, found, h1) = >>=-eq-ok (mapping x) parse_match_rule h in
      let (task, read_task, h2) = >>=-eq-ok (string raw "task") _ h1 in
      let (phrase_values, _, h3) = >>=-eq-ok (optional_sequence raw "phrases") _ h2 in
      let (_, _, h4) = >>=-eq-ok (strings phrase_values) _ h3 in
      let (glob_values, _, h5) = >>=-eq-ok (optional_sequence raw "file-globs") _ h4 in
      let (_, _, h6) = >>=-eq-ok (strings glob_values) _ h5 in
      let (raw', found', c1) = >>=-eq-ok (mapping x) _ c in
      let (task', read_task', known) = >>=-eq-ok (string raw' "task") _ c1 in
      let same = same_value (mapping x) found' found in
      let f =
        same_value (string raw "task")
          (ap (λ (r : Dict (JsonValue P)). string r "task") (sym same) ∙ read_task') read_task in
      ap (Dict.has tasks) (ap (λ (r : MatchRule). r.task) (sym (ok-injective h6)) ∙ sym f)
      ∙ guard-eq-ok _ _ known

  pub risk_refers :
      (aliases : Dict (JsonValue P)) (x : JsonValue P) (rule : HardRiskRule)
      → check_hard_risk aliases x ≡ ok tt
      → in_mapping parse_hard_risk_rule x ≡ ok rule
      → has_optional aliases rule.minimum_model_alias ≡ true
  unfolding check_hard_risk parse_hard_risk_rule
  risk_refers aliases x rule c h =
      let (raw, found, h1) = >>=-eq-ok (mapping x) parse_hard_risk_rule h in
      let (approval_raw, _, h2) = >>=-eq-ok (optional_string raw "approval") _ h1 in
      let (_, _, h3) = >>=-eq-ok (string raw "flag") _ h2 in
      let (alias, read_alias, h4) = >>=-eq-ok (optional_string raw "minimum-model-alias") _ h3 in
      let (_, _, h5) = >>=-eq-ok (optional_approval approval_raw) _ h4 in
      let (raw', found', c1) = >>=-eq-ok (mapping x) _ c in
      let (alias', read_alias', known) =
        >>=-eq-ok (optional_string raw' "minimum-model-alias") _ c1 in
      let same = same_value (mapping x) found' found in
      let f =
        same_value (optional_string raw "minimum-model-alias")
          (ap (λ (r : Dict (JsonValue P)). optional_string r "minimum-model-alias") (sym same)
            ∙ read_alias')
          read_alias in
      ap (has_optional aliases)
        (ap (λ (r : HardRiskRule). r.minimum_model_alias) (sym (ok-injective h5)) ∙ sym f)
      ∙ guard-eq-ok _ _ known

  pub role_refers :
      (raw tasks : Dict (JsonValue P)) (name : String) {task : String}
      → check_role raw tasks name ≡ ok tt
      → string raw name ≡ ok task
      → Dict.has tasks task ≡ true
  unfolding check_role
  role_refers raw tasks name c h =
      let (task', read_task, known) = >>=-eq-ok (string raw name) _ c in
      ap (Dict.has tasks) (same_value (string raw name) h read_task) ∙ guard-eq-ok _ _ known

  -- What `validate_semantics` has checked, with the values that it read.
  pub record IsChecked (raw : Dict (JsonValue P)) : Type 0 where
    pub aliases : Dict (JsonValue P)
    pub tasks : Dict (JsonValue P)
    pub rules : List (JsonValue P)
    pub risks : List (JsonValue P)
    pub read_aliases : (field raw "model-aliases" >>= mapping) ≡ ok aliases
    pub read_tasks : (field raw "tasks" >>= mapping) ≡ ok tasks
    pub default_task : check_role raw tasks "default-task" ≡ ok tt
    pub planner_task : check_role raw tasks "planner-task" ≡ ok tt
    pub completion_task : check_role raw tasks "completion-task" ≡ ok tt
    pub each_task : check_each (check_task aliases tasks) (values tasks) ≡ ok tt
    pub read_rules : optional_sequence raw "matching" ≡ ok rules
    pub each_rule : check_each (check_matching tasks) rules ≡ ok tt
    pub read_risks : optional_sequence raw "hard-risk-rules" ≡ ok risks
    pub each_risk : check_each (check_hard_risk aliases) risks ≡ ok tt

  pub validate_semantics-IsChecked :
      (raw : Dict (JsonValue P)) → validate_semantics raw ≡ ok tt → IsChecked raw
  unfolding validate_semantics
  validate_semantics-IsChecked raw c =
      let (value, found, c1) = >>=-eq-ok (field raw "model-aliases") _ c in
      let (aliases', mapped, c2) = >>=-eq-ok (mapping value) _ c1 in
      let (value', found', c3) = >>=-eq-ok (field raw "tasks") _ c2 in
      let (tasks', mapped', c4) = >>=-eq-ok (mapping value') _ c3 in
      let (_, _, c5) = >>=-eq-ok (check_ranks [] aliases') _ c4 in
      let (_, default', c6) = >>=-eq-ok (check_role raw tasks' "default-task") _ c5 in
      let (_, planner', c7) = >>=-eq-ok (check_role raw tasks' "planner-task") _ c6 in
      let (_, completion', c8) = >>=-eq-ok (check_role raw tasks' "completion-task") _ c7 in
      let (_, each', c9) =
        >>=-eq-ok (check_each (check_task aliases' tasks') (values tasks')) _ c8 in
      let (rules', read', c10) = >>=-eq-ok (optional_sequence raw "matching") _ c9 in
      let (_, matched, c11) = >>=-eq-ok (check_each (check_matching tasks') rules') _ c10 in
      let (risks', read'', c12) = >>=-eq-ok (optional_sequence raw "hard-risk-rules") _ c11 in
      record {
        aliases = aliases';
        tasks = tasks';
        rules = rules';
        risks = risks';
        read_aliases = bind-ok (field raw "model-aliases") mapping found mapped;
        read_tasks = bind-ok (field raw "tasks") mapping found' mapped';
        default_task = default';
        planner_task = planner';
        completion_task = completion';
        each_task = each';
        read_rules = read';
        each_rule = matched;
        read_risks = read'';
        each_risk = c12;
      }

  pub record HasEntries (raw : Dict (JsonValue P)) (aliases : Dict ModelAlias)
      (tasks : Dict TaskPolicy) (matching : List MatchRule) (hard_risk_rules : List HardRiskRule)
      (config : RouterConfig) : Type 0 where
    pub default_task : string raw "default-task" ≡ ok config.default_task
    pub planner_task : string raw "planner-task" ≡ ok config.planner_task
    pub completion_task : string raw "completion-task" ≡ ok config.completion_task
    pub model_aliases : config.model_aliases ≡ aliases
    pub tasks' : config.tasks ≡ tasks
    pub matching' : config.matching ≡ matching
    pub hard_risk_rules' : config.hard_risk_rules ≡ hard_risk_rules

  with_entries-HasEntries :
      (raw : Dict (JsonValue P)) (digest : String) (aliases : Dict ModelAlias)
      (tasks : Dict TaskPolicy) (matching : List MatchRule) (hard_risk_rules : List HardRiskRule)
      (config : RouterConfig)
      → with_entries raw digest aliases tasks matching hard_risk_rules ≡ ok config
      → HasEntries raw aliases tasks matching hard_risk_rules config
  unfolding with_entries
  with_entries-HasEntries raw digest aliases tasks matching hard_risk_rules config h =
      let (_, _, h1) = >>=-eq-ok (integer raw "schema-version") _ h in
      let (_, default', h2) = >>=-eq-ok (string raw "default-task") _ h1 in
      let (_, planner', h3) = >>=-eq-ok (string raw "planner-task") _ h2 in
      let (_, completion', h4) = >>=-eq-ok (string raw "completion-task") _ h3 in
      let (_, _, h5) = >>=-eq-ok (integer raw "maximum-read-concurrency") _ h4 in
      let (_, _, h6) = >>=-eq-ok (integer raw "repository-inspection-timeout-seconds") _ h5 in
      let e = ok-injective h6 in
      record {
        default_task = default' ∙ ap (λ (c : RouterConfig). ok c.default_task) e;
        planner_task = planner' ∙ ap (λ (c : RouterConfig). ok c.planner_task) e;
        completion_task = completion' ∙ ap (λ (c : RouterConfig). ok c.completion_task) e;
        model_aliases = ap (λ (c : RouterConfig). c.model_aliases) (sym e);
        tasks' = ap (λ (c : RouterConfig). c.tasks) (sym e);
        matching' = ap (λ (c : RouterConfig). c.matching) (sym e);
        hard_risk_rules' = ap (λ (c : RouterConfig). c.hard_risk_rules) (sym e);
      }

  -- What `parse_router_config` has read.
  pub record IsParsed (raw : Dict (JsonValue P)) (config : RouterConfig) : Type 0 where
    pub aliases_raw : Dict (JsonValue P)
    pub tasks_raw : Dict (JsonValue P)
    pub rules : List (JsonValue P)
    pub risks : List (JsonValue P)
    pub aliases : Dict ModelAlias
    pub tasks : Dict TaskPolicy
    pub matching : List MatchRule
    pub hard_risk_rules : List HardRiskRule
    pub read_aliases : (field raw "model-aliases" >>= mapping) ≡ ok aliases_raw
    pub read_tasks : (field raw "tasks" >>= mapping) ≡ ok tasks_raw
    pub each_alias :
        each_entry (λ name. in_mapping (parse_model_alias name)) aliases_raw ≡ ok aliases
    pub each_task : each_entry (λ name. in_mapping (parse_task_policy name)) tasks_raw ≡ ok tasks
    pub read_rules : optional_sequence raw "matching" ≡ ok rules
    pub each_rule : each (in_mapping parse_match_rule) rules ≡ ok matching
    pub read_risks : optional_sequence raw "hard-risk-rules" ≡ ok risks
    pub each_risk : each (in_mapping parse_hard_risk_rule) risks ≡ ok hard_risk_rules
    pub entries : HasEntries raw aliases tasks matching hard_risk_rules config

  pub parse_router_config-IsParsed :
      (raw : Dict (JsonValue P)) (digest : String) (config : RouterConfig)
      → parse_router_config raw digest ≡ ok config
      → IsParsed raw config
  unfolding parse_router_config
  parse_router_config-IsParsed raw digest config h =
      let (value, found, h1) = >>=-eq-ok (field raw "model-aliases") _ h in
      let (aliases_raw', mapped, h2) = >>=-eq-ok (mapping value) _ h1 in
      let (value', found', h3) = >>=-eq-ok (field raw "tasks") _ h2 in
      let (tasks_raw', mapped', h4) = >>=-eq-ok (mapping value') _ h3 in
      let (aliases', a, h5) =
        >>=-eq-ok (each_entry (λ name. in_mapping (parse_model_alias name)) aliases_raw') _ h4 in
      let (tasks', t, h6) =
        >>=-eq-ok (each_entry (λ name. in_mapping (parse_task_policy name)) tasks_raw') _ h5 in
      let (rules', r, h7) = >>=-eq-ok (optional_sequence raw "matching") _ h6 in
      let (matching', m, h8) = >>=-eq-ok (each (in_mapping parse_match_rule) rules') _ h7 in
      let (risks', k, h9) = >>=-eq-ok (optional_sequence raw "hard-risk-rules") _ h8 in
      let (hard_risk_rules', j, h10) =
        >>=-eq-ok (each (in_mapping parse_hard_risk_rule) risks') _ h9 in
      record {
        aliases_raw = aliases_raw';
        tasks_raw = tasks_raw';
        rules = rules';
        risks = risks';
        aliases = aliases';
        tasks = tasks';
        matching = matching';
        hard_risk_rules = hard_risk_rules';
        read_aliases = bind-ok (field raw "model-aliases") mapping found mapped;
        read_tasks = bind-ok (field raw "tasks") mapping found' mapped';
        each_alias = a;
        each_task = t;
        read_rules = r;
        each_rule = m;
        read_risks = k;
        each_risk = j;
        entries =
            with_entries-HasEntries raw digest aliases' tasks' matching' hard_risk_rules' config
              h10;
      }
