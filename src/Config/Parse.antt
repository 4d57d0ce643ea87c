-- ===== src/Config/Parse.antt =====
-- src/goalrouter/config.py: `_parse_router_config` and `load_router_config`. Reading the file and
-- decoding its YAML, the digest of its bytes and the JSON schema are parameters.
use goal_router.Common.{String, false, Option, none, some, List}
use goal_router.Common.Dict.{Dict}
use goal_router.Errors.{Result, ok, err, configuration_error, ◌>>=◌, ◌>>◌}
use goal_router.Domain.Platform.{Platform}
use goal_router.Domain.Json.{JsonValue}
use goal_router.Domain.FilePath.{FilePath}
use goal_router.Domain.Enums.{ApprovalMode, sandbox_mode_enum, approval_mode_enum}
use goal_router.Domain.Fields.{each}
use goal_router.Domain.Policy.{ModelAlias, TaskPolicy, MatchRule, HardRiskRule}
use goal_router.Config.{RouterConfig}
use goal_router.Config.Fields.{
  field, mapping, string, strings, optional_string, optional_boolean, integer, optional_sequence,
  enum, each_entry,
}
use goal_router.Config.Semantics.{validate_semantics}

-- `ApprovalMode(approval) if approval is not None else None`
unfoldable pub optional_approval : Option String → Result (Option ApprovalMode)
optional_approval none = ok none
optional_approval (some raw) = do mode ← enum raw; ok (some mode)

module _ {P : Platform} where
  unfoldable pub parse_model_alias : String → Dict (JsonValue P) → Result ModelAlias
  parse_model_alias name' raw = do
    model' ← string raw "model"
    reasoning_effort' ← string raw "reasoning-effort"
    rank' ← integer raw "rank"
    ok (record { name = name'; model = model'; reasoning_effort = reasoning_effort'; rank = rank' })

  unfoldable pub parse_task_policy : String → Dict (JsonValue P) → Result TaskPolicy
  parse_task_policy name raw = do
    description' ← string raw "description"
    model_alias' ← string raw "model-alias"
    sandbox_raw ← string raw "sandbox"
    sandbox' ← enum sandbox_raw
    approval_raw ← string raw "approval"
    approval' ← enum approval_raw
    timeout_seconds' ← integer raw "timeout-seconds"
    max_attempts' ← integer raw "max-attempts"
    destructive' ← optional_boolean raw "destructive" false
    external_write' ← optional_boolean raw "external-write" false
    escalate_to' ← optional_string raw "escalate-to"
    ok (record {
      task = name;
      description = description';
      model_alias = model_alias';
      sandbox = sandbox';
      approval = approval';
      timeout_seconds = timeout_seconds';
      max_attempts = max_attempts';
      destructive = destructive';
      external_write = external_write';
      escalate_to = escalate_to';
    })

  unfoldable pub parse_match_rule : Dict (JsonValue P) → Result MatchRule
  parse_match_rule raw = do
    task' ← string raw "task"
    phrase_values ← optional_sequence raw "phrases"
    phrases' ← strings phrase_values
    glob_values ← optional_sequence raw "file-globs"
    file_globs' ← strings glob_values
    ok (record { task = task'; phrases = phrases'; file_globs = file_globs' })

  unfoldable pub parse_hard_risk_rule : Dict (JsonValue P) → Result HardRiskRule
  parse_hard_risk_rule raw = do
    approval_raw ← optional_string raw "approval"
    flag' ← string raw "flag"
    minimum_model_alias' ← optional_string raw "minimum-model-alias"
    approval' ← optional_approval approval_raw
    ok (record { flag = flag'; minimum_model_alias = minimum_model_alias'; approval = approval' })

  -- `_parse_...(name, _mapping(value, ...))`
  abbrev pub in_mapping : {A : Type 0} → (Dict (JsonValue P) → Result A) → JsonValue P → Result A
  in_mapping read value = do raw ← mapping value; read raw

  -- the configuration, once its entries are parsed
  unfoldable pub with_entries :
      Dict (JsonValue P)
      → String
      → Dict ModelAlias
      → Dict TaskPolicy
      → List MatchRule
      → List HardRiskRule
      → Result RouterConfig
  with_entries raw digest' aliases tasks' matching' hard_risk_rules' = do
    schema_version' ← integer raw "schema-version"
    default_task' ← string raw "default-task"
    planner_task' ← string raw "planner-task"
    completion_task' ← string raw "completion-task"
    maximum_read_concurrency' ← integer raw "maximum-read-concurrency"
    timeout ← integer raw "repository-inspection-timeout-seconds"
    ok (record {
      schema_version = schema_version';
      default_task = default_task';
      planner_task = planner_task';
      completion_task = completion_task';
      maximum_read_concurrency = maximum_read_concurrency';
      repository_inspection_timeout_seconds = timeout;
      model_aliases = aliases;
      tasks = tasks';
      matching = matching';
      hard_risk_rules = hard_risk_rules';
      digest = digest';
    })

  unfoldable pub parse_router_config : Dict (JsonValue P) → String → Result RouterConfig
  parse_router_config raw digest = do
    aliases_value ← field raw "model-aliases"
    aliases_raw ← mapping aliases_value
    tasks_value ← field raw "tasks"
    tasks_raw ← mapping tasks_value
    aliases ← each_entry (λ name. in_mapping (parse_model_alias name)) aliases_raw
    tasks ← each_entry (λ name. in_mapping (parse_task_policy name)) tasks_raw
    rules ← optional_sequence raw "matching"
    matching ← each (in_mapping parse_match_rule) rules
    risks ← optional_sequence raw "hard-risk-rules"
    hard_risk_rules ← each (in_mapping parse_hard_risk_rule) risks
    with_entries raw digest aliases tasks matching hard_risk_rules

  -- `read_yaml` gives the decoded file and the digest of its bytes, or none when the file cannot be
  -- read or decoded; `validate_json_schema` is `ok` when the schema accepts the object.
  module _ (read_yaml : FilePath → Option (JsonValue P × String))
      (validate_json_schema : Dict (JsonValue P) → Result (Unit {0})) where
    -- after the `try` block
    unfoldable pub check_and_parse : Option (JsonValue P × String) → Result RouterConfig
    check_and_parse none = err configuration_error
    check_and_parse (some (loaded, digest)) = do
      raw ← mapping loaded
      validate_json_schema raw
      validate_semantics raw
      parse_router_config raw digest

    unfoldable pub load_router_config : FilePath → Result RouterConfig
    unfolding check_and_parse
    load_router_config path = check_and_parse (read_yaml path)
