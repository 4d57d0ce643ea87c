-- ===== src/Tests/Configuration.antt =====
-- A configuration file with two aliases, a task, a matching rule and a hard-risk rule.
use goal_router.Common.{String, true, Option, some, none, ◌≡◌, refl, [], ◌∷◌}
use goal_router.Common.Integers.{ℤ, pos}
use goal_router.Errors.{ok}
use goal_router.Domain.Json.{JsonValue, str, int, list, dict}
use goal_router.Domain.FilePath.{FilePath}
use goal_router.Domain.Policy.{MatchRule}
use goal_router.Domain.RouteDecision.{RouteDecision}
use goal_router.Config.{RouterConfig}
use goal_router.Config.Parse.{load_router_config}
use goal_router.Config.Validity.{IsValid}
use goal_router.Config.Loaded.{load_router_config-IsValid}
use goal_router.Routing.{route}
use goal_router.Routing.Total.{route-total}
use goal_router.Samples.{platform, config, config_file, item}

abbrev alias_value : String → String → ℤ → JsonValue platform
alias_value model effort rank =
    dict (("model", str model) ∷ ("reasoning-effort", str effort) ∷ ("rank", int rank) ∷ [])

abbrev file : JsonValue platform
file = dict (
    ("schema-version", int (pos 1))
    ∷ ("default-task", str "coding")
    ∷ ("planner-task", str "coding")
    ∷ ("completion-task", str "coding")
    ∷ ("maximum-read-concurrency", int (pos 2))
    ∷ ("repository-inspection-timeout-seconds", int (pos 5))
    ∷ (
      "model-aliases",
      dict (
          ("cheap", alias_value "small" "low" (pos 1))
          ∷ ("strong", alias_value "large" "high" (pos 2))
          ∷ []),
    )
    ∷ (
      "tasks",
      dict (
          (
            "coding",
            dict (
                ("description", str "write code")
                ∷ ("model-alias", str "cheap")
                ∷ ("sandbox", str "workspace-write")
                ∷ ("approval", str "automatic")
                ∷ ("timeout-seconds", int (pos 60))
                ∷ ("max-attempts", int (pos 1))
                ∷ []),
          )
          ∷ []),
    )
    ∷ (
      "matching",
      list (dict (("task", str "coding") ∷ ("phrases", list (str "cache" ∷ [])) ∷ []) ∷ []),
    )
    ∷ (
      "hard-risk-rules",
      list (
          dict (
            ("flag", str "security")
            ∷ ("minimum-model-alias", str "strong")
            ∷ ("approval", str "required")
            ∷ [])
          ∷ []),
    )
    ∷ [])

abbrev cache_rule : MatchRule
cache_rule = record { task = "coding"; phrases = "cache" ∷ []; file_globs = [] }

abbrev loaded : RouterConfig
loaded = record config { matching = cache_rule ∷ [] }

abbrev read_yaml : FilePath → Option (JsonValue platform × String)
read_yaml path = some (file, "d")

is_loaded : load_router_config read_yaml (λ raw. ok tt) config_file ≡ ok loaded
unfolding load_router_config goal_router.Config.Fields.mapping goal_router.Config.Fields.field
    goal_router.Config.Fields.integer goal_router.Config.Fields.string
    goal_router.Config.Fields.optional_string goal_router.Config.Fields.optional_sequence
    goal_router.Config.Fields.each_entry goal_router.Config.Fields.enum
    goal_router.Config.Fields.optional_boolean goal_router.Config.Fields.strings
    goal_router.Config.Semantics.validate_semantics goal_router.Config.Semantics.check_ranks
    goal_router.Config.Semantics.check_role goal_router.Config.Semantics.check_each
    goal_router.Config.Semantics.check_task goal_router.Config.Semantics.check_matching
    goal_router.Config.Semantics.check_hard_risk goal_router.Config.Parse.parse_router_config
    goal_router.Config.Parse.check_and_parse goal_router.Config.Parse.optional_approval
    goal_router.Config.Parse.parse_hard_risk_rule goal_router.Config.Parse.parse_match_rule
    goal_router.Config.Parse.parse_model_alias goal_router.Config.Parse.parse_task_policy
    goal_router.Config.Parse.with_entries goal_router.Common.Dict.get goal_router.Common.Dict.has
    goal_router.Domain.Enums.of_value goal_router.Domain.Fields.each
is_loaded = refl

load_router_config-IsValid_example : IsValid loaded
load_router_config-IsValid_example =
    load_router_config-IsValid read_yaml (λ raw. ok tt) config_file loaded is_loaded

route-total_example : (d : RouteDecision) × (route loaded item none ≡ ok d)
unfolding goal_router.Common.Dict.has
route-total_example = route-total loaded load_router_config-IsValid_example item none refl
