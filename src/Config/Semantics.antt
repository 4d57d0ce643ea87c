-- ===== src/Config/Semantics.antt =====
-- src/goalrouter/config.py: `_validate_semantics`, the checks across entries that the JSON schema
-- cannot express. The names in `ranks` are for the message only, so `ranks` is a list of its keys.
use goal_router.Common.{String, Bool, true, not, Option, none, some, List, [], ◌∷◌, any}
use goal_router.Common.Integers.{ℤ, pos, leb_ℤ, eqb_ℤ}
use goal_router.Common.Dict
use goal_router.Common.Dict.{Dict}
use goal_router.Errors.{Result, ok, configuration_error, ◌>>=◌, ◌>>◌, guard}
use goal_router.Domain.Platform.{Platform}
use goal_router.Domain.Json.{JsonValue}
use goal_router.Config.Fields.{field, mapping, string, optional_string, integer, optional_sequence}

-- `name is None or name in d`
abbrev pub has_optional : {V : Type 0} → Dict V → Option String → Bool
has_optional d none = true
has_optional d (some name) = Dict.has d name

-- a `for` loop whose body only raises
unfoldable pub check_each : {A : Type 0} → (A → Result (Unit {0})) → List A → Result (Unit {0})
check_each check [] = ok tt
check_each check (x ∷ xs) = do check x; check_each check xs

module _ {P : Platform} where
  -- the loop over `aliases`, with the ranks seen so far
  unfoldable pub check_ranks : List ℤ → Dict (JsonValue P) → Result (Unit {0})
  check_ranks ranks [] = ok tt
  check_ranks ranks ((name, alias_value) ∷ rest) = do
    alias ← mapping alias_value
    rank ← integer alias "rank"
    guard (not (leb_ℤ rank (pos 0))) configuration_error
    guard (not (any (eqb_ℤ rank) ranks)) configuration_error
    check_ranks (rank ∷ ranks) rest

  unfoldable pub check_role : Dict (JsonValue P) → Dict (JsonValue P) → String → Result (Unit {0})
  check_role raw tasks name = do
    task_name ← string raw name
    guard (Dict.has tasks task_name) configuration_error

  unfoldable pub check_task :
      Dict (JsonValue P) → Dict (JsonValue P) → JsonValue P → Result (Unit {0})
  check_task aliases tasks task_value = do
    task ← mapping task_value
    alias_name ← string task "model-alias"
    guard (Dict.has aliases alias_name) configuration_error
    escalation ← optional_string task "escalate-to"
    guard (has_optional tasks escalation) configuration_error

  unfoldable pub check_matching : Dict (JsonValue P) → JsonValue P → Result (Unit {0})
  check_matching tasks rule_value = do
    rule ← mapping rule_value
    task_name ← string rule "task"
    guard (Dict.has tasks task_name) configuration_error

  unfoldable pub check_hard_risk : Dict (JsonValue P) → JsonValue P → Result (Unit {0})
  check_hard_risk aliases rule_value = do
    rule ← mapping rule_value
    risk_alias ← optional_string rule "minimum-model-alias"
    guard (has_optional aliases risk_alias) configuration_error

  unfoldable pub validate_semantics : Dict (JsonValue P) → Result (Unit {0})
  validate_semantics raw = do
    aliases_value ← field raw "model-aliases"
    aliases ← mapping aliases_value
    tasks_value ← field raw "tasks"
    tasks ← mapping tasks_value
    check_ranks [] aliases
    check_role raw tasks "default-task"
    check_role raw tasks "planner-task"
    check_role raw tasks "completion-task"
    check_each (check_task aliases tasks) (Dict.values tasks)
    rules ← optional_sequence raw "matching"
    check_each (check_matching tasks) rules
    risks ← optional_sequence raw "hard-risk-rules"
    check_each (check_hard_risk aliases) risks
