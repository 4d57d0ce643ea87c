-- ===== src/Samples.antt =====
-- The data that the tests run on: a platform, a configuration, an item, a route and two runs.
use goal_router.Domain.ApprovalRecord.{ApprovalRecord}
use goal_router.Common.{ℕ, String, true, false, none, some, [], ◌∷◌, ◌==◌}
use goal_router.Common.Integers.{ℤ, pos}
use goal_router.Domain.Platform.{Platform}
use goal_router.Domain.Json.{JsonValue, str, int, list, dict}
use goal_router.Domain.FilePath.{FilePath}
use goal_router.Domain.Enums.{SandboxMode, ApprovalMode, AccessMode, RunStatus, RouteSource}
use goal_router.Domain.Objective.{Objective}
use goal_router.Domain.RepositoryContext.{RepositoryContext}
use goal_router.Domain.WorkItem.{WorkItem}
use goal_router.Domain.RouteDecision.{RouteDecision}
use goal_router.Domain.RunState.{RunState}
use goal_router.Domain.Policy.{ModelAlias, TaskPolicy, HardRiskRule}
use goal_router.Config.{RouterConfig}

abbrev pub nat_of : ℤ → ℕ
nat_of (pos n) = n
nat_of _ = 0

-- Times are texts and floats are numbers.
abbrev pub platform : Platform
platform = record {
  Float = ℕ;
  float_zero = 0;
  float_one = 1;
  float_of_int = λ n. some (nat_of n);
  Datetime = String;
  isoformat = λ t. t;
  fromisoformat = λ t. some t;
  is_aware = λ t. true;
  casefold = λ s. s;
  strip = λ s. s;
  repr = λ s. s;
  decimal = λ n. "0";
  fnmatch = λ name pattern. name == pattern;
}

abbrev pub project : FilePath
project = record { root = "/"; parts = "app" ∷ [] }

abbrev pub config_file : FilePath
config_file = record { root = "/"; parts = "etc" ∷ [] }

abbrev pub objective : Objective platform
objective = record {
  id = "run-1";
  prompt = "add a cache";
  project_path = project;
  explicit_task = none;
  config_path = config_file;
  created_at = "2025-01-01";
}

abbrev pub repository : RepositoryContext
repository = record {
  project_path = project;
  is_git_worktree = true;
  branch = some "main";
  dirty_paths = [];
  instruction_files = [];
  language_counts = [];
  docker_files = [];
  command_errors = [];
}

abbrev pub cheap : ModelAlias
cheap = record { name = "cheap"; model = "small"; reasoning_effort = "low"; rank = pos 1 }

abbrev pub strong : ModelAlias
strong = record { name = "strong"; model = "large"; reasoning_effort = "high"; rank = pos 2 }

abbrev pub coding : TaskPolicy
coding = record {
  task = "coding";
  description = "write code";
  model_alias = "cheap";
  sandbox = SandboxMode.workspace_write;
  approval = ApprovalMode.automatic;
  timeout_seconds = pos 60;
  max_attempts = pos 1;
  destructive = false;
  external_write = false;
  escalate_to = none;
}

abbrev pub security_rule : HardRiskRule
security_rule = record {
  flag = "security";
  minimum_model_alias = some "strong";
  approval = some ApprovalMode.required;
}

abbrev pub config : RouterConfig
config = record {
  schema_version = pos 1;
  default_task = "coding";
  planner_task = "coding";
  completion_task = "coding";
  maximum_read_concurrency = pos 2;
  repository_inspection_timeout_seconds = pos 5;
  model_aliases = ("cheap", cheap) ∷ ("strong", strong) ∷ [];
  tasks = ("coding", coding) ∷ [];
  matching = [];
  hard_risk_rules = security_rule ∷ [];
  digest = "d";
}

abbrev pub item : WorkItem platform
item = record {
  id = "a";
  title = "Cache";
  instructions = "add it";
  task = "coding";
  phase = "build";
  dependencies = [];
  access = AccessMode.workspace_write;
  affected_paths = [];
  expected_result = "a cache";
  verification = "pytest" ∷ [];
  confidence = 1;
  risk_flags = "security" ∷ [];
}

abbrev pub decision : RouteDecision
decision = record {
  task = "coding";
  model_alias = "strong";
  model = "large";
  reasoning_effort = "high";
  sandbox = SandboxMode.workspace_write;
  approval = ApprovalMode.required;
  timeout_seconds = pos 60;
  max_attempts = pos 1;
  destructive = false;
  external_write = false;
  escalation_task = none;
  source = RouteSource.explicit;
  reason = "chosen";
}

-- A run of one item that waits for approval.
abbrev pub waiting : RunState platform
waiting = record {
  schema_version = pos 1;
  configuration_digest = "d";
  objective = objective;
  repository = repository;
  work_items = ("a", item) ∷ [];
  routes = ("a", decision) ∷ [];
  results = [];
  approvals = [];
  status = RunStatus.planned;
}

-- A planner's response with one item.
abbrev pub planned_item : JsonValue platform
planned_item = dict (
    ("id", str "a")
    ∷ ("task", str "coding")
    ∷ ("access", str "workspace-write")
    ∷ ("verification", list (str "pytest" ∷ []))
    ∷ ("affected-paths", list (str "src/cache.py" ∷ []))
    ∷ ("title", str "Cache")
    ∷ ("instructions", str "add it")
    ∷ ("phase", str "build")
    ∷ ("dependencies", list [])
    ∷ ("expected-result", str "a cache")
    ∷ ("confidence", int (pos 1))
    ∷ ("risk-flags", list (str "security" ∷ []))
    ∷ [])

abbrev pub digest : JsonValue platform → String
digest j = "x"

abbrev pub approval : ApprovalRecord platform
approval = record {
  run_id = "run-1";
  work_item_id = "a";
  approved_by = "ada";
  approved_at = "2025-01-02";
  configuration_digest = "d";
  fingerprint = "x";
}

-- The same run with the item approved.
abbrev pub approved : RunState platform
approved = record waiting { approvals = ("a", approval) ∷ [] }
