-- ===== src/Config.antt =====
-- src/goalrouter/config.py: the parsed routing configuration.
pub mod Fields
pub mod Semantics
pub mod Parse
pub mod Validity
pub mod Reads
pub mod Loaded
use goal_router.Common.{String, List}
use goal_router.Common.Integers.{ℤ}
use goal_router.Common.Dict.{Dict}
use goal_router.Domain.Policy.{ModelAlias, TaskPolicy, MatchRule, HardRiskRule}

pub record RouterConfig : Type 0 where
  pub schema_version : ℤ
  pub default_task : String
  pub planner_task : String
  pub completion_task : String
  pub maximum_read_concurrency : ℤ
  pub repository_inspection_timeout_seconds : ℤ
  pub model_aliases : Dict ModelAlias
  pub tasks : Dict TaskPolicy
  pub matching : List MatchRule
  pub hard_risk_rules : List HardRiskRule
  pub digest : String
