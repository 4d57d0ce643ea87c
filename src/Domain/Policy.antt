-- ===== src/Domain/Policy.antt =====
-- src/goalrouter/domain.py: the parsed entries of the routing configuration.
use goal_router.Common.{String, Bool, Option, List}
use goal_router.Common.Integers.{ℤ}
use goal_router.Domain.Enums.{SandboxMode, ApprovalMode}

pub record ModelAlias : Type 0 where
  pub name : String
  pub model : String
  pub reasoning_effort : String
  pub rank : ℤ

pub record TaskPolicy : Type 0 where
  pub task : String
  pub description : String
  pub model_alias : String
  pub sandbox : SandboxMode
  pub approval : ApprovalMode
  pub timeout_seconds : ℤ
  pub max_attempts : ℤ
  pub destructive : Bool
  pub external_write : Bool
  pub escalate_to : Option String

pub record MatchRule : Type 0 where
  pub task : String
  pub phrases : List String
  pub file_globs : List String

pub record HardRiskRule : Type 0 where
  pub flag : String
  pub minimum_model_alias : Option String
  pub approval : Option ApprovalMode
