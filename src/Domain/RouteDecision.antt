-- ===== src/Domain/RouteDecision.antt =====
-- src/goalrouter/domain.py: `RouteDecision`, its JSON object and the object read back.
use goal_router.Common.{String, Bool, Option, [], ◌∷◌}
use goal_router.Common.Integers.{ℤ}
use goal_router.Common.Dict.{Dict}
use goal_router.Errors.{Result, ok, ◌>>=◌}
use goal_router.Domain.Platform.{Platform}
use goal_router.Domain.Json.{JsonValue, str, bool, int, dict}
use goal_router.Domain.Enums.{
  SandboxMode, ApprovalMode, RouteSource, value, sandbox_mode_enum, approval_mode_enum,
  route_source_enum,
}
use goal_router.Domain.Fields.{string, optional_string, boolean, integer, enum}
use goal_router.Domain.Encoding.{optional}

pub record RouteDecision : Type 0 where
  pub task : String
  pub model_alias : String
  pub model : String
  pub reasoning_effort : String
  pub sandbox : SandboxMode
  pub approval : ApprovalMode
  pub timeout_seconds : ℤ
  pub max_attempts : ℤ
  pub destructive : Bool
  pub external_write : Bool
  pub escalation_task : Option String
  pub source : RouteSource
  pub reason : String

unfoldable pub fields : {P : Platform} → RouteDecision → Dict (JsonValue P)
fields x =
    ("task", str x.task)
    ∷ ("model_alias", str x.model_alias)
    ∷ ("model", str x.model)
    ∷ ("reasoning_effort", str x.reasoning_effort)
    ∷ ("sandbox", str (value x.sandbox))
    ∷ ("approval", str (value x.approval))
    ∷ ("timeout_seconds", int x.timeout_seconds)
    ∷ ("max_attempts", int x.max_attempts)
    ∷ ("destructive", bool x.destructive)
    ∷ ("external_write", bool x.external_write)
    ∷ ("escalation_task", optional x.escalation_task)
    ∷ ("source", str (value x.source))
    ∷ ("reason", str x.reason)
    ∷ []

abbrev pub to_dict : {P : Platform} → RouteDecision → JsonValue P
to_dict x = dict (fields x)

unfoldable pub from_dict : {P : Platform} → Dict (JsonValue P) → Result RouteDecision
unfolding boolean enum integer optional_string string
from_dict value = do
  task' ← string value "task"
  model_alias' ← string value "model_alias"
  model' ← string value "model"
  reasoning_effort' ← string value "reasoning_effort"
  sandbox' ← enum value "sandbox"
  approval' ← enum value "approval"
  timeout_seconds' ← integer value "timeout_seconds"
  max_attempts' ← integer value "max_attempts"
  destructive' ← boolean value "destructive"
  external_write' ← boolean value "external_write"
  escalation_task' ← optional_string value "escalation_task"
  source' ← enum value "source"
  reason' ← string value "reason"
  ok (record {
    task = task';
    model_alias = model_alias';
    model = model';
    reasoning_effort = reasoning_effort';
    sandbox = sandbox';
    approval = approval';
    timeout_seconds = timeout_seconds';
    max_attempts = max_attempts';
    destructive = destructive';
    external_write = external_write';
    escalation_task = escalation_task';
    source = source';
    reason = reason';
  })
