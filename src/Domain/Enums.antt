-- ===== src/Domain/Enums.antt =====
-- src/goalrouter/domain.py: the StrEnum classes, with the value of each member and the lookup of a
-- member by its value.
use goal_router.Common.{String, Option, some, none, ◌==◌, if◌then◌else◌, ◌≡◌, refl, List, [], ◌∷◌}

pub data AuthMode : Type 0 where
  existing_session api_key : AuthMode

pub data SandboxMode : Type 0 where
  read_only workspace_write : SandboxMode

pub data ApprovalMode : Type 0 where
  automatic required : ApprovalMode

pub data AccessMode : Type 0 where
  read_only workspace_write : AccessMode

pub data WorkStatus : Type 0 where
  pending awaiting_approval running succeeded failed blocked : WorkStatus

pub data RunStatus : Type 0 where
  planned awaiting_approval running completed failed blocked : RunStatus

pub data RouteSource : Type 0 where
  explicit planner match default : RouteSource

-- Python's StrEnum: the members in order, and the value of each.
pub record StrEnum (E : Type 0) : Type 0 where
  pub members : List E
  pub value_of : E → String

abbrev pub value : {E : Type 0} ⦃e : StrEnum E⦄ → E → String
value ⦃e⦄ = e.value_of

find : {E : Type 0} → (E → String) → List E → String → Option E
find text [] raw = none
find text (x ∷ xs) raw = if text x == raw then some x else find text xs raw

-- `E(raw)`, with `none` for the ValueError
unfoldable pub of_value : {E : Type 0} ⦃e : StrEnum E⦄ → String → Option E
unfolding find
of_value ⦃e⦄ raw = find e.value_of e.members raw

abbrev pub auth_mode_value : AuthMode → String
auth_mode_value AuthMode.existing_session = "existing-session"
auth_mode_value AuthMode.api_key = "api-key"

instance abbrev pub auth_mode_enum : StrEnum AuthMode
auth_mode_enum = record {
  members = AuthMode.existing_session ∷ AuthMode.api_key ∷ [];
  value_of = auth_mode_value;
}

pub of_value-auth_mode_value : (x : AuthMode) → of_value (value x) ≡ some x
unfolding of_value
of_value-auth_mode_value AuthMode.existing_session = refl
of_value-auth_mode_value AuthMode.api_key = refl

abbrev pub sandbox_mode_value : SandboxMode → String
sandbox_mode_value SandboxMode.read_only = "read-only"
sandbox_mode_value SandboxMode.workspace_write = "workspace-write"

instance abbrev pub sandbox_mode_enum : StrEnum SandboxMode
sandbox_mode_enum = record {
  members = SandboxMode.read_only ∷ SandboxMode.workspace_write ∷ [];
  value_of = sandbox_mode_value;
}

pub of_value-sandbox_mode_value : (x : SandboxMode) → of_value (value x) ≡ some x
unfolding of_value
of_value-sandbox_mode_value SandboxMode.read_only = refl
of_value-sandbox_mode_value SandboxMode.workspace_write = refl

abbrev pub approval_mode_value : ApprovalMode → String
approval_mode_value ApprovalMode.automatic = "automatic"
approval_mode_value ApprovalMode.required = "required"

instance abbrev pub approval_mode_enum : StrEnum ApprovalMode
approval_mode_enum = record {
  members = ApprovalMode.automatic ∷ ApprovalMode.required ∷ [];
  value_of = approval_mode_value;
}

pub of_value-approval_mode_value : (x : ApprovalMode) → of_value (value x) ≡ some x
unfolding of_value
of_value-approval_mode_value ApprovalMode.automatic = refl
of_value-approval_mode_value ApprovalMode.required = refl

abbrev pub access_mode_value : AccessMode → String
access_mode_value AccessMode.read_only = "read-only"
access_mode_value AccessMode.workspace_write = "workspace-write"

instance abbrev pub access_mode_enum : StrEnum AccessMode
access_mode_enum = record {
  members = AccessMode.read_only ∷ AccessMode.workspace_write ∷ [];
  value_of = access_mode_value;
}

pub of_value-access_mode_value : (x : AccessMode) → of_value (value x) ≡ some x
unfolding of_value
of_value-access_mode_value AccessMode.read_only = refl
of_value-access_mode_value AccessMode.workspace_write = refl

abbrev pub work_status_value : WorkStatus → String
work_status_value WorkStatus.pending = "pending"
work_status_value WorkStatus.awaiting_approval = "awaiting-approval"
work_status_value WorkStatus.running = "running"
work_status_value WorkStatus.succeeded = "succeeded"
work_status_value WorkStatus.failed = "failed"
work_status_value WorkStatus.blocked = "blocked"

instance abbrev pub work_status_enum : StrEnum WorkStatus
work_status_enum = record {
  members =
      WorkStatus.pending ∷ WorkStatus.awaiting_approval ∷ WorkStatus.running ∷ WorkStatus.succeeded
      ∷ WorkStatus.failed ∷ WorkStatus.blocked ∷ [];
  value_of = work_status_value;
}

pub of_value-work_status_value : (x : WorkStatus) → of_value (value x) ≡ some x
unfolding of_value
of_value-work_status_value WorkStatus.pending = refl
of_value-work_status_value WorkStatus.awaiting_approval = refl
of_value-work_status_value WorkStatus.running = refl
of_value-work_status_value WorkStatus.succeeded = refl
of_value-work_status_value WorkStatus.failed = refl
of_value-work_status_value WorkStatus.blocked = refl

abbrev pub run_status_value : RunStatus → String
run_status_value RunStatus.planned = "planned"
run_status_value RunStatus.awaiting_approval = "awaiting-approval"
run_status_value RunStatus.running = "running"
run_status_value RunStatus.completed = "completed"
run_status_value RunStatus.failed = "failed"
run_status_value RunStatus.blocked = "blocked"

instance abbrev pub run_status_enum : StrEnum RunStatus
run_status_enum = record {
  members =
      RunStatus.planned ∷ RunStatus.awaiting_approval ∷ RunStatus.running ∷ RunStatus.completed
      ∷ RunStatus.failed ∷ RunStatus.blocked ∷ [];
  value_of = run_status_value;
}

pub of_value-run_status_value : (x : RunStatus) → of_value (value x) ≡ some x
unfolding of_value
of_value-run_status_value RunStatus.planned = refl
of_value-run_status_value RunStatus.awaiting_approval = refl
of_value-run_status_value RunStatus.running = refl
of_value-run_status_value RunStatus.completed = refl
of_value-run_status_value RunStatus.failed = refl
of_value-run_status_value RunStatus.blocked = refl

abbrev pub route_source_value : RouteSource → String
route_source_value RouteSource.explicit = "explicit"
route_source_value RouteSource.planner = "planner"
route_source_value RouteSource.match = "match"
route_source_value RouteSource.default = "default"

instance abbrev pub route_source_enum : StrEnum RouteSource
route_source_enum = record {
  members =
      RouteSource.explicit ∷ RouteSource.planner ∷ RouteSource.match ∷ RouteSource.default ∷ [];
  value_of = route_source_value;
}

pub of_value-route_source_value : (x : RouteSource) → of_value (value x) ≡ some x
unfolding of_value
of_value-route_source_value RouteSource.explicit = refl
of_value-route_source_value RouteSource.planner = refl
of_value-route_source_value RouteSource.match = refl
of_value-route_source_value RouteSource.default = refl
