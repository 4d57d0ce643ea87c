-- ===== src/Domain/RunState.antt =====
-- src/goalrouter/domain.py: `RunState` and `RunEvent`, the persisted checkpoint of a run.
use goal_router.Common.{String, Option, [], ◌∷◌}
use goal_router.Common.Integers.{ℤ}
use goal_router.Common.Dict.{Dict, sorted_items}
use goal_router.Errors.{Error, Result, ok, err, state_error, type_error, value_error, ◌>>=◌}
use goal_router.Domain.Platform.{Platform}
use goal_router.Domain.Json.{JsonValue, str, int, dict}
use goal_router.Domain.Enums.{RunStatus, value, run_status_enum}
use goal_router.Domain.Fields.{string, integer, field_mapping, mapping, enum, each_value}
use goal_router.Domain.Encoding.{optional}
use goal_router.Domain.Objective
use goal_router.Domain.Objective.{Objective}
use goal_router.Domain.RepositoryContext
use goal_router.Domain.RepositoryContext.{RepositoryContext}
use goal_router.Domain.WorkItem
use goal_router.Domain.WorkItem.{WorkItem}
use goal_router.Domain.RouteDecision
use goal_router.Domain.RouteDecision.{RouteDecision}
use goal_router.Domain.WorkResult
use goal_router.Domain.WorkResult.{WorkResult}
use goal_router.Domain.ApprovalRecord
use goal_router.Domain.ApprovalRecord.{ApprovalRecord}

pub record RunEvent (P : Platform) : Type 0 where
  pub timestamp : P.Datetime
  pub event : String
  pub work_item_id : Option String
  pub details : Dict (JsonValue P)

unfoldable pub event_dict : {P : Platform} → RunEvent P → JsonValue P
event_dict {P} e = dict (
    ("timestamp", str (P.isoformat e.timestamp))
    ∷ ("event", str e.event)
    ∷ ("work_item_id", optional e.work_item_id)
    ∷ ("details", dict e.details)
    ∷ [])

pub record RunState (P : Platform) : Type 0 where
  pub schema_version : ℤ
  pub configuration_digest : String
  pub objective : Objective P
  pub repository : RepositoryContext
  pub work_items : Dict (WorkItem P)
  pub routes : Dict RouteDecision
  pub results : Dict (WorkResult P)
  pub approvals : Dict (ApprovalRecord P)
  pub status : RunStatus

abbrev pub run_id : {P : Platform} → RunState P → String
run_id state = state.objective.id

-- `except (TypeError, ValueError)`; a StateError passes through
invalid : Error → Error
invalid type_error = state_error
invalid value_error = state_error
invalid e = e

reraise : {A : Type 0} → Result A → Result A
unfolding invalid
reraise (ok a) = ok a
reraise (err e) = err (invalid e)

module _ {P : Platform} where
  -- `{key: value.to_dict() for key, value in sorted(d.items())}`
  abbrev pub encode_values : {A : Type 0} → (A → JsonValue P) → Dict A → Dict (JsonValue P)
  encode_values encode [] = []
  encode_values encode ((k, x) ∷ d) = (k, encode x) ∷ encode_values encode d

  unfoldable pub fields : RunState P → Dict (JsonValue P)
  fields x =
      ("schema_version", int x.schema_version)
      ∷ ("configuration_digest", str x.configuration_digest)
      ∷ ("objective", Objective.to_dict x.objective)
      ∷ ("repository", RepositoryContext.to_dict x.repository)
      ∷ ("work_items", dict (encode_values WorkItem.to_dict (sorted_items x.work_items)))
      ∷ ("routes", dict (encode_values RouteDecision.to_dict (sorted_items x.routes)))
      ∷ ("results", dict (encode_values WorkResult.to_dict (sorted_items x.results)))
      ∷ ("approvals", dict (encode_values ApprovalRecord.to_dict (sorted_items x.approvals)))
      ∷ ("status", str (value x.status))
      ∷ []

  abbrev pub to_dict : RunState P → JsonValue P
  to_dict x = dict (fields x)

  -- `{key: read(_mapping(item)) for key, item in _string_mapping(value, name).items()}`
  unfoldable pub decode_values :
      {A : Type 0} → (Dict (JsonValue P) → Result A) → Dict (JsonValue P) → String → Result (Dict A)
  unfolding field_mapping mapping
  decode_values read value name = do
    d ← field_mapping value name
    each_value (λ item. mapping item >>= read) d

  decode : Dict (JsonValue P) → Result (RunState P)
  unfolding decode_values integer string field_mapping enum
  decode value = do
    work_items' ← decode_values WorkItem.from_dict value "work_items"
    routes' ← decode_values RouteDecision.from_dict value "routes"
    results' ← decode_values WorkResult.from_dict value "results"
    approvals' ← decode_values ApprovalRecord.from_dict value "approvals"
    schema_version' ← integer value "schema_version"
    configuration_digest' ← string value "configuration_digest"
    objective_fields ← field_mapping value "objective"
    objective' ← Objective.from_dict objective_fields
    repository_fields ← field_mapping value "repository"
    repository' ← RepositoryContext.from_dict repository_fields
    status' ← enum value "status"
    ok (record {
      schema_version = schema_version';
      configuration_digest = configuration_digest';
      objective = objective';
      repository = repository';
      work_items = work_items';
      routes = routes';
      results = results';
      approvals = approvals';
      status = status';
    })

  unfoldable pub from_dict : Dict (JsonValue P) → Result (RunState P)
  unfolding decode reraise
  from_dict value = reraise (decode value)
