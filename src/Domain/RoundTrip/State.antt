-- ===== src/Domain/RoundTrip/State.antt =====
-- domain.py: the round trip of a whole checkpoint.
use goal_router.Common.{[], ◌∷◌, ◌≡◌, refl, All, All-Unit, true}
use goal_router.Common.Dict.{Dict, values, sorted_items, sorted_items-All}
use goal_router.Errors.{Result, ok, ◌>>=◌}
use goal_router.Domain.Platform.{Platform, IsoInverse}
use goal_router.Domain.Json.{JsonValue, dict, entries-members}
use goal_router.Domain.Enums.{of_value-run_status_value}
use goal_router.Domain.FilePath.RoundTrip.{IsNormal}
use goal_router.Domain.Fields.{each_value, mapping}
use goal_router.Domain.WorkItem
use goal_router.Domain.WorkItem.{WorkItem}
use goal_router.Domain.RouteDecision
use goal_router.Domain.RouteDecision.{RouteDecision}
use goal_router.Domain.WorkResult
use goal_router.Domain.WorkResult.{WorkResult}
use goal_router.Domain.ApprovalRecord
use goal_router.Domain.ApprovalRecord.{ApprovalRecord}
use goal_router.Domain.RunState
use goal_router.Domain.RunState.{RunState, encode_values}
use goal_router.Domain.RoundTrip.Records.{
  ObjectiveIsNormal, RepositoryContextIsNormal, WorkItemIsNormal, Objective-round_trip,
  RepositoryContext-round_trip, WorkItem-round_trip, RouteDecision-round_trip,
  WorkResult-round_trip, ApprovalRecord-round_trip,
}

module _ {P : Platform} {A : Type 0} (N : A → Type 0) (fields : A → Dict (JsonValue P))
    (read : Dict (JsonValue P) → Result A) (again : (x : A) → N x → read (fields x) ≡ ok x) where
  each_value-encode :
      (d : Dict A)
      → All N (values d)
      → each_value (λ item. mapping item >>= read) (encode_values (λ x. dict (fields x)) d) ≡ ok d
  unfolding each_value mapping
  each_value-encode [] h = refl
  each_value-encode ((k, x) ∷ d) h =
      rw (entries-members (fields x), again x h.0, each_value-encode d h.1) refl

  -- A dictionary of records reads back in the order of its keys.
  values_round_trip :
      (d : Dict A)
      → All N (values d)
      → each_value
          (λ item. mapping item >>= read)
          (encode_values (λ x. dict (fields x)) (sorted_items d))
        ≡ ok (sorted_items d)
  values_round_trip d h = each_value-encode (sorted_items d) (sorted_items-All N d h)

-- The state as the program builds it.
pub record RunStateIsNormal {P : Platform} (s : RunState P) : Type 0 where
  pub objective : ObjectiveIsNormal s.objective
  pub repository : RepositoryContextIsNormal s.repository
  pub work_items : All WorkItemIsNormal (values s.work_items)
  pub results : All (λ (r : WorkResult P). All IsNormal r.changed_paths) (values s.results)
  pub approvals :
      All (λ (r : ApprovalRecord P). P.is_aware r.approved_at ≡ true) (values s.approvals)

-- The same state with its dictionaries in the order of their keys.
abbrev pub canonical : {P : Platform} → RunState P → RunState P
canonical s = record s {
  work_items = sorted_items s.work_items;
  routes = sorted_items s.routes;
  results = sorted_items s.results;
  approvals = sorted_items s.approvals;
}

-- A run state with normal contents reads back from its JSON object as itself, with its dictionaries
-- sorted by key, if the platform reads back the times that it writes.
pub RunState-round_trip :
    {P : Platform} (s : RunState P)
    → IsoInverse P
    → RunStateIsNormal s
    → RunState.from_dict (RunState.fields s) ≡ ok (canonical s)
unfolding RunState.from_dict RunState.fields
RunState-round_trip {P} s inverse h = simp (
  entries-members,
  values_round_trip WorkItemIsNormal WorkItem.fields WorkItem.from_dict WorkItem-round_trip
      s.work_items h.work_items,
  values_round_trip (λ r. Unit {0}) RouteDecision.fields RouteDecision.from_dict
      (λ r _. RouteDecision-round_trip P r) s.routes (All-Unit (values s.routes)),
  values_round_trip _ WorkResult.fields WorkResult.from_dict WorkResult-round_trip s.results
      h.results,
  values_round_trip _ ApprovalRecord.fields ApprovalRecord.from_dict
      (λ r a. ApprovalRecord-round_trip r inverse a) s.approvals h.approvals,
  Objective-round_trip s.objective inverse h.objective,
  RepositoryContext-round_trip P s.repository h.repository,
  of_value-run_status_value,
)
