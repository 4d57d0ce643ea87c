-- ===== src/Approvals.antt =====
-- src/goalrouter/approvals.py: `ApprovalService`. `digest` stands for the SHA-256 hex digest of the
-- canonical JSON text of a value; it is a parameter.
pub mod Binding
use goal_router.Common.{String, Bool, true, false, not, Option, none, some, List, [], ◌∷◌, ◌==◌}
use goal_router.Common.Dict
use goal_router.Common.Dict.{Dict}
use goal_router.Errors.{Result, ok, err, approval_required_error, ◌>>=◌, ◌>>◌, guard}
use goal_router.Domain.Platform.{Platform}
use goal_router.Domain.Json.{JsonValue, str, dict}
use goal_router.Domain.Enums.{ApprovalMode, automatic, required}
use goal_router.Domain.WorkItem
use goal_router.Domain.WorkItem.{WorkItem}
use goal_router.Domain.RouteDecision
use goal_router.Domain.RouteDecision.{RouteDecision}
use goal_router.Domain.ApprovalRecord.{ApprovalRecord}
use goal_router.Domain.RunState.{RunState, run_id}

module _ {P : Platform} where
  both : Option (WorkItem P) → Option RouteDecision → Result (WorkItem P × RouteDecision)
  both (some item) (some route) = ok (item, route)
  both _ _ = err approval_required_error

  unfoldable pub require_item_and_route : RunState P → String → Result (WorkItem P × RouteDecision)
  unfolding both
  require_item_and_route state work_item_id =
      both (Dict.get state.work_items work_item_id) (Dict.get state.routes work_item_id)

  -- What an approval is bound to.
  unfoldable pub payload : String → WorkItem P → RouteDecision → JsonValue P
  payload configuration_digest item route = dict (
      ("configuration_digest", str configuration_digest)
      ∷ ("route", RouteDecision.to_dict route)
      ∷ ("work_item", WorkItem.to_dict item)
      ∷ [])

module _ {P : Platform} (digest : JsonValue P → String) where
  unfoldable pub fingerprint : RunState P → String → Result String
  unfolding require_item_and_route
  fingerprint state work_item_id = do
    (item, route) ← require_item_and_route state work_item_id
    ok (digest (payload state.configuration_digest item route))

  -- The record, and the state with the record among its approvals.
  unfoldable pub approve :
      RunState P → String → String → P.Datetime → Result (ApprovalRecord P × RunState P)
  unfolding require_item_and_route fingerprint
  approve state work_item_id approved_by approved_at = do
    guard (P.is_aware approved_at) approval_required_error
    guard (not (P.strip approved_by == "")) approval_required_error
    _ ← require_item_and_route state work_item_id
    text ← fingerprint state work_item_id
    let record_ : ApprovalRecord P = record {
      run_id = run_id state;
      work_item_id = work_item_id;
      approved_by = approved_by;
      approved_at = approved_at;
      configuration_digest = state.configuration_digest;
      fingerprint = text;
    }
    ok (record_, record state { approvals = Dict.put state.approvals work_item_id record_ })

  check_record : RunState P → String → Option (ApprovalRecord P) → Result (Unit {0})
  unfolding fingerprint
  check_record state work_item_id none = err approval_required_error
  check_record state work_item_id (some r) = do
    guard (r.run_id == run_id state) approval_required_error
    guard (r.configuration_digest == state.configuration_digest) approval_required_error
    text ← fingerprint state work_item_id
    guard (r.fingerprint == text) approval_required_error

  check_route : RunState P → String → ApprovalMode → Result (Unit {0})
  unfolding check_record
  check_route state work_item_id automatic = ok tt
  check_route state work_item_id required =
      check_record state work_item_id (Dict.get state.approvals work_item_id)

  unfoldable pub require_dispatchable : RunState P → String → Result (Unit {0})
  unfolding require_item_and_route check_route
  require_dispatchable state work_item_id = do
    (item, route) ← require_item_and_route state work_item_id
    check_route state work_item_id route.approval
