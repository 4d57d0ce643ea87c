-- ===== src/Domain/ApprovalRecord.antt =====
-- src/goalrouter/domain.py: `ApprovalRecord`, its JSON object and the object read back.
use goal_router.Common.{String, [], ◌∷◌}
use goal_router.Common.Dict.{Dict}
use goal_router.Errors.{Result, ok, ◌>>=◌}
use goal_router.Domain.Platform.{Platform}
use goal_router.Domain.Json.{JsonValue, str, dict}
use goal_router.Domain.Fields.{string, datetime}

pub record ApprovalRecord (P : Platform) : Type 0 where
  pub run_id : String
  pub work_item_id : String
  pub approved_by : String
  pub approved_at : P.Datetime
  pub configuration_digest : String
  pub fingerprint : String

unfoldable pub fields : {P : Platform} → ApprovalRecord P → Dict (JsonValue P)
fields {P} x =
    ("run_id", str x.run_id)
    ∷ ("work_item_id", str x.work_item_id)
    ∷ ("approved_by", str x.approved_by)
    ∷ ("approved_at", str (P.isoformat x.approved_at))
    ∷ ("configuration_digest", str x.configuration_digest)
    ∷ ("fingerprint", str x.fingerprint)
    ∷ []

abbrev pub to_dict : {P : Platform} → ApprovalRecord P → JsonValue P
to_dict x = dict (fields x)

unfoldable pub from_dict : {P : Platform} → Dict (JsonValue P) → Result (ApprovalRecord P)
unfolding datetime string
from_dict value = do
  run_id' ← string value "run_id"
  work_item_id' ← string value "work_item_id"
  approved_by' ← string value "approved_by"
  approved_at' ← datetime value "approved_at"
  configuration_digest' ← string value "configuration_digest"
  fingerprint' ← string value "fingerprint"
  ok (record {
    run_id = run_id';
    work_item_id = work_item_id';
    approved_by = approved_by';
    approved_at = approved_at';
    configuration_digest = configuration_digest';
    fingerprint = fingerprint';
  })
