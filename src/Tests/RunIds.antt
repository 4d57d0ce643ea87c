-- ===== src/Tests/RunIds.antt =====
-- A run identifier.
use goal_router.Common.{◌≡◌, ◌⊎◌}
use goal_router.Errors.{ok, err, state_error}
use goal_router.RunIds.{IsSingleName, validate_run_id, validate_run_id-IsSingleName}

validate_run_id-IsSingleName_example :
    ((validate_run_id "run-1" ≡ ok "run-1") × IsSingleName "run-1")
    ⊎ (validate_run_id "run-1" ≡ err state_error)
validate_run_id-IsSingleName_example = validate_run_id-IsSingleName "run-1"
