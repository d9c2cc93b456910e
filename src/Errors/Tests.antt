-- ===== src/Errors/Tests.antt =====
-- A failure of the child claw as an operator sees it.
use crabhelm.Errors.{
  Failure, operational_error_copy, child_reconcile_failed, safe_operational_failure, operational,
  child_control_failed, child_error_copy, operational_error_from_child_code, code_text,
  child_health_invalid,
}
use crabhelm.Common.{◌≡◌, some, ◌⊎◌, refl}
use crabhelm.Errors.Copy.{safe_operational_failure_fixed}

abbrev lost : Failure
lost = record { code = child_reconcile_failed; message = "reconciliation failed" }

safe_operational_failure_fixed_example :
    (operational_error_copy
        (safe_operational_failure (operational child_control_failed "secret") lost).code
      ≡ some (safe_operational_failure (operational child_control_failed "secret") lost).message)
    ⊎ (child_error_copy
          (safe_operational_failure (operational child_control_failed "secret") lost).code
        ≡ some (safe_operational_failure (operational child_control_failed "secret") lost).message)
    ⊎ ((safe_operational_failure (operational child_control_failed "secret") lost).message
        ≡ "reconciliation failed")
safe_operational_failure_fixed_example =
    safe_operational_failure_fixed (operational child_control_failed "secret") lost

known_child_code :
    operational_error_from_child_code (some "CHILD_HEALTH_INVALID")
    ≡ operational child_health_invalid "Child returned invalid operational health evidence"
unfolding operational_error_from_child_code child_error_copy code_text
known_child_code = refl

unknown_child_code :
    operational_error_from_child_code (some "CRABBOX_UNREACHABLE")
    ≡ operational child_control_failed "Child control command failed"
unfolding operational_error_from_child_code child_error_copy code_text
unknown_child_code = refl
