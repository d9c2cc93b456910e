-- ===== src/Errors/Copy.antt =====
-- What a failure shows to an operator or a client.
use crabhelm.Common.{◌≡◌, ◌⊎◌, some, arith}
use crabhelm.Errors.{
  Error, Failure, operational_error_copy, child_error_copy, safe_operational_failure,
}

-- The message of a reported failure is the fixed text of its code in one of the two tables, or the
-- fallback's message: the message that an operational error carries, and that of any other error,
-- never reaches an operator.
pub safe_operational_failure_fixed :
    (e : Error) (fallback : Failure)
    → let f = safe_operational_failure e fallback in
      (operational_error_copy f.code ≡ some f.message)
      ⊎ (child_error_copy f.code ≡ some f.message)
      ⊎ (f.message ≡ fallback.message)
unfolding safe_operational_failure operational_error_copy child_error_copy
safe_operational_failure_fixed e fallback = ground arith
