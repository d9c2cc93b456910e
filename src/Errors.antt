-- ===== src/Errors.antt =====
-- The errors that the services throw, and what of them reaches a client or an operator
-- (src/errors.ts).
pub mod Copy
mod Tests
use crabhelm.Common.{
  ℕ, String, Bool, true, false, Option, none, some, or_else, List, find, ◌∷◌, str_eq, [],
}

pub data Code : Type 0 where
  crabbox_unconfigured deployment_target_unavailable crabbox_unreachable crabbox_create_http : Code
  crabbox_create_state crabbox_inspect_http crabbox_delete_http crabbox_identity_mismatch : Code
  crabbox_workspace_failed clawrouter_unconfigured clawrouter_unreachable : Code
  clawrouter_rejected clawrouter_status_invalid child_control_failed child_command_missing : Code
  child_identity_mismatch child_status_invalid child_health_invalid child_drain_invalid : Code
  child_policy_cas_conflict slack_credentials_unresolved child_ingress_disable_failed : Code
  child_provision_failed child_reconcile_failed child_removal_failed : Code

-- A code as it is written.
unfoldable pub code_text : Code → String
code_text crabbox_unconfigured = "CRABBOX_UNCONFIGURED"
code_text deployment_target_unavailable = "DEPLOYMENT_TARGET_UNAVAILABLE"
code_text crabbox_unreachable = "CRABBOX_UNREACHABLE"
code_text crabbox_create_http = "CRABBOX_CREATE_HTTP"
code_text crabbox_create_state = "CRABBOX_CREATE_STATE"
code_text crabbox_inspect_http = "CRABBOX_INSPECT_HTTP"
code_text crabbox_delete_http = "CRABBOX_DELETE_HTTP"
code_text crabbox_identity_mismatch = "CRABBOX_IDENTITY_MISMATCH"
code_text crabbox_workspace_failed = "CRABBOX_WORKSPACE_FAILED"
code_text clawrouter_unconfigured = "CLAWROUTER_UNCONFIGURED"
code_text clawrouter_unreachable = "CLAWROUTER_UNREACHABLE"
code_text clawrouter_rejected = "CLAWROUTER_REJECTED"
code_text clawrouter_status_invalid = "CLAWROUTER_STATUS_INVALID"
code_text child_control_failed = "CHILD_CONTROL_FAILED"
code_text child_command_missing = "CHILD_COMMAND_MISSING"
code_text child_identity_mismatch = "CHILD_IDENTITY_MISMATCH"
code_text child_status_invalid = "CHILD_STATUS_INVALID"
code_text child_health_invalid = "CHILD_HEALTH_INVALID"
code_text child_drain_invalid = "CHILD_DRAIN_INVALID"
code_text child_policy_cas_conflict = "CHILD_POLICY_CAS_CONFLICT"
code_text slack_credentials_unresolved = "SLACK_CREDENTIALS_UNRESOLVED"
code_text child_ingress_disable_failed = "CHILD_INGRESS_DISABLE_FAILED"
code_text child_provision_failed = "CHILD_PROVISION_FAILED"
code_text child_reconcile_failed = "CHILD_RECONCILE_FAILED"
code_text child_removal_failed = "CHILD_REMOVAL_FAILED"

-- What a service can throw: a `SyntaxError`, a `CrabhelmRequestError`, a
-- `RegistryWriteConflictError`, a `CrabhelmOperationalError` with its code and its operator
-- message, and any other `Error`.
pub data Error : Type 0 where
  syntax : String → Error
  request : String → Error
  write_conflict : Error
  operational : Code → String → Error
  other : String → Error

pub record RequestFailure : Type 0 where
  pub status : ℕ
  pub message : String
  pub unexpected : Bool

unfoldable pub public_request_failure : Error → RequestFailure
public_request_failure (syntax _) = record {
  status = 400;
  message = "request body must contain valid JSON";
  unexpected = false;
}
public_request_failure (request public_message) = record {
  status = 422;
  message = public_message;
  unexpected = false;
}
public_request_failure _ = record { status = 500; message = "request failed"; unexpected = true }

-- The table `operationalErrorCopy`; a code that it lacks is `undefined`.
unfoldable pub operational_error_copy : Code → Option String
operational_error_copy crabbox_unconfigured = some "Crabbox provisioning is unconfigured"
operational_error_copy deployment_target_unavailable = some "The deployment target is unavailable"
operational_error_copy crabbox_unreachable = some "Crabbox is unreachable"
operational_error_copy crabbox_create_http = some "Crabbox rejected workspace creation"
operational_error_copy crabbox_create_state =
    some "Crabbox returned invalid workspace creation state"
operational_error_copy crabbox_inspect_http = some "Crabbox workspace inspection failed"
operational_error_copy crabbox_delete_http = some "Crabbox workspace removal failed"
operational_error_copy crabbox_identity_mismatch =
    some "Crabbox workspace identity does not match the claw"
operational_error_copy crabbox_workspace_failed = some "Crabbox reports a failed workspace"
operational_error_copy clawrouter_unconfigured = some "ClawRouter is unconfigured"
operational_error_copy clawrouter_unreachable = some "ClawRouter is unreachable"
operational_error_copy clawrouter_rejected = some "ClawRouter rejected the control-plane request"
operational_error_copy clawrouter_status_invalid = some "ClawRouter returned invalid status"
operational_error_copy child_control_failed = some "Child control command failed"
operational_error_copy child_ingress_disable_failed = some "Child ingress disable did not complete"
operational_error_copy _ = none

unfoldable pub child_error_copy : Code → Option String
child_error_copy child_command_missing = some "Child does not advertise a required Crabhelm command"
child_error_copy child_identity_mismatch =
    some "Child node identity does not match the enrolled claw"
child_error_copy child_status_invalid = some "Child returned invalid status evidence"
child_error_copy child_health_invalid = some "Child returned invalid operational health evidence"
child_error_copy child_drain_invalid = some "Child returned invalid active-run drain evidence"
child_error_copy child_policy_cas_conflict =
    some "Child policy changed during managed configuration apply"
child_error_copy slack_credentials_unresolved = some "Child-local Slack credentials are unresolved"
child_error_copy _ = none

pub record Failure : Type 0 where
  pub code : Code
  pub message : String

unfoldable pub safe_operational_failure : Error → Failure → Failure
safe_operational_failure (operational code _) fallback = record {
  code = code;
  message =
      or_else (operational_error_copy code) (or_else (child_error_copy code) fallback.message);
}
safe_operational_failure _ fallback = fallback

-- The codes that the table `childErrorCopy` has.
abbrev pub child_codes : List Code
child_codes =
    child_command_missing ∷ child_identity_mismatch ∷ child_status_invalid ∷ child_health_invalid
    ∷ child_drain_invalid ∷ child_policy_cas_conflict ∷ slack_credentials_unresolved ∷ []

abbrev unknown_child_error : Error
unknown_child_error = operational child_control_failed "Child control command failed"

abbrev told_of : Code → Option String → Error
told_of code none = unknown_child_error
told_of code (some message) = operational code message

abbrev child_error_of : Option Code → Error
child_error_of none = unknown_child_error
child_error_of (some code) = told_of code (child_error_copy code)

-- Of the code that a child answers, `none` if that is no text. The names of properties that every
-- object inherits, which the table's lookup finds as well, are left out.
unfoldable pub operational_error_from_child_code : Option String → Error
unfolding child_error_copy code_text
operational_error_from_child_code none = unknown_child_error
operational_error_from_child_code (some text) =
    child_error_of (find (λ code. str_eq (code_text code) text) child_codes)
