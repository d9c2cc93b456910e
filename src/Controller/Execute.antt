-- ===== src/Controller/Execute.antt =====
-- The execution of a granted invocation, `#executeGithub` (worker/governance-controller.ts).
pub mod Outcome
pub mod Grants
pub mod Once
pub mod Tests
use crabhelm.Effect.{
  ◌>>=◌, ◌>>◌, Result, M, ok, err, pure, throw, bind_result, lift, require_true, throw_unless,
}
use crabhelm.Common.{
  Option, String, ℕ, List, none, [], some, ◌*◌, ◌<>◌, Bool, ◌∷◌, clip, ◌++◌, false, str_eq, true,
  ◌&&◌,
}
use crabhelm.Controller.Prepare.{GrantClaims, IssueSetting, State}
use crabhelm.GovernanceRegistry.Invocations.{InvocationPatch, update_invocation}
use crabhelm.GovernanceRegistry.Stores.{require_connection, blank, Stores, audit, event_of}
use crabhelm.GovernanceRegistry.Types.{
  AuditInput, InvocationStatus, AuditOutcome, InvocationRecord, running,
}
use crabhelm.Coordinator.Grants.{finish_run, consume_grant, GrantRegistration, start_run}
use crabhelm.Controller.Arguments.{Arguments, required_text, normalize_arguments}
use crabhelm.Governance.Types.{OAuthConnectionRecord, iso}
use crabhelm.Errors.{Error, other, syntax, operational, write_conflict}
use crabhelm.Controller.Issue.{in_tables, in_stores, sent}
use crabhelm.Governance.Actor.{is_active}

pub record ExecuteInput : Type 0 where
  pub token : Option String
  pub invocation_id : Option String
  pub arguments : Option Arguments

-- The claims of a verified grant, with its token's id and the second in which it expires.
pub record SignedClaims : Type 0 where
  pub claims : GrantClaims
  pub jti : String
  pub exp : ℕ

-- What an execution meets: `verify` checks a token's signature, `credential_of` reads the vault,
-- `github` is githubRequest. The errors are those of the calls to the coordinator and to the stores
-- that fail without an effect while the outcome is recorded.
pub record ExecuteSetting : Type 0 where
  pub base : IssueSetting
  pub verify : String → Result SignedClaims
  pub credential_of : OAuthConnectionRecord → Result String
  pub github : GrantClaims → Arguments → String → Result String
  pub coordinator_error : Option Error
  pub invocation_error : Option Error
  pub audit_error : Option Error

-- What could not be recorded; the last with the event's id.
pub data Warning : Type 0 where
  coordinator_outcome_not_recorded invocation_outcome_not_recorded audit_not_recorded : Warning
  audit_not_queued : String → Warning

-- The answers: without a token, for a grant that is not open, and after GitHub's request.
pub data Executed : Type 0 where
  grant_required grant_refused : Executed
  executed : String → List Warning → Executed
  request_failed : Error → List Warning → Executed

abbrev pub answer : Result String → List Warning → Executed
answer (ok result) warnings = executed result warnings
answer (err e) warnings = request_failed e warnings

abbrev pub status_of : Result String → InvocationStatus
status_of (ok _) = InvocationStatus.succeeded
status_of (err _) = InvocationStatus.failed

abbrev pub no_patch : InvocationPatch
no_patch = record {
  claw_id = none;
  requester_id = none;
  persona_id = none;
  actor_id = none;
  actor_mode = none;
  fallback_used = none;
  capability_id = none;
  target = none;
  arguments_digest = none;
  policy_revision = none;
  confirmation_id = none;
  status = none;
  issued_at = none;
  expires_at = none;
  completed_at = none;
}

-- A call whose failure becomes a warning.
abbrev pub noted : {A : Type 0} → Warning → Result A × State → Result (List Warning) × State
noted warning (ok _, s) = (ok [], s)
noted warning (err _, s) = (ok (warning ∷ []), s)

abbrev pub noting : {A : Type 0} → Warning → M State A → M State (List Warning)
noting warning call s = noted warning (call s)

abbrev pub unless_lost : {A : Type 0} → Option Error → M State A → M State A
unless_lost none call = call
unless_lost (some e) call = throw e

-- `error.message`.
abbrev message_of : Error → String
message_of (syntax message) = message
message_of (Error.request message) = message
message_of write_conflict = "claw state changed during reconciliation"
message_of (operational code message) = message
message_of (other message) = message

abbrev pub has_succeeded : Result String → Bool
has_succeeded (ok _) = true
has_succeeded (err _) = false

module _ (w : ExecuteSetting) where
  abbrev pub grant_of : String → SignedClaims → GrantRegistration
  grant_of id c = record {
    invocation_id = id;
    jti = c.jti;
    arguments_digest = c.claims.arguments_digest;
    expires_at = c.exp * 1000;
  }

  -- The `try` around GitHub's request.
  unfoldable pub attempt : SignedClaims → Arguments → Stores → Result String
  unfolding require_connection
  attempt c args s = bind_result ((require_connection c.claims.connection_id s).0) λ connection.
      bind_result
        (require_true
          (is_active connection.status && str_eq connection.principal_id c.claims.actor_id)
          (other "actor connection is unavailable"))
        λ _. bind_result (w.credential_of connection) (w.github c.claims args)

  abbrev pub error_of : Result String → Option String
  error_of (ok _) = none
  error_of (err e) = some (message_of e)

  abbrev summary_of : SignedClaims → Result String → String
  summary_of c (ok _) = "Executed " <> c.claims.capability_id
  summary_of c (err e) = clip 240 (message_of e)

  abbrev audited : Result String → AuditOutcome
  audited (ok _) = AuditOutcome.succeeded
  audited (err _) = AuditOutcome.failed

  abbrev pub executed_event : String → SignedClaims → Result String → AuditInput
  executed_event id c outcome =
      record (blank "tool.github.execute" (summary_of c outcome) (audited outcome)) {
        correlation_id = some id;
        claw_id = some c.claims.claw_id;
        requester_id = some c.claims.requester_id;
        persona_id = some c.claims.persona_id;
        actor_id = some c.claims.actor_id;
        actor_mode = some c.claims.actor_mode;
        fallback_used = some c.claims.fallback_used;
        capability_id = some c.claims.capability_id;
        target = some c.claims.target;
        policy_revision = some c.claims.policy_revision;
        confirmation_id = c.claims.confirmation_id;
      }

  abbrev pub finish_call : String → Result String → M State (Unit {0})
  finish_call id outcome = unless_lost w.coordinator_error (
      in_tables w.base
        (finish_run w.base.coordinator id (has_succeeded outcome) (error_of outcome)))

  abbrev pub outcome_patch : Result String → InvocationPatch
  outcome_patch outcome = record no_patch {
    status = some (status_of outcome);
    completed_at = some (iso w.base.ambient.clock);
  }

  abbrev pub update_call : String → Result String → M State InvocationRecord
  update_call id outcome =
      unless_lost w.invocation_error
        (in_stores w.base (update_invocation w.base.tx id (outcome_patch outcome)))

  abbrev pub audit_call : AuditInput → M State (Unit {0})
  audit_call input = unless_lost w.audit_error (in_stores w.base (audit w.base.ambient input))

  -- An event that is stored is sent to the queue.
  abbrev pub queue_noted : AuditInput → List Warning → M State (List Warning)
  queue_noted input [] =
      noting (audit_not_queued w.base.ambient.event_id)
        (sent w.base w.base.queue_error (event_of w.base.ambient input))
  queue_noted input warnings = pure warnings

  abbrev pub record_audit :
      String → SignedClaims → Result String → List Warning → M State (List Warning)
  record_audit id c outcome warnings = do
    stored ← noting audit_not_recorded (audit_call (executed_event id c outcome))
    queued ← queue_noted (executed_event id c outcome) stored
    pure (warnings ++ queued)

  abbrev pub record_invocation :
      String → SignedClaims → Result String → List Warning → M State (List Warning)
  record_invocation id c outcome warnings = do
    invocation ← noting invocation_outcome_not_recorded (update_call id outcome)
    record_audit id c outcome (warnings ++ invocation)

  -- What is done once GitHub has answered; each failure is a warning.
  unfoldable pub recording : String → SignedClaims → Result String → M State (List Warning)
  unfolding finish_run update_invocation audit clip
  recording id c outcome =
      noting coordinator_outcome_not_recorded (finish_call id outcome)
      >>= record_invocation id c outcome

  unfoldable pub running_github : String → SignedClaims → Arguments → M State Executed
  unfolding attempt recording
  running_github id c args s =
      (recording id c (attempt c args s.stores) >>= λ warnings.
      pure (answer (attempt c args s.stores) warnings))
        s

  abbrev pub with_grant : String → SignedClaims → Arguments → Bool → M State Executed
  with_grant id c args false = pure grant_refused
  with_grant id c args true = do
    in_tables w.base (start_run w.base.coordinator id)
    _ ←
        in_stores w.base
          (update_invocation w.base.tx id (record no_patch { status = some running }))
    running_github id c args

  abbrev pub spend : String → SignedClaims → Arguments → M State Executed
  spend id c args = do
    consumed ← in_tables w.base (consume_grant w.base.coordinator (grant_of id c))
    with_grant id c args consumed

  abbrev pub with_token : Option String → ExecuteInput → M State Executed
  with_token none body = pure grant_required
  with_token (some token) body = do
    c ← lift (w.verify token)
    id ← lift (required_text body.invocation_id "invocationId" 200)
    args ← lift (normalize_arguments body.arguments)
    throw_unless
        (str_eq (w.base.digest c.claims.capability_id c.claims.target args)
          c.claims.arguments_digest)
        (other "tool arguments differ from the signed grant")
    spend id c args

  unfoldable pub execute_github : ExecuteInput → M State Executed
  unfolding running_github consume_grant start_run update_invocation required_text
      normalize_arguments
  execute_github body = with_token body.token body
