-- ===== src/Controller/Issue.antt =====
-- The issue of an invocation, `#issueInvocation` (worker/governance-controller.ts), once its request
-- is checked.
pub mod Confirmed
use crabhelm.GovernanceRegistry.Stores.{audit, Stores, event_of, blank}
use crabhelm.GovernanceRegistry.Types.{
  AuditOutcome, ConfirmationRecord, AuditInput, InvocationRecord, ConfirmationStatus,
  GovernanceAuditEvent, InvocationStatus,
}
use crabhelm.Common.{Option, String, Bool, some, ◌+◌, if◌then◌else◌, none, ◌<>◌, ◌∷◌}
use crabhelm.Controller.Arguments.{required_text}
use crabhelm.Effect.{M, lift, pure, write, throw}
use crabhelm.GovernanceRegistry.Confirmations.{Expected, create_confirmation, use_confirmation}
use crabhelm.Coordinator.Tables.{Tables, is_blank}
use crabhelm.Governance.Types.{Confirmation, iso, always, never}
use crabhelm.Errors.{Error}
use crabhelm.Coordinator.Grants.{GrantRegistration, register_grant}
use crabhelm.GovernanceRegistry.Invocations.{save_invocation}
use crabhelm.Effect.{◌>>=◌, ◌>>◌}
use crabhelm.Controller.Prepare.{IssueSetting, State, Prepared, prepare, GrantClaims, IssueInput}

-- What is sent back: a confirmation to ask for, or an invocation with its grant.
pub data Issued : Type 0 where
  confirmation_required : ConfirmationRecord → Issued
  granted : InvocationRecord → String → Issued

-- A confirmation's id that is empty counts as none.
abbrev pub given_id : Option String → Option String
given_id none = none
given_id (some id) = if is_blank id then none else some id

module _ (w : IssueSetting) where
  -- What a registry's method does to the whole state, and what the coordinator's does.
  abbrev pub in_stores : {A : Type 0} → M Stores A → M State A
  in_stores m s = ((m s.stores).0, record s { stores = (m s.stores).1 })

  abbrev pub in_tables : {A : Type 0} → M Tables A → M State A
  in_tables m s = ((m s.tables).0, record s { tables = (m s.tables).1 })

  abbrev pub sent : Option Error → GovernanceAuditEvent → M State (Unit {0})
  sent none event = write λ s. record s { queued = event ∷ s.queued }
  sent (some e) event = throw e

  -- An event is stored, and sent to the archive's queue.
  unfoldable pub emit : AuditInput → M State (Unit {0})
  unfolding audit
  emit input = do in_stores (audit w.ambient input); sent w.queue_error (event_of w.ambient input)

  abbrev event_input : Prepared → String → AuditOutcome → String → AuditInput
  event_input p action outcome summary = record (blank action summary outcome) {
    claw_id = some p.persona.claw_id;
    requester_id = some p.requester_id;
    persona_id = some p.persona.id;
    actor_id = some p.resolved.actor.id;
    actor_mode = some p.resolved.actor_mode;
    fallback_used = some p.resolved.fallback_used;
    capability_id = some p.capability.id;
    target = some p.target;
  }

  -- The request of a confirmation, which lasts ten minutes.
  abbrev pub asked_confirmation : Prepared → ConfirmationRecord
  asked_confirmation p = record {
    id = "";
    requester_id = p.requester_id;
    persona_id = p.persona.id;
    actor_id = p.resolved.actor.id;
    capability_id = p.capability.id;
    target = p.target;
    arguments_digest = p.arguments_digest;
    summary = w.summary p.capability.id p.target p.arguments;
    status = ConfirmationStatus.pending;
    expires_at = iso (w.ambient.clock + 600000);
    decided_at = none;
    created_at = iso w.ambient.written;
  }

  abbrev pub asked_event : Prepared → ConfirmationRecord → AuditInput
  asked_event p confirmation =
      record (event_input p "invocation.confirmation.request" AuditOutcome.requested
        confirmation.summary) { confirmation_id = some confirmation.id }

  abbrev pub ask : Prepared → M State Issued
  ask p = do
    confirmation ← in_stores (create_confirmation w.ambient (asked_confirmation p))
    emit (asked_event p confirmation)
    pure (confirmation_required confirmation)

  abbrev pub claims_of : Prepared → Option String → GrantClaims
  claims_of p confirmation_id = record {
    claw_id = p.persona.claw_id;
    requester_id = p.requester_id;
    persona_id = p.persona.id;
    actor_id = p.resolved.actor.id;
    actor_mode = p.resolved.actor_mode;
    fallback_used = p.resolved.fallback_used;
    capability_id = p.capability.id;
    target = p.target;
    arguments_digest = p.arguments_digest;
    policy_revision = p.persona.revision;
    connection_id = p.resolved.connection.id;
    confirmation_id = confirmation_id;
  }

  abbrev pub invocation_of : Prepared → Option String → InvocationRecord
  invocation_of p confirmation_id = record {
    id = w.invocation_id;
    claw_id = p.persona.claw_id;
    requester_id = p.requester_id;
    persona_id = p.persona.id;
    actor_id = p.resolved.actor.id;
    actor_mode = p.resolved.actor_mode;
    fallback_used = p.resolved.fallback_used;
    capability_id = p.capability.id;
    target = p.target;
    arguments_digest = p.arguments_digest;
    policy_revision = p.persona.revision;
    confirmation_id = confirmation_id;
    status = InvocationStatus.issued;
    issued_at = iso w.ambient.clock;
    expires_at = iso (w.ambient.clock + 300000);
    completed_at = none;
  }

  abbrev pub registration_of : Prepared → String → GrantRegistration
  registration_of p jti = record {
    invocation_id = w.invocation_id;
    jti = jti;
    arguments_digest = p.arguments_digest;
    expires_at = w.ambient.clock + 300000;
  }

  abbrev pub issue_event : Prepared → AuditInput
  issue_event p =
      record (event_input p "invocation.issue" AuditOutcome.succeeded
        ("Issued one-time grant for " <> p.capability.label)) {
          correlation_id = some w.invocation_id;
          policy_revision = some p.persona.revision;
          confirmation_id = p.confirmation_id;
        }

  abbrev pub granting : Prepared → Option String → String × String → M State Issued
  granting p confirmation_id (token, jti) = do
    in_stores (save_invocation (invocation_of p confirmation_id))
    in_tables (register_grant w.coordinator (registration_of p jti))
    emit (issue_event p)
    pure (granted (invocation_of p confirmation_id) token)

  abbrev pub grant : Prepared → Option String → M State Issued
  grant p confirmation_id =
      lift (w.sign (claims_of p confirmation_id)) >>= granting p confirmation_id

  abbrev pub expected_of : Prepared → Expected
  expected_of p = record {
    requester_id = p.requester_id;
    persona_id = p.persona.id;
    actor_id = p.resolved.actor.id;
    capability_id = p.capability.id;
    target = p.target;
    arguments_digest = p.arguments_digest;
  }

  abbrev pub use_first : Prepared → String → M State Issued
  use_first p id = do
    key ← lift (required_text (some id) "confirmationId" 200)
    _ ← in_stores (use_confirmation w.tx w.ambient key (expected_of p))
    grant p (some id)

  abbrev pub with_confirmation : Prepared → Option String → M State Issued
  with_confirmation p none = ask p
  with_confirmation p (some id) = use_first p id

  abbrev pub by_confirmation : Prepared → Option String → Confirmation → M State Issued
  by_confirmation p id always = with_confirmation p id
  by_confirmation p id never = grant p id

  unfoldable pub issue_invocation : String → Bool → Bool → IssueInput → M State Issued
  unfolding prepare emit create_confirmation use_confirmation save_invocation register_grant
      required_text
  issue_invocation requester_id is_admin trusted_ingress raw s =
      (lift (prepare w s.stores requester_id is_admin trusted_ingress raw) >>= λ p.
      by_confirmation p (given_id p.confirmation_id) p.capability.confirmation)
        s
