-- ===== src/GovernanceRegistry/Stores.antt =====
-- The stores of the registry, what a method takes from its surroundings, and the steps that the
-- methods share (src/governance-registry.ts).
use crabhelm.Store.{Store, register, lookup}
use crabhelm.Effect.{M, Result, write, err, ok}
use crabhelm.Governance.Types.{
  PrincipalRecord, PersonaRecord, OAuthConnectionRecord, SkillRecord, iso,
}
use crabhelm.Common.{ℕ, Option, String, none, or_else, some}
use crabhelm.GovernanceRegistry.Types.{
  AuditInput, AuditOutcome, GovernanceAuditEvent, ConfirmationRecord, OAuthStateRecord,
  InvocationRecord,
}
use crabhelm.Errors.{other}

pub record Stores : Type 0 where
  pub principals : Store PrincipalRecord
  pub personas : Store PersonaRecord
  pub skills : Store SkillRecord
  pub connections : Store OAuthConnectionRecord
  pub oauth_states : Store OAuthStateRecord
  pub confirmations : Store ConfirmationRecord
  pub invocations : Store InvocationRecord
  pub events : Store GovernanceAuditEvent

-- One call's readings of `Date.now()`, for its tests, and of `new Date()`, for what it writes, and
-- its calls of `randomUUID()`.
pub record Ambient : Type 0 where
  pub clock : ℕ
  pub written : ℕ
  pub id : String
  pub owner_id : String
  pub event_id : String
  pub correlation_id : String

abbrev pub found {ℓ} : {A : Type ℓ} → Option A → String → Result A
found none message = err (other message)
found (some a) message = ok a

abbrev pub blank : String → String → AuditOutcome → AuditInput
blank action summary outcome = record {
  claw_id = none;
  requester_id = none;
  persona_id = none;
  actor_id = none;
  actor_mode = none;
  fallback_used = none;
  capability_id = none;
  target = none;
  policy_revision = none;
  confirmation_id = none;
  correlation_id = none;
  action = action;
  outcome = outcome;
  summary = summary;
}

abbrev pub event_of : Ambient → AuditInput → GovernanceAuditEvent
event_of env input = record {
  id = env.event_id;
  at = iso env.written;
  correlation_id = or_else input.correlation_id env.correlation_id;
  input = input;
}

unfoldable pub audit : Ambient → AuditInput → M Stores (Unit {0})
audit env input =
    write λ s. record s { events = register env.event_id (event_of env input) s.events }

unfoldable pub require_principal : String → M Stores PrincipalRecord
require_principal id s = (found (lookup id s.principals) "principal not found", s)

unfoldable pub require_persona : String → M Stores PersonaRecord
require_persona id s = (found (lookup id s.personas) "persona not found", s)

unfoldable pub require_connection : String → M Stores OAuthConnectionRecord
require_connection id s = (found (lookup id s.connections) "connection not found", s)

unfoldable pub require_confirmation : String → M Stores ConfirmationRecord
require_confirmation id s = (found (lookup id s.confirmations) "confirmation not found", s)
