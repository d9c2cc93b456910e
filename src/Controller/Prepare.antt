-- ===== src/Controller/Prepare.antt =====
-- The checks before an invocation is issued, the first part of `#issueInvocation`
-- (worker/governance-controller.ts). They read the stores at once.
use crabhelm.Governance.Records.Fields.{◌>>=◌, ◌>>◌}
use crabhelm.GovernanceRegistry.Stores.{Stores, Ambient}
use crabhelm.GovernanceRegistry.Types.{GovernanceAuditEvent}
use crabhelm.Common.{Option, String, Bool, List, ℕ, ◌||◌}
use crabhelm.Controller.Arguments.{
  required_text, Arguments, normalize_github_target, normalize_arguments,
}
use crabhelm.Effect.{Result, ok, require_true}
use crabhelm.Coordinator.Tables.{Tables, Env}
use crabhelm.Governance.Types.{ActorMode, PersonaRecord, CapabilityDefinition}
use crabhelm.Governance.Ingress.{may_invoke_persona}
use crabhelm.Errors.{Error, other}
use crabhelm.Governance.Capabilities.{capability_by_id}
use crabhelm.Governance.Actor.{ResolvedActor, resolve_invocation_actor, need}
use crabhelm.Store.{lookup, values}

-- The stores of governance, the tables of the persona's coordinator, and the events sent to the
-- queue of the audit's archive.
pub record State : Type 0 where
  pub stores : Stores
  pub tables : Tables
  pub queued : List GovernanceAuditEvent

pub record IssueInput : Type 0 where
  pub persona_id : Option String
  pub capability_id : Option String
  pub target : Option String
  pub arguments : Option Arguments
  pub confirmation_id : Option String

-- The claims of a grant but for its token's id and times.
pub record GrantClaims : Type 0 where
  pub claw_id : String
  pub requester_id : String
  pub persona_id : String
  pub actor_id : String
  pub actor_mode : ActorMode
  pub fallback_used : Bool
  pub capability_id : String
  pub target : String
  pub arguments_digest : String
  pub policy_revision : ℕ
  pub connection_id : String
  pub confirmation_id : Option String

-- What the issue of an invocation meets. `digest` is the SHA-256 digest of the canonical JSON of a
-- capability, a target and arguments; `sign` signs claims and reads back the token's id with them;
-- `summary` is `confirmationSummary`; `queue_error` is what the queue throws, if it does.
pub record IssueSetting : Type 0 where
  pub tx : Bool
  pub ambient : Ambient
  pub coordinator : Env
  pub invocation_id : String
  pub digest : String → String → Arguments → String
  pub sign : GrantClaims → Result (String × String)
  pub summary : String → String → Arguments → String
  pub queue_error : Option Error

-- What the checks of a request come to.
pub record Prepared : Type 0 where
  pub requester_id : String
  pub persona : PersonaRecord
  pub capability : CapabilityDefinition
  pub target : String
  pub arguments : Arguments
  pub arguments_digest : String
  pub resolved : ResolvedActor
  pub confirmation_id : Option String

module _ (w : IssueSetting) where
  unfoldable pub prepare : Stores → String → Bool → Bool → IssueInput → Result Prepared
  unfolding required_text may_invoke_persona capability_by_id normalize_github_target
      normalize_arguments resolve_invocation_actor lookup values
  prepare s requester_id is_admin trusted_ingress raw = do
    requester ← need (lookup requester_id s.principals) "principal not found"
    persona_id ← required_text raw.persona_id "personaId" 200
    persona ← need (lookup persona_id s.personas) "persona not found"
    require_true (trusted_ingress || may_invoke_persona persona requester_id is_admin)
        (other "requester is not permitted to invoke this persona")
    capability_id ← required_text raw.capability_id "capabilityId" 120
    capability ← capability_by_id capability_id
    target ← normalize_github_target raw.target
    arguments ← normalize_arguments raw.arguments
    resolved ←
        resolve_invocation_actor requester persona capability (values s.principals)
          (values s.connections)
    ok (record {
      requester_id = requester_id;
      persona = persona;
      capability = capability;
      target = target;
      arguments = arguments;
      arguments_digest = w.digest capability.id target arguments;
      resolved = resolved;
      confirmation_id = raw.confirmation_id;
    })
