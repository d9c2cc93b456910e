-- ===== src/GovernanceRegistry/Types.antt =====
-- The records of src/governance-types.ts that the registry keeps besides those of `Governance`.
use crabhelm.Governance.Types.{Timestamp, ActorMode, Provider}
use crabhelm.Common.{String, Option, Bool, ℕ}

pub record OAuthStateRecord : Type 0 where
  pub id : String
  pub principal_id : String
  pub provider : Provider
  pub created_at : Timestamp
  pub expires_at : Timestamp

pub data ConfirmationStatus : Type 0 where
  pending approved denied used expired : ConfirmationStatus

pub record ConfirmationRecord : Type 0 where
  pub id : String
  pub requester_id : String
  pub persona_id : String
  pub actor_id : String
  pub capability_id : String
  pub target : String
  pub arguments_digest : String
  pub summary : String
  pub status : ConfirmationStatus
  pub expires_at : Timestamp
  pub decided_at : Option Timestamp
  pub created_at : Timestamp

pub data InvocationStatus : Type 0 where
  issued running succeeded failed expired : InvocationStatus

pub record InvocationRecord : Type 0 where
  pub id : String
  pub claw_id : String
  pub requester_id : String
  pub persona_id : String
  pub actor_id : String
  pub actor_mode : ActorMode
  pub fallback_used : Bool
  pub capability_id : String
  pub target : String
  pub arguments_digest : String
  pub policy_revision : ℕ
  pub confirmation_id : Option String
  pub status : InvocationStatus
  pub issued_at : Timestamp
  pub expires_at : Timestamp
  pub completed_at : Option Timestamp

pub data AuditOutcome : Type 0 where
  requested succeeded failed denied : AuditOutcome

-- What a method says of an event; `details` is left out, since no method here gives any.
pub record AuditInput : Type 0 where
  pub claw_id : Option String
  pub requester_id : Option String
  pub persona_id : Option String
  pub actor_id : Option String
  pub actor_mode : Option ActorMode
  pub fallback_used : Option Bool
  pub capability_id : Option String
  pub target : Option String
  pub policy_revision : Option ℕ
  pub confirmation_id : Option String
  pub correlation_id : Option String
  pub action : String
  pub outcome : AuditOutcome
  pub summary : String

pub record GovernanceAuditEvent : Type 0 where
  pub id : String
  pub at : Timestamp
  pub correlation_id : String
  pub input : AuditInput
