-- ===== src/Claw/Types.antt =====
-- The records of src/types.ts. A number with a fraction (a sample rate, a budget) is a quotient of
-- naturals; what is modelled only passes it on.
use crabhelm.Common.{ℕ, String, Bool, Option, List}
use crabhelm.Governance.Types.{Timestamp}

pub data ClawPhase : Type 0 where
  requested provisioning enrolling ready disabled deleting deleted attention : ClawPhase

pub data Health : Type 0 where
  unknown healthy degraded offline : Health

pub record Quotient : Type 0 where
  pub numerator : ℕ
  pub denominator : ℕ

pub data OwnerSource : Type 0 where
  github slack email manual : OwnerSource

pub record OwnerRef : Type 0 where
  pub subject : String
  pub label : String
  pub source : OwnerSource

pub record ApplianceRelease : Type 0 where
  pub manifest_sha256 : String
  pub archive_sha256 : String
  pub node_sha256 : String

pub record DeploymentSpec : Type 0 where
  pub target : String
  pub profile : String
  pub region : Option String
  pub appliance : Option ApplianceRelease

pub data InferenceRouter : Type 0 where
  direct : InferenceRouter
  clawrouter :
      (base_url tenant_id policy_id credential_id project_id : String)
      (allowed_providers : List String) (model_providers : List (String × String))
      (providers : List String)
      → InferenceRouter

pub record InferencePolicy : Type 0 where
  pub provider : String
  pub model : String
  pub fallback_models : List String
  pub auth_ref : Option String
  pub monthly_budget_usd : Option Quotient
  pub router : InferenceRouter

pub data SlackMode : Type 0 where
  relay socket http : SlackMode

pub record SlackPolicy : Type 0 where
  pub enabled : Bool
  pub mode : SlackMode
  pub workspace_id : Option String
  pub route_key : Option String
  pub bot_token_ref : Option String
  pub relay_token_ref : Option String

pub data DmPolicy : Type 0 where
  pairing allowlist disabled : DmPolicy

pub data GroupPolicy : Type 0 where
  allowlist disabled : GroupPolicy

pub record AccessPolicy : Type 0 where
  pub dm_policy : DmPolicy
  pub group_policy : GroupPolicy

pub data LogLevel : Type 0 where
  error warn info debug : LogLevel

pub record OpenTelemetryPolicy : Type 0 where
  pub enabled : Bool
  pub endpoint : Option String
  pub service_name : String
  pub traces : Bool
  pub metrics : Bool
  pub sample_rate : Quotient
  pub flush_interval_ms : ℕ

-- `metadataOnly` is always true and `otel.logs` always false.
pub record ObservabilityPolicy : Type 0 where
  pub log_level : LogLevel
  pub retention_days : ℕ
  pub otel : OpenTelemetryPolicy

pub record ClawDesired : Type 0 where
  pub generation : ℕ
  pub name : String
  pub slug : String
  pub owner : OwnerRef
  pub template_id : String
  pub template_version : ℕ
  pub deployment : DeploymentSpec
  pub inference : InferencePolicy
  pub slack : SlackPolicy
  pub access : AccessPolicy
  pub observability : ObservabilityPolicy
  pub enabled : Bool
  -- Absent in records that were stored before the field existed.
  pub credentials_generation : Option ℕ

pub record LifecycleIdentity : Type 0 where
  pub workspace_id : String
  pub provider_resource_id : Option String
  pub response_digest : String

pub data LinkStatus : Type 0 where
  pending paired offline revoked : LinkStatus

pub record ParentControlLink : Type 0 where
  pub status : LinkStatus
  pub transport : String
  pub command : String
  pub node_id : Option String
  pub last_seen_at : Option Timestamp

pub data Stage : Type 0 where
  disable drain release confirm revoke : Stage

pub record DeletionState : Type 0 where
  pub stage : Stage
  pub requested_at : Timestamp
  pub last_attempt_at : Option Timestamp
  pub drained_at : Option Timestamp

pub data SlackProbeStatus : Type 0 where
  healthy degraded unconfigured : SlackProbeStatus

pub record SlackProbe : Type 0 where
  pub status : SlackProbeStatus
  pub configured : Bool
  pub connected : Bool
  pub account_count : ℕ
  pub probe_ok : Option Bool
  pub audit_ok : Option Bool
  pub last_error : Option String
  pub last_inbound_at : Option ℕ
  pub last_outbound_at : Option ℕ

pub data ModelProbeStatus : Type 0 where
  ready degraded : ModelProbeStatus

pub record ModelProbe : Type 0 where
  pub status : ModelProbeStatus
  pub configured_model : String
  pub resolved_model : Option String
  pub auth_ready : Bool
  pub live_inference_probe : Bool
  pub missing_providers : List String
  pub unusable_profile_count : ℕ

pub data Redaction : Type 0 where
  tools off default : Redaction

-- `contentCaptured` is always false.
pub record Diagnostics : Type 0 where
  pub log_level : LogLevel
  pub redaction : Redaction
  pub process_uptime_seconds : Quotient
  pub rss_bytes : ℕ
  pub node_version : String
  pub platform : String

pub record ChildOperationalProbes : Type 0 where
  pub checked_at : Timestamp
  pub slack : SlackProbe
  pub model : ModelProbe
  pub diagnostics : Diagnostics

pub record InferenceBudget : Type 0 where
  pub configured : Bool
  pub limit_micros : Option ℕ
  pub spent_micros : Option ℕ
  pub remaining_micros : Option ℕ

pub record InferenceUsageSummary : Type 0 where
  pub request_count : ℕ
  pub success_count : ℕ
  pub error_count : ℕ
  pub input_tokens : ℕ
  pub output_tokens : ℕ
  pub total_tokens : ℕ
  pub actual_cost_micros : ℕ

-- `kind` is always `"clawrouter"`.
pub record InferenceObservation : Type 0 where
  pub checked_at : Timestamp
  pub base_url : String
  pub model : String
  pub providers : List String
  pub policy_id : String
  pub credential_id : String
  pub credentials_generation : ℕ
  pub policy_active : Bool
  pub credential_active : Bool
  pub router_healthy : Bool
  pub catalog_ready : Bool
  pub route_verified : Bool
  pub budget : InferenceBudget
  pub usage : Option InferenceUsageSummary

-- `channel` is always `"slack"` and `status` always `"paired"`.
pub record UserAccess : Type 0 where
  pub subject_id : String
  pub label : Option String
  pub paired_at : Timestamp

pub record ClawObserved : Type 0 where
  pub generation : ℕ
  pub phase : ClawPhase
  pub message : String
  pub health : Health
  pub lifecycle : Option LifecycleIdentity
  pub control_link : ParentControlLink
  pub gateway_version : Option String
  pub config_hash : Option String
  pub last_seen_at : Option Timestamp
  pub inference : Option InferenceObservation
  pub probes : Option ChildOperationalProbes
  pub deletion : Option DeletionState
  pub user_access : Option UserAccess

pub record ClawRecord : Type 0 where
  pub id : String
  -- Absent in records that were stored before the field existed.
  pub revision : Option ℕ
  pub desired : ClawDesired
  pub observed : ClawObserved
  pub created_at : Timestamp
  pub updated_at : Timestamp

pub data Outcome : Type 0 where
  requested succeeded failed : Outcome

pub record AuditEvent : Type 0 where
  pub id : String
  pub claw_id : Option String
  pub at : Timestamp
  pub actor : String
  pub action : String
  pub outcome : Outcome
  pub summary : String
  pub generation : Option ℕ
  pub details : List (String × String)

pub record FleetSummary : Type 0 where
  pub total : ℕ
  pub ready : ℕ
  pub provisioning : ℕ
  pub attention : ℕ
  pub disabled : ℕ
  pub drifted : ℕ
