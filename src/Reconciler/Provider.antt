-- ===== src/Reconciler/Provider.antt =====
-- What the reconciler asks of a deployment provider and of the inference router, and their answers:
-- `ChildCoreProvider` (src/providers.ts), its results (src/types.ts) and `InferenceControl`
-- (src/reconciler.ts). The answers are arbitrary functions of the claw that is asked about.
use crabhelm.Common.{String, Option, Bool, ℕ, some, or_else, none}
use crabhelm.Claw.Types.{
  ClawRecord, ClawObserved, ClawPhase, Health, LifecycleIdentity, ParentControlLink,
  InferenceObservation, ChildOperationalProbes,
}
use crabhelm.Effect.{Result, ok}
use crabhelm.Registry.{EventInput}
use crabhelm.Governance.Types.{Timestamp}

-- `phase` of an answer, one of "enrolling", "ready" and "attention".
pub data ProvisionPhase : Type 0 where
  enrolling ready attention : ProvisionPhase

-- `health` of a provisioning, "unknown" or "healthy".
pub data ProvisionHealth : Type 0 where
  unknown healthy : ProvisionHealth

pub record ProvisionResult : Type 0 where
  pub phase : ProvisionPhase
  pub message : String
  pub health : ProvisionHealth
  pub lifecycle : LifecycleIdentity
  pub control_link : Option ParentControlLink
  pub gateway_version : Option String
  pub config_hash : Option String
  pub probes : Option ChildOperationalProbes

-- A field that an answer leaves out is `none`.
pub record InspectResult : Type 0 where
  pub phase : Option ProvisionPhase
  pub message : Option String
  pub health : Option Health
  pub lifecycle : Option LifecycleIdentity
  pub control_link : Option ParentControlLink
  pub gateway_version : Option String
  pub config_hash : Option String
  pub probes : Option ChildOperationalProbes
  pub absent : Bool
  pub invalidate_readiness : Bool
  pub last_seen_at : Option Timestamp

pub record DisableResult : Type 0 where
  pub applied : Bool
  pub result : InspectResult

pub record DrainResult : Type 0 where
  pub drained : Bool
  pub active_runs : ℕ
  pub checked_at : Timestamp
  pub message : String

pub record RemoveResult : Type 0 where
  pub absent : Bool
  pub message : String

pub record RevokeControlResult : Type 0 where
  pub removed_paired_device : Bool
  pub rejected_pending_request : Bool
  pub already_absent : Bool
  pub message : String

-- `inspect` is told whether it reconciles the desired state, which is so by default.
pub record ChildCoreProvider : Type 0 where
  pub provision : ClawRecord → Result ProvisionResult
  pub inspect : ClawRecord → Bool → Result InspectResult
  pub disable : ClawRecord → Result DisableResult
  pub drain : ClawRecord → Result DrainResult
  pub remove : ClawRecord → Result RemoveResult
  pub revoke_control : ClawRecord → Result RevokeControlResult

abbrev pub InferenceControl : Type 0
InferenceControl = ClawRecord → Result InferenceObservation

-- What one round of reconciling meets: the answers of the provider and of the inference control, if
-- one is configured, the quiet period in milliseconds, and the readings of the clock. `attempt_at`
-- is the first, `observed_at` the next one and `compared_at` that of the quiet period's test.
pub record World : Type 0 where
  pub provider : ChildCoreProvider
  pub inference : Option InferenceControl
  pub drain_quiet_period_ms : ℕ
  pub attempt_at : ℕ
  pub observed_at : ℕ
  pub compared_at : ℕ
  -- `childPolicyHash` of src/domain.ts, a SHA-256 digest.
  pub child_policy_hash : ClawRecord → String

-- What a round writes with `#writeObserved`: the observations and an audit event.
pub record Report : Type 0 where
  pub observed : ClawObserved
  pub event : Option EventInput

abbrev pub quietly : ClawObserved → Result Report
quietly o = ok (record { observed = o; event = none })

abbrev pub phase_of : ProvisionPhase → ClawPhase
phase_of enrolling = ClawPhase.enrolling
phase_of ready = ClawPhase.ready
phase_of attention = ClawPhase.attention

abbrev pub health_of : ProvisionHealth → Health
health_of unknown = Health.unknown
health_of healthy = Health.healthy

-- `value ?? previous`, of a field that may stay undefined.
abbrev pub or_previous {ℓ} : {A : Type ℓ} → Option A → Option A → Option A
or_previous none previous = previous
or_previous (some a) previous = some a

abbrev phase_or : Option ProvisionPhase → ClawPhase → ClawPhase
phase_or none previous = previous
phase_or (some p) previous = phase_of p

-- `{ ...observed, ...observedResult }`: the fields that an answer has replace those observed.
unfoldable pub overlay : ClawObserved → InspectResult → ClawObserved
overlay o r = record o {
  phase = phase_or r.phase o.phase;
  message = or_else r.message o.message;
  health = or_else r.health o.health;
  lifecycle = or_previous r.lifecycle o.lifecycle;
  control_link = or_else r.control_link o.control_link;
  gateway_version = or_previous r.gateway_version o.gateway_version;
  config_hash = or_previous r.config_hash o.config_hash;
  probes = or_previous r.probes o.probes;
  last_seen_at = or_previous r.last_seen_at o.last_seen_at;
}
