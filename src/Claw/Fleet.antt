-- ===== src/Claw/Fleet.antt =====
-- The desired state of a claw and the summary of a fleet: `setClawEnabled`,
-- `clawCredentialsGeneration`, `rotateClawCredentials`, `nextRecordRevision` and `fleetSummary`
-- (src/domain.ts).
pub mod Census
pub mod Generations
use crabhelm.Common.{
  ℕ, Option, Bool, List, leb, some, not, true, length, if◌then◌else◌, false, select, ◌&&◌, ◌+◌, ltb,
  ◌==◌, none,
}
use crabhelm.Claw.Types.{
  ClawRecord, ClawPhase, FleetSummary, deleted, ready, attention, requested, provisioning,
  enrolling, deleting,
}
use crabhelm.Governance.Types.{Timestamp}
use crabhelm.Effect.{Result, err, ok}
use crabhelm.Errors.{request}

-- `Number.isSafeInteger` of a natural number.
abbrev pub is_safe : ℕ → Bool
is_safe n = leb n 9007199254740991

abbrev safe_revision : Option ℕ → ℕ
safe_revision none = 1
safe_revision (some r) = if is_safe r then r + 1 else 1

unfoldable pub next_record_revision : ClawRecord → ℕ
next_record_revision r = safe_revision r.revision

abbrev epoch : Option ℕ → ℕ
epoch none = 1
epoch (some v) = if is_safe v && leb 1 v then v else 1

unfoldable pub claw_credentials_generation : ClawRecord → ℕ
claw_credentials_generation r = epoch r.desired.credentials_generation

abbrev pub bool_eq : Bool → Bool → Bool
bool_eq true b = b
bool_eq false b = not b

unfoldable pub set_claw_enabled : ClawRecord → Bool → Timestamp → ClawRecord
set_claw_enabled r enabled now = if bool_eq r.desired.enabled enabled then r else record r {
  revision = some (next_record_revision r);
  desired = record r.desired { enabled = enabled; generation = r.desired.generation + 1 };
  updated_at = now;
}

unfoldable pub rotate_claw_credentials : ClawRecord → Timestamp → Result ClawRecord
rotate_claw_credentials r now =
    if ltb 1000000 (claw_credentials_generation r + 1)
    then err (request "credential rotation limit reached")
    else ok (record r {
      revision = some (next_record_revision r);
      desired = record r.desired {
        credentials_generation = some (claw_credentials_generation r + 1);
        generation = r.desired.generation + 1;
      };
      updated_at = now;
    })

abbrev pub is_gone : ClawPhase → Bool
is_gone deleted = true
is_gone _ = false

abbrev pub is_ready : ClawPhase → Bool
is_ready ready = true
is_ready _ = false

abbrev pub is_attention : ClawPhase → Bool
is_attention attention = true
is_attention _ = false

abbrev pub is_disabled : ClawPhase → Bool
is_disabled ClawPhase.disabled = true
is_disabled _ = false

abbrev pub is_deleted : ClawRecord → Bool
is_deleted r = is_gone r.observed.phase

abbrev pub counts : (ClawRecord → Bool) → List ClawRecord → ℕ
counts p rs = length (select p rs)

abbrev pub is_provisioning : ClawPhase → Bool
is_provisioning requested = true
is_provisioning provisioning = true
is_provisioning enrolling = true
is_provisioning deleting = true
is_provisioning _ = false

unfoldable pub fleet_summary : List ClawRecord → FleetSummary
fleet_summary rs = record {
  total = counts (λ r. not (is_deleted r)) rs;
  ready = counts (λ r. is_ready r.observed.phase) rs;
  provisioning = counts (λ r. is_provisioning r.observed.phase) rs;
  attention = counts (λ r. is_attention r.observed.phase) rs;
  disabled = counts (λ r. is_disabled r.observed.phase) rs;
  drifted =
      counts (λ r. not (is_deleted r) && not (r.desired.generation == r.observed.generation)) rs;
}
