-- ===== src/Reconciler/Failures.antt =====
-- A round of a removal that fails: what is kept, and what is recorded.
use crabhelm.Registry.{Call, Fleet}
use crabhelm.Common.{String, ◌≡◌, some, ◌∷◌, [], clip, ◌<>◌, ◌⊎◌}
use crabhelm.Claw.Types.{ClawRecord, DeletionState, AuditEvent, attention, degraded, failed}
use crabhelm.Reconciler.Round.{Round, failure_message}
use crabhelm.Errors.{
  Failure, Error, code_text, operational, operational_error_copy, child_error_copy,
  child_removal_failed,
}
use crabhelm.Store.{lookup}
use crabhelm.Governance.Types.{iso}

-- What an operator is told of an error: for one with a code, the code with its fixed text, or that of a
-- failed removal; for any other, that the removal failed. The error's own message is not told.
abbrev pub Tells : Error → Failure → Type 0
Tells (operational code message) f =
    (f.code ≡ code)
    × ((operational_error_copy code ≡ some f.message)
        ⊎ (child_error_copy code ≡ some f.message)
        ⊎ (f.message ≡ "Child removal did not complete"))
Tells _ f = f ≡ record { code = child_removal_failed; message = "Child removal did not complete" }

-- The stores keep the removal of this claw, in its stage, and record this failure.
pub record IsKept (id event_id : String) (c : ClawRecord) (d : DeletionState) (e : Error)
    (f : Failure) (t : Fleet) : Type 0 where
  pub told : Tells e f
  pub next : ClawRecord
  pub event : AuditEvent
  pub found : lookup id t.claws ≡ some next
  pub desired : next.desired ≡ c.desired
  pub deletion : next.observed.deletion ≡ some d
  pub lifecycle : next.observed.lifecycle ≡ c.observed.lifecycle
  pub generation : next.observed.generation ≡ c.observed.generation
  pub phase : next.observed.phase ≡ attention
  pub health : next.observed.health ≡ degraded
  pub message : next.observed.message ≡ clip 500 (f.message <> " [" <> code_text f.code <> "]")
  pub recorded : lookup event_id t.events ≡ some event
  pub outcome : event.outcome ≡ failed
  pub summary : event.summary ≡ clip 300 (f.message <> " [" <> code_text f.code <> "]")
  pub details : event.details ≡ ("code", code_text f.code) ∷ []

abbrev failure_event : Call → String → ClawRecord → Failure → AuditEvent
failure_event call id c f = record {
  id = call.event_id;
  claw_id = some id;
  at = iso call.now;
  actor = "crabhelm-reconciler";
  action = "claw.reconcile";
  outcome = failed;
  summary = clip 300 (failure_message f);
  generation = some c.desired.generation;
  details = ("code", code_text f.code) ∷ [];
}
