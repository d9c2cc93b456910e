-- ===== src/Reconciler/Round.antt =====
-- One round of the reconciler, `reconcileOne` and `#reconcileOne`, and all of them, `reconcileAll`
-- (src/reconciler.ts). `reconcileOne` runs the rounds of one claw one after the other, and other
-- methods may change the stores while a round awaits an answer.
use crabhelm.Registry.{Fleet, Call, write_observed, require_claw, normalize_record}
use crabhelm.Reconciler.Provider.{World, Report, InferenceControl}
use crabhelm.Claw.Types.{
  ClawRecord, InferenceRouter, attention, InferenceObservation, degraded, DeletionState, failed,
  direct,
}
use crabhelm.Errors.{
  safe_operational_failure, Error, Failure, operational_error_copy, child_error_copy,
  child_removal_failed, code_text, write_conflict, child_reconcile_failed, operational,
  child_provision_failed, clawrouter_unconfigured,
}
use crabhelm.Common.{
  Bool, if◌then◌else◌, true, String, Option, is_some, false, ◌<>◌, some, clip, none, ◌∷◌, [], List,
  map,
}
use crabhelm.Reconciler.Upkeep.{
  provisioned_report, disabled_report, before_provisioning, inspected_report,
}
use crabhelm.Reconciler.Removal.{removal_report}
use crabhelm.Effect.{M, Result, write, ok, err, ◌>>=◌, ◌>>◌, bind_result, pure, read}
use crabhelm.Claw.Fleet.{is_gone}
use crabhelm.Store.{values}

-- A write of a round: what other methods have made of the stores since its last call of the
-- registry, and the registry's own readings.
pub record Turn : Type 0 where
  pub others : Fleet → Fleet
  pub call : Call

-- A round: its answers and its turns. `first` is the report on a claw that is to be provisioned,
-- `second` the report with which a round ends, and `last` that of a failure.
pub record Round : Type 0 where
  pub world : World
  pub first : Turn
  pub second : Turn
  pub last : Turn

unfoldable pub reconcile_failed : ClawRecord → Failure
reconcile_failed claw =
    if is_some claw.observed.deletion
    then record { code = child_removal_failed; message = "Child removal did not complete" }
    else if is_some claw.observed.lifecycle
    then record { code = child_reconcile_failed; message = "Child reconciliation did not complete" }
    else record { code = child_provision_failed; message = "Child provisioning did not complete" }

unfoldable pub safe_reconcile_failure : Error → ClawRecord → Failure
unfolding safe_operational_failure operational_error_copy child_error_copy reconcile_failed
safe_reconcile_failure e claw = safe_operational_failure e (reconcile_failed claw)

-- `isRegistryWriteConflict`.
abbrev pub is_conflict : Error → Bool
is_conflict write_conflict = true
is_conflict _ = false

abbrev pub failure_message : Failure → String
failure_message f = f.message <> " [" <> code_text f.code <> "]"

abbrev pub failed_report : ClawRecord → Failure → Report
failed_report claw f = record {
  observed = record claw.observed {
    phase = attention;
    health = degraded;
    message = clip 500 (failure_message f);
  };
  event = some (record {
    actor = "crabhelm-reconciler";
    action = "claw.reconcile";
    outcome = failed;
    summary = clip 300 (failure_message f);
    generation = some claw.desired.generation;
    details = ("code", code_text f.code) ∷ [];
  });
}

abbrev pub with_inference : ClawRecord → Option InferenceObservation → ClawRecord
with_inference claw none = claw
with_inference claw (some i) = record claw {
  observed = record claw.observed { inference = some i };
}

abbrev pub asked_inference : ClawRecord → Option InferenceControl → Result InferenceObservation
asked_inference claw none = err (
    operational clawrouter_unconfigured
      "ClawRouter desired state has no configured inference control")
asked_inference claw (some control) = control claw

abbrev pub inference_of :
    World → ClawRecord → InferenceRouter → Result (Option InferenceObservation)
inference_of w claw direct = ok none
inference_of w claw _ = bind_result (asked_inference claw w.inference) λ i. ok (some i)

module _ (tx : Bool) (round : Round) where
  -- `#writeObserved`, after what other methods did.
  unfoldable pub write_report : Turn → ClawRecord → Report → M Fleet ClawRecord
  unfolding write_observed
  write_report turn claw report =
      write turn.others
      >> write_observed tx turn.call claw.id report.observed report.event claw.revision

  -- A conflict is answered with the claw as it is stored.
  abbrev pub or_get : String → Result ClawRecord × Fleet → Result ClawRecord × Fleet
  or_get id (ok claw, s) = (ok claw, s)
  or_get id (err e, s) = if is_conflict e then require_claw id s else (err e, s)

  -- The `catch` of a round.
  abbrev pub recover : String → ClawRecord → Error → M Fleet ClawRecord
  recover id claw e s =
      if is_conflict e
      then require_claw id s
      else or_get id
          (write_report round.last claw (failed_report claw (safe_reconcile_failure e claw)) s)

  abbrev pub caught : String → ClawRecord → Result ClawRecord × Fleet → Result ClawRecord × Fleet
  caught id claw (ok next, s) = (ok next, s)
  caught id claw (err e, s) = recover id claw e s

  abbrev pub ended : String → ClawRecord → Result Report → M Fleet ClawRecord
  ended id claw (ok report) s = caught id claw (write_report round.second claw report s)
  ended id claw (err e) s = recover id claw e s

  abbrev pub provision_after :
      String
      → ClawRecord
      → Option InferenceObservation
      → Result ClawRecord × Fleet
      → Result ClawRecord × Fleet
  provision_after id claw inference (err e, s) = recover id claw e s
  provision_after id claw inference (ok next, s) =
      ended id next (provisioned_report round.world next inference) s

  unfoldable pub provisioning_round :
      String → ClawRecord → Option InferenceObservation → M Fleet ClawRecord
  unfolding write_report provisioned_report safe_reconcile_failure require_claw
  provisioning_round id claw inference s = provision_after id claw inference (
      write_report round.first claw
        (record { observed = before_provisioning round.world claw; event = none }) s)

  abbrev pub upkeep :
      String → ClawRecord → Option InferenceObservation → Bool → Bool → M Fleet ClawRecord
  upkeep id claw inference false live = ended id claw (disabled_report round.world claw)
  upkeep id claw inference true false = provisioning_round id claw inference
  upkeep id claw inference true true = ended id claw (inspected_report round.world claw inference)

  abbrev pub by_deletion :
      String → ClawRecord → Option InferenceObservation → Option DeletionState → M Fleet ClawRecord
  by_deletion id claw inference (some d) = ended id claw (removal_report round.world claw d)
  by_deletion id claw inference none =
      upkeep id claw inference claw.desired.enabled (is_some claw.observed.lifecycle)

  abbrev pub after_inference :
      String → ClawRecord → Result (Option InferenceObservation) → M Fleet ClawRecord
  after_inference id claw (err e) = recover id claw e
  after_inference id claw (ok inference) =
      let seen = with_inference claw inference in
      by_deletion id seen inference seen.observed.deletion

  unfoldable pub reconciling : ClawRecord → String → M Fleet ClawRecord
  unfolding write_report provisioning_round removal_report disabled_report inspected_report
      safe_reconcile_failure require_claw
  reconciling claw id =
      if is_gone claw.observed.phase
      then pure claw
      else after_inference id claw (inference_of round.world claw claw.desired.inference.router)

  unfoldable pub reconcile_one : String → M Fleet ClawRecord
  unfolding require_claw reconciling
  reconcile_one id = require_claw id >>= λ claw. reconciling claw id

module _ (tx : Bool) (rounds : String → Round) where
  -- The rounds of the claws of a list; one that throws ends them.
  unfoldable pub reconcile_each : List ClawRecord → M Fleet (Unit {0})
  unfolding reconcile_one
  reconcile_each [] = pure tt
  reconcile_each (claw ∷ claws) =
      let rest = reconcile_each claws in reconcile_one tx (rounds claw.id) claw.id >>= λ _. rest

  -- `reconcileAll`, which does nothing while another call of it runs. `by_updated` is the order of
  -- `list()`, from the claw that was updated last, which compares texts by locale.
  unfoldable pub reconcile_all : (List ClawRecord → List ClawRecord) → Bool → M Fleet (Unit {0})
  unfolding reconcile_each
  reconcile_all by_updated true = pure tt
  reconcile_all by_updated false =
      read (λ s. by_updated (map normalize_record (values s.claws))) >>= reconcile_each
