-- ===== src/Reconciler/Progress.antt =====
-- A round of a claw that is being removed, while no other method changes the stores: what it leaves
-- in them.
use crabhelm.Reconciler.Round.{
  Round, reconcile_one, with_inference, inference_of, reconciling, is_conflict, ended,
  after_inference, failed_report, safe_reconcile_failure, caught, recover, by_deletion,
}
use crabhelm.Common.{String, Bool, Option, ◌≡◌, some, none, false, refl, ◌∙◌, arith, ap}
use crabhelm.Claw.Types.{ClawRecord, DeletionState, InferenceObservation}
use crabhelm.Registry.{normalize_record, Fleet, require_claw}
use crabhelm.Errors.{Error}
use crabhelm.Store.{lookup}
use crabhelm.Reconciler.Reports.{IsSeen, observed_as, stored, write_report_stores}
use crabhelm.Reconciler.Provider.{Report}
use crabhelm.Claw.Fleet.{is_gone}
use crabhelm.Effect.{ok, err}
use crabhelm.Reconciler.Removal.{removal_report}

-- No other method changes these stores before a round's writes.
pub record IsAlone (round : Round) (s : Fleet) : Type 0 where
  pub first : round.first.others s ≡ s
  pub second : round.second.others s ≡ s
  pub last : round.last.others s ≡ s

-- A stored claw that is being removed, in the stage of `d`.
pub record IsRemoving (id : String) (s : Fleet) (c : ClawRecord) (d : DeletionState) : Type 0 where
  pub found : lookup id s.claws ≡ some c
  pub keyed : c.id ≡ id
  pub live : is_gone c.observed.phase ≡ false
  pub asked : c.observed.deletion ≡ some d

-- The claw as a round sees it, with what the router told.
abbrev pub seen_as : ClawRecord → Option InferenceObservation → ClawRecord
seen_as c i = with_inference (normalize_record c) i

pub seen_as-IsSeen :
    (id : String) (c : ClawRecord) (i : Option InferenceObservation)
    → c.id ≡ id
    → IsSeen id c (seen_as c i)
unfolding normalize_record
seen_as-IsSeen id c none keyed = record { is_id = keyed; is_read = refl; is_desired = refl }
seen_as-IsSeen id c (some i) keyed = record { is_id = keyed; is_read = refl; is_desired = refl }

pub seen_as-deletion :
    (c : ClawRecord) (i : Option InferenceObservation)
    → (seen_as c i).observed.deletion ≡ c.observed.deletion
unfolding normalize_record
seen_as-deletion c none = refl
seen_as-deletion c (some i) = refl

module _ (tx : Bool) (round : Round) (id : String) (s : Fleet) (c : ClawRecord) where
  -- What the round of a claw that is there is.
  pub reconcile_one_lem :
      lookup id s.claws ≡ some c
      → is_gone c.observed.phase ≡ false
      → reconcile_one tx round id s
        ≡ after_inference tx round id
            (normalize_record c)
            (inference_of round.world (normalize_record c) c.desired.inference.router)
            s
  unfolding reconcile_one require_claw reconciling normalize_record
  reconcile_one_lem found live = ground arith

  pub removal_round :
      (i : Option InferenceObservation) (d : DeletionState)
      → IsRemoving id s c d
      → inference_of round.world (normalize_record c) c.desired.inference.router ≡ ok i
      → reconcile_one tx round id s
        ≡ ended tx round id (seen_as c i) (removal_report round.world (seen_as c i) d) s
  unfolding normalize_record
  removal_round i d is asked =
      reconcile_one_lem is.found is.live
      ∙ ap (λ r. after_inference tx round id (normalize_record c) r s) asked
      ∙ ap (λ x. by_deletion tx round id (seen_as c i) i x s) (seen_as-deletion c i ∙ is.asked)

  -- A round whose report is `report` stores it.
  pub removal_round_stores :
      (i : Option InferenceObservation) (d : DeletionState) (report : Report)
      → IsAlone round s
      → IsRemoving id s c d
      → inference_of round.world (normalize_record c) c.desired.inference.router ≡ ok i
      → removal_report round.world (seen_as c i) d ≡ ok report
      → reconcile_one tx round id s ≡ (
        ok (observed_as round.second.call c report.observed),
        stored round.second.call id c report s,
      )
  removal_round_stores i d report alone is asked reported =
      removal_round i d is asked
      ∙ ap (λ r. ended tx round id (seen_as c i) r s) reported
      ∙ ap (caught tx round id (seen_as c i)) (
          write_report_stores tx round round.second id c s (seen_as c i) report alone.second
            is.found (seen_as-IsSeen id c i is.keyed))

  pub recover_stores :
      (seen : ClawRecord) (e : Error)
      → IsAlone round s
      → lookup id s.claws ≡ some c
      → IsSeen id c seen
      → is_conflict e ≡ false
      → let report = failed_report seen (safe_reconcile_failure e seen) in
        recover tx round id seen e s
        ≡ (ok (observed_as round.last.call c report.observed), stored round.last.call id c report s)
  recover_stores seen e alone found is other_ =
      let report = failed_report seen (safe_reconcile_failure e seen) in
      let wrote = write_report_stores tx round round.last id c s seen report alone.last found is in
      ground (arith, wrote)

  -- A round whose report fails stores that instead.
  pub removal_round_fails :
      (i : Option InferenceObservation) (d : DeletionState) (e : Error)
      → IsAlone round s
      → IsRemoving id s c d
      → inference_of round.world (normalize_record c) c.desired.inference.router ≡ ok i
      → removal_report round.world (seen_as c i) d ≡ err e
      → is_conflict e ≡ false
      → let report = failed_report (seen_as c i) (safe_reconcile_failure e (seen_as c i)) in
        reconcile_one tx round id s
        ≡ (ok (observed_as round.last.call c report.observed), stored round.last.call id c report s)
  removal_round_fails i d e alone is asked reported other_ =
      removal_round i d is asked
      ∙ ap (λ r. ended tx round id (seen_as c i) r s) reported
      ∙ recover_stores (seen_as c i) e alone is.found (seen_as-IsSeen id c i is.keyed) other_
