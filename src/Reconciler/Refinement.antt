-- ===== src/Reconciler/Refinement.antt =====
-- Rounds of the reconciler as moves of the machine of stages, and what a deletion presupposes.
use crabhelm.Common.{
  Bool, String, ◌≡◌, some, ◌⊎◌, Bool-cases, inl, inr, subst, sym, ap, refl, true, ◌∙◌, arith, none,
}
use crabhelm.Reconciler.Round.{
  Round, reconcile_one, recover, inference_of, is_conflict, failed_report, safe_reconcile_failure,
  after_inference, ended,
}
use crabhelm.Registry.{Fleet, Call, normalize_record, require_claw}
use crabhelm.Claw.Types.{ClawRecord, DeletionState}
use crabhelm.Store.{lookup}
use crabhelm.Errors.{Error}
use crabhelm.Reconciler.Progress.{
  IsAlone, IsRemoving, seen_as, removal_round_stores, seen_as-IsSeen, recover_stores,
  reconcile_one_lem, seen_as-deletion, removal_round,
}
use crabhelm.Reconciler.Provider.{Report}
use crabhelm.Reconciler.Removal.Stages.{
  removal_of, at, Advance, removal_report-IsAdvance, removal_of_deletion,
}
use crabhelm.Reconciler.Reports.{IsSeen, stored, observed_as, lookup-stored}
use crabhelm.Effect.{Result-cases}
use crabhelm.Reconciler.Removal.{removal_report}

module _ (tx : Bool) (round : Round) (id : String) (s : Fleet) (c : ClawRecord)
    (d : DeletionState) where
  -- A claw that is still in its stage, or that a move has brought on.
  abbrev pub Moved : Fleet → Type 0
  Moved t =
      (next : ClawRecord) × (lookup id t.claws ≡ some next)
      × (next.id ≡ id)
      × ((removal_of next.observed ≡ at d.stage)
          ⊎ ((seen : ClawRecord) × IsSeen id c seen
              × Advance round.world seen d d.stage (removal_of next.observed)))

  in_stage : IsRemoving id s c d → removal_of c.observed ≡ at d.stage
  in_stage is = rw (is.live, is.asked) refl

  stored-Moved :
      (call : Call) (report : Report)
      → IsRemoving id s c d
      → (removal_of report.observed ≡ at d.stage)
        ⊎ ((seen : ClawRecord) × IsSeen id c seen
            × Advance round.world seen d d.stage (removal_of report.observed))
      → Moved (stored call id c report s)
  stored-Moved call report is move =
      (observed_as call c report.observed, lookup-stored call id c report s, is.keyed, move)

  unchanged :
      (seen : ClawRecord) (e : Error) → is_conflict e ≡ true → (recover tx round id seen e s).1 ≡ s
  unfolding require_claw
  unchanged seen e conflict = ground arith

  recover-Moved :
      (seen : ClawRecord) (e : Error)
      → IsAlone round s
      → IsRemoving id s c d
      → IsSeen id c seen
      → seen.observed.deletion ≡ some d
      → Moved (recover tx round id seen e s).1
  recover-Moved seen e alone is is_seen asked = elim (Bool-cases (is_conflict e)) [
    | inl conflict ↦
        let still : removal_of c.observed ≡ at d.stage = in_stage is in
        let same : (recover tx round id seen e s).1 ≡ s = unchanged seen e conflict in
        subst Moved (sym same) (c, is.found, is.keyed, inl still)
    | inr other_ ↦
        let report = failed_report seen (safe_reconcile_failure e seen) in
        let stays : removal_of report.observed ≡ at d.stage = ap removal_of_deletion asked in
        subst (λ r. Moved r.1)
          (sym (recover_stores tx round id s c seen e alone is.found is_seen other_))
          (stored-Moved round.last.call report is (inl stays))
  ]

  -- A round of a claw that is being removed, with no other method at work: whatever the provider and
  -- the router answer, the claw that it leaves is in the stage in which it was, or is where a move of
  -- the machine of stages leads from there.
  pub removal_round-IsAdvance :
      IsAlone round s → IsRemoving id s c d → Moved (reconcile_one tx round id s).1
  removal_round-IsAdvance alone is =
      elim (Result-cases
        (inference_of round.world (normalize_record c) c.desired.inference.router)) [
          | inr (e, unanswered) ↦
              subst (λ r. Moved r.1)
                (sym (
                  reconcile_one_lem tx round id s c is.found is.live
                  ∙ ap (λ r. after_inference tx round id (normalize_record c) r s) unanswered))
                (recover-Moved (normalize_record c) e alone is (seen_as-IsSeen id c none is.keyed)
                  (seen_as-deletion c none ∙ is.asked))
          | inl (i, asked) ↦ elim (Result-cases (removal_report round.world (seen_as c i) d)) [
            | inl (report, reported) ↦
                subst (λ r. Moved r.1)
                  (sym (removal_round_stores tx round id s c i d report alone is asked reported))
                  (stored-Moved round.second.call report is (
                    inr (
                      seen_as c i,
                      seen_as-IsSeen id c i is.keyed,
                      removal_report-IsAdvance round.world (seen_as c i) d report reported,
                    )))
            | inr (e, failed) ↦
                subst (λ r. Moved r.1)
                  (sym (
                    removal_round tx round id s c i d is asked
                    ∙ ap (λ r. ended tx round id (seen_as c i) r s) failed))
                  (recover-Moved (seen_as c i) e alone is (seen_as-IsSeen id c i is.keyed)
                    (seen_as-deletion c i ∙ is.asked))
          ]
        ]
