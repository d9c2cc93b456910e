-- ===== src/Reconciler/Removal/Stages.antt =====
-- The removal of a claw as a machine of stages, which the rounds of the reconciler refine.
use crabhelm.Common.{
  arith, Option, if◌then◌else◌, some, ◌≡◌, none, true, Bool-cases, false, inl, subst, sym, inr, ◌⊎◌,
  Option-cases, refl,
}
use crabhelm.Claw.Types.{
  Stage, ClawObserved, DeletionState, ClawRecord, disable, drain, revoke, release, confirm,
}
use crabhelm.Reconciler.Provider.{
  World, DisableResult, Report, overlay, InspectResult, DrainResult, RemoveResult,
  RevokeControlResult,
}
use crabhelm.Claw.Fleet.{is_gone}
use crabhelm.Reconciler.Removal.{
  disabling, is_failed_workspace, drain_started, quiet_enough, is_confirmed, mark_provider_absent,
  draining, mark_deleted, at_stage, removal_report, disable_of, drain_of, releasing, revoking,
}
use crabhelm.Effect.{ok, bind_result-eq-ok, err, Result-cases}
use crabhelm.Errors.{Error}
use crabhelm.Governance.Types.{Timestamp}

-- How far the removal of a claw is.
pub data Removal : Type 0 where
  none_asked : Removal
  at : Stage → Removal
  gone : Removal

abbrev pub removal_of_deletion : Option DeletionState → Removal
removal_of_deletion none = none_asked
removal_of_deletion (some d) = at d.stage

abbrev pub removal_of : ClawObserved → Removal
removal_of o = if is_gone o.phase then gone else removal_of_deletion o.deletion

-- The moves between the stages, each with the answers of the provider that it needs.
pub data Advance (w : World) (claw : ClawRecord) (d : DeletionState)
    : Stage → Removal → Type 0 where
  closed :
      (r : DisableResult)
      → w.provider.disable claw ≡ ok r
      → r.applied ≡ true
      → Advance w claw d disable (at drain)
  broken :
      (e : Error)
      → w.provider.inspect claw false ≡ err e
      → is_failed_workspace e ≡ true
      → Advance w claw d disable (at drain)
  lost :
      (stage : Stage) (r : InspectResult)
      → w.provider.inspect claw false ≡ ok r
      → r.absent ≡ true
      → (stage ≡ disable) ⊎ (stage ≡ drain)
      → Advance w claw d stage (at revoke)
  waiting : (r : DrainResult) → w.provider.drain claw ≡ ok r → Advance w claw d drain (at drain)
  drained :
      (r : DrainResult) (since : Timestamp)
      → w.provider.drain claw ≡ ok r
      → r.drained ≡ true
      → drain_started d.drained_at ≡ some since
      → quiet_enough w since ≡ true
      → Advance w claw d drain (at release)
  removed :
      (stage : Stage) (r : RemoveResult)
      → w.provider.remove claw ≡ ok r
      → r.absent ≡ true
      → (stage ≡ release) ⊎ (stage ≡ confirm)
      → Advance w claw d stage (at revoke)
  unconfirmed :
      (stage : Stage) (r : RemoveResult)
      → w.provider.remove claw ≡ ok r
      → r.absent ≡ false
      → (stage ≡ release) ⊎ (stage ≡ confirm)
      → Advance w claw d stage (at confirm)
  unpaired :
      (r : RevokeControlResult)
      → w.provider.revoke_control claw ≡ ok r
      → is_confirmed w claw d r ≡ true
      → Advance w claw d revoke gone

module _ (w : World) (claw : ClawRecord) (d : DeletionState) where
  abbrev Reaches : Stage → Report → Type 0
  Reaches stage p = Advance w claw d stage (removal_of p.observed)

  reach :
      (stage : Stage) (p : Report) {to : Removal}
      → Advance w claw d stage to
      → removal_of p.observed ≡ to
      → Reaches stage p
  reach stage p move e = subst (Advance w claw d stage) (sym e) move

  disabling-IsAdvance : (p : Report) → disabling w claw d ≡ ok p → Reaches disable p
  unfolding overlay
  disabling-IsAdvance p e =
      let (r, answer, rest) = bind_result-eq-ok (w.provider.disable claw) _ e in
      elim (Bool-cases r.applied) [
        | inl done ↦ reach disable p (closed r answer done) (ground arith)
        | inr failed ↦ absurd (ground arith)
      ]

  disable_of-IsAdvance :
      (p : Report) → disable_of w claw d (w.provider.inspect claw false) ≡ ok p → Reaches disable p
  unfolding overlay mark_provider_absent
  disable_of-IsAdvance p e = elim (Result-cases (w.provider.inspect claw false)) [
    | inl (r, answer) ↦
        let e' = subst (λ x. disable_of w claw d x ≡ ok p) answer e in
        elim (Bool-cases r.absent) [
          | inl missing ↦ reach disable p (lost disable r answer missing (inl refl)) (ground arith)
          | inr present ↦ disabling-IsAdvance p (ground arith)
        ]
    | inr (x, answer) ↦
        let e' = subst (λ x. disable_of w claw d x ≡ ok p) answer e in
        elim (Bool-cases (is_failed_workspace x)) [
          | inl failed ↦ reach disable p (broken x answer failed) (ground arith)
          | inr other_ ↦ absurd (ground arith)
        ]
  ]

  draining-IsAdvance : (p : Report) → d.stage ≡ drain → draining w claw d ≡ ok p → Reaches drain p
  draining-IsAdvance p is e =
      let (r, answer, rest) = bind_result-eq-ok (w.provider.drain claw) _ e in
      elim (Bool-cases r.drained) [
        | inr busy ↦ reach drain p (waiting r answer) (ground arith)
        | inl idle ↦ elim (Option-cases (drain_started d.drained_at)) [
          | inl unmarked ↦ reach drain p (waiting r answer) (ground arith)
          | inr (since, marked) ↦ elim (Bool-cases (quiet_enough w since)) [
            | inl quiet ↦ reach drain p (drained r since answer idle marked quiet) (ground arith)
            | inr early ↦ reach drain p (waiting r answer) (ground arith)
          ]
        ]
      ]

  drain_of-IsAdvance :
      (p : Report)
      → d.stage ≡ drain
      → drain_of w claw d (w.provider.inspect claw false) ≡ ok p
      → Reaches drain p
  unfolding mark_provider_absent
  drain_of-IsAdvance p is e = elim (Result-cases (w.provider.inspect claw false)) [
    | inl (r, answer) ↦
        let e' = subst (λ x. drain_of w claw d x ≡ ok p) answer e in
        elim (Bool-cases r.absent) [
          | inl missing ↦ reach drain p (lost drain r answer missing (inr refl)) (ground arith)
          | inr present ↦ draining-IsAdvance p is (ground arith)
        ]
    | inr (x, answer) ↦
        let e' = subst (λ x. drain_of w claw d x ≡ ok p) answer e in
        elim (Bool-cases (is_failed_workspace x)) [
          | inl failed ↦ draining-IsAdvance p is (ground arith)
          | inr other_ ↦ absurd (ground arith)
        ]
  ]

  releasing-IsAdvance :
      (stage : Stage) (next : DeletionState) (p : Report)
      → (stage ≡ release) ⊎ (stage ≡ confirm)
      → next.stage ≡ confirm
      → releasing w claw d next ≡ ok p
      → Reaches stage p
  unfolding mark_provider_absent
  releasing-IsAdvance stage next p late to e =
      let (r, answer, rest) = bind_result-eq-ok (w.provider.remove claw) _ e in
      elim (Bool-cases r.absent) [
        | inl missing ↦ reach stage p (removed stage r answer missing late) (ground arith)
        | inr present ↦ reach stage p (unconfirmed stage r answer present late) (ground arith)
      ]

  revoking-IsAdvance : (p : Report) → revoking w claw d ≡ ok p → Reaches revoke p
  unfolding mark_deleted
  revoking-IsAdvance p e =
      let (r, answer, rest) = bind_result-eq-ok (w.provider.revoke_control claw) _ e in
      elim (Bool-cases (is_confirmed w claw d r)) [
        | inl done ↦ reach revoke p (unpaired r answer done) (ground arith)
        | inr failed ↦ absurd (ground arith)
      ]

  at_stage-IsAdvance :
      (stage : Stage) (p : Report)
      → d.stage ≡ stage
      → at_stage w claw d stage ≡ ok p
      → Reaches stage p
  at_stage-IsAdvance disable p is e = disable_of-IsAdvance p e
  at_stage-IsAdvance drain p is e = drain_of-IsAdvance p is e
  at_stage-IsAdvance release p is e = releasing-IsAdvance release _ p (inl refl) refl e
  at_stage-IsAdvance confirm p is e = releasing-IsAdvance confirm _ p (inr refl) is e
  at_stage-IsAdvance revoke p is e = revoking-IsAdvance p e

  -- What a round of a claw that is being removed reports is a move of the machine of stages.
  pub removal_report-IsAdvance :
      (p : Report)
      → removal_report w claw d ≡ ok p
      → Advance w claw d d.stage (removal_of p.observed)
  unfolding removal_report
  removal_report-IsAdvance p e = at_stage-IsAdvance d.stage p refl e
