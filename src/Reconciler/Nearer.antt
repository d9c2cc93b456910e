-- ===== src/Reconciler/Nearer.antt =====
-- What a helpful provider makes of the removal of a claw: a stage that is nearer to its end.
use crabhelm.Reconciler.Provider.{
  World, Report, overlay, InspectResult, DisableResult, DrainResult, RemoveResult,
  RevokeControlResult,
}
use crabhelm.Claw.Types.{
  Stage, ClawObserved, DeletionState, ClawRecord, InferenceObservation, disable, drain, revoke,
  release, confirm,
}
use crabhelm.Common.{
  Option, ℕ, some, if◌then◌else◌, ◌≡◌, is_some, ◌≤◌, none, true, suc, ◌<>◌, arith, false, ◌⊎◌, inl,
  inr, ◌||◌, refl, Option-cases,
}
use crabhelm.Governance.Types.{Timestamp}
use crabhelm.Effect.{Result, ok, Result-cases}
use crabhelm.Reconciler.Removal.{
  mark_provider_absent, mark_deleted, quiet_enough, at_stage, releasing,
}
use crabhelm.Reconciler.Round.{inference_of}
use crabhelm.Claw.Fleet.{is_gone}

-- `quietFor >= drainQuietPeriodMs` once a drained claw has been seen.
abbrev pub IsDue : World → Option Timestamp → Type 0
IsDue w none = Unit {0}
IsDue w (some at) = quiet_enough w at ≡ true

-- A world that answers whatever it is asked, and does what it is asked.
pub record IsHelpful (w : World) : Type 0 where
  pub routes :
      (c : ClawRecord)
      → (i : Option InferenceObservation) × (inference_of w c c.desired.inference.router ≡ ok i)
  pub inspects : (c : ClawRecord) → (r : InspectResult) × (w.provider.inspect c false ≡ ok r)
  pub disables :
      (c : ClawRecord) → (r : DisableResult) × (w.provider.disable c ≡ ok r) × (r.applied ≡ true)
  pub drains :
      (c : ClawRecord) → (r : DrainResult) × (w.provider.drain c ≡ ok r) × (r.drained ≡ true)
  pub removes :
      (c : ClawRecord) → (r : RemoveResult) × (w.provider.remove c ≡ ok r) × (r.absent ≡ true)
  pub unpairs :
      (c : ClawRecord)
      → (r : RevokeControlResult) × (w.provider.revoke_control c ≡ ok r)
        × (r.already_absent || r.removed_paired_device || r.rejected_pending_request ≡ true)

-- The rounds that a removal in this stage still needs.
abbrev pub left_at : Stage → Option Timestamp → ℕ
left_at disable _ = 6
left_at drain none = 5
left_at drain (some _) = 4
left_at release _ = 3
left_at confirm _ = 2
left_at revoke _ = 1

pub left_at_bounds :
    (stage : Stage) (at : Option Timestamp) → (1 ≤ left_at stage at) × (left_at stage at ≤ 6)
left_at_bounds disable at = ground arith
left_at_bounds drain none = ground arith
left_at_bounds drain (some at) = ground arith
left_at_bounds release at = ground arith
left_at_bounds confirm at = ground arith
left_at_bounds revoke at = ground arith

abbrev pub left_of : Option DeletionState → ℕ
left_of none = 0
left_of (some d) = left_at d.stage d.drained_at

abbrev pub left : ClawObserved → ℕ
left o = if is_gone o.phase then 0 else left_of o.deletion

-- What a helpful world makes of a removal.
abbrev pub IsNearer : DeletionState → Result Report → Type 0
IsNearer d r =
    (p : Report) × (r ≡ ok p)
    × (suc (left p.observed) ≤ left_at d.stage d.drained_at)
    × ((is_gone p.observed.phase ≡ true) ⊎ (is_some p.observed.deletion ≡ true))

module _ (w : World) (claw : ClawRecord) (d : DeletionState) (h : IsHelpful w) where
  -- A report that is made is nearer where its stage is at most `n` rounds from the end.
  abbrev IsWithin : ℕ → Report → Type 0
  IsWithin n p = (left p.observed ≤ n) × (is_some p.observed.deletion ≡ true)

  report-IsNearer :
      (n : ℕ) (r : Result Report) (p : Report)
      → r ≡ ok p
      → IsWithin n p
      → suc n ≤ left_at d.stage d.drained_at
      → IsNearer d r
  report-IsNearer n r p e (near, asked) more = (p, e, omega arith, inr asked)

  disable-IsNearer : d.stage ≡ disable → IsNearer d (at_stage w claw d disable)
  unfolding overlay mark_provider_absent
  disable-IsNearer is =
      let (state, answer) = h.inspects claw in
      let (r, disabled_, applied) = h.disables claw in
      elim (Result-cases (at_stage w claw d disable)) [
        | inl (p, e) ↦ report-IsNearer 5 _ p e (ground arith) (ground arith)
        | inr (x, e) ↦ absurd (ground arith)
      ]

  drain-IsNearer : d.stage ≡ drain → IsDue w d.drained_at → IsNearer d (at_stage w claw d drain)
  unfolding mark_provider_absent
  drain-IsNearer is due =
      let (state, answer) = h.inspects claw in
      let (r, drained_, idle) = h.drains claw in
      elim (Result-cases (at_stage w claw d drain)) [
        | inl (p, e) ↦ elim (Option-cases d.drained_at) [
          | inl unmarked ↦ report-IsNearer 4 _ p e (ground arith) (ground arith)
          | inr (at, marked) ↦ report-IsNearer 3 _ p e (ground arith) (ground arith)
        ]
        | inr (x, e) ↦ absurd (ground arith)
      ]

  release-IsNearer :
      (next : DeletionState)
      → 2 ≤ left_at d.stage d.drained_at
      → IsNearer d (releasing w claw d next)
  unfolding mark_provider_absent
  release-IsNearer next late =
      let (r, answer, missing) = h.removes claw in
      (mark_provider_absent w claw d r.message, ground arith, ground arith, inr refl)

  revoke-IsNearer : d.stage ≡ revoke → IsNearer d (at_stage w claw d revoke)
  unfolding mark_deleted
  revoke-IsNearer is =
      let (r, answer, done) = h.unpairs claw in
      (
        mark_deleted w claw d (claw.observed.message <> "; " <> r.message),
        ground arith,
        ground arith,
        inl refl,
      )

  pub at_stage-IsNearer :
      (stage : Stage)
      → d.stage ≡ stage
      → IsDue w d.drained_at
      → IsNearer d (at_stage w claw d stage)
  at_stage-IsNearer disable is due = disable-IsNearer is
  at_stage-IsNearer drain is due = drain-IsNearer is due
  at_stage-IsNearer release is due = release-IsNearer _ (ground arith)
  at_stage-IsNearer confirm is due = release-IsNearer _ (ground arith)
  at_stage-IsNearer revoke is due = revoke-IsNearer is
