-- ===== src/Claw/Fleet/Census.antt =====
-- The summary counts every claw that is not deleted in exactly one class.
use crabhelm.Claw.Types.{ClawRecord}
use crabhelm.Claw.Fleet.{
  fleet_summary, counts, is_deleted, is_ready, is_provisioning, is_attention, is_disabled,
}
use crabhelm.Common.{List, ◌≡◌, not, ◌+◌, length, ◌≤◌, arith, ◌∷◌, []}

phase_cases :
    (r : ClawRecord) (rs : List ClawRecord)
    → counts (λ x. not (is_deleted x)) rs
      ≡ counts (λ x. is_ready x.observed.phase) rs
        + counts (λ x. is_provisioning x.observed.phase) rs
        + counts (λ x. is_attention x.observed.phase) rs
        + counts (λ x. is_disabled x.observed.phase) rs
    → counts (λ x. not (is_deleted x)) (r ∷ rs)
      ≡ counts (λ x. is_ready x.observed.phase) (r ∷ rs)
        + counts (λ x. is_provisioning x.observed.phase) (r ∷ rs)
        + counts (λ x. is_attention x.observed.phase) (r ∷ rs)
        + counts (λ x. is_disabled x.observed.phase) (r ∷ rs)
phase_cases r rs h = ground arith

-- The ready, provisioning, attention and disabled claws are together all that are not deleted, and
-- with the deleted ones all there are; no more claws have drifted than are not deleted.
pub fleet_summary_census :
    (rs : List ClawRecord)
    → let f = fleet_summary rs in
      (f.total ≡ f.ready + f.provisioning + f.attention + f.disabled)
      × (f.total + counts is_deleted rs ≡ length rs)
      × (f.drifted ≤ f.total)
unfolding fleet_summary
fleet_summary_census [] = (omega arith, omega arith, omega arith)
fleet_summary_census (r ∷ rs) =
    let (classes, all_, drift) = fleet_summary_census rs in
    (phase_cases r rs classes, ground arith, ground arith)
