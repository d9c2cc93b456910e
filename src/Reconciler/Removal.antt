-- ===== src/Reconciler/Removal.antt =====
-- A round of a claw whose removal was requested: the stages "disable", "drain", "release",
-- "confirm" and "revoke" of `#reconcileOne`, `#markProviderAbsent` and `#markDeleted`
-- (src/reconciler.ts). The branch after the last stage, which no stage of the type reaches, is left
-- out.
pub mod Stages
use crabhelm.Errors.{Code, Error, operational, other}
use crabhelm.Common.{
  Option, Bool, true, leb, String, some, false, ◌+◌, if◌then◌else◌, ◌||◌, or_else, none, ◌<>◌, [],
}
use crabhelm.Reconciler.Provider.{
  World, InspectResult, Report, RevokeControlResult, overlay, quietly,
}
use crabhelm.Governance.Types.{Timestamp, iso, unreadable}
use crabhelm.Claw.Types.{
  ClawRecord, DeletionState, Stage, deleting, deleted, ClawObserved, offline, release, confirm,
  revoke, revoked, drain, disable, succeeded,
}
use crabhelm.Effect.{Result, bind_result, err, ok}

-- `error instanceof CrabhelmOperationalError && error.code === "CRABBOX_WORKSPACE_FAILED"`.
abbrev pub is_failed_workspace : Error → Bool
is_failed_workspace (operational Code.crabbox_workspace_failed _) = true
is_failed_workspace _ = false

-- `!drainedAt` is also true of an empty text.
abbrev pub drain_started : Option Timestamp → Option Timestamp
drain_started none = none
drain_started (some (unreadable String.[])) = none
drain_started (some t) = some t

-- `Number.isFinite(quietFor) && quietFor >= drainQuietPeriodMs`.
abbrev pub quiet_enough : World → Timestamp → Bool
quiet_enough w (iso at) = leb (at + w.drain_quiet_period_ms) w.compared_at
quiet_enough w (unreadable _) = false

module _ (w : World) (claw : ClawRecord) (d : DeletionState) where
  unfoldable pub mark_provider_absent : String → Report
  mark_provider_absent message = record {
    observed = record claw.observed {
      phase = deleting;
      health = offline;
      message = message;
      deletion = some (record d { stage = revoke; last_attempt_at = some (iso w.observed_at) });
    };
    event = none;
  }

  unfoldable pub mark_deleted : String → Report
  mark_deleted message = record {
    observed = record claw.observed {
      generation = claw.desired.generation;
      phase = deleted;
      health = offline;
      message = message;
      control_link = record claw.observed.control_link { status = revoked };
      deletion = none;
    };
    event = some (record {
      actor = "crabhelm-reconciler";
      action = "claw.remove";
      outcome = succeeded;
      summary = "Removed " <> claw.desired.name <> "; provider absence confirmed";
      generation = some claw.desired.generation;
      details = [];
    });
  }

  abbrev pub with_deletion : String → DeletionState → ClawObserved
  with_deletion message next = record claw.observed {
    phase = deleting;
    message = message;
    deletion = some next;
  }

  abbrev pub attempted : DeletionState
  attempted = record d { last_attempt_at = some (iso w.attempt_at) }

  abbrev pub not_applied : InspectResult → Error
  not_applied r = other (or_else r.message "child disable was not applied")

  abbrev pub disabling : Result Report
  disabling = bind_result (w.provider.disable claw) λ result.
      if result.applied
      then quietly (record (overlay claw.observed result.result) {
        phase = deleting;
        message = "Child ingress disabled; waiting for active agent runs to drain";
        deletion = some (record attempted { stage = drain });
      })
      else err (not_applied result.result)

  abbrev pub disable_of : Result InspectResult → Result Report
  disable_of (err e) =
      if is_failed_workspace e
      then quietly (record claw.observed {
        phase = deleting;
        health = offline;
        message =
            "Provider reports a failed workspace; central ingress is closed and runtime drain is next";
        deletion = some (record attempted { stage = drain });
      })
      else err e
  disable_of (ok state) =
      if state.absent
      then ok (mark_provider_absent (or_else state.message "Provider resource confirmed absent"))
      else disabling

  abbrev pub drained_since : Option Timestamp → Report
  drained_since none = record {
    observed =
        with_deletion "No active child runs; confirming a quiet drain period before release"
          (record attempted { drained_at = some (iso w.observed_at) });
    event = none;
  }
  drained_since (some at) =
      if quiet_enough w at
      then record {
        observed =
            with_deletion "Child ingress disabled and active runs drained; provider release is next"
              (record attempted { stage = release });
        event = none;
      }
      else record {
        observed =
            with_deletion "No active child runs; quiet drain period is still in progress" attempted;
        event = none;
      }

  abbrev pub draining : Result Report
  draining = bind_result (w.provider.drain claw) λ result.
      if result.drained
      then ok (drained_since (drain_started d.drained_at))
      else quietly (with_deletion result.message (record attempted { drained_at = none }))

  abbrev pub drain_of : Result InspectResult → Result Report
  drain_of (err e) = if is_failed_workspace e then draining else err e
  drain_of (ok state) =
      if state.absent
      then ok (
          mark_provider_absent
            (or_else state.message "Provider resource confirmed absent during drain"))
      else draining

  abbrev pub releasing : DeletionState → Result Report
  releasing next = bind_result (w.provider.remove claw) λ result.
      if result.absent
      then ok (mark_provider_absent result.message)
      else quietly (with_deletion result.message next)

  abbrev pub is_confirmed : RevokeControlResult → Bool
  is_confirmed r = r.already_absent || r.removed_paired_device || r.rejected_pending_request

  abbrev pub revoking : Result Report
  revoking = bind_result (w.provider.revoke_control claw) λ result.
      if is_confirmed result
      then ok (mark_deleted (claw.observed.message <> "; " <> result.message))
      else err (other "native parent pairing absence was not confirmed")

  abbrev pub at_stage : Stage → Result Report
  at_stage disable = disable_of (w.provider.inspect claw false)
  at_stage drain = drain_of (w.provider.inspect claw false)
  at_stage release = releasing (record attempted { stage = confirm })
  at_stage confirm = releasing attempted
  at_stage revoke = revoking

  unfoldable pub removal_report : Result Report
  unfolding mark_provider_absent mark_deleted overlay
  removal_report = at_stage d.stage
