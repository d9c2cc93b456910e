-- ===== src/Reconciler/Tests.antt =====
-- Tests of the reconciler and concrete instances of its theorems.
use crabhelm.Reconciler.Nearer.{IsHelpful, IsDue}
use crabhelm.Reconciler.Evidence.{
  Rounds, stop, next, SaysUnpaired, SaysAbsent, deleted_after_absence,
}
use crabhelm.Reconciler.Provider.{World, overlay}
use crabhelm.Claw.Types.{
  DeletionState, ClawRecord, deleting, InferenceObservation, InferenceRouter, clawrouter, direct,
  release, revoke,
}
use crabhelm.Registry.{
  Fleet, normalize_record, require_claw, write_observed, writing, put_claw, audit,
}
use crabhelm.Store.{lookup, register}
use crabhelm.Reconciler.Refinement.{Moved, removal_round-IsAdvance}
use crabhelm.Reconciler.Round.{Round, reconcile_one, inference_of, reconciling, write_report}
use crabhelm.Common.{
  ℕ, none, ◌∷◌, true, [], refl, some, ◌≡◌, Option, Bool, sym, List, ap, ◌∙◌, arith, In, ◌⊎◌,
}
use crabhelm.Effect.{ok}
use crabhelm.Claw.Samples.{sample_claw}
use crabhelm.Reconciler.Progress.{IsRemoving}
use crabhelm.Reconciler.Removal.{removal_report, quiet_enough, mark_provider_absent, mark_deleted}
use crabhelm.Reconciler.Completion.{IsHelped, removal_completes, Helped, after, over}
use crabhelm.Governance.Types.{Timestamp}
use crabhelm.Claw.Fleet.{is_gone}
use crabhelm.Reconciler.Samples.{
  round_of, removed_claw, fleet, first_deletion, helpful, fleet-IsRemoving, fleet-IsAlone,
  router_state,
}

removal_round-IsAdvance_example :
    Moved true
      (round_of helpful 10)
      "claw1"
      fleet
      removed_claw
      first_deletion
      (reconcile_one true (round_of helpful 10) "claw1" fleet).1
removal_round-IsAdvance_example =
    removal_round-IsAdvance true (round_of helpful 10) "claw1" fleet removed_claw first_deletion
      (fleet-IsAlone helpful 10 fleet) fleet-IsRemoving

helpful_answers : (now : ℕ) → IsHelpful (round_of helpful now).world
helpful_answers now = record {
  routes = λ c. routed c c.desired.inference.router;
  inspects = λ c. (_, refl);
  disables = λ c. (_, refl, refl);
  drains = λ c. (_, refl, refl);
  removes = λ c. (_, refl, refl);
  unpairs = λ c. (_, refl, refl);
}
  where
    routed :
        (c : ClawRecord) (router : InferenceRouter)
        → (i : Option InferenceObservation) × (inference_of (round_of helpful now).world c router
            ≡ ok i)
    routed c direct = (none, refl)
    routed c (clawrouter _ _ _ _ _ _ _ _) = (some router_state, refl)

-- Whether the claw in the stores, if its runs were seen idle, has been quiet long enough.
abbrev is_due_at : World → Option Timestamp → Bool
is_due_at w none = true
is_due_at w (some at) = quiet_enough w at

abbrev is_due_in : World → Option DeletionState → Bool
is_due_in w none = true
is_due_in w (some d) = is_due_at w d.drained_at

abbrev is_due : World → Option ClawRecord → Bool
is_due w none = true
is_due w (some c) = is_due_in w c.observed.deletion

at-IsDue : (w : World) (at : Option Timestamp) → is_due_at w at ≡ true → IsDue w at
at-IsDue w none e = tt
at-IsDue w (some at) e = e

helped :
    (now : ℕ) (s : Fleet)
    → is_due (round_of helpful now).world (lookup "claw1" s.claws) ≡ true
    → IsHelped true "claw1" (round_of helpful now) s
helped now s due = record {
  alone = fleet-IsAlone helpful now s;
  helpful = helpful_answers now;
  due = λ c d is.
      let w = (round_of helpful now).world in
      at-IsDue w d.drained_at
        (sym (ap (is_due_in w) is.asked) ∙ sym (ap (is_due w) is.found) ∙ due);
}

abbrev round_at : ℕ → Fleet → Fleet
round_at now s = (reconcile_one true (round_of helpful now) "claw1" s).1

abbrev rounds_of : List ℕ → Fleet → Fleet
rounds_of [] s = s
rounds_of (now ∷ times) s = rounds_of times (round_at now s)

six_rounds :
    Helped true "claw1" fleet 6 (rounds_of (10 ∷ 20 ∷ 6000 ∷ 6010 ∷ 6020 ∷ 6030 ∷ []) fleet)
unfolding reconcile_one require_claw reconciling normalize_record removal_report
    mark_provider_absent mark_deleted overlay write_report write_observed writing put_claw audit
    lookup register
six_rounds = after (round_of helpful 10) (helped 10 _ refl) (
    after (round_of helpful 20) (helped 20 _ refl) (
      after (round_of helpful 6000) (helped 6000 _ refl) (
        after (round_of helpful 6010) (helped 6010 _ refl) (
          after (round_of helpful 6020) (helped 6020 _ refl)
            (after (round_of helpful 6030) (helped 6030 _ refl) (over _))))))

removal_completes_example :
    (end : ClawRecord) × (lookup "claw1"
        (rounds_of (10 ∷ 20 ∷ 6000 ∷ 6010 ∷ 6020 ∷ 6030 ∷ []) fleet).claws
      ≡ some end)
    × (is_gone end.observed.phase ≡ true)
removal_completes_example =
    removal_completes true "claw1" 6 fleet
      (rounds_of (10 ∷ 20 ∷ 6000 ∷ 6010 ∷ 6020 ∷ 6030 ∷ []) fleet) removed_claw first_deletion
      six_rounds fleet-IsRemoving (omega arith)

abbrev last_deletion : DeletionState
last_deletion = record first_deletion { stage = release }

abbrev drained_claw : ClawRecord
drained_claw = record sample_claw {
  observed = record sample_claw.observed { phase = deleting; deletion = some last_deletion };
}

abbrev drained_fleet : Fleet
drained_fleet = record { claws = record { key = "claw1"; value = drained_claw } ∷ []; events = [] }

drained_fleet-IsRemoving : IsRemoving "claw1" drained_fleet drained_claw last_deletion
unfolding lookup
drained_fleet-IsRemoving = record { found = refl; keyed = refl; live = refl; asked = refl }

drained_fleet-Rounds :
    Rounds true "claw1" drained_fleet
      (round_of helpful 10 ∷ round_of helpful 20 ∷ [])
      (rounds_of (10 ∷ 20 ∷ []) drained_fleet)
drained_fleet-Rounds =
    next (round_of helpful 10) (fleet-IsAlone helpful 10 _)
      (next (round_of helpful 20) (fleet-IsAlone helpful 20 _) (stop _))

gone_claw :
    (end : ClawRecord) × (lookup "claw1" (rounds_of (10 ∷ 20 ∷ []) drained_fleet).claws ≡ some end)
    × (is_gone end.observed.phase ≡ true)
unfolding reconcile_one require_claw reconciling normalize_record removal_report
    mark_provider_absent mark_deleted overlay write_report write_observed writing put_claw audit
    lookup register
gone_claw = (_, refl, refl)

deleted_after_absence_example :
    ((round : Round) × In round (round_of helpful 10 ∷ round_of helpful 20 ∷ [])
      × SaysUnpaired "claw1" round)
    × ((release ≡ revoke)
        ⊎ ((round : Round) × In round (round_of helpful 10 ∷ round_of helpful 20 ∷ [])
            × SaysAbsent "claw1" round))
deleted_after_absence_example =
    deleted_after_absence true "claw1" drained_fleet (rounds_of (10 ∷ 20 ∷ []) drained_fleet)
      (round_of helpful 10 ∷ round_of helpful 20 ∷ []) drained_claw gone_claw.0 last_deletion
      drained_fleet-Rounds drained_fleet-IsRemoving gone_claw.1 gone_claw.2
