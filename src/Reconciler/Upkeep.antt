-- ===== src/Reconciler/Upkeep.antt =====
-- A round of a claw that is not being removed: a disabled claw, one without a child, and one whose
-- child is inspected (`#reconcileOne` and `inferenceResult` of src/reconciler.ts).
use crabhelm.Reconciler.Provider.{
  ready, World, ProvisionPhase, overlay, ProvisionResult, Report, InspectResult, quietly, phase_of,
  health_of, or_previous,
}
use crabhelm.Claw.Types.{
  InferenceObservation, ChildOperationalProbes, Health, ClawRecord, ClawObserved, ParentControlLink,
  provisioning, offline, requested, ClawPhase, degraded, succeeded,
}
use crabhelm.Common.{
  Option, String, Bool, false, some, true, str_eq, ◌&&◌, none, if◌then◌else◌, not, ◌<>◌, ◌||◌, [],
  or_else,
}
use crabhelm.Effect.{Result, bind_result, ok, err}
use crabhelm.Errors.{other}
use crabhelm.Governance.Types.{iso}

-- `inferenceResult` of an observation of the router.
unfoldable pub verified :
    InferenceObservation → Option ChildOperationalProbes → InferenceObservation
verified i none = record i { route_verified = false }
verified i (some p) = record i {
  route_verified =
      i.router_healthy
      && i.catalog_ready
      && p.model.live_inference_probe
      && str_eq p.model.configured_model i.model
      && is_text p.model.resolved_model i.model;
}
  where
    is_text : Option String → String → Bool
    is_text none m = false
    is_text (some t) m = str_eq t m

unfoldable pub inference_result :
    Option InferenceObservation → Option ChildOperationalProbes → Option InferenceObservation
unfolding verified
inference_result none probes = none
inference_result (some i) probes = some (verified i probes)

-- `!inference || resultInference?.routeVerified === true`.
unfoldable pub is_routed : Option InferenceObservation → Option ChildOperationalProbes → Bool
unfolding verified
is_routed none probes = true
is_routed (some i) probes = (verified i probes).route_verified

abbrev is_ready : Option ProvisionPhase → Bool
is_ready (some ready) = true
is_ready _ = false

abbrev is_healthy : Option Health → Bool
is_healthy (some Health.healthy) = true
is_healthy _ = false

abbrev is_same : Option String → String → Bool
is_same none hash = false
is_same (some h) hash = str_eq h hash

abbrev proof_missing : String
proof_missing = "ClawRouter configuration is present but live routed inference proof is missing"

module _ (w : World) (claw : ClawRecord) where
  unfoldable pub disabled_report : Result Report
  unfolding overlay
  disabled_report = bind_result (w.provider.disable claw) λ result.
      if result.applied
      then quietly (record (overlay claw.observed result.result) {
        generation = claw.desired.generation;
        phase = ClawPhase.disabled;
      })
      else err (other (or_else result.result.message "child disable was not applied"))

  abbrev pub before_provisioning : ClawObserved
  before_provisioning = record claw.observed {
    phase = provisioning;
    message = "Creating one isolated child workspace";
  }

  -- The observations of a new child replace the old ones, so none of the deletion or of the user's
  -- access is kept.
  abbrev pub provisioned : ProvisionResult → Bool → Option InferenceObservation → Report
  provisioned r routed inference =
      let proven = is_ready (some r.phase) && routed in
      let unproven = is_ready (some r.phase) && not proven in
      record {
        observed = record {
          generation = if proven then claw.desired.generation else 0;
          phase = if unproven then ClawPhase.attention else phase_of r.phase;
          message = if unproven then proof_missing else r.message;
          health = if unproven then degraded else health_of r.health;
          lifecycle = some r.lifecycle;
          control_link = or_else r.control_link claw.observed.control_link;
          gateway_version = r.gateway_version;
          config_hash = r.config_hash;
          last_seen_at = if proven then some (iso w.attempt_at) else none;
          inference = inference;
          probes = r.probes;
          deletion = none;
          user_access = none;
        };
        event =
            if proven
            then some (record {
              actor = "crabhelm-reconciler";
              action = "claw.create";
              outcome = succeeded;
              summary = claw.desired.name <> " is ready";
              generation = some claw.desired.generation;
              details = [];
            })
            else none;
      }

  unfoldable pub provisioned_report : Option InferenceObservation → Result Report
  unfolding inference_result is_routed
  provisioned_report inference = bind_result (w.provider.provision claw) λ result. ok (
      provisioned result (is_routed inference result.probes)
        (inference_result inference result.probes))

  abbrev offline_link : ParentControlLink
  offline_link = record claw.observed.control_link { status = offline; last_seen_at = none }

  abbrev pub vanished : Report
  vanished = record {
    observed = record claw.observed {
      generation = 0;
      phase = provisioning;
      health = Health.offline;
      message = "Provider resource expired or disappeared; recreating the managed runtime";
      lifecycle = none;
      control_link = offline_link;
      gateway_version = none;
      config_hash = none;
      probes = none;
      last_seen_at = none;
    };
    event = some (record {
      actor = "crabhelm-reconciler";
      action = "claw.recover";
      outcome = requested;
      summary = claw.desired.name <> " provider resource was absent; replacement requested";
      generation = some claw.desired.generation;
      details = [];
    });
  }

  abbrev unverified : Option InferenceObservation → Option InferenceObservation
  unverified none = none
  unverified (some i) = some (record i { route_verified = false })

  -- What is kept of the observations before.
  abbrev pub previous : Bool → ClawObserved
  previous false = claw.observed
  previous true = record claw.observed {
    generation = 0;
    control_link = offline_link;
    gateway_version = none;
    config_hash = none;
    probes = none;
    last_seen_at = none;
    inference = unverified claw.observed.inference;
  }

  abbrev pub inspected :
      InspectResult → Bool → Option InferenceObservation → ClawObserved → ClawObserved
  inspected r routed inference before =
      let ready_ = is_ready r.phase && is_healthy r.health in
      let proven = ready_ && routed in
      let unproven = ready_ && not proven in
      let after = overlay before r in
      let current = proven || is_same r.config_hash (w.child_policy_hash claw) in
      record after {
        generation = if current then claw.desired.generation else before.generation;
        phase = if unproven then ClawPhase.attention else after.phase;
        message = if unproven then proof_missing else after.message;
        health = if unproven then degraded else after.health;
        inference = or_previous inference after.inference;
      }

  abbrev pub inspected_report_of : InspectResult → Option InferenceObservation → Report
  inspected_report_of r inference = if r.absent then vanished else record {
    observed =
        inspected r (is_routed inference r.probes) (inference_result inference r.probes)
          (previous r.invalidate_readiness);
    event = none;
  }

  unfoldable pub inspected_report : Option InferenceObservation → Result Report
  unfolding inference_result is_routed overlay
  inspected_report inference =
      bind_result (w.provider.inspect claw true) λ result. ok (inspected_report_of result inference)
