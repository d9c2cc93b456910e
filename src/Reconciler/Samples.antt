-- ===== src/Reconciler/Samples.antt =====
-- A removed claw, providers and rounds for the tests of the reconciler.
use crabhelm.Reconciler.Provider.{InspectResult, ChildCoreProvider, ProvisionPhase, ProvisionHealth}
use crabhelm.Claw.Types.{
  LifecycleIdentity, DeletionState, ClawRecord, disable, deleting, InferenceObservation,
}
use crabhelm.Registry.{Fleet}
use crabhelm.Store.{lookup}
use crabhelm.Reconciler.Round.{Round}
use crabhelm.Common.{ℕ, none, ◌∷◌, true, false, [], refl, some}
use crabhelm.Effect.{ok, err}
use crabhelm.Claw.Samples.{sample_claw}
use crabhelm.Reconciler.Progress.{IsAlone, IsRemoving}
use crabhelm.Errors.{operational, crabbox_unreachable}
use crabhelm.Governance.Types.{iso}

-- An answer without any field.
abbrev pub nothing_told : InspectResult
nothing_told = record {
  phase = none;
  message = none;
  health = none;
  lifecycle = none;
  control_link = none;
  gateway_version = none;
  config_hash = none;
  probes = none;
  absent = false;
  invalidate_readiness = false;
  last_seen_at = none;
}

abbrev pub small_lifecycle : LifecycleIdentity
small_lifecycle = record { workspace_id = "w1"; provider_resource_id = none; response_digest = "d" }

-- A provider that does what it is asked.
abbrev pub helpful : ChildCoreProvider
helpful = record {
  provision = λ c. ok (record {
    phase = ProvisionPhase.ready;
    message = "up";
    health = ProvisionHealth.healthy;
    lifecycle = small_lifecycle;
    control_link = none;
    gateway_version = none;
    config_hash = none;
    probes = none;
  });
  inspect = λ c desired. ok nothing_told;
  disable = λ c. ok (record { applied = true; result = nothing_told });
  drain =
      λ c. ok (record { drained = true; active_runs = 0; checked_at = iso 1; message = "idle" });
  remove = λ c. ok (record { absent = true; message = "released" });
  revoke_control = λ c. ok (record {
    removed_paired_device = true;
    rejected_pending_request = false;
    already_absent = false;
    message = "unpaired";
  });
}

-- One that cannot be reached.
abbrev pub unreachable : ChildCoreProvider
unreachable = record helpful {
  inspect = λ c desired. err (operational crabbox_unreachable "connect ECONNREFUSED 10.0.0.7");
}

abbrev pub router_state : InferenceObservation
router_state = record {
  checked_at = iso 1;
  base_url = "https://router.example";
  model = "openai/gpt-5.5";
  providers = [];
  policy_id = "p";
  credential_id = "c";
  credentials_generation = 1;
  policy_active = true;
  credential_active = true;
  router_healthy = true;
  catalog_ready = true;
  route_verified = false;
  budget = record {
    configured = false;
    limit_micros = none;
    spent_micros = none;
    remaining_micros = none;
  };
  usage = none;
}

abbrev pub round_of : ChildCoreProvider → ℕ → Round
round_of provider now = record {
  world = record {
    provider = provider;
    inference = some (λ c. ok router_state);
    drain_quiet_period_ms = 5000;
    attempt_at = now;
    observed_at = now;
    compared_at = now;
    child_policy_hash = λ c. "hash";
  };
  first = record { others = λ s. s; call = record { now = now; event_id = "e1" } };
  second = record { others = λ s. s; call = record { now = now; event_id = "e2" } };
  last = record { others = λ s. s; call = record { now = now; event_id = "e3" } };
}

abbrev pub first_deletion : DeletionState
first_deletion = record {
  stage = disable;
  requested_at = iso 5;
  last_attempt_at = none;
  drained_at = none;
}

abbrev pub removed_claw : ClawRecord
removed_claw = record sample_claw {
  observed = record sample_claw.observed { phase = deleting; deletion = some first_deletion };
}

abbrev pub fleet : Fleet
fleet = record { claws = record { key = "claw1"; value = removed_claw } ∷ []; events = [] }

pub fleet-IsAlone :
    (provider : ChildCoreProvider) (now : ℕ) (s : Fleet) → IsAlone (round_of provider now) s
fleet-IsAlone provider now s = record { first = refl; second = refl; last = refl }

pub fleet-IsRemoving : IsRemoving "claw1" fleet removed_claw first_deletion
unfolding lookup
fleet-IsRemoving = record { found = refl; keyed = refl; live = refl; asked = refl }
