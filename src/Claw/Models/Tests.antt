-- ===== src/Claw/Models/Tests.antt =====
-- The models of a fleet with a router.
use crabhelm.Claw.Policies.{require_text, units, optional_text_field}
use crabhelm.Claw.Models.{
  ClawRouterFleetPolicy, InferenceInput, normalize_models, is_routed_model, distinct, check_models,
  is_model, check_provider, credential_id, budget_of, route, providers_of, sort, insert, provided,
  provider_of,
}
use crabhelm.Claw.Types.{InferencePolicy, clawrouter}
use crabhelm.Common.{All, some, none, [], ◌∷◌, trim, ◌≡◌, true, String, ◌<>◌, false, refl}
use crabhelm.Claw.Models.Allowlist.{IsAllowed, normalize_models-IsAllowed, IsRouter}
use crabhelm.Claw.Policies.{units, optional_text_field}
use crabhelm.Effect.{ok}
use crabhelm.Slug.{to_lower_case}

abbrev fleet : ClawRouterFleetPolicy
fleet = record {
  base_url = "https://router.example";
  tenant_id = "t";
  default_model = some "clawrouter/openai/gpt-5.5";
  allowed_providers = "openai-main" ∷ [];
  model_providers = ("clawrouter/openai/gpt-5.5", "openai-main") ∷ [];
}

abbrev nothing_asked : InferenceInput
nothing_asked = record {
  provider = none;
  model = none;
  fallback_models = none;
  auth_ref = none;
  monthly_budget_usd = none;
}

abbrev routed_policy : InferencePolicy
routed_policy = record {
  provider = "clawrouter";
  model = "clawrouter/openai/gpt-5.5";
  fallback_models = [];
  auth_ref = some "clawrouter:crabhelm_00000000000040008000000000000000";
  monthly_budget_usd = none;
  router =
      clawrouter "https://router.example" "t" "crabhelm_00000000000040008000000000000000"
        "crabhelm_00000000000040008000000000000000" "00000000-0000-4000-8000-000000000000"
        ("openai-main" ∷ []) (("clawrouter/openai/gpt-5.5", "openai-main") ∷ [])
        ("openai-main" ∷ []);
}

accepted :
    normalize_models
      (λ x. x)
      nothing_asked
      "00000000-0000-4000-8000-000000000000"
      (some fleet)
      false
    ≡ ok routed_policy
unfolding normalize_models require_text units trim distinct check_models is_model is_routed_model
    check_provider budget_of optional_text_field route providers_of sort insert provided
    credential_id provider_of to_lower_case
accepted = refl

normalize_models-IsAllowed_example :
    All (IsAllowed fleet) (routed_policy.model ∷ [])
    × All (λ m. is_routed_model m ≡ true) (routed_policy.model ∷ [])
    × ((credential : String) × (credential_id "00000000-0000-4000-8000-000000000000"
          ≡ ok credential)
        × IsRouter
            (λ x. x)
            fleet
            "00000000-0000-4000-8000-000000000000"
            credential
            (routed_policy.model ∷ [])
            routed_policy.router
        × (routed_policy.auth_ref ≡ some ("clawrouter:" <> credential)))
normalize_models-IsAllowed_example =
    normalize_models-IsAllowed (λ x. x) nothing_asked "00000000-0000-4000-8000-000000000000" fleet
      false routed_policy accepted
