-- ===== src/Claw/Create.antt =====
-- A new claw: `createClawRecord` (src/domain.ts).
pub mod Shape
pub mod Tests
use crabhelm.Governance.Records.Parts.{is_truthy}
use crabhelm.Claw.Telemetry.{Url, Number, TelemetryInput, normalize_observability}
use crabhelm.Governance.Records.Fields.{◌>>=◌, ◌>>◌}
use crabhelm.Common.{Option, String, if◌then◌else◌, ℕ, List, some, none, or_else, false, true}
use crabhelm.Claw.Types.{ClawObserved, requested, ClawRecord, unknown, pending}
use crabhelm.Effect.{Result, require_true, ok}
use crabhelm.Claw.Policies.{
  ApplianceInput, OwnerInput, require_text, normalize_appliance, SlackInput, normalize_owner,
  optional_text_field, normalize_slack, normalize_access,
}
use crabhelm.Slug.{is_slug, slugify}
use crabhelm.Claw.Models.{InferenceInput, ClawRouterFleetPolicy, normalize_models}
use crabhelm.Errors.{request}
use crabhelm.Governance.Types.{Timestamp}

pub record DeploymentInput : Type 0 where
  pub target : Option String
  pub profile : Option String
  pub region : Option String
  pub appliance : Option ApplianceInput

pub record CreateInput : Type 0 where
  pub name : Option String
  pub slug : Option String
  pub owner : OwnerInput
  pub template_id : Option String
  pub template_version : Option ℕ
  pub deployment : DeploymentInput
  pub inference : InferenceInput
  pub slack : SlackInput
  pub dm_policy : Option String
  pub group_policy : Option String
  pub log_level : Option String
  pub retention_days : Option Number
  pub otel : TelemetryInput

-- What the record takes from outside: the reader of URLs, the order of `localeCompare`, the fleet's
-- router, the new id and the time.
pub record Setting : Type 0 where
  pub parse_url : String → Option Url
  pub by_locale : List (String × String) → List (String × String)
  pub fleet : Option ClawRouterFleetPolicy
  pub id : String
  pub now : Timestamp

unfoldable pub label_of : String → String → Result String
label_of value message = do require_true (is_slug value) (request message); ok value

unfoldable pub claw_slug : Option String → String → Result String
claw_slug slug name = do
  made ← (if is_truthy slug then require_text slug "slug" 63 else ok (slugify name))
  label_of made "slug must be a lowercase DNS label"

unfoldable pub claw_profile : Option String → Result String
claw_profile profile = do
  made ← require_text (some (or_else profile "openclaw-core")) "profile" 63
  label_of made "deployment profile must be a lowercase DNS label"

abbrev pub first_observed : ClawObserved
first_observed = record {
  generation = 0;
  phase = requested;
  message = "Waiting for the parent reconciler";
  health = unknown;
  lifecycle = none;
  control_link = record {
    status = pending;
    transport = "openclaw-node";
    command = "crabhelm.child.status";
    node_id = none;
    last_seen_at = none;
  };
  gateway_version = none;
  config_hash = none;
  last_seen_at = none;
  inference = none;
  probes = none;
  deletion = none;
  user_access = none;
}

unfoldable pub create_claw_record : Setting → CreateInput → Result ClawRecord
create_claw_record env input = do
  name ← require_text input.name "name" 80
  slug ← claw_slug input.slug name
  profile ← claw_profile input.deployment.profile
  appliance ← normalize_appliance input.deployment.appliance
  owner ← normalize_owner input.owner
  template ← require_text (some (or_else input.template_id "default")) "template id" 80
  target ← require_text (some (or_else input.deployment.target "default")) "deployment target" 80
  region ← optional_text_field input.deployment.region "region" 80
  inference ← normalize_models env.by_locale input.inference env.id env.fleet false
  slack ← normalize_slack input.slack slug
  access ← normalize_access input.dm_policy input.group_policy
  observability ←
      normalize_observability env.parse_url input.log_level input.retention_days input.otel slug
  ok (record {
    id = env.id;
    revision = some 1;
    desired = record {
      generation = 1;
      name = name;
      slug = slug;
      owner = owner;
      template_id = template;
      template_version = or_else input.template_version 1;
      deployment = record {
        target = target;
        profile = profile;
        region = region;
        appliance = appliance;
      };
      inference = inference;
      slack = slack;
      access = access;
      observability = observability;
      enabled = true;
      credentials_generation = some 1;
    };
    observed = first_observed;
    created_at = env.now;
    updated_at = env.now;
  })
