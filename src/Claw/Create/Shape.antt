-- ===== src/Claw/Create/Shape.antt =====
-- What every new claw satisfies.
use crabhelm.Governance.Records.Parts.{is_truthy}
use crabhelm.Claw.Telemetry.{normalize_observability}
use crabhelm.Claw.Create.{
  label_of, claw_slug, claw_profile, Setting, create_claw_record, CreateInput, requested,
}
use crabhelm.Common.{
  Option, String, ◌≡◌, some, true, All, false, arith, ◌∷◌, none, if◌then◌else◌, or_else, subst, sym,
  refl,
}
use crabhelm.Claw.Models.{ClawRouterFleetPolicy, InferenceInput, normalize_models}
use crabhelm.Claw.Types.{ClawRecord, InferencePolicy, ClawObserved, unknown, pending}
use crabhelm.Effect.{ok, bind_result-eq-ok, ok-injective}
use crabhelm.Slug.{is_slug, slugify}
use crabhelm.Claw.Models.Allowlist.{IsAllowed, normalize_models-IsAllowed}
use crabhelm.Claw.Policies.{
  normalize_appliance, normalize_owner, optional_text_field, normalize_slack, normalize_access,
  require_text,
}
use crabhelm.Claw.Telemetry.Bounds.{IsExportable, normalize_observability-IsExportable}

label_of_sound : (value message s : String) → label_of value message ≡ ok s → is_slug s ≡ true
unfolding label_of
label_of_sound value message s e = ground arith

claw_slug_sound :
    (slug : Option String) (name s : String) → claw_slug slug name ≡ ok s → is_slug s ≡ true
unfolding claw_slug
claw_slug_sound slug name s e =
    let (made, _, e1) =
      bind_result-eq-ok (if is_truthy slug then require_text slug "slug" 63 else ok (slugify name))
        _ e in
    label_of_sound made _ s e1

claw_profile_sound :
    (profile : Option String) (s : String) → claw_profile profile ≡ ok s → is_slug s ≡ true
unfolding claw_profile
claw_profile_sound profile s e =
    let (made, _, e1) =
      bind_result-eq-ok (require_text (some (or_else profile "openclaw-core")) "profile" 63) _ e in
    label_of_sound made _ s e1

-- Where a fleet routes its models, the claw's are allowed.
abbrev pub AreRouted : Option ClawRouterFleetPolicy → ClawRecord → Type 0
AreRouted none c = Unit
AreRouted (some fleet) c =
    All (IsAllowed fleet) (c.desired.inference.model ∷ c.desired.inference.fallback_models)

-- Nothing has been observed: no child, no node of the parent's, no gateway, no inference and no probes.
pub record IsUnseen (o : ClawObserved) : Type 0 where
  pub health : o.health ≡ unknown
  pub lifecycle : o.lifecycle ≡ none
  pub link : o.control_link.status ≡ pending
  pub node : (o.control_link.node_id ≡ none) × (o.control_link.last_seen_at ≡ none)
  pub gateway : (o.gateway_version ≡ none) × (o.config_hash ≡ none)
  pub seen : o.last_seen_at ≡ none
  pub reports : (o.inference ≡ none) × (o.probes ≡ none) × (o.user_access ≡ none)
  pub stays : o.deletion ≡ none

pub record IsNew (env : Setting) (c : ClawRecord) : Type 0 where
  pub id : c.id ≡ env.id
  pub revision : c.revision ≡ some 1
  pub generations : (c.desired.generation ≡ 1) × (c.observed.generation ≡ 0)
  pub enabled : c.desired.enabled ≡ true
  pub phase : c.observed.phase ≡ requested
  pub unseen : IsUnseen c.observed
  pub slug : is_slug c.desired.slug ≡ true
  pub profile : is_slug c.desired.deployment.profile ≡ true
  pub models : AreRouted env.fleet c
  pub telemetry : IsExportable env.parse_url c.desired.observability.otel

routed :
    (env : Setting) (input : InferenceInput) (p : InferencePolicy) (c : ClawRecord)
    → normalize_models env.by_locale input env.id env.fleet false ≡ ok p
    → c.desired.inference ≡ p
    → AreRouted env.fleet c
routed env input p c made kept = by_fleet env.fleet made
  where
    by_fleet :
        (fleet : Option ClawRouterFleetPolicy)
        → normalize_models env.by_locale input env.id fleet false ≡ ok p
        → AreRouted fleet c
    by_fleet none made = tt
    by_fleet (some f) made =
        let (allowed, _, _) =
          normalize_models-IsAllowed env.by_locale input env.id f false p made in
        subst (λ (q : InferencePolicy). All (IsAllowed f) (q.model ∷ q.fallback_models)) (sym kept)
          allowed

-- Every claw that `createClawRecord` makes has the id that it is given, revision and generation 1, and
-- waits for the reconciler: it has no lifecycle, no paired node, no gateway, no inference, no probes
-- and no removal, and its health is unknown. It is enabled, its slug and its
-- deployment's profile have the shape of a DNS label, its models are allowed where the fleet routes
-- them, and its telemetry is within the bounds of `normalizeObservability`.
pub create_claw_record-IsNew :
    (env : Setting) (input : CreateInput) (c : ClawRecord)
    → create_claw_record env input ≡ ok c
    → IsNew env c
unfolding create_claw_record
create_claw_record-IsNew env input c e =
    let (name, _, e1) = bind_result-eq-ok (require_text input.name "name" 80) _ e in
    let (slug, eslug, e2) = bind_result-eq-ok (claw_slug input.slug name) _ e1 in
    let (profile, eprofile, e3) = bind_result-eq-ok (claw_profile input.deployment.profile) _ e2 in
    let (appliance, _, e4) =
      bind_result-eq-ok (normalize_appliance input.deployment.appliance) _ e3 in
    let (owner, _, e5) = bind_result-eq-ok (normalize_owner input.owner) _ e4 in
    let (template, _, e6) =
      bind_result-eq-ok (require_text (some (or_else input.template_id "default")) "template id" 80)
        _ e5 in
    let (target, _, e7) =
      bind_result-eq-ok
        (require_text (some (or_else input.deployment.target "default")) "deployment target" 80) _
        e6 in
    let (region, _, e8) =
      bind_result-eq-ok (optional_text_field input.deployment.region "region" 80) _ e7 in
    let (inference, models, e9) =
      bind_result-eq-ok (normalize_models env.by_locale input.inference env.id env.fleet false) _
        e8 in
    let (slack, _, e10) = bind_result-eq-ok (normalize_slack input.slack slug) _ e9 in
    let (access, _, e11) =
      bind_result-eq-ok (normalize_access input.dm_policy input.group_policy) _ e10 in
    let (observability, seen, e12) =
      bind_result-eq-ok
        (normalize_observability env.parse_url input.log_level input.retention_days input.otel slug)
        _ e11 in
    let (_, _, bounds) =
      normalize_observability-IsExportable env.parse_url input.log_level input.retention_days
        input.otel slug observability seen in
    subst (IsNew env) (ok-injective e12) (record {
      id = refl;
      revision = refl;
      generations = (refl, refl);
      enabled = refl;
      phase = refl;
      unseen = record {
        health = refl;
        lifecycle = refl;
        link = refl;
        node = (refl, refl);
        gateway = (refl, refl);
        seen = refl;
        reports = (refl, refl, refl);
        stays = refl;
      };
      slug = claw_slug_sound input.slug name slug eslug;
      profile = claw_profile_sound input.deployment.profile profile eprofile;
      models = routed env input.inference inference _ models refl;
      telemetry = bounds;
    })
