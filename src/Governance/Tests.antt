-- ===== src/Governance/Tests.antt =====
-- The governance rules on sample records.
use crabhelm.Governance.Records.Parts.{
  map_each, slug_for, parse_kind, normalize_actor_policy, parse_mode, normalize_bindings,
  normalize_binding, parse_surface, optional_field, capability_ids, normalize_instructions,
  normalize_published_context,
}
use crabhelm.Claw.Types.{LogLevel}
use crabhelm.Governance.Records.Persona.{PersonaRecord-discrete}
use crabhelm.Common.{is_distinct, if_neg, ap, String}
use crabhelm.Common.{
  List, map, ◌≡◌, some, ◌∷◌, true, false, [], str_in, All, In, here, none, refl, ◌⊎◌,
}
use crabhelm.Governance.Actor.{
  resolve_invocation_actor, is_compatible, by_mode, ResolvedActor, with_service, find_connection,
  mode_in,
}
use crabhelm.Governance.Records.Persona.{
  create_persona_record, PersonaInput, update_persona_record, merged_input, next_revision,
}
use crabhelm.Governance.Records.Shape.{IsWellFormed, create_persona_record-IsWellFormed}
use crabhelm.Governance.Skills.{
  ManagedAgentSpec, build_managed_agent_spec, ManagedSkill, deliver, is_eligible,
}
use crabhelm.Governance.Types.{
  PersonaRecord, PrincipalRecord, OAuthConnectionRecord, iso, shared, PersonaBinding,
  invoker_with_service_fallback, Surface, profile, invoker,
}
use crabhelm.Governance.Records.Fields.{text, unique, text_each, optional_text}
use crabhelm.Governance.Samples.{
  helper, no_change, helper_named, alice, alice_github, as_alice, service_bot, bot_github,
  helper_input, triage, quiet,
}
use crabhelm.Governance.Ingress.{select_slack_persona, select_slack_persona_lem}
use crabhelm.Governance.Capabilities.{github_issue_read, every_mode, capability_by_id}
use crabhelm.Slug.{slugify, is_slug}
use crabhelm.Governance.Records.Revision.{IsRevision, update_persona_record_sound}
use crabhelm.Effect.{ok, err}
use crabhelm.Governance.Actor.Choice.{
  resolve_invocation_actor_prefers_requester, resolve_invocation_actor_complete, with_fallback,
  as_asked, IsUnserved,
}
use crabhelm.Governance.Skills.Delivery.{IsDelivered, build_managed_agent_spec_sound}
use crabhelm.Governance.Actor.Soundness.{IsEntitled, resolve_invocation_actor_sound}
use crabhelm.Errors.{other}

abbrev principals : List PrincipalRecord
principals = alice ∷ service_bot ∷ []

abbrev connections : List OAuthConnectionRecord
connections = alice_github ∷ bot_github ∷ []

resolved :
    resolve_invocation_actor alice helper github_issue_read principals connections ≡ ok as_alice
unfolding resolve_invocation_actor by_mode with_service find_connection is_compatible
resolved = refl

resolve_invocation_actor_sound_example :
    (helper.enabled ≡ true)
    × (str_in "github.issue.read" helper.capability_ids ≡ true)
    × (mode_in invoker_with_service_fallback every_mode ≡ true)
    × (helper.kind ≡ profile → helper.actor_policy.mode ≡ invoker)
    × IsEntitled alice helper github_issue_read principals connections as_alice
resolve_invocation_actor_sound_example =
    resolve_invocation_actor_sound alice helper github_issue_read principals connections as_alice
      resolved

resolve_invocation_actor_complete_example :
    (r : ResolvedActor) × (resolve_invocation_actor alice helper github_issue_read principals
        (alice_github ∷ [])
      ≡ ok r)
unfolding is_compatible
resolve_invocation_actor_complete_example =
    resolve_invocation_actor_complete alice helper github_issue_read principals (alice_github ∷ [])
      alice alice_github refl refl refl (λ h. cc) (with_fallback refl refl refl) here refl

resolve_invocation_actor_prefers_requester_example :
    ((d : OAuthConnectionRecord) × In d connections
      × (is_compatible "p1" github_issue_read d ≡ true)
      × (resolve_invocation_actor alice helper github_issue_read principals connections
          ≡ ok (
              as_asked alice helper github_issue_read principals connections
                invoker_with_service_fallback d)))
    ⊎ ((helper.actor_policy.mode ≡ invoker_with_service_fallback)
        × IsUnserved alice helper github_issue_read principals connections
        × (resolve_invocation_actor alice helper github_issue_read principals connections
            ≡ err (other "persona service actor is unavailable")))
unfolding is_compatible
resolve_invocation_actor_prefers_requester_example =
    resolve_invocation_actor_prefers_requester alice helper github_issue_read principals connections
      alice_github refl refl refl (λ h. cc) (λ h. cc) here refl

-- Without the service principal the requester's own connection does not count.
is_unserved :
    resolve_invocation_actor alice helper github_issue_read (alice ∷ []) connections
    ≡ err (other "persona service actor is unavailable")
unfolding resolve_invocation_actor by_mode find_connection is_compatible
is_unserved = refl

pub helper_created : create_persona_record helper_input "a1" (iso 5) ≡ ok helper
unfolding create_persona_record text slug_for slugify is_slug parse_kind normalize_actor_policy
    parse_mode normalize_bindings map_each normalize_binding parse_surface optional_field
    capability_ids unique text_each capability_by_id normalize_instructions optional_text
    normalize_published_context is_distinct
helper_created = refl

create_persona_record-IsWellFormed_example :
    IsWellFormed helper × (helper.id ≡ "a1") × (helper.revision ≡ 1) × (helper.enabled ≡ true)
create_persona_record-IsWellFormed_example =
    create_persona_record-IsWellFormed helper_input "a1" (iso 5) helper helper_created

pub helper-IsWellFormed : IsWellFormed helper
helper-IsWellFormed =
    (create_persona_record-IsWellFormed helper_input "a1" (iso 5) helper helper_created).0

abbrev pub rename : PersonaInput
rename = record no_change { name = some "Aide" }

pub renamed :
    update_persona_record helper rename none "x" (iso 9) ≡ ok (helper_named "Aide" 2 (iso 9))
unfolding update_persona_record merged_input next_revision create_persona_record text slug_for
    slugify is_slug parse_kind normalize_actor_policy parse_mode normalize_bindings map_each
    normalize_binding parse_surface optional_field capability_ids unique text_each capability_by_id
    normalize_instructions optional_text normalize_published_context is_distinct
renamed = ap ok (
    if_neg
      (PersonaRecord-discrete
        (record (helper_named "Aide" 1 (iso 9)) { revision = 1; updated_at = iso 5 }) helper)
      (λ same. named_otherwise (ap (λ (p : PersonaRecord). p.name) same)) helper
      (helper_named "Aide" 2 (iso 9)))
  where
    named_otherwise : ◌≡◌ {A = String} "Aide" "Helper" → ⊥
    named_otherwise h = cc

update_persona_record_example :
    IsWellFormed (helper_named "Aide" 2 (iso 9))
    × (helper.id ≡ helper.id)
    × (helper.created_at ≡ helper.created_at)
    × IsRevision helper (iso 9) (helper_named "Aide" 2 (iso 9))
update_persona_record_example =
    update_persona_record_sound helper rename none "x" (iso 9) (helper_named "Aide" 2 (iso 9))
      helper-IsWellFormed renamed

abbrev delivered : ManagedAgentSpec
delivered = record {
  generated_at = iso 7;
  claw_id = "claw1";
  persona_id = "a1";
  persona_name = "Helper";
  persona_slug = "helper";
  persona_kind = shared;
  owner_principal_id = "p1";
  actor_policy = helper.actor_policy;
  policy_revision = 1;
  capability_ids = helper.capability_ids;
  instructions = helper.instructions;
  published_context = [];
  log_level = LogLevel.info;
  otel = quiet.otel;
  skills =
      record { id = "s1"; name = "Triage"; slug = "triage"; version = 1; digest = "d1"; files = [] }
      ∷ [];
}

delivers : build_managed_agent_spec helper alice (triage ∷ []) quiet (iso 7) ≡ ok delivered
unfolding build_managed_agent_spec map_each deliver is_eligible
delivers = refl

build_managed_agent_spec_example :
    (map (λ (m : ManagedSkill). m.id) delivered.skills ≡ "s1" ∷ [])
    × All (IsDelivered (triage ∷ []) alice) delivered.skills
    × (delivered.policy_revision ≡ helper.revision)
build_managed_agent_spec_example =
    build_managed_agent_spec_sound helper alice (triage ∷ []) quiet (iso 7) delivered delivers

select_slack_persona_example :
    ((persona : PersonaRecord) × (select_slack_persona (helper ∷ []) "T1" "C1" ≡ some persona)
      × In persona (helper ∷ [])
      × (persona.enabled ≡ true)
      × ((b : PersonaBinding) × In b persona.bindings
          × (b.surface ≡ Surface.slack)
          × (b.workspace_id ≡ some "T1")
          × (b.channel_id ≡ some "C1")))
    ⊎ ((select_slack_persona (helper ∷ []) "T1" "C1" ≡ none)
        × ((persona : PersonaRecord) (b : PersonaBinding)
            → In persona (helper ∷ [])
            → In b persona.bindings
            → b.surface ≡ Surface.slack
            → b.workspace_id ≡ some "T1"
            → b.channel_id ≡ some "C1"
            → persona.enabled ≡ false))
select_slack_persona_example = select_slack_persona_lem (helper ∷ []) "T1" "C1"
