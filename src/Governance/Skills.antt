-- ===== src/Governance/Skills.antt =====
-- Skills: `approveSkillRecord`, and the skills that `buildManagedAgentSpec` delivers to a claw
-- (src/governance.ts).
pub mod Delivery
use crabhelm.Governance.Records.Parts.{map_each}
use crabhelm.Governance.Types.{
  Timestamp, SkillRecord, SkillStatus, draft, approved, revoked, PrincipalRecord, PersonaRecord,
  PersonaKind, SkillFile, ActorPolicy, PersonaInstructions, PublishedContext,
}
use crabhelm.Common.{
  Bool, Option, String, List, true, ℕ, ◌||◌, false, any, [], ◌∷◌, str_in, find, str_eq, ◌+◌, some,
  none, ◌<>◌,
}
use crabhelm.Effect.{Result, err, ok, require_true}
use crabhelm.Claw.Types.{ObservabilityPolicy, LogLevel, OpenTelemetryPolicy}
use crabhelm.Errors.{other}
use crabhelm.Governance.Records.Fields.{text, ◌>>=◌, ◌>>◌}

abbrev pub is_approved : SkillStatus → Bool
is_approved approved = true
is_approved _ = false

unfoldable pub approve_by_status :
    SkillStatus → SkillRecord → Option String → Timestamp → Result SkillRecord
approve_by_status revoked r approved_by now = err (other "revoked skill cannot be approved")
approve_by_status approved r approved_by now = ok r
approve_by_status draft r approved_by now = do
  approver ← text approved_by "skill approver" 200
  ok (record r {
    revision = r.revision + 1;
    status = approved;
    approved_by = some approver;
    updated_at = now;
  })

unfoldable pub approve_skill_record : SkillRecord → Option String → Timestamp → Result SkillRecord
approve_skill_record r approved_by now = approve_by_status r.status r approved_by now

-- A skill as it is delivered.
pub record ManagedSkill : Type 0 where
  pub id : String
  pub name : String
  pub slug : String
  pub version : ℕ
  pub digest : String
  pub files : List SkillFile

-- `persona` is the part of the persona that a claw receives, and `observability` the policy without
-- its retention; `schemaVersion`, `readOnly` and `metadataOnly` are constants.
pub record ManagedAgentSpec : Type 0 where
  pub generated_at : Timestamp
  pub claw_id : String
  pub persona_id : String
  pub persona_name : String
  pub persona_slug : String
  pub persona_kind : PersonaKind
  pub owner_principal_id : String
  pub actor_policy : ActorPolicy
  pub policy_revision : ℕ
  pub capability_ids : List String
  pub instructions : PersonaInstructions
  pub published_context : List PublishedContext
  pub log_level : LogLevel
  pub otel : OpenTelemetryPolicy
  pub skills : List ManagedSkill

abbrev no_department : List String → Bool
no_department [] = true
no_department (_ ∷ _) = false

unfoldable pub is_eligible : SkillRecord → PrincipalRecord → Bool
is_eligible skill owner =
    no_department skill.departments || any (λ d. str_in d owner.departments) skill.departments

unfoldable pub deliver : PrincipalRecord → Option SkillRecord → String → Result ManagedSkill
deliver owner none id = err (other ("persona skill is not approved: " <> id))
deliver owner (some skill) id = do
  require_true (is_approved skill.status) (other ("persona skill is not approved: " <> id))
  require_true (is_eligible skill owner)
      (other ("persona owner is not eligible for skill " <> skill.name))
  ok (record {
    id = skill.id;
    name = skill.name;
    slug = skill.slug;
    version = skill.version;
    digest = skill.digest;
    files = skill.files;
  })

unfoldable pub build_managed_agent_spec :
    PersonaRecord
    → PrincipalRecord
    → List SkillRecord
    → ObservabilityPolicy
    → Timestamp
    → Result ManagedAgentSpec
build_managed_agent_spec persona owner skills observability now = do
  selected ←
      map_each (λ id. deliver owner (find (λ item. str_eq item.id id) skills) id) persona.skill_ids
  ok (record {
    generated_at = now;
    claw_id = persona.claw_id;
    persona_id = persona.id;
    persona_name = persona.name;
    persona_slug = persona.slug;
    persona_kind = persona.kind;
    owner_principal_id = persona.owner_principal_id;
    actor_policy = persona.actor_policy;
    policy_revision = persona.revision;
    capability_ids = persona.capability_ids;
    instructions = persona.instructions;
    published_context = persona.published_context;
    log_level = observability.log_level;
    otel = observability.otel;
    skills = selected;
  })
