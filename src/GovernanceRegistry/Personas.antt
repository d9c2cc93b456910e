-- ===== src/GovernanceRegistry/Personas.antt =====
-- Personas: `createPersona`, `updatePersona`, `#validatePersona`, `ensurePersonaForClaw` and
-- `managedSpecForClaw` (src/governance-registry.ts).
pub mod Validity
pub mod Forms
use crabhelm.GovernanceRegistry.Types.{AuditOutcome}
use crabhelm.Common.{
  String, Option, List, Bool, false, true, some, any, find, ◌∷◌, str_eq, none, map, if◌then◌else◌,
  is_empty, ◌<>◌, not, [],
}
use crabhelm.Governance.Types.{
  PrincipalKind, PersonaRecord, SkillRecord, PrincipalRecord, human, iso,
}
use crabhelm.GovernanceRegistry.Stores.{
  Ambient, Stores, require_principal, require_persona, audit, blank,
}
use crabhelm.Claw.Types.{OwnerSource, ClawRecord}
use crabhelm.Effect.{M, write, pure, throw, serialize, ◌>>=◌, ◌>>◌, lift, throw_unless, read}
use crabhelm.Governance.Records.Persona.{PersonaInput, create_persona_record, update_persona_record}
use crabhelm.Governance.Skills.{ManagedAgentSpec, is_approved, build_managed_agent_spec}
use crabhelm.Store.{register, values, lookup}
use crabhelm.Errors.{other}
use crabhelm.GovernanceRegistry.Principals.{ensure_system, principal_by_subject, put_principal}
use crabhelm.Governance.Records.Principal.{
  create_principal_record, system_operator_principal_id, PrincipalInput,
}
use crabhelm.Governance.Capabilities.{default_capabilities}

unfoldable pub put_persona : String → PersonaRecord → M Stores (Unit {0})
put_persona id p = write λ s. record s { personas = register id p s.personas }

abbrev is_service : PrincipalKind → Bool
is_service human = false
is_service PrincipalKind.service = true

-- The service principal that the persona names, if it names one, is one.
unfoldable pub validate_actor : Option String → M Stores (Unit {0})
validate_actor none = pure tt
validate_actor (some id) = do
  let check : M Stores (Unit {0}) = (do
    service ← require_principal id
    throw_unless (is_service service.kind)
        (other "persona service actor must be a service principal")
    pure tt)
  if is_empty id then pure tt else check

abbrev pub is_approved_skill : Option SkillRecord → Bool
is_approved_skill none = false
is_approved_skill (some skill) = is_approved skill.status

unfoldable pub validate_skills : List String → M Stores (Unit {0})
validate_skills [] = pure tt
validate_skills (id ∷ ids) = do
  approved ← read λ s. is_approved_skill (lookup id s.skills)
  throw_unless approved (other ("persona skill is not approved: " <> id))
  validate_skills ids

unfoldable pub validate_persona : PersonaRecord → M Stores (Unit {0})
validate_persona p = do
  validate_actor p.actor_policy.service_principal_id
  validate_skills p.skill_ids

abbrev pub has_slug : String → Stores → Bool
has_slug slug s = any (λ item. str_eq item.slug slug) (values s.personas)

unfoldable pub require_named : Option String → M Stores PrincipalRecord
require_named none = throw (other "principal not found")
require_named (some id) = require_principal id

-- The operation that `createPersona` serializes.
unfoldable pub creating_persona : Ambient → PersonaInput → String → M Stores PersonaRecord
creating_persona env input actor_id = do
  owner ← require_named input.owner_principal_id
  persona ← lift (create_persona_record input env.id (iso env.written))
  taken ← read (has_slug persona.slug)
  throw_unless (not taken) (other "persona slug already exists")
  validate_persona persona
  put_persona persona.id persona
  audit env
      (record (blank "persona.create" ("Created persona " <> persona.name) AuditOutcome.succeeded) {
        claw_id = some persona.claw_id;
        requester_id = some actor_id;
        persona_id = some persona.id;
      })
  pure persona

unfoldable pub create_persona : Bool → Ambient → PersonaInput → String → M Stores PersonaRecord
unfolding creating_persona
create_persona tx env input actor_id = serialize tx (creating_persona env input actor_id)

-- The operation that `updatePersona` serializes.
unfoldable pub updating_persona :
    Ambient → String → PersonaInput → Option Bool → String → M Stores PersonaRecord
updating_persona env id input enabled actor_id = do
  current ← require_persona id
  next ← lift (update_persona_record current input enabled env.id (iso env.written))
  owner ← require_principal next.owner_principal_id
  validate_persona next
  put_persona id next
  audit env
      (record (blank "persona.update" ("Updated persona " <> next.name) AuditOutcome.succeeded) {
        claw_id = some next.claw_id;
        requester_id = some actor_id;
        persona_id = some id;
      })
  pure next

unfoldable pub update_persona :
    Bool → Ambient → String → PersonaInput → Option Bool → String → M Stores PersonaRecord
unfolding updating_persona
update_persona tx env id input enabled actor_id =
    serialize tx (updating_persona env id input enabled actor_id)

abbrev owner_source : OwnerSource → String
owner_source OwnerSource.github = "github"
owner_source OwnerSource.slack = "slack"
owner_source OwnerSource.email = "email"
owner_source OwnerSource.manual = "manual"

-- The input of the principal of a claw's owner.
abbrev pub own_principal_input : ClawRecord → PrincipalInput
own_principal_input claw = record {
  subject = some claw.desired.owner.subject;
  label = some claw.desired.owner.label;
  kind = none;
  source = some (owner_source claw.desired.owner.source);
  roles = none;
  departments = none;
}

unfoldable pub own : Option PrincipalRecord → ClawRecord → Ambient → M Stores PrincipalRecord
own (some owner) claw env = pure owner
own none claw env = do
  owner ← lift (create_principal_record (own_principal_input claw) env.owner_id (iso env.written))
  put_principal owner.id owner
  pure owner

-- The input of a claw's own persona.
unfoldable pub own_persona_input : ClawRecord → PrincipalRecord → PersonaInput
own_persona_input claw owner = record {
  name = some claw.desired.name;
  slug = some claw.desired.slug;
  kind = some "personal";
  owner_principal_id = some owner.id;
  claw_id = some claw.id;
  actor_policy = record { mode = none; service_principal_id = none };
  bindings = none;
  capability_ids = some (map (λ c. c.id) default_capabilities);
  skill_ids = none;
  instructions = record {
    identity = some (
        "# Identity\n\nYou are " <> claw.desired.name
        <> ", an OpenClaw teammate managed by Crabhelm.");
    soul =
        some
          "# Operating principles\n\nRespect requester authority, least privilege, confirmation, and attribution.";
    agents =
        some
          "# Managed runtime\n\nUse only governed capabilities. Never request, store, or expose durable credentials.";
  };
  published_context = none;
}

unfoldable pub bootstrap :
    Option PersonaRecord → ClawRecord → PrincipalRecord → Ambient → M Stores PersonaRecord
bootstrap (some existing) claw owner env = pure existing
bootstrap none claw owner env = do
  persona ← lift (create_persona_record (own_persona_input claw owner) env.id (iso env.written))
  put_persona persona.id persona
  audit env
      (record (blank "persona.bootstrap" ("Created personal persona for " <> claw.desired.name)
        AuditOutcome.succeeded) {
          claw_id = some claw.id;
          requester_id = some system_operator_principal_id;
          persona_id = some persona.id;
        })
  pure persona

abbrev pub persona_for : String → Stores → Option PersonaRecord
persona_for claw_id s = find (λ persona. str_eq persona.claw_id claw_id) (values s.personas)

unfoldable pub ensuring_persona : Ambient → ClawRecord → M Stores PersonaRecord
ensuring_persona env claw = do
  operator ← ensure_system env
  known ← read (principal_by_subject claw.desired.owner.subject)
  owner ← own known claw env
  existing ← read (persona_for claw.id)
  bootstrap existing claw owner env

unfoldable pub ensure_persona_for_claw : Bool → Ambient → ClawRecord → M Stores PersonaRecord
unfolding ensuring_persona
ensure_persona_for_claw tx env claw = serialize tx (ensuring_persona env claw)

unfoldable pub managed_spec_for_claw : Bool → Ambient → ClawRecord → M Stores ManagedAgentSpec
managed_spec_for_claw tx env claw = do
  persona ← ensure_persona_for_claw tx env claw
  owner ← require_principal persona.owner_principal_id
  skills ← read λ s. values s.skills
  lift (build_managed_agent_spec persona owner skills claw.desired.observability (iso env.written))
