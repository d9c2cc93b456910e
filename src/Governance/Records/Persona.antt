-- ===== src/Governance/Records/Persona.antt =====
-- `createPersonaRecord` and `updatePersonaRecord` (src/governance.ts).
use crabhelm.Common.{
  String, Bool, true, Option, none, some, List, [], or_else, map, ℕ_discrete, ite, String-discrete,
  ◌+◌,
}
use crabhelm.Effect.{Result, ok}
use crabhelm.Governance.Types.{
  Timestamp, PersonaKind, personal, shared, profile, ActorMode, invoker,
  invoker_with_service_fallback, Surface, slack, web, api, PersonaBinding, PublishedContext,
  PersonaRecord,
}
use crabhelm.Governance.Records.Fields.{◌>>=◌, text, unique}
use crabhelm.Governance.Records.Parts.{
  ActorPolicyInput, BindingInput, InstructionsInput, ContextInput, parse_kind,
  normalize_actor_policy, normalize_bindings, normalize_instructions, normalize_published_context,
  capability_ids, slug_for,
}

pub record PersonaInput : Type 0 where
  pub name : Option String
  pub slug : Option String
  pub kind : Option String
  pub owner_principal_id : Option String
  pub claw_id : Option String
  pub actor_policy : ActorPolicyInput
  pub bindings : Option (List BindingInput)
  pub capability_ids : Option (List String)
  pub skill_ids : Option (List String)
  pub instructions : InstructionsInput
  pub published_context : Option (List ContextInput)

-- `id` is the fresh `randomUUID()`, and `now` the timestamp.
unfoldable pub create_persona_record : PersonaInput → String → Timestamp → Result PersonaRecord
create_persona_record input id now = do
  name ← text input.name "persona name" 80
  slug ← slug_for input.slug name "persona"
  kind ← parse_kind input.kind
  actor_policy ← normalize_actor_policy kind input.actor_policy
  owner ← text input.owner_principal_id "persona owner" 200
  claw ← text input.claw_id "persona claw" 200
  bindings ← normalize_bindings input.bindings
  capabilities ← capability_ids input.capability_ids
  skills ← unique (or_else input.skill_ids []) "persona skill ids" 100
  instructions ← normalize_instructions input.instructions
  context ← normalize_published_context input.published_context
  ok (record {
    id = id;
    revision = 1;
    name = name;
    slug = slug;
    kind = kind;
    owner_principal_id = owner;
    claw_id = claw;
    actor_policy = actor_policy;
    bindings = bindings;
    capability_ids = capabilities;
    skill_ids = skills;
    instructions = instructions;
    published_context = context;
    enabled = true;
    created_at = now;
    updated_at = now;
  })

abbrev mode_name : ActorMode → String
mode_name invoker = "invoker"
mode_name ActorMode.service = "service"
mode_name invoker_with_service_fallback = "invoker-with-service-fallback"

abbrev kind_name : PersonaKind → String
kind_name personal = "personal"
kind_name shared = "shared"
kind_name profile = "profile"

abbrev surface_name : Surface → String
surface_name slack = "slack"
surface_name web = "web"
surface_name api = "api"

abbrev binding_input : PersonaBinding → BindingInput
binding_input b = record {
  surface = some (surface_name b.surface);
  workspace_id = b.workspace_id;
  channel_id = b.channel_id;
}

abbrev context_input : PublishedContext → ContextInput
context_input c = record { label = some c.label; value = some c.value; url = c.url }

-- `a ?? b`, and a spread over a field, where the result may be `undefined`.
abbrev first_given {ℓ} : {A : Type ℓ} → Option A → Option A → Option A
first_given none b = b
first_given (some a) b = some a

-- The input of `createPersonaRecord` that an update stands for; an update names no claw.
unfoldable pub merged_input : PersonaRecord → PersonaInput → PersonaInput
merged_input r input = record {
  name = first_given input.name (some r.name);
  slug = first_given input.slug (some r.slug);
  kind = first_given input.kind (some (kind_name r.kind));
  owner_principal_id = first_given input.owner_principal_id (some r.owner_principal_id);
  claw_id = some r.claw_id;
  actor_policy = record {
    mode = first_given input.actor_policy.mode (some (mode_name r.actor_policy.mode));
    service_principal_id =
        first_given input.actor_policy.service_principal_id r.actor_policy.service_principal_id;
  };
  bindings = first_given input.bindings (some (map binding_input r.bindings));
  capability_ids = first_given input.capability_ids (some r.capability_ids);
  skill_ids = first_given input.skill_ids (some r.skill_ids);
  instructions = record {
    identity = first_given input.instructions.identity (some r.instructions.identity);
    soul = first_given input.instructions.soul (some r.instructions.soul);
    agents = first_given input.instructions.agents (some r.instructions.agents);
  };
  published_context =
      first_given input.published_context (some (map context_input r.published_context));
}

-- Equality of records is what `canonicalJson(a) === canonicalJson(b)` tests.
pub PersonaRecord-discrete : Discrete PersonaRecord
PersonaRecord-discrete = hlevel (ℕ_discrete, String-discrete)

-- The record itself where nothing but its revision and its time would change, or its next revision.
unfoldable pub next_revision : PersonaRecord → PersonaRecord → Timestamp → PersonaRecord
next_revision r desired now =
    ite
      (PersonaRecord-discrete (record desired { revision = r.revision; updated_at = r.updated_at })
        r)
      r (record desired { revision = r.revision + 1; updated_at = now })

-- `enabled` is the update's own field; `id` is the unused `randomUUID()` of the rebuilt record.
unfoldable pub update_persona_record :
    PersonaRecord → PersonaInput → Option Bool → String → Timestamp → Result PersonaRecord
update_persona_record r input enabled id now = do
  rebuilt ← create_persona_record (merged_input r input) id now
  ok (
      next_revision r
        (record rebuilt {
          id = r.id;
          created_at = r.created_at;
          enabled = or_else enabled r.enabled;
        })
        now)
