-- ===== src/Governance/Samples.antt =====
-- Sample records for the tests.
use crabhelm.Governance.Types.{
  Provider, PrincipalRecord, OAuthConnectionRecord, PersonaRecord, SkillRecord, human,
  PrincipalKind, iso, SkillStatus, invoker_with_service_fallback, PrincipalSource, Timestamp,
  member, shared, active, Surface,
}
use crabhelm.Governance.Records.Persona.{PersonaInput}
use crabhelm.Common.{String, some, none, ℕ, ◌∷◌, false, [], true}
use crabhelm.Claw.Types.{ObservabilityPolicy, LogLevel}
use crabhelm.Governance.Actor.{ResolvedActor}

abbrev pub alice : PrincipalRecord
alice = record {
  id = "p1";
  revision = 1;
  subject = "github:alice";
  label = "Alice";
  kind = human;
  source = PrincipalSource.github;
  roles = member ∷ [];
  departments = "platform" ∷ [];
  created_at = iso 0;
  updated_at = iso 0;
}

abbrev pub service_bot : PrincipalRecord
service_bot = record alice {
  id = "p2";
  subject = "manual:bot";
  label = "Bot";
  kind = PrincipalKind.service;
  source = PrincipalSource.manual;
}

abbrev pub alice_github : OAuthConnectionRecord
alice_github = record {
  id = "c1";
  revision = 1;
  principal_id = "p1";
  provider = Provider.github;
  label = "Alice on GitHub";
  scopes = "repo:read" ∷ [];
  vault_key = "vault:1";
  status = active;
  created_at = iso 0;
  updated_at = iso 0;
}

abbrev pub bot_github : OAuthConnectionRecord
bot_github = record alice_github { id = "c2"; principal_id = "p2"; label = "Bot on GitHub" }

-- A persona of Alice's that falls back on the service principal.
abbrev pub helper_input : PersonaInput
helper_input = record {
  name = some "Helper";
  slug = none;
  kind = some "shared";
  owner_principal_id = some "p1";
  claw_id = some "claw1";
  actor_policy = record {
    mode = some "invoker-with-service-fallback";
    service_principal_id = some "p2";
  };
  bindings =
      some
        (record { surface = some "slack"; workspace_id = some "T1"; channel_id = some "C1" } ∷ []);
  capability_ids = some ("github.issue.read" ∷ []);
  skill_ids = some ("s1" ∷ []);
  instructions = record { identity = none; soul = none; agents = none };
  published_context = none;
}

abbrev pub no_change : PersonaInput
no_change = record {
  name = none;
  slug = none;
  kind = none;
  owner_principal_id = none;
  claw_id = none;
  actor_policy = record { mode = none; service_principal_id = none };
  bindings = none;
  capability_ids = none;
  skill_ids = none;
  instructions = record { identity = none; soul = none; agents = none };
  published_context = none;
}

abbrev pub helper_named : String → ℕ → Timestamp → PersonaRecord
helper_named name revision now = record {
  id = "a1";
  revision = revision;
  name = name;
  slug = "helper";
  kind = shared;
  owner_principal_id = "p1";
  claw_id = "claw1";
  actor_policy = record { mode = invoker_with_service_fallback; service_principal_id = some "p2" };
  bindings =
      record { surface = Surface.slack; workspace_id = some "T1"; channel_id = some "C1" } ∷ [];
  capability_ids = "github.issue.read" ∷ [];
  skill_ids = "s1" ∷ [];
  instructions = record { identity = ""; soul = ""; agents = "" };
  published_context = [];
  enabled = true;
  created_at = iso 5;
  updated_at = now;
}

abbrev pub helper : PersonaRecord
helper = helper_named "Helper" 1 (iso 5)

abbrev pub triage : SkillRecord
triage = record {
  id = "s1";
  revision = 1;
  name = "Triage";
  slug = "triage";
  description = "Sorts issues";
  version = 1;
  status = SkillStatus.approved;
  departments = "platform" ∷ [];
  files = [];
  digest = "d1";
  created_by = "p1";
  approved_by = some "p1";
  created_at = iso 0;
  updated_at = iso 0;
}

abbrev pub quiet : ObservabilityPolicy
quiet = record {
  log_level = LogLevel.info;
  retention_days = 30;
  otel = record {
    enabled = false;
    endpoint = none;
    service_name = "crabhelm-helper";
    traces = true;
    metrics = true;
    sample_rate = record { numerator = 1; denominator = 10 };
    flush_interval_ms = 60000;
  };
}

-- Alice's authority through the persona.
abbrev pub as_alice : ResolvedActor
as_alice = record {
  actor = alice;
  connection = alice_github;
  actor_mode = invoker_with_service_fallback;
  fallback_used = false;
}
