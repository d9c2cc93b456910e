-- ===== src/Governance/Capabilities.antt =====
-- The configured capabilities: `DEFAULT_CAPABILITIES` and `capabilityById` (src/governance.ts).
use Prim.Native.String
use crabhelm.Common.{
  String, ◌≡◌, Option, none, some, List, [], ◌∷◌, find, find_sound, In, here, there, refl, str_eq,
  eq_iff, arith,
}
use crabhelm.Errors.{other}
use crabhelm.Effect.{Result, ok, err}
use crabhelm.Governance.Types.{
  ActorMode, invoker, invoker_with_service_fallback, CapabilityDefinition, read, external, never,
  always, github,
}

abbrev pub every_mode : List ActorMode
every_mode = invoker ∷ ActorMode.service ∷ invoker_with_service_fallback ∷ []

abbrev pub github_repository_read : CapabilityDefinition
github_repository_read = record {
  id = "github.repository.read";
  provider = github;
  action = "repository.read";
  label = "Read GitHub repository metadata";
  description = "Read bounded metadata for one explicitly named GitHub repository.";
  risk = read;
  confirmation = never;
  allowed_actor_modes = every_mode;
  required_scopes = "repo:read" ∷ [];
}

abbrev pub github_issue_read : CapabilityDefinition
github_issue_read = record {
  id = "github.issue.read";
  provider = github;
  action = "issue.read";
  label = "Read GitHub issue or pull request";
  description = "Read one issue or pull request from one explicitly named repository.";
  risk = read;
  confirmation = never;
  allowed_actor_modes = every_mode;
  required_scopes = "repo:read" ∷ [];
}

abbrev pub github_issue_comment : CapabilityDefinition
github_issue_comment = record {
  id = "github.issue.comment";
  provider = github;
  action = "issue.comment";
  label = "Comment on GitHub issue or pull request";
  description = "Post one bounded comment after requester confirmation.";
  risk = external;
  confirmation = always;
  allowed_actor_modes = every_mode;
  required_scopes = "repo:write" ∷ [];
}

abbrev pub default_capabilities : List CapabilityDefinition
default_capabilities = github_repository_read ∷ github_issue_read ∷ github_issue_comment ∷ []

abbrev configured : Option CapabilityDefinition → String → Result CapabilityDefinition
configured none id = err (other (String.◌++◌ "capability is not configured: " id))
configured (some c) id = ok c

unfoldable pub capability_by_id : String → Result CapabilityDefinition
capability_by_id id = configured (find (λ item. str_eq item.id id) default_capabilities) id

-- What the lookup returns is a configured capability with that id.
pub capability_by_id_sound :
    (id : String) (c : CapabilityDefinition)
    → capability_by_id id ≡ ok c
    → In c default_capabilities × (c.id ≡ id)
unfolding capability_by_id
capability_by_id_sound id c e =
    let (m, h) =
      find_sound (λ item. str_eq item.id id) default_capabilities {x = c} (ground arith) in
    (m, (eq_iff c.id id).0 h)

-- A capability that reaches outside needs a confirmation.
pub external_needs_confirmation :
    (c : CapabilityDefinition)
    → In c default_capabilities
    → c.risk ≡ external
    → c.confirmation ≡ always
external_needs_confirmation c here h = cc
external_needs_confirmation c (there here) h = cc
external_needs_confirmation c (there (there here)) h = refl
external_needs_confirmation c (there (there (there m))) h = elim m [ ]
