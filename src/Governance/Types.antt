-- ===== src/Governance/Types.antt =====
-- The records of src/governance-types.ts.
use crabhelm.Common.{ℕ, String, Bool, false, Option, List, leb}

-- A timestamp: the text that `toISOString` writes of an instant (in milliseconds), or a text that
-- `Date.parse` reads as NaN.
pub data Timestamp : Type 0 where
  iso : ℕ → Timestamp
  unreadable : String → Timestamp

-- `Date.parse(t) <= now`; a comparison with NaN is false.
abbrev pub passed : Timestamp → ℕ → Bool
passed (iso at) now = leb at now
passed (unreadable _) now = false

pub data PrincipalKind : Type 0 where
  human service : PrincipalKind

pub data PrincipalRole : Type 0 where
  administrator member : PrincipalRole

pub data PrincipalSource : Type 0 where
  operator github slack email oidc manual : PrincipalSource

pub record PrincipalRecord : Type 0 where
  pub id : String
  pub revision : ℕ
  pub subject : String
  pub label : String
  pub kind : PrincipalKind
  pub source : PrincipalSource
  pub roles : List PrincipalRole
  pub departments : List String
  pub created_at : Timestamp
  pub updated_at : Timestamp

pub data PersonaKind : Type 0 where
  personal shared profile : PersonaKind

pub data ActorMode : Type 0 where
  invoker service invoker_with_service_fallback : ActorMode

pub record ActorPolicy : Type 0 where
  pub mode : ActorMode
  pub service_principal_id : Option String

pub data Surface : Type 0 where
  slack web api : Surface

pub record PersonaBinding : Type 0 where
  pub surface : Surface
  pub workspace_id : Option String
  pub channel_id : Option String

pub record PublishedContext : Type 0 where
  pub label : String
  pub value : String
  pub url : Option String

pub record PersonaInstructions : Type 0 where
  pub identity : String
  pub soul : String
  pub agents : String

pub record PersonaRecord : Type 0 where
  pub id : String
  pub revision : ℕ
  pub name : String
  pub slug : String
  pub kind : PersonaKind
  pub owner_principal_id : String
  pub claw_id : String
  pub actor_policy : ActorPolicy
  pub bindings : List PersonaBinding
  pub capability_ids : List String
  pub skill_ids : List String
  pub instructions : PersonaInstructions
  pub published_context : List PublishedContext
  pub enabled : Bool
  pub created_at : Timestamp
  pub updated_at : Timestamp

pub data CapabilityRisk : Type 0 where
  read write external destructive : CapabilityRisk

pub data Confirmation : Type 0 where
  never always : Confirmation

-- The one provider, `"github"`.
pub data Provider : Type 0 where
  github : Provider

pub record CapabilityDefinition : Type 0 where
  pub id : String
  pub provider : Provider
  pub action : String
  pub label : String
  pub description : String
  pub risk : CapabilityRisk
  pub confirmation : Confirmation
  pub allowed_actor_modes : List ActorMode
  pub required_scopes : List String

pub data SkillStatus : Type 0 where
  draft approved revoked : SkillStatus

pub record SkillFile : Type 0 where
  pub path : String
  pub content : String
  pub sha256 : String

pub record SkillRecord : Type 0 where
  pub id : String
  pub revision : ℕ
  pub name : String
  pub slug : String
  pub description : String
  pub version : ℕ
  pub status : SkillStatus
  pub departments : List String
  pub files : List SkillFile
  pub digest : String
  pub created_by : String
  pub approved_by : Option String
  pub created_at : Timestamp
  pub updated_at : Timestamp

pub data ConnectionStatus : Type 0 where
  active revoked : ConnectionStatus

pub record OAuthConnectionRecord : Type 0 where
  pub id : String
  pub revision : ℕ
  pub principal_id : String
  pub provider : Provider
  pub label : String
  pub scopes : List String
  pub vault_key : String
  pub status : ConnectionStatus
  pub created_at : Timestamp
  pub updated_at : Timestamp
