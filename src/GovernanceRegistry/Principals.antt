-- ===== src/GovernanceRegistry/Principals.antt =====
-- Principals: `ensureSystem`, `createPrincipal`, `ensureExternalPrincipal` and
-- `principalBySubject` (src/governance-registry.ts).
pub mod Subjects
pub mod Authority
use crabhelm.GovernanceRegistry.Types.{AuditOutcome}
use crabhelm.Common.{
  String, Option, Bool, true, some, find, false, ◌&&◌, str_eq, not, ◌+◌, if◌then◌else◌, ◌<>◌,
  is_some, none,
}
use crabhelm.GovernanceRegistry.Stores.{Ambient, Stores, audit, blank}
use crabhelm.Governance.Types.{PrincipalSource, PrincipalRecord, Timestamp, operator, oidc, iso}
use crabhelm.Effect.{M, write, serialize, ◌>>=◌, ◌>>◌, pure, read, lift, throw_unless}
use crabhelm.Governance.Records.Principal.{
  PrincipalInput, system_operator_principal_id, create_principal_record, create_system_operator,
}
use crabhelm.Store.{register, lookup, values}
use crabhelm.Errors.{other}

unfoldable pub put_principal : String → PrincipalRecord → M Stores (Unit {0})
put_principal id p = write λ s. record s { principals = register id p s.principals }

abbrev ensured : Option PrincipalRecord → Ambient → M Stores PrincipalRecord
ensured (some existing) env = pure existing
ensured none env = do
  put_principal system_operator_principal_id (create_system_operator (iso env.written))
  pure (create_system_operator (iso env.written))

unfoldable pub ensure_system : Ambient → M Stores PrincipalRecord
ensure_system env = do
  existing ← read λ s. lookup system_operator_principal_id s.principals
  ensured existing env

unfoldable pub principal_by_subject : String → Stores → Option PrincipalRecord
principal_by_subject subject s = find (λ item. str_eq item.subject subject) (values s.principals)

-- The operation that `createPrincipal` serializes.
unfoldable pub creating_principal : Ambient → PrincipalInput → String → M Stores PrincipalRecord
creating_principal env input actor_id = do
  next ← lift (create_principal_record input env.id (iso env.written))
  duplicate ← read λ s. is_some (principal_by_subject next.subject s)
  throw_unless (not duplicate) (other "principal subject already exists")
  put_principal next.id next
  audit env
      (record (blank "principal.create" ("Created principal " <> next.label)
        AuditOutcome.succeeded) { requester_id = some actor_id; actor_id = some actor_id })
  pure next

unfoldable pub create_principal :
    Bool → Ambient → PrincipalInput → String → M Stores PrincipalRecord
unfolding creating_principal
create_principal tx env input actor_id = serialize tx (creating_principal env input actor_id)

abbrev pub is_oidc : PrincipalSource → Bool
is_oidc oidc = true
is_oidc _ = false

abbrev pub source_name : PrincipalSource → String
source_name operator = "operator"
source_name PrincipalSource.github = "github"
source_name PrincipalSource.slack = "slack"
source_name PrincipalSource.email = "email"
source_name oidc = "oidc"
source_name PrincipalSource.manual = "manual"

-- What a login by `candidate` makes of the principal with its subject.
unfoldable pub merged_principal : PrincipalRecord → PrincipalRecord → Timestamp → PrincipalRecord
merged_principal current candidate now =
    let preserve = is_oidc current.source && not (is_oidc candidate.source) in
    record current {
      revision = current.revision + 1;
      label = if preserve then current.label else candidate.label;
      source = if preserve then current.source else candidate.source;
      roles = if preserve then current.roles else candidate.roles;
      departments = if preserve then current.departments else candidate.departments;
      updated_at = now;
    }

unfoldable pub log_in :
    Option PrincipalRecord → PrincipalRecord → Ambient → M Stores PrincipalRecord
log_in none candidate env = do
  put_principal candidate.id candidate
  audit env
      (record (blank "principal.login"
        ("Created " <> source_name candidate.source <> " principal " <> candidate.label)
        AuditOutcome.succeeded) { requester_id = some candidate.id; actor_id = some candidate.id })
  pure candidate
log_in (some current) candidate env = do
  put_principal current.id (merged_principal current candidate (iso env.written))
  pure (merged_principal current candidate (iso env.written))

unfoldable pub ensuring_external : Ambient → PrincipalInput → M Stores PrincipalRecord
ensuring_external env input = do
  candidate ← lift (create_principal_record input env.id (iso env.written))
  current ← read λ s. principal_by_subject candidate.subject s
  log_in current candidate env

unfoldable pub ensure_external_principal :
    Bool → Ambient → PrincipalInput → M Stores PrincipalRecord
unfolding ensuring_external
ensure_external_principal tx env input = serialize tx (ensuring_external env input)
