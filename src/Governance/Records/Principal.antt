-- ===== src/Governance/Records/Principal.antt =====
-- `createPrincipalRecord` and `createSystemOperator` (src/governance.ts).
use crabhelm.Governance.Records.Parts.{map_each}
use crabhelm.Governance.Types.{
  Timestamp, PrincipalKind, human, PrincipalRole, administrator, member, PrincipalSource, operator,
  oidc, PrincipalRecord,
}
use Prim.Native.String.{String}
use crabhelm.Common.{
  Option, String, List, Bool, if◌then◌else◌, true, str_eq, ◌∷◌, [], false, or_else, not,
}
use crabhelm.Effect.{Result, ok, err, require_true}
use crabhelm.Errors.{other}
use crabhelm.Governance.Records.Fields.{◌>>=◌, ◌>>◌, text, is_subject, unique, departments}

pub record PrincipalInput : Type 0 where
  pub subject : Option String
  pub label : Option String
  pub kind : Option String
  pub source : Option String
  pub roles : Option (List String)
  pub departments : Option (List String)

unfoldable pub parse_source : String → Result PrincipalSource
parse_source s =
    if str_eq s "operator"
    then ok operator
    else if str_eq s "github"
    then ok PrincipalSource.github
    else if str_eq s "slack"
    then ok PrincipalSource.slack
    else if str_eq s "email"
    then ok PrincipalSource.email
    else if str_eq s "oidc"
    then ok oidc
    else if str_eq s "manual"
    then ok PrincipalSource.manual
    else err (other "principal source is invalid")

unfoldable pub parse_principal_kind : String → Result PrincipalKind
parse_principal_kind s =
    if str_eq s "human"
    then ok human
    else if str_eq s "service"
    then ok PrincipalKind.service
    else err (other "principal kind must be human or service")

unfoldable pub parse_role : String → Result PrincipalRole
parse_role s =
    if str_eq s "administrator"
    then ok administrator
    else if str_eq s "member"
    then ok member
    else err (other "principal roles must contain member or administrator")

abbrev is_nil {ℓ} : {A : Type ℓ} → List A → Bool
is_nil [] = true
is_nil (_ ∷ _) = false

-- `id` is the fresh `randomUUID()`, and `now` the timestamp.
unfoldable pub create_principal_record :
    PrincipalInput → String → Timestamp → Result PrincipalRecord
create_principal_record input id now = do
  subject ← text input.subject "principal subject" 200
  require_true (is_subject subject) (other "principal subject contains unsupported characters")
  source ← parse_source (or_else input.source "manual")
  kind ← parse_principal_kind (or_else input.kind "human")
  names ← unique (or_else input.roles ("member" ∷ [])) "principal roles" 2
  require_true (not (is_nil names)) (other "principal roles must contain member or administrator")
  roles ← map_each parse_role names
  label ← text input.label "principal label" 120
  departments ← departments input.departments
  ok (record {
    id = id;
    revision = 1;
    subject = subject;
    label = label;
    kind = kind;
    source = source;
    roles = roles;
    departments = departments;
    created_at = now;
    updated_at = now;
  })

abbrev pub system_operator_principal_id : String
system_operator_principal_id = "principal:operator"

unfoldable pub create_system_operator : Timestamp → PrincipalRecord
create_system_operator now = record {
  id = system_operator_principal_id;
  revision = 1;
  subject = "operator:cloudflare";
  label = "Crabhelm operator";
  kind = human;
  source = operator;
  roles = administrator ∷ member ∷ [];
  departments = "platform" ∷ [];
  created_at = now;
  updated_at = now;
}
