-- ===== src/GovernanceRegistry/Connections.antt =====
-- OAuth connections: `registerConnection` and `revokeConnection`, with the registry's own
-- `requireText` and `unique` (src/governance-registry.ts).
pub mod Revocation
use crabhelm.GovernanceRegistry.Types.{AuditOutcome}
use Prim.Native.String.{len}
use crabhelm.Common.{
  String, List, Bool, ℕ, if◌then◌else◌, not, ◌∷◌, is_empty, leb, [], trim, length, ◌+◌, ◌&&◌, ◌<>◌,
  show, is_distinct, some,
}
use crabhelm.GovernanceRegistry.Stores.{
  Ambient, Stores, require_principal, require_connection, audit, blank,
}
use crabhelm.Effect.{
  Result, M, ok, bind_result, require_true, write, serialize, ◌>>=◌, ◌>>◌, lift, err, pure,
}
use crabhelm.Governance.Types.{Provider, OAuthConnectionRecord, active, ConnectionStatus, iso}
use crabhelm.Store.{register}
use crabhelm.Errors.{other}

-- `requireText(value, label, max)`.
unfoldable pub require_text : String → String → ℕ → Result String
require_text value label most =
    if not (is_empty (trim value)) && leb (len (trim value)) most
    then ok (trim value)
    else err (other (label <> " is invalid"))

unfoldable pub require_each : String → List String → Result (List String)
require_each label [] = ok []
require_each label (v ∷ vs) =
    bind_result (require_text v label 120)
      λ head. bind_result (require_each label vs) λ rest. ok (head ∷ rest)

unfoldable pub unique_scopes : List String → String → ℕ → Result (List String)
unique_scopes values label most =
    bind_result
      (require_true (leb 1 (length values) && leb (length values) most)
        (other (label <> " must contain between 1 and " <> show most <> " entries")))
      λ _. bind_result (require_each label values) λ result.
        bind_result (require_true (is_distinct result) (other (label <> " must be unique")))
          λ _. ok result

pub record ConnectionInput : Type 0 where
  pub principal_id : String
  pub provider : Provider
  pub label : String
  pub scopes : List String

unfoldable pub put_connection : String → OAuthConnectionRecord → M Stores (Unit {0})
put_connection id c = write λ s. record s { connections = register id c s.connections }

-- The operation that `registerConnection` serializes; `id` is its last argument.
unfoldable pub connecting :
    Ambient → ConnectionInput → String → String → String → M Stores OAuthConnectionRecord
connecting env input vault_key actor_id id = do
  principal ← require_principal input.principal_id
  label ← lift (require_text input.label "connection label" 120)
  scopes ← lift (unique_scopes input.scopes "connection scopes" 30)
  let connection : OAuthConnectionRecord = record {
    id = id;
    revision = 1;
    principal_id = input.principal_id;
    provider = input.provider;
    label = label;
    scopes = scopes;
    vault_key = vault_key;
    status = active;
    created_at = iso env.written;
    updated_at = iso env.written;
  }
  put_connection id connection
  audit env (record (blank "connection.create" ("Connected " <> label) AuditOutcome.succeeded) {
    requester_id = some actor_id;
    actor_id = some actor_id;
  })
  pure connection

unfoldable pub register_connection :
    Bool → Ambient → ConnectionInput → String → String → String → M Stores OAuthConnectionRecord
unfolding connecting
register_connection tx env input vault_key actor_id id =
    serialize tx (connecting env input vault_key actor_id id)

unfoldable pub revoking : Ambient → String → String → M Stores OAuthConnectionRecord
revoking env id actor_id = do
  current ← require_connection id
  let next : OAuthConnectionRecord = record current {
    revision = current.revision + 1;
    status = ConnectionStatus.revoked;
    updated_at = iso env.written;
  }
  put_connection id next
  audit env (record (blank "connection.revoke" ("Revoked " <> next.label) AuditOutcome.succeeded) {
    requester_id = some actor_id;
    actor_id = some actor_id;
  })
  pure next

unfoldable pub revoke_connection : Bool → Ambient → String → String → M Stores OAuthConnectionRecord
unfolding revoking
revoke_connection tx env id actor_id = serialize tx (revoking env id actor_id)
