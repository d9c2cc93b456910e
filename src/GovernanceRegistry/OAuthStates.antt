-- ===== src/GovernanceRegistry/OAuthStates.antt =====
-- States of an OAuth exchange: `createOAuthState` and `consumeOAuthState`
-- (src/governance-registry.ts).
pub mod Consumption
use crabhelm.Common.{ℕ, Option, Bool, String, some, if◌then◌else◌, str_eq, ◌&&◌, not, none, ◌+◌}
use crabhelm.GovernanceRegistry.Stores.{Ambient, Stores, require_principal}
use crabhelm.GovernanceRegistry.Types.{OAuthStateRecord}
use crabhelm.Effect.{M, Result, err, serialize, ◌>>=◌, ◌>>◌, read, lift, write, pure, ok}
use crabhelm.Errors.{other}
use crabhelm.Store.{lookup, delete, register}
use crabhelm.Governance.Types.{passed, github, iso}

abbrev lifetime_ms : ℕ
lifetime_ms = 600000

-- `createOAuthState` is not serialized; its one reading of the clock is `env.written`.
unfoldable pub create_oauth_state : Ambient → String → M Stores OAuthStateRecord
create_oauth_state env principal_id = do
  principal ← require_principal principal_id
  let state : OAuthStateRecord = record {
    id = env.id;
    principal_id = principal_id;
    provider = github;
    created_at = iso env.written;
    expires_at = iso (env.written + lifetime_ms);
  }
  write λ s. record s { oauth_states = register env.id state s.oauth_states }
  pure state

-- A state that is there, is the principal's and has not expired.
abbrev pub valid_state : Option OAuthStateRecord → String → ℕ → Result OAuthStateRecord
valid_state none principal_id now = err (other "OAuth state is invalid or expired")
valid_state (some state) principal_id now =
    if str_eq state.principal_id principal_id && not (passed state.expires_at now)
    then ok state
    else err (other "OAuth state is invalid or expired")

unfoldable pub consuming : Ambient → String → String → M Stores OAuthStateRecord
consuming env id principal_id = do
  entry ← read λ s. lookup id s.oauth_states
  state ← lift (valid_state entry principal_id env.clock)
  write λ s. record s { oauth_states = delete id s.oauth_states }
  pure state

unfoldable pub consume_oauth_state : Bool → Ambient → String → String → M Stores OAuthStateRecord
unfolding consuming
consume_oauth_state tx env id principal_id = serialize tx (consuming env id principal_id)
