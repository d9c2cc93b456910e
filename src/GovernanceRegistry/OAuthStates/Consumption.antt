-- ===== src/GovernanceRegistry/OAuthStates/Consumption.antt =====
-- A state serves its own principal, in time, and once.
use crabhelm.Common.{ℕ, Bool, String, ◌≡◌, some, ◌≢◌, ◌<◌, false, arith, none, ◌+◌, eq_iff, eq_refl}
use crabhelm.GovernanceRegistry.OAuthStates.{consume_oauth_state, create_oauth_state}
use crabhelm.GovernanceRegistry.Stores.{Stores, Ambient, require_principal}
use crabhelm.GovernanceRegistry.Types.{OAuthStateRecord}
use crabhelm.Store.{lookup, delete}
use crabhelm.Store.Laws.{IsKeyed, lookup-delete, lookup-register_self}
use crabhelm.Effect.{ok, err}
use crabhelm.Governance.Types.{passed}
use crabhelm.Effect.Outcome.{serialize-ok}
use crabhelm.Errors.{other}

-- What a consumption that succeeds tells.
pub record IsConsumption (clock : ℕ) (id principal_id : String) (s : Stores)
    (state : OAuthStateRecord) (t : Stores) : Type 0 where
  pub before : lookup id s.oauth_states ≡ some state
  pub owner : state.principal_id ≡ principal_id
  pub in_time : passed state.expires_at clock ≡ false
  pub after : t ≡ record s { oauth_states = delete id s.oauth_states }

pub consume_oauth_state-IsConsumption :
    (tx : Bool) (env : Ambient) (id principal_id : String) (s : Stores) (state : OAuthStateRecord)
    (t : Stores)
    → consume_oauth_state tx env id principal_id s ≡ (ok state, t)
    → IsConsumption env.clock id principal_id s state t
unfolding consume_oauth_state
consume_oauth_state-IsConsumption tx env id principal_id s state t e =
    let e' = serialize-ok tx _ s e in
    record {
      before = ground arith;
      owner = ground (arith, eq_iff state.principal_id principal_id);
      in_time = ground arith;
      after = ground arith;
    }

-- In stores whose states have one entry each, once a consumption of a state succeeds, no
-- consumption of that state succeeds in the stores it leaves, whoever asks and at any time.
pub consume_oauth_state_once :
    (tx : Bool) (env env' : Ambient) (id p p' : String) (s t u : Stores)
    (state state' : OAuthStateRecord)
    → IsKeyed s.oauth_states
    → consume_oauth_state tx env id p s ≡ (ok state, t)
    → consume_oauth_state tx env' id p' t ≢ (ok state', u)
consume_oauth_state_once tx env env' id p p' s t u state state' keyed first second =
    let one = consume_oauth_state-IsConsumption tx env id p s state t first in
    let two = consume_oauth_state-IsConsumption tx env' id p' t state' u second in
    let gone : lookup id t.oauth_states ≡ none =
      ground (arith, one.after, lookup-delete id id s.oauth_states keyed, eq_refl id) in
    spent gone two.before
  where
    spent : lookup id t.oauth_states ≡ none → lookup id t.oauth_states ≡ some state' → ⊥
    spent gone back = cc

-- A state that is created for a known principal is consumed by that principal, and by no other,
-- at any time less than ten minutes later; the consumption returns the state that was created.
pub create_oauth_state_consumed :
    (tx : Bool) (env env' : Ambient) (principal_id : String) (s t : Stores)
    (state : OAuthStateRecord)
    → create_oauth_state env principal_id s ≡ (ok state, t)
    → env'.clock < env.written + 600000
    → (consume_oauth_state tx env' env.id principal_id t
        ≡ (ok state, record t { oauth_states = delete env.id t.oauth_states }))
      × ((p : String)
          → p ≢ principal_id
          → consume_oauth_state tx env' env.id p t
            ≡ (err (other "OAuth state is invalid or expired"), t))
unfolding create_oauth_state consume_oauth_state require_principal
create_oauth_state_consumed tx env env' principal_id s t state e early =
    let at : lookup env.id t.oauth_states ≡ some state =
      ground (arith, lookup-register_self env.id state s.oauth_states) in
    let owner : state.principal_id ≡ principal_id = ground arith in
    let in_time : passed state.expires_at env'.clock ≡ false = ground arith in
    (
      ground (arith, eq_iff state.principal_id principal_id),
      λ p other. ground (arith, eq_iff state.principal_id p),
    )
