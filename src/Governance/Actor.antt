-- ===== src/Governance/Actor.antt =====
-- Who acts when a requester invokes a persona's capability: `resolveInvocationActor` and
-- `findConnection` (src/governance.ts).
pub mod Soundness
pub mod Choice
use crabhelm.Common.{
  String, Bool, true, false, not, ◌&&◌, ◌||◌, Option, none, some, List, [], ◌∷◌, find, all, str_eq,
  str_in,
}
use crabhelm.Errors.{other}
use crabhelm.Effect.{Result, ok, err, bind_result, require_true}
use crabhelm.Governance.Types.{
  PrincipalRecord, PrincipalKind, PersonaRecord, PersonaKind, profile, ActorMode, invoker,
  invoker_with_service_fallback, CapabilityDefinition, OAuthConnectionRecord, ConnectionStatus,
  active, Provider, github,
}

infixl 5 ◌>>=◌ ◌>>◌
abbrev ◌>>=◌ : {A B : Type 0} → Result A → (A → Result B) → Result B
r >>= f = bind_result r f

abbrev ◌>>◌ : {B : Type 0} → Result (Unit {0}) → Result B → Result B
r >> k = bind_result r λ _. k

abbrev pub mode_eq : ActorMode → ActorMode → Bool
mode_eq invoker invoker = true
mode_eq ActorMode.service ActorMode.service = true
mode_eq invoker_with_service_fallback invoker_with_service_fallback = true
mode_eq _ _ = false

abbrev pub mode_in : ActorMode → List ActorMode → Bool
mode_in m [] = false
mode_in m (x ∷ xs) = mode_eq x m || mode_in m xs

abbrev pub is_profile : PersonaKind → Bool
is_profile profile = true
is_profile _ = false

abbrev pub is_service : PrincipalKind → Bool
is_service PrincipalKind.service = true
is_service _ = false

abbrev pub is_active : ConnectionStatus → Bool
is_active active = true
is_active _ = false

abbrev pub same_provider : Provider → Provider → Bool
same_provider github github = true

-- `id === value` where the value may be `undefined`.
abbrev pub is_value : String → Option String → Bool
is_value id none = false
is_value id (some v) = str_eq id v

-- The test of `findConnection`.
unfoldable pub is_compatible : String → CapabilityDefinition → OAuthConnectionRecord → Bool
is_compatible principal_id capability connection =
    is_active connection.status
    && str_eq connection.principal_id principal_id
    && same_provider connection.provider capability.provider
    && all (λ scope. str_in scope connection.scopes) capability.required_scopes

unfoldable pub find_connection :
    List OAuthConnectionRecord → String → CapabilityDefinition → Option OAuthConnectionRecord
find_connection connections principal_id capability =
    find (is_compatible principal_id capability) connections

pub record ResolvedActor : Type 0 where
  pub actor : PrincipalRecord
  pub connection : OAuthConnectionRecord
  pub actor_mode : ActorMode
  pub fallback_used : Bool

abbrev pub need {ℓ} : {A : Type ℓ} → Option A → String → Result A
need none message = err (other message)
need (some a) message = ok a

-- `!service || service.kind !== "service"` throws.
abbrev pub need_service : Option PrincipalRecord → Result PrincipalRecord
need_service none = err (other "persona service actor is unavailable")
need_service (some p) =
    bind_result (require_true (is_service p.kind) (other "persona service actor is unavailable"))
      λ _. ok p

-- The last two cases of the function, once the service principal is known: the mode `service`,
-- and the fallback.
unfoldable pub with_service :
    ActorMode
    → PrincipalRecord
    → Option OAuthConnectionRecord
    → PrincipalRecord
    → Option OAuthConnectionRecord
    → Result ResolvedActor
with_service ActorMode.service requester requester_connection service service_connection = do
  connection ← need service_connection "service actor has no compatible OAuth connection"
  ok (record {
    actor = service;
    connection = connection;
    actor_mode = ActorMode.service;
    fallback_used = false;
  })
with_service _ requester (some connection) service service_connection = ok (record {
  actor = requester;
  connection = connection;
  actor_mode = invoker_with_service_fallback;
  fallback_used = false;
})
with_service _ requester none service service_connection = do
  connection ←
      need service_connection
        "neither requester nor service actor has a compatible OAuth connection"
  ok (record {
    actor = service;
    connection = connection;
    actor_mode = invoker_with_service_fallback;
    fallback_used = true;
  })

module _ (requester : PrincipalRecord) (persona : PersonaRecord) (capability : CapabilityDefinition)
    (principals : List PrincipalRecord) (connections : List OAuthConnectionRecord) where
  -- The body from the choice of the mode on.
  unfoldable pub by_mode : ActorMode → Result ResolvedActor
  by_mode invoker = do
    connection ←
        need (find_connection connections requester.id capability)
          "requester has no compatible OAuth connection"
    ok (record {
      actor = requester;
      connection = connection;
      actor_mode = invoker;
      fallback_used = false;
    })
  by_mode mode = do
    service ←
        need_service
          (find (λ p. is_value p.id persona.actor_policy.service_principal_id) principals)
    with_service mode requester (find_connection connections requester.id capability) service
        (find_connection connections service.id capability)

  unfoldable pub resolve_invocation_actor : Result ResolvedActor
  resolve_invocation_actor = do
    require_true persona.enabled (other "persona is disabled")
    require_true (str_in capability.id persona.capability_ids)
        (other "persona is not allowed to use this capability")
    require_true (mode_in persona.actor_policy.mode capability.allowed_actor_modes)
        (other "persona actor mode is not allowed for this capability")
    require_true (not (is_profile persona.kind && not (mode_eq persona.actor_policy.mode invoker)))
        (other "profile assistants must act as the requester")
    by_mode persona.actor_policy.mode
