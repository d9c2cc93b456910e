-- ===== src/Governance/Actor/Soundness.antt =====
-- Whoever `resolveInvocationActor` lets act is entitled to.
use crabhelm.Common.{
  String, true, false, ◌≡◌, ◌≢◌, ◌⊎◌, inl, inr, refl, Option, none, some, List, find, all, str_in,
  eq_iff, In, find_sound, arith, sym, Option-cases,
}
use crabhelm.Effect.{ok, ok-injective, bind_result-eq-ok}
use crabhelm.Governance.Types.{
  PrincipalRecord, PrincipalKind, PersonaRecord, profile, ActorMode, invoker,
  invoker_with_service_fallback, CapabilityDefinition, OAuthConnectionRecord, active,
}
use crabhelm.Governance.Actor.{
  mode_in, is_compatible, find_connection, ResolvedActor, with_service, by_mode,
  resolve_invocation_actor, is_value, need_service, need,
}

-- The connection is registered, active, the principal's own, with the capability's provider, and
-- covers every scope that the capability requires.
pub record IsGranted (connections : List OAuthConnectionRecord) (principal_id : String)
    (capability : CapabilityDefinition) (c : OAuthConnectionRecord) : Type 0 where
  pub listed : In c connections
  pub live : c.status ≡ active
  pub owned : c.principal_id ≡ principal_id
  pub provided : c.provider ≡ capability.provider
  pub scoped : all (λ scope. str_in scope c.scopes) capability.required_scopes ≡ true

pub find_connection_sound :
    (connections : List OAuthConnectionRecord) (principal_id : String)
    (capability : CapabilityDefinition) (c : OAuthConnectionRecord)
    → find_connection connections principal_id capability ≡ some c
    → IsGranted connections principal_id capability c
unfolding find_connection is_compatible
find_connection_sound connections principal_id capability c e =
    let (m, h) = find_sound (is_compatible principal_id capability) connections e in
    record {
      listed = m;
      live = ground arith;
      owned = ground (arith, eq_iff c.principal_id principal_id);
      provided = ground arith;
      scoped = ground arith;
    }

module _ (requester : PrincipalRecord) (persona : PersonaRecord) (capability : CapabilityDefinition)
    (principals : List PrincipalRecord) (connections : List OAuthConnectionRecord) where
  -- The actor is the persona's own service principal, a registered one.
  pub record IsServiceActor (actor : PrincipalRecord) : Type 0 where
    pub listed : In actor principals
    pub kind : actor.kind ≡ PrincipalKind.service
    pub named : is_value actor.id persona.actor_policy.service_principal_id ≡ true
    pub delegated : persona.actor_policy.mode ≢ invoker

  -- What the choice by the mode establishes.
  pub record IsEntitled (r : ResolvedActor) : Type 0 where
    pub actor_mode : r.actor_mode ≡ persona.actor_policy.mode
    pub granted : IsGranted connections r.actor.id capability r.connection
    pub actor :
        ((r.actor ≡ requester)
          × (r.fallback_used ≡ false)
          × (persona.actor_policy.mode ≢ ActorMode.service))
        ⊎ IsServiceActor r.actor
    pub fallback :
        r.fallback_used ≡ true
        → (persona.actor_policy.mode ≡ invoker_with_service_fallback)
          × (find_connection connections requester.id capability ≡ none)

  need_service_sound :
      {p : PrincipalRecord}
      → need_service
          (find (λ p. is_value p.id persona.actor_policy.service_principal_id) principals)
        ≡ ok p
      → persona.actor_policy.mode ≢ invoker
      → IsServiceActor p
  need_service_sound {p} e ne =
      let found : find (λ p. is_value p.id persona.actor_policy.service_principal_id) principals
          ≡ some p =
        ground arith in
      let (m, h) =
        find_sound (λ p. is_value p.id persona.actor_policy.service_principal_id) principals
          found in
      record { listed = m; kind = ground arith; named = h; delegated = ne }

  with_service_sound :
      (mode : ActorMode) (service : PrincipalRecord)
      (requester_connection service_connection : Option OAuthConnectionRecord) {r : ResolvedActor}
      → mode ≡ persona.actor_policy.mode
      → mode ≢ invoker
      → requester_connection ≡ find_connection connections requester.id capability
      → service_connection ≡ find_connection connections service.id capability
      → IsServiceActor service
      → with_service mode requester requester_connection service service_connection ≡ ok r
      → IsEntitled r
  unfolding with_service
  with_service_sound invoker service rc sc m ne hr hs a e = absurd (ne refl)
  with_service_sound ActorMode.service service rc none m ne hr hs a e = cc
  with_service_sound ActorMode.service service rc (some c) m ne hr hs a e =
      rw (← ok-injective e) (record {
        actor_mode = m;
        granted = find_connection_sound connections service.id capability c (sym hs);
        actor = inr a;
        fallback = λ h. cc;
      })
  with_service_sound invoker_with_service_fallback service (some c) sc m ne hr hs a e =
      rw (← ok-injective e) (record {
        actor_mode = m;
        granted = find_connection_sound connections requester.id capability c (sym hr);
        actor = inl (refl, refl, ground arith);
        fallback = λ h. cc;
      })
  with_service_sound invoker_with_service_fallback service none none m ne hr hs a e = cc
  with_service_sound invoker_with_service_fallback service none (some c) m ne hr hs a e =
      rw (← ok-injective e) (record {
        actor_mode = m;
        granted = find_connection_sound connections service.id capability c (sym hs);
        actor = inr a;
        fallback = λ h. (sym m, sym hr);
      })

  by_mode_sound :
      (mode : ActorMode) {r : ResolvedActor}
      → mode ≡ persona.actor_policy.mode
      → by_mode requester persona capability principals connections mode ≡ ok r
      → IsEntitled r
  unfolding by_mode
  by_mode_sound invoker m e =
      elim (Option-cases (find_connection connections requester.id capability)) [
        | inl missing ↦ ground arith
        | inr (c, found) ↦ rw (← ok-injective (rw (found, need) at e)) (record {
          actor_mode = m;
          granted = find_connection_sound connections requester.id capability c found;
          actor = inl (refl, refl, ground arith);
          fallback = λ h. cc;
        })
      ]
  by_mode_sound mode m e =
      let (service, needed, e') = bind_result-eq-ok _ _ e in
      with_service_sound mode service _ _ m (λ h. cc) refl refl
        (need_service_sound needed (λ h. cc)) e'

-- Whoever `resolveInvocationActor` lets act is entitled to: the persona is enabled, lists the
-- capability and has an actor mode that the capability allows; a profile assistant acts by the mode
-- `invoker` only; the connection is registered, active, the actor's own and covers every scope of
-- the capability; the actor is the requester, or the service principal that the persona names,
-- which is registered; a fallback is reported only where the requester has no such connection.
pub resolve_invocation_actor_sound :
    (requester : PrincipalRecord) (persona : PersonaRecord) (capability : CapabilityDefinition)
    (principals : List PrincipalRecord) (connections : List OAuthConnectionRecord)
    (r : ResolvedActor)
    → resolve_invocation_actor requester persona capability principals connections ≡ ok r
    → (persona.enabled ≡ true)
      × (str_in capability.id persona.capability_ids ≡ true)
      × (mode_in persona.actor_policy.mode capability.allowed_actor_modes ≡ true)
      × (persona.kind ≡ profile → persona.actor_policy.mode ≡ invoker)
      × IsEntitled requester persona capability principals connections r
unfolding resolve_invocation_actor
resolve_invocation_actor_sound requester persona capability principals connections r e = (
  ground arith,
  ground arith,
  ground arith,
  ground arith,
  by_mode_sound requester persona capability principals connections persona.actor_policy.mode refl
      (ground arith),
)
