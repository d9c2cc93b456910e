-- ===== src/Governance/Actor/Choice.antt =====
-- Which actor `resolveInvocationActor` chooses, and when it finds one.
use crabhelm.Common.{
  String, true, false, ◌≡◌, ◌≢◌, inl, inr, refl, sym, Option, none, some, List, find, str_in, In,
  find-none, Option-cases, arith, ◌⊎◌, find_sound, Bool-cases,
}
use crabhelm.Effect.{ok, err}
use crabhelm.Governance.Types.{
  PrincipalRecord, PrincipalKind, PersonaRecord, profile, ActorMode, invoker,
  invoker_with_service_fallback, CapabilityDefinition, OAuthConnectionRecord,
}
use crabhelm.Governance.Actor.{
  mode_in, is_compatible, find_connection, ResolvedActor, with_service, by_mode,
  resolve_invocation_actor, is_value, is_service,
}
use crabhelm.Errors.{other}

find_connection_complete :
    (connections : List OAuthConnectionRecord) (principal_id : String)
    (capability : CapabilityDefinition) (c : OAuthConnectionRecord)
    → In c connections
    → is_compatible principal_id capability c ≡ true
    → (d : OAuthConnectionRecord) × (find_connection connections principal_id capability ≡ some d)
unfolding find_connection
find_connection_complete connections principal_id capability c m h =
    elim (Option-cases (find (is_compatible principal_id capability) connections)) [
      | inl missing ↦
          absurd (clash (find-none (is_compatible principal_id capability) connections m missing))
      | inr found ↦ found
    ]
  where
    clash : is_compatible principal_id capability c ≡ false → ⊥
    clash e = cc

module _ (requester : PrincipalRecord) (persona : PersonaRecord) (capability : CapabilityDefinition)
    (principals : List PrincipalRecord) (connections : List OAuthConnectionRecord) where
  -- The principals among which the persona's mode lets the function choose.
  pub data IsCandidate : PrincipalRecord → Type 0 where
    as_requester : persona.actor_policy.mode ≡ invoker → IsCandidate requester
    as_service :
        {s : PrincipalRecord}
        → persona.actor_policy.mode ≢ invoker
        → find (λ p. is_value p.id persona.actor_policy.service_principal_id) principals ≡ some s
        → s.kind ≡ PrincipalKind.service
        → IsCandidate s
    -- The fallback tries the requester first, but only where its service principal is there.
    with_fallback :
        {s : PrincipalRecord}
        → persona.actor_policy.mode ≡ invoker_with_service_fallback
        → find (λ p. is_value p.id persona.actor_policy.service_principal_id) principals ≡ some s
        → s.kind ≡ PrincipalKind.service
        → IsCandidate requester

  with_service_total :
      (mode : ActorMode) (service : PrincipalRecord)
      (requester_connection service_connection : Option OAuthConnectionRecord)
      {c : OAuthConnectionRecord}
      → service_connection ≡ some c
      → (r : ResolvedActor) × (with_service mode requester requester_connection service
            service_connection
          ≡ ok r)
  unfolding with_service
  with_service_total mode service rc none e = cc
  with_service_total ActorMode.service service rc (some c) e = (_, refl)
  with_service_total invoker service (some _) (some c) e = (_, refl)
  with_service_total invoker service none (some c) e = (_, refl)
  with_service_total invoker_with_service_fallback service (some _) (some c) e = (_, refl)
  with_service_total invoker_with_service_fallback service none (some c) e = (_, refl)

  -- The requester acts on its own authority.
  abbrev pub as_asked : ActorMode → OAuthConnectionRecord → ResolvedActor
  as_asked mode c = record {
    actor = requester;
    connection = c;
    actor_mode = mode;
    fallback_used = false;
  }

  by_mode_total :
      (mode : ActorMode) (a : PrincipalRecord) {c : OAuthConnectionRecord}
      → mode ≡ persona.actor_policy.mode
      → IsCandidate a
      → find_connection connections a.id capability ≡ some c
      → (r : ResolvedActor) × (by_mode requester persona capability principals connections mode
          ≡ ok r)
  unfolding by_mode with_service
  by_mode_total invoker a {c} m (as_requester i) found = (as_asked invoker c, rw found)
  by_mode_total invoker a m (with_fallback e f k) found = cc
  by_mode_total ActorMode.service a m (with_fallback e f k) found = cc
  by_mode_total invoker_with_service_fallback a {c} m (with_fallback e f k) found =
      (as_asked invoker_with_service_fallback c, ground arith)
  by_mode_total invoker a m (as_service ne f k) found = absurd (ne (sym m))
  by_mode_total mode a m (as_requester i) found = cc
  by_mode_total mode a m (as_service ne f k) found =
      let (r, e) =
        with_service_total mode a (find_connection connections requester.id capability)
          (find_connection connections a.id capability) found in
      (r, ground arith)

  -- The persona names no service principal that is registered.
  abbrev pub IsUnserved : Type 0
  IsUnserved =
      (p : PrincipalRecord)
      → find (λ q. is_value q.id persona.actor_policy.service_principal_id) principals ≡ some p
      → p.kind ≢ PrincipalKind.service

  by_mode_prefers :
      (mode : ActorMode) {c : OAuthConnectionRecord}
      → mode ≢ ActorMode.service
      → find_connection connections requester.id capability ≡ some c
      → (by_mode requester persona capability principals connections mode ≡ ok (as_asked mode c))
        ⊎ ((mode ≡ invoker_with_service_fallback)
            × IsUnserved
            × (by_mode requester persona capability principals connections mode
                ≡ err (other "persona service actor is unavailable")))
  unfolding by_mode with_service
  by_mode_prefers invoker ne found = inl (rw found)
  by_mode_prefers ActorMode.service ne found = absurd (ne refl)
  by_mode_prefers invoker_with_service_fallback ne found =
      elim (Option-cases
        (find (λ q. is_value q.id persona.actor_policy.service_principal_id) principals)) [
          | inl missing ↦ inr (refl, (λ p at. cc), ground arith)
          | inr (p, at) ↦ elim (Bool-cases (is_service p.kind)) [
            | inl serves ↦ inl (ground arith)
            | inr other_ ↦ inr (refl, (λ q at_q k. not_service p q (cc) k other_), ground arith)
          ]
        ]
    where
      not_service :
          (p q : PrincipalRecord)
          → p ≡ q
          → q.kind ≡ PrincipalKind.service
          → is_service p.kind ≡ false
          → ⊥
      not_service p q same k no_ = ground arith

-- An actor is found whenever the rules allow one: if the persona is enabled, lists the capability
-- and has an allowed mode, `invoker` for a profile assistant, and one of the principals that the
-- mode admits has a compatible connection, the function succeeds.
pub resolve_invocation_actor_complete :
    (requester : PrincipalRecord) (persona : PersonaRecord) (capability : CapabilityDefinition)
    (principals : List PrincipalRecord) (connections : List OAuthConnectionRecord)
    (a : PrincipalRecord) (c : OAuthConnectionRecord)
    → persona.enabled ≡ true
    → str_in capability.id persona.capability_ids ≡ true
    → mode_in persona.actor_policy.mode capability.allowed_actor_modes ≡ true
    → (persona.kind ≡ profile → persona.actor_policy.mode ≡ invoker)
    → IsCandidate requester persona capability principals connections a
    → In c connections
    → is_compatible a.id capability c ≡ true
    → (r : ResolvedActor) × (resolve_invocation_actor requester persona capability principals
          connections
        ≡ ok r)
unfolding resolve_invocation_actor
resolve_invocation_actor_complete requester persona capability principals connections a c on listed
      allowed plain candidate m h =
    let (d, found) = find_connection_complete connections a.id capability c m h in
    let (r, e) =
      by_mode_total requester persona capability principals connections persona.actor_policy.mode a
        refl candidate found in
    (r, ground arith)

-- The requester's own authority comes first. If the persona is enabled, lists the capability, has an
-- allowed mode, `invoker` for a profile assistant, and does not act as its service alone, a requester
-- with a compatible connection is the actor, through such a connection and with no fallback reported.
-- There is one exception: where the mode is the fallback and no service principal is there under the
-- id that the persona names, the requester is refused.
pub resolve_invocation_actor_prefers_requester :
    (requester : PrincipalRecord) (persona : PersonaRecord) (capability : CapabilityDefinition)
    (principals : List PrincipalRecord) (connections : List OAuthConnectionRecord)
    (c : OAuthConnectionRecord)
    → persona.enabled ≡ true
    → str_in capability.id persona.capability_ids ≡ true
    → mode_in persona.actor_policy.mode capability.allowed_actor_modes ≡ true
    → (persona.kind ≡ profile → persona.actor_policy.mode ≡ invoker)
    → persona.actor_policy.mode ≢ ActorMode.service
    → In c connections
    → is_compatible requester.id capability c ≡ true
    → ((d : OAuthConnectionRecord) × In d connections
        × (is_compatible requester.id capability d ≡ true)
        × (resolve_invocation_actor requester persona capability principals connections
            ≡ ok (
                as_asked requester persona capability principals connections
                  persona.actor_policy.mode d)))
      ⊎ ((persona.actor_policy.mode ≡ invoker_with_service_fallback)
          × IsUnserved requester persona capability principals connections
          × (resolve_invocation_actor requester persona capability principals connections
              ≡ err (other "persona service actor is unavailable")))
unfolding resolve_invocation_actor find_connection
resolve_invocation_actor_prefers_requester requester persona capability principals connections c on
      listed allowed plain ne m h =
    let (d, found) = find_connection_complete connections requester.id capability c m h in
    let (at, fits) = find_sound (is_compatible requester.id capability) connections found in
    elim (by_mode_prefers requester persona capability principals connections
      persona.actor_policy.mode ne found) [
        | inl e ↦ inl (d, at, fits, ground arith)
        | inr (mode, unserved, e) ↦ inr (mode, unserved, ground arith)
      ]
