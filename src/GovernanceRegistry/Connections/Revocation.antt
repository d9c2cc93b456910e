-- ===== src/GovernanceRegistry/Connections/Revocation.antt =====
-- A revoked connection serves nobody.
use crabhelm.GovernanceRegistry.Stores.{Ambient, require_connection, Stores, audit}
use crabhelm.GovernanceRegistry.Connections.{revoke_connection, put_connection}
use crabhelm.Store.{Store, lookup, register, values}
use crabhelm.Common.{Bool, String, ◌≡◌, some, List, ◌+◌, arith, ◌≢◌, eq_iff, subst, sym}
use crabhelm.Governance.Types.{
  OAuthConnectionRecord, PrincipalRecord, PersonaRecord, CapabilityDefinition, ConnectionStatus,
  iso, active,
}
use crabhelm.Store.Laws.{IsKeyed, lookup-register, register-IsKeyed, In-lookup}
use crabhelm.Effect.{ok}
use crabhelm.Effect.Outcome.{serialize-ok, >>=-eq-ok}
use crabhelm.Governance.Actor.{ResolvedActor, resolve_invocation_actor}
use crabhelm.Governance.Actor.Soundness.{resolve_invocation_actor_sound}

-- What a revocation that succeeds tells.
pub record IsRevocation (env : Ambient) (id : String) (s : Stores) (c : OAuthConnectionRecord)
    (t : Stores) : Type 0 where
  pub current : OAuthConnectionRecord
  pub before : lookup id s.connections ≡ some current
  pub made : c ≡ record current {
    revision = current.revision + 1;
    status = ConnectionStatus.revoked;
    updated_at = iso env.written;
  }
  pub after : t.connections ≡ register id c s.connections

pub revoke_connection-IsRevocation :
    (tx : Bool) (env : Ambient) (id actor_id : String) (s : Stores) (c : OAuthConnectionRecord)
    (t : Stores)
    → revoke_connection tx env id actor_id s ≡ (ok c, t)
    → IsRevocation env id s c t
unfolding revoke_connection require_connection put_connection audit
revoke_connection-IsRevocation tx env id actor_id s c t e =
    let e' = serialize-ok tx _ s e in
    let (current, u, found_at, e1) = >>=-eq-ok (require_connection id) _ s e' in
    let same : u ≡ s = ground arith in
    record { current = current; before = ground arith; made = ground arith; after = ground arith }

-- Every connection is stored under its own id.
abbrev pub AreIdentified : Store OAuthConnectionRecord → Type 0
AreIdentified cs =
    IsKeyed cs × ((k : String) (c : OAuthConnectionRecord) → lookup k cs ≡ some c → c.id ≡ k)

-- Where every connection is stored once, under its own id: after a revocation that succeeds, no
-- resolution of an actor over the registry's connections rests on the revoked connection, for any
-- requester, persona, capability and principals.
pub revoke_connection_serves_nobody :
    (tx : Bool) (env : Ambient) (id actor_id : String) (s : Stores) (c : OAuthConnectionRecord)
    (t : Stores) (requester : PrincipalRecord) (persona : PersonaRecord)
    (capability : CapabilityDefinition) (principals : List PrincipalRecord) (r : ResolvedActor)
    → AreIdentified s.connections
    → revoke_connection tx env id actor_id s ≡ (ok c, t)
    → resolve_invocation_actor requester persona capability principals (values t.connections) ≡ ok r
    → r.connection.id ≢ id
revoke_connection_serves_nobody tx env id actor_id s c t requester persona capability principals r
      stored e resolved =
    let done = revoke_connection-IsRevocation tx env id actor_id s c t e in
    let (_, _, _, _, entitled) =
      resolve_invocation_actor_sound requester persona capability principals (values t.connections)
        r resolved in
    let keyed : IsKeyed t.connections =
      subst IsKeyed (sym done.after) (register-IsKeyed id c s.connections stored.0) in
    let (k, at) = In-lookup t.connections keyed entitled.granted.listed in
    not_revoked done k at entitled.granted.live
  where
    not_revoked :
        IsRevocation env id s c t
        → (k : String) → lookup k t.connections ≡ some r.connection
        → r.connection.status ≡ active
        → r.connection.id ≢ id
    not_revoked done k at live named =
        let law = lookup-register id k c s.connections in
        let held = stored.1 k r.connection in
        let gone : c.status ≡ ConnectionStatus.revoked = ground (arith, done.made) in
        ground (arith, done.after, eq_iff id k)
