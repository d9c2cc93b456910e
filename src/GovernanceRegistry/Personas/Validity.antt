-- ===== src/GovernanceRegistry/Personas/Validity.antt =====
-- What a stored persona refers to: its owner, its service principal and its skills.
use crabhelm.GovernanceRegistry.Stores.{Stores, require_principal, audit, Ambient, require_persona}
use crabhelm.GovernanceRegistry.Personas.{
  validate_skills, validate_actor, validate_persona, require_named, create_persona, put_persona,
  has_slug, update_persona,
}
use crabhelm.Governance.Types.{
  PersonaRecord, PrincipalRecord, SkillRecord, PrincipalKind, SkillStatus, iso,
}
use crabhelm.Common.{
  List, String, Option, ◌≡◌, some, Bool, is_empty, All, arith, false, subst, none, ◌∷◌,
  Option-cases, inl, inr, [], not, ◌∙◌,
}
use crabhelm.Effect.{ok, lift}
use crabhelm.Effect.Outcome.{>>=-eq-ok, serialize-ok, throw_unless-eq-ok}
use crabhelm.Governance.Records.Persona.{PersonaInput, create_persona_record, update_persona_record}
use crabhelm.Store.{lookup, register}

-- The references of a persona that `#validatePersona` checks.
pub record IsValid (s : Stores) (p : PersonaRecord) : Type 0 where
  pub service :
      (id : String)
      → p.actor_policy.service_principal_id ≡ some id
      → is_empty id ≡ false
      → (q : PrincipalRecord) × (lookup id s.principals ≡ some q) × (q.kind ≡ PrincipalKind.service)
  pub skills :
      All
        (λ id.
          (r : SkillRecord) × (lookup id s.skills ≡ some r) × (r.status ≡ SkillStatus.approved))
        p.skill_ids

validate_skills-ok :
    (ids : List String) (s t : Stores) (u : Unit {0})
    → validate_skills ids s ≡ (ok u, t)
    → (t ≡ s)
      × All
          (λ id.
            (r : SkillRecord) × (lookup id s.skills ≡ some r) × (r.status ≡ SkillStatus.approved))
          ids
unfolding validate_skills
validate_skills-ok [] s t u e = (ground arith, tt)
validate_skills-ok (id ∷ ids) s t u e = elim (Option-cases (lookup id s.skills)) [
  | inl missing ↦ ground arith
  | inr (r, found) ↦
      let rest : validate_skills ids s ≡ (ok u, t) = ground arith in
      let (same, others) = validate_skills-ok ids s t u rest in
      (same, ((r, found, ground arith), others))
]

validate_actor-ok :
    (service : Option String) (s t : Stores) (u : Unit {0})
    → validate_actor service s ≡ (ok u, t)
    → (t ≡ s)
      × ((id : String)
          → service ≡ some id
          → is_empty id ≡ false
          → (q : PrincipalRecord) × (lookup id s.principals ≡ some q)
            × (q.kind ≡ PrincipalKind.service))
unfolding validate_actor require_principal
validate_actor-ok none s t u e = (ground arith, λ id named. cc)
validate_actor-ok (some i) s t u e = elim (Option-cases (lookup i s.principals)) [
  | inl missing ↦ (ground arith, λ id named full. ground arith)
  | inr (q, found) ↦ (
    ground arith,
    λ id named full.
        let same : i ≡ id = cc in
        (q, subst (λ k. lookup k s.principals ≡ some q) same found, ground arith),
  )
]

pub validate_persona-ok :
    (p : PersonaRecord) (s t : Stores) (u : Unit {0})
    → validate_persona p s ≡ (ok u, t)
    → (t ≡ s) × IsValid s p
unfolding validate_persona
validate_persona-ok p s t u e =
    let (_, v, e1, e2) = >>=-eq-ok (validate_actor p.actor_policy.service_principal_id) _ s e in
    let (same, service) = validate_actor-ok p.actor_policy.service_principal_id s v _ e1 in
    let e3 : validate_skills p.skill_ids s ≡ (ok u, t) =
      subst (λ x. validate_skills p.skill_ids x ≡ (ok u, t)) same e2 in
    let (same', skills) = validate_skills-ok p.skill_ids s t u e3 in
    (same', record { service = service; skills = skills })

require_named-state :
    (owner : Option String) (s t : Stores) (p : PrincipalRecord)
    → require_named owner s ≡ (ok p, t)
    → t ≡ s
unfolding require_named require_principal
require_named-state none s t p e = ground arith
require_named-state (some id) s t p e = ground arith

-- A creation that succeeds returns what `createPersonaRecord` makes of its input and stores it under
-- its id. Its slug was no stored persona's; the service principal, if its policy names one, is
-- registered and a service; its skills are all registered and approved.
pub create_persona-IsValid :
    (tx : Bool) (env : Ambient) (input : PersonaInput) (actor_id : String) (s : Stores)
    (p : PersonaRecord) (t : Stores)
    → create_persona tx env input actor_id s ≡ (ok p, t)
    → IsValid s p
      × (has_slug p.slug s ≡ false)
      × (create_persona_record input env.id (iso env.written) ≡ ok p)
      × (t.personas ≡ register p.id p s.personas)
unfolding create_persona put_persona audit
create_persona-IsValid tx env input actor_id s p t e =
    let e' = serialize-ok tx _ s e in
    let (owner, a, o, e1) = >>=-eq-ok (require_named input.owner_principal_id) _ s e' in
    let sa = require_named-state input.owner_principal_id s a owner o in
    let (made, b, m, e2) =
      >>=-eq-ok (lift (create_persona_record input env.id (iso env.written))) _ a e1 in
    let sb : b ≡ s = ground arith in
    let made_at : create_persona_record input env.id (iso env.written) ≡ ok made = ground arith in
    let free : has_slug made.slug b ≡ false = ground arith in
    let e3 = (throw_unless-eq-ok (not (has_slug made.slug b)) _ _ b e2).1 in
    let (_, c, v, e4) = >>=-eq-ok (validate_persona made) _ b e3 in
    let (sc, valid) = validate_persona-ok made b c _ v in
    let is : made ≡ p = ground arith in
    let after : t.personas ≡ register made.id made c.personas = ground arith in
    let sc' : c ≡ s = sc ∙ sb in
    subst
      (λ q.
        IsValid s q
        × (has_slug q.slug s ≡ false)
        × (create_persona_record input env.id (iso env.written) ≡ ok q)
        × (t.personas ≡ register q.id q s.personas))
      is
      (
        subst (λ x. IsValid x made) sb valid,
        subst (λ x. has_slug made.slug x ≡ false) sb free,
        made_at,
        subst (λ (x : Stores). t.personas ≡ register made.id made x.personas) sc' after,
      )

-- An update that succeeds returns what `updatePersonaRecord` makes of the stored persona and stores it
-- under the same id; the owner is a registered principal, and the service principal and the skills
-- are as for a creation.
pub update_persona-IsValid :
    (tx : Bool) (env : Ambient) (id : String) (input : PersonaInput) (enabled : Option Bool)
    (actor_id : String) (s : Stores) (p : PersonaRecord) (t : Stores)
    → update_persona tx env id input enabled actor_id s ≡ (ok p, t)
    → ((r : PersonaRecord) × (lookup id s.personas ≡ some r)
        × (update_persona_record r input enabled env.id (iso env.written) ≡ ok p))
      × ((o : PrincipalRecord) × (lookup p.owner_principal_id s.principals ≡ some o))
      × IsValid s p
      × (t.personas ≡ register id p s.personas)
unfolding update_persona require_persona require_principal put_persona audit
update_persona-IsValid tx env id input enabled actor_id s p t e =
    let e' = serialize-ok tx _ s e in
    let (r, a, found_at, e1) = >>=-eq-ok (require_persona id) _ s e' in
    let (next, b, m, e2) =
      >>=-eq-ok (lift (update_persona_record r input enabled env.id (iso env.written))) _ a e1 in
    let (owner, c, o, e3) = >>=-eq-ok (require_principal next.owner_principal_id) _ b e2 in
    let (_, d, v, e4) = >>=-eq-ok (validate_persona next) _ c e3 in
    let (sd, valid) = validate_persona-ok next c d _ v in
    let sc : c ≡ s = ground arith in
    let is : next ≡ p = ground arith in
    let known : lookup next.owner_principal_id s.principals ≡ some owner = ground arith in
    let after : t.personas ≡ register id next d.personas = ground arith in
    let sd' : d ≡ s = sd ∙ sc in
    let made : update_persona_record r input enabled env.id (iso env.written) ≡ ok next =
      ground arith in
    subst
      (λ q.
        ((r : PersonaRecord) × (lookup id s.personas ≡ some r)
          × (update_persona_record r input enabled env.id (iso env.written) ≡ ok q))
        × ((o : PrincipalRecord) × (lookup q.owner_principal_id s.principals ≡ some o))
        × IsValid s q
        × (t.personas ≡ register id q s.personas))
      is
      (
        (r, ground arith, made),
        (owner, known),
        subst (λ x. IsValid x next) sc valid,
        subst (λ (x : Stores). t.personas ≡ register id next x.personas) sd' after,
      )
