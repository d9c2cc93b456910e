-- ===== src/GovernanceRegistry/Personas/Forms.antt =====
-- Every stored persona is well formed.
use crabhelm.Common.{refl, Option-cases}
use crabhelm.Store.{Store, lookup, register}
use crabhelm.Common.{
  String, List, ◌≡◌, Option, some, ◌∷◌, arith, Bool-cases, none, eq_iff, inl, Bool, str_eq, inr,
  subst, [], ◌∙◌, not,
}
use crabhelm.Effect.{Result, lift, throw_unless}
use crabhelm.GovernanceRegistry.Personas.{
  validate_skills, validate_persona, require_named, validate_actor, creating_persona,
  updating_persona, bootstrap, put_persona, is_approved_skill, own_persona_input, has_slug, own,
  ensuring_persona, create_persona, update_persona, ensure_persona_for_claw, own_principal_input,
  persona_for,
}
use crabhelm.GovernanceRegistry.Stores.{Ambient, Stores, require_principal, require_persona, audit}
use crabhelm.Governance.Types.{PersonaRecord, PrincipalRecord, iso}
use crabhelm.Governance.Records.Shape.{IsWellFormed, create_persona_record-IsWellFormed}
use crabhelm.Governance.Records.Persona.{PersonaInput, create_persona_record, update_persona_record}
use crabhelm.Claw.Types.{ClawRecord}
use crabhelm.Store.Laws.{lookup-register}
use crabhelm.Effect.Outcome.{>>=-observes, >>=-keeps, serialize_keeps}
use crabhelm.Governance.Records.Revision.{update_persona_record_sound}
use crabhelm.Errors.{other}
use crabhelm.GovernanceRegistry.Principals.{ensure_system, put_principal, principal_by_subject}
use crabhelm.Governance.Records.Principal.{create_principal_record, system_operator_principal_id}

-- Each persona is stored once, under its own id, and is well formed.
pub record AreWellFormed (ps : Store PersonaRecord) : Type 0 where
  pub identified : (k : String) (p : PersonaRecord) → lookup k ps ≡ some p → p.id ≡ k
  pub formed : (k : String) (p : PersonaRecord) → lookup k ps ≡ some p → IsWellFormed p

register-AreWellFormed :
    (id : String) (p : PersonaRecord) (ps : Store PersonaRecord)
    → p.id ≡ id
    → IsWellFormed p
    → AreWellFormed ps
    → AreWellFormed (register id p ps)
register-AreWellFormed id p ps own formed h = record {
  identified = λ k q e. ground (arith, lookup-register id k p ps, eq_iff id k, h.identified k q);
  formed = λ k q e. elim (Bool-cases (str_eq id k)) [
    | inl hit ↦
        let same : p ≡ q = ground (arith, lookup-register id k p ps) in
        subst IsWellFormed same formed
    | inr miss ↦ h.formed k q (ground (arith, lookup-register id k p ps))
  ];
}

-- What an outcome leaves of the personas.
abbrev Q : {A : Type 0} → Result A × Stores → Type 0
Q r = AreWellFormed r.1.personas

validate_skills-state : (ids : List String) (s : Stores) → (validate_skills ids s).1 ≡ s
unfolding validate_skills
validate_skills-state [] s = refl
validate_skills-state (id ∷ ids) s = elim (Bool-cases (is_approved_skill (lookup id s.skills))) [
  | inl good ↦ ground (arith, validate_skills-state ids s)
  | inr bad ↦ ground arith
]

validate_persona-state : (p : PersonaRecord) (s : Stores) → (validate_persona p s).1 ≡ s
unfolding validate_persona validate_actor require_principal
validate_persona-state p s = ground (arith, validate_skills-state p.skill_ids s)

require_named-state : (owner : Option String) (s : Stores) → (require_named owner s).1 ≡ s
unfolding require_named require_principal
require_named-state none s = refl
require_named-state (some id) s = refl

module _ (env : Ambient) (s : Stores) (h : AreWellFormed s.personas) where
  creating_persona-AreWellFormed :
      (input : PersonaInput) (actor_id : String) → Q (creating_persona env input actor_id s)
  unfolding creating_persona put_persona audit
  creating_persona-AreWellFormed input actor_id =
      >>=-observes Q (require_named input.owner_principal_id) _ s
        (require_named-state input.owner_principal_id s)
        (λ owner _.
          >>=-observes Q (lift (create_persona_record input env.id (iso env.written))) _ s refl
            (λ p made.
              let (shape, own, _, _) =
                create_persona_record-IsWellFormed input env.id (iso env.written) p
                  (ground arith) in
              >>=-observes Q
                (throw_unless (not (has_slug p.slug s)) (other "persona slug already exists")) _ s
                refl
                (λ _ _.
                  >>=-observes Q (validate_persona p) _ s (validate_persona-state p s)
                    (λ _ _. register-AreWellFormed p.id p s.personas refl shape h) (λ _. h))
                (λ _. h))
            (λ _. h))
        (λ _. h)

  updating_persona-AreWellFormed :
      (id : String) (input : PersonaInput) (enabled : Option Bool) (actor_id : String)
      → Q (updating_persona env id input enabled actor_id s)
  unfolding updating_persona require_persona require_principal put_persona audit
  updating_persona-AreWellFormed id input enabled actor_id =
      >>=-observes Q (require_persona id) _ s refl
        (λ r found_at.
          >>=-observes Q (lift (update_persona_record r input enabled env.id (iso env.written))) _ s
            refl
            (λ p made.
              let at : lookup id s.personas ≡ some r = ground arith in
              let (shape, same, _, _) =
                update_persona_record_sound r input enabled env.id (iso env.written) p
                  (h.formed id r at) (ground arith) in
              >>=-observes Q (require_principal p.owner_principal_id) _ s refl
                (λ _ _.
                  >>=-observes Q (validate_persona p) _ s (validate_persona-state p s)
                    (λ _ _.
                      register-AreWellFormed id p s.personas (same ∙ h.identified id r at) shape h)
                    (λ _. h))
                (λ _. h))
            (λ _. h))
        (λ _. h)

  bootstrap-AreWellFormed :
      (existing : Option PersonaRecord) (claw : ClawRecord) (owner : PrincipalRecord)
      → Q (bootstrap existing claw owner env s)
  unfolding bootstrap put_persona audit
  bootstrap-AreWellFormed (some p) claw owner = h
  bootstrap-AreWellFormed none claw owner =
      >>=-observes Q
        (lift (create_persona_record (own_persona_input claw owner) env.id (iso env.written))) _ s
        refl
        (λ p made.
          let (shape, _, _, _) =
            create_persona_record-IsWellFormed (own_persona_input claw owner) env.id
              (iso env.written) p (ground arith) in
          register-AreWellFormed p.id p s.personas refl shape h)
        (λ _. h)

  -- The steps of `ensurePersonaForClaw` before the persona write principals only.
  own-AreWellFormed :
      (known : Option PrincipalRecord) (claw : ClawRecord) → Q (own known claw env s)
  unfolding own put_principal
  own-AreWellFormed (some p) claw = h
  own-AreWellFormed none claw =
      >>=-observes Q
        (lift (create_principal_record (own_principal_input claw) env.owner_id (iso env.written))) _
        s refl (λ p _. record { identified = h.identified; formed = h.formed }) (λ _. h)

  ensure_system-AreWellFormed : Q (ensure_system env s)
  unfolding ensure_system put_principal
  ensure_system-AreWellFormed =
      elim (Option-cases (lookup system_operator_principal_id s.principals)) [
        | inl missing ↦ rw missing (record { identified = h.identified; formed = h.formed })
        | inr (p, found) ↦ rw found h
      ]

ensuring_persona-AreWellFormed :
    (env : Ambient) (claw : ClawRecord) (s : Stores)
    → AreWellFormed s.personas
    → Q (ensuring_persona env claw s)
unfolding ensuring_persona
ensuring_persona-AreWellFormed env claw s h =
    >>=-keeps (λ (t : Stores). AreWellFormed t.personas) (ensure_system env) _ s
      (ensure_system-AreWellFormed env s h)
      λ operator t ht.
        >>=-keeps (λ (t : Stores). AreWellFormed t.personas)
          (own (principal_by_subject claw.desired.owner.subject t) claw env) _ t
          (own-AreWellFormed env t ht (principal_by_subject claw.desired.owner.subject t) claw)
          λ owner u hu. bootstrap-AreWellFormed env u hu (persona_for claw.id u) claw owner

-- Where every persona is stored under its own id and is well formed, that holds after any creation,
-- any update, and any call that provides a claw with its own persona, whether they succeed or fail,
-- with or without a transaction.
pub personas_stay_well_formed :
    (tx : Bool) (env : Ambient) (id : String) (input : PersonaInput) (enabled : Option Bool)
    (actor_id : String) (claw : ClawRecord) (s : Stores)
    → AreWellFormed s.personas
    → AreWellFormed (create_persona tx env input actor_id s).1.personas
      × AreWellFormed (update_persona tx env id input enabled actor_id s).1.personas
      × AreWellFormed (ensure_persona_for_claw tx env claw s).1.personas
unfolding create_persona update_persona ensure_persona_for_claw
personas_stay_well_formed tx env id input enabled actor_id claw s h = (
  serialize_keeps (λ (t : Stores). AreWellFormed t.personas) tx
      (creating_persona env input actor_id) s h
      (creating_persona-AreWellFormed env s h input actor_id),
  serialize_keeps (λ (t : Stores). AreWellFormed t.personas) tx
      (updating_persona env id input enabled actor_id) s h
      (updating_persona-AreWellFormed env s h id input enabled actor_id),
  serialize_keeps (λ (t : Stores). AreWellFormed t.personas) tx (ensuring_persona env claw) s h
      (ensuring_persona-AreWellFormed env claw s h),
)
