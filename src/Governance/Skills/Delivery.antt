-- ===== src/Governance/Skills/Delivery.antt =====
-- Only approved skills reach a claw.
use crabhelm.Governance.Records.Parts.{map_each}
use crabhelm.Claw.Types.{ObservabilityPolicy}
use crabhelm.Governance.Types.{
  SkillRecord, approved, PrincipalRecord, PersonaRecord, Timestamp, draft,
}
use crabhelm.Common.{
  List, String, Option, In, find, ◌≡◌, str_eq, true, Option-cases, map, ◌⊎◌, inl, All, arith, ◌∷◌,
  ◌+◌, inr, ◌≢◌, find_sound, none, eq_iff, refl, [],
}
use crabhelm.Governance.Skills.{
  deliver, build_managed_agent_spec, approve_skill_record, approve_by_status, ManagedSkill,
  ManagedAgentSpec, is_eligible,
}
use crabhelm.Effect.{ok-injective, bind_result-eq-ok, ok}
use crabhelm.Governance.Records.Shape.{map_each-All}

-- A skill that is delivered is one of the registered skills, approved, and open to one of the
-- owner's departments or to all.
abbrev pub IsDelivered : List SkillRecord → PrincipalRecord → ManagedSkill → Type 0
IsDelivered skills owner m =
    (s : SkillRecord) × In s skills
    × (s.id ≡ m.id)
    × (s.status ≡ approved)
    × (is_eligible s owner ≡ true)
    × (s.digest ≡ m.digest)
    × (s.files ≡ m.files)

deliver_sound :
    (owner : PrincipalRecord) (skills : List SkillRecord) (id : String) (m : ManagedSkill)
    → deliver owner (find (λ item. str_eq item.id id) skills) id ≡ ok m
    → IsDelivered skills owner m
unfolding deliver
deliver_sound owner skills id m e = elim (Option-cases (find (λ item. str_eq item.id id) skills)) [
  | inl missing ↦ ground arith
  | inr (s, found) ↦
      let (listed, h) = find_sound (λ item. str_eq item.id id) skills found in
      (s, listed, ground arith, ground arith, ground arith, ground arith, ground arith)
]

deliver-id :
    (owner : PrincipalRecord) (skills : List SkillRecord) (id : String) (m : ManagedSkill)
    → deliver owner (find (λ item. str_eq item.id id) skills) id ≡ ok m
    → m.id ≡ id
unfolding deliver
deliver-id owner skills id m e = elim (Option-cases (find (λ item. str_eq item.id id) skills)) [
  | inl missing ↦ ground arith
  | inr (s, found) ↦
      let (listed, h) = find_sound (λ item. str_eq item.id id) skills found in
      ground (arith, eq_iff s.id id)
]

map_each-ids :
    (owner : PrincipalRecord) (skills : List SkillRecord) (ids : List String)
    (ms : List ManagedSkill)
    → map_each (λ id. deliver owner (find (λ item. str_eq item.id id) skills) id) ids ≡ ok ms
    → map (λ (m : ManagedSkill). m.id) ms ≡ ids
unfolding map_each
map_each-ids owner skills [] ms e = rw (← ok-injective e)
map_each-ids owner skills (id ∷ ids) ms e =
    let (m, em, e') =
      bind_result-eq-ok (deliver owner (find (λ item. str_eq item.id id) skills) id) _ e in
    let (rest, er, e'') =
      bind_result-eq-ok
        (map_each (λ id. deliver owner (find (λ item. str_eq item.id id) skills) id) ids) _ e' in
    let ih = map_each-ids owner skills ids rest er in
    let head = deliver-id owner skills id m em in rw (← ok-injective e'') (rw (head, ih))

-- A managed specification holds exactly the skills that the persona lists, in their order, and each
-- is a registered skill, approved and open to the owner, delivered with its digest and its files.
pub build_managed_agent_spec_sound :
    (persona : PersonaRecord) (owner : PrincipalRecord) (skills : List SkillRecord)
    (observability : ObservabilityPolicy) (now : Timestamp) (spec : ManagedAgentSpec)
    → build_managed_agent_spec persona owner skills observability now ≡ ok spec
    → (map (λ (m : ManagedSkill). m.id) spec.skills ≡ persona.skill_ids)
      × All (IsDelivered skills owner) spec.skills
      × (spec.policy_revision ≡ persona.revision)
unfolding build_managed_agent_spec
build_managed_agent_spec_sound persona owner skills observability now spec e =
    let (ms, em, e') =
      bind_result-eq-ok
        (map_each (λ id. deliver owner (find (λ item. str_eq item.id id) skills) id)
          persona.skill_ids)
        _ e in
    let (all, _) =
      map_each-All (IsDelivered skills owner)
        (λ id. deliver owner (find (λ item. str_eq item.id id) skills) id)
        (deliver_sound owner skills) persona.skill_ids ms em in
    rw (← ok-injective e') (map_each-ids owner skills persona.skill_ids ms em, all, refl)

-- Approval makes a draft approved and nothing else: a skill that an approval returns is approved; it
-- is the record itself if that was approved before, and else the next revision of a draft, with its
-- digest and its files unchanged; a revoked skill is refused.
pub approve_skill_record_lem :
    (r : SkillRecord) (by : Option String) (now : Timestamp) (s : SkillRecord)
    → approve_skill_record r by now ≡ ok s
    → (s.status ≡ approved)
      × (s.digest ≡ r.digest)
      × (s.files ≡ r.files)
      × (((r.status ≡ approved) × (s ≡ r))
          ⊎ ((r.status ≡ draft) × (s.revision ≡ r.revision + 1) × (s.approved_by ≢ none)))
unfolding approve_skill_record approve_by_status
approve_skill_record_lem r by now s e = (ground arith, ground arith, ground arith, ground arith)
