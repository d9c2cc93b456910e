-- ===== src/GovernanceRegistry/Skills.antt =====
-- Skills: `approveSkill` (src/governance-registry.ts).
use crabhelm.GovernanceRegistry.Types.{AuditOutcome}
use crabhelm.Common.{String, Bool, ◌≡◌, some, ◌<>◌, arith}
use crabhelm.GovernanceRegistry.Stores.{Ambient, Stores, found, audit, blank}
use crabhelm.Governance.Types.{SkillRecord, SkillStatus, iso}
use crabhelm.Effect.{M, write, serialize, ◌>>=◌, ◌>>◌, lift, ok, pure}
use crabhelm.Store.{register, lookup}
use crabhelm.Governance.Skills.{approve_skill_record}
use crabhelm.Effect.Outcome.{serialize-ok, >>=-eq-ok}
use crabhelm.Governance.Skills.Delivery.{approve_skill_record_lem}
use crabhelm.Store.Laws.{lookup-register_self}

unfoldable pub put_skill : String → SkillRecord → M Stores (Unit {0})
put_skill id r = write λ s. record s { skills = register id r s.skills }

unfoldable pub require_skill : String → M Stores SkillRecord
require_skill id s = (found (lookup id s.skills) "skill not found", s)

unfoldable pub approving_skill : Ambient → String → String → M Stores SkillRecord
approving_skill env id actor_id = do
  current ← require_skill id
  skill ← lift (approve_skill_record current (some actor_id) (iso env.written))
  put_skill id skill
  audit env
      (record (blank "skill.approve" ("Approved skill " <> skill.name) AuditOutcome.succeeded) {
        requester_id = some actor_id;
        actor_id = some actor_id;
      })
  pure skill

unfoldable pub approve_skill : Bool → Ambient → String → String → M Stores SkillRecord
unfolding approving_skill
approve_skill tx env id actor_id = serialize tx (approving_skill env id actor_id)

-- What an approval that succeeds tells.
pub approve_skill_sound :
    (tx : Bool) (env : Ambient) (id actor_id : String) (s : Stores) (r : SkillRecord) (t : Stores)
    → approve_skill tx env id actor_id s ≡ (ok r, t)
    → (r.status ≡ SkillStatus.approved) × (lookup id t.skills ≡ some r) × (t.personas ≡ s.personas)
unfolding approve_skill require_skill put_skill audit
approve_skill_sound tx env id actor_id s r t e =
    let e' = serialize-ok tx _ s e in
    let (current, u, found_at, e1) = >>=-eq-ok (require_skill id) _ s e' in
    let same : u ≡ s = ground arith in
    let (r', v, made, e2) =
      >>=-eq-ok (lift (approve_skill_record current (some actor_id) (iso env.written))) _ u e1 in
    let made' : approve_skill_record current (some actor_id) (iso env.written) ≡ ok r' =
      ground arith in
    let kept : v ≡ u = ground arith in
    let is : r' ≡ r = ground arith in
    let after : t.skills ≡ register id r' v.skills = ground arith in
    (
      ground (arith, approve_skill_record_lem current (some actor_id) (iso env.written) r'),
      ground (arith, after, lookup-register_self id r' v.skills),
      ground arith,
    )
