-- ===== src/Registry/Creation/Targets.antt =====
-- A new claw is deployed where the registry is configured to deploy.
use crabhelm.Common.{
  Option, List, String, Bool, some, ◌≡◌, or_else, Option-cases, inl, none, arith, inr, eq_iff, any,
  false, subst,
}
use crabhelm.Registry.Creation.{
  assert_deployment, create, check_target, DeploymentTarget, Options, target_named, is_taken,
  creating, with_default_deployment,
}
use crabhelm.Registry.{put_claw, audit, Call, Fleet}
use crabhelm.Claw.Types.{DeploymentSpec, ClawRecord}
use crabhelm.Claw.Create.{Setting, CreateInput, create_claw_record}
use crabhelm.Effect.{ok, lift}
use crabhelm.Claw.Create.Shape.{IsNew, create_claw_record-IsNew}
use crabhelm.Store.{values, register}
use crabhelm.Effect.Outcome.{serialize-ok, >>=-eq-ok}

-- The deployment is to a configured target, with its profile and its region.
abbrev pub IsConfigured : Option (List (String × DeploymentTarget)) → DeploymentSpec → Type 0
IsConfigured none d = Unit
IsConfigured (some targets) d =
    (t : DeploymentTarget) × (target_named targets d.target ≡ some t)
    × (d.profile ≡ t.profile)
    × (or_else d.region "" ≡ or_else t.region "")

assert_deployment-IsConfigured :
    (targets : Option (List (String × DeploymentTarget))) (d : DeploymentSpec) (u : Unit {0})
    → assert_deployment targets d ≡ ok u
    → IsConfigured targets d
unfolding assert_deployment check_target
assert_deployment-IsConfigured none d u e = tt
assert_deployment-IsConfigured (some targets) d u e =
    elim (Option-cases (target_named targets d.target)) [
      | inl missing ↦ ground arith
      | inr (t, found) ↦ (
        t,
        found,
        ground (arith, eq_iff d.profile t.profile),
        ground (arith, eq_iff (or_else d.region "") (or_else t.region "")),
      )
    ]

-- A creation that succeeds stores the claw that `createClawRecord` makes of the request, completed with
-- the default deployment, under the claw's id; the claw is new, and deployed to
-- a target that the registry knows, with that target's profile and region, if targets are configured;
-- no stored claw that is not deleted had its slug.
pub create-IsConfigured :
    (tx : Bool) (o : Options) (env : Setting) (call : Call) (input : CreateInput) (actor : String)
    (s : Fleet) (c : ClawRecord) (t : Fleet)
    → create tx o env call input actor s ≡ (ok c, t)
    → (create_claw_record env (with_default_deployment o input) ≡ ok c)
      × IsNew env c
      × IsConfigured o.targets c.desired.deployment
      × (any (is_taken c.desired.slug) (values s.claws) ≡ false)
      × (t.claws ≡ register c.id c s.claws)
unfolding create put_claw audit
create-IsConfigured tx o env call input actor s c t e =
    let e' = serialize-ok tx (creating o env call input actor) s e in
    let (n, a, made, e1) =
      >>=-eq-ok (lift (create_claw_record env (with_default_deployment o input))) _ s e' in
    let (u, b, fits, e2) =
      >>=-eq-ok (lift (assert_deployment o.targets n.desired.deployment)) _ a e1 in
    let made' : create_claw_record env (with_default_deployment o input) ≡ ok n = ground arith in
    let fits' : assert_deployment o.targets n.desired.deployment ≡ ok u = ground arith in
    let at : b ≡ s = ground arith in
    let is : n ≡ c = ground arith in
    let free : any (is_taken n.desired.slug) (values b.claws) ≡ false = ground arith in
    let after : t.claws ≡ register n.id n b.claws = ground arith in
    subst
      (λ c.
        (create_claw_record env (with_default_deployment o input) ≡ ok c)
        × IsNew env c
        × IsConfigured o.targets c.desired.deployment
        × (any (is_taken c.desired.slug) (values s.claws) ≡ false)
        × (t.claws ≡ register c.id c s.claws))
      is
      (
        made',
        create_claw_record-IsNew env (with_default_deployment o input) n made',
        assert_deployment-IsConfigured o.targets n.desired.deployment u fits',
        subst (λ (x : Fleet). any (is_taken n.desired.slug) (values x.claws) ≡ false) at free,
        subst (λ (x : Fleet). t.claws ≡ register n.id n x.claws) at after,
      )
