-- ===== src/Registry/Creation.antt =====
-- New claws in the registry: `create`, `#withDefaultDeployment` and `#assertDeployment`
-- (src/registry.ts).
pub mod Slugs
pub mod Targets
mod Tests
use crabhelm.Common.{
  String, Option, List, Bool, none, some, or_else, str_eq, if◌then◌else◌, [], ◌∷◌, is_empty, ◌&&◌,
  not, ◌<>◌, any,
}
use crabhelm.Claw.Create.{CreateInput, Setting, DeploymentInput, create_claw_record}
use crabhelm.Claw.Types.{DeploymentSpec, ClawRecord}
use crabhelm.Registry.{Call, Fleet, put_claw, audit, requested_event}
use crabhelm.Effect.{
  Result, M, err, ok, serialize, ◌>>=◌, ◌>>◌, lift, bind_result, require_true, read, throw_unless,
  pure,
}
use crabhelm.Errors.{request}
use crabhelm.Claw.Fleet.{is_gone}
use crabhelm.Store.{values}

pub record DeploymentTarget : Type 0 where
  pub profile : String
  pub region : Option String

pub record DefaultDeployment : Type 0 where
  pub target : String
  pub profile : String
  pub region : Option String

-- The options of the registry that `create` reads.
pub record Options : Type 0 where
  pub targets : Option (List (String × DeploymentTarget))
  pub default_deployment : Option DefaultDeployment

unfoldable pub target_named : List (String × DeploymentTarget) → String → Option DeploymentTarget
target_named [] name = none
target_named ((k, t) ∷ rest) name = if str_eq k name then some t else target_named rest name

abbrev pub configured : Option (List (String × DeploymentTarget)) → String → Option DeploymentTarget
configured none name = none
configured (some targets) name = target_named targets name

abbrev profile_of : Option DeploymentTarget → Option String
profile_of none = none
profile_of (some t) = some t.profile

abbrev region_of : Option DeploymentTarget → Option String
region_of none = none
region_of (some t) = t.region

-- `a ?? b`, where the result may be `undefined`.
abbrev pub given_or {ℓ} : {A : Type ℓ} → Option A → Option A → Option A
given_or none b = b
given_or (some a) b = some a

-- A region that is neither `undefined` nor the empty text.
abbrev truthy_region : Option String → Option String
truthy_region none = none
truthy_region (some r) = if is_empty r then none else some r

unfoldable pub completed_deployment :
    Option (List (String × DeploymentTarget))
    → DefaultDeployment
    → DeploymentInput
    → DeploymentInput
completed_deployment targets d input =
    let target = or_else input.target d.target in
    let known = configured targets target in
    record {
      target = some target;
      profile = given_or input.profile (given_or (profile_of known) (some d.profile));
      region = truthy_region (given_or input.region (given_or (region_of known) d.region));
      appliance = input.appliance;
    }

abbrev pub defaulted :
    Option (List (String × DeploymentTarget))
    → Option DefaultDeployment
    → DeploymentInput
    → DeploymentInput
defaulted targets none input = input
defaulted targets (some d) input = completed_deployment targets d input

unfoldable pub with_default_deployment : Options → CreateInput → CreateInput
with_default_deployment o input = record input {
  deployment = defaulted o.targets o.default_deployment input.deployment;
}

unfoldable pub check_target : Option DeploymentTarget → DeploymentSpec → Result (Unit {0})
check_target none d = err (request ("deployment target " <> d.target <> " is not configured"))
check_target (some t) d =
    bind_result
      (require_true (str_eq d.profile t.profile)
        (request ("deployment profile for " <> d.target <> " must be " <> t.profile)))
      λ _.
        require_true (str_eq (or_else d.region "") (or_else t.region "")) (
          request ("deployment region for " <> d.target <> " must be " <> or_else t.region "unset"))

unfoldable pub assert_deployment :
    Option (List (String × DeploymentTarget)) → DeploymentSpec → Result (Unit {0})
assert_deployment none d = ok tt
assert_deployment (some targets) d = check_target (target_named targets d.target) d

-- A stored claw that is not deleted has the slug.
abbrev pub is_taken : String → ClawRecord → Bool
is_taken slug r = str_eq r.desired.slug slug && not (is_gone r.observed.phase)

-- The operation that `create` serializes.
unfoldable pub creating : Options → Setting → Call → CreateInput → String → M Fleet ClawRecord
creating o env call input actor = do
  next ← lift (create_claw_record env (with_default_deployment o input))
  fits ← lift (assert_deployment o.targets next.desired.deployment)
  duplicate ← read λ s. any (is_taken next.desired.slug) (values s.claws)
  throw_unless (not duplicate)
      (request ("a claw with slug " <> next.desired.slug <> " already exists"))
  put_claw next.id next
  audit call next.id (requested_event actor "claw.create" ("Requested " <> next.desired.name) next)
  pure next

unfoldable pub create : Bool → Options → Setting → Call → CreateInput → String → M Fleet ClawRecord
unfolding creating
create tx o env call input actor = serialize tx (creating o env call input actor)
