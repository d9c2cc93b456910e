-- ===== src/Claw/Models/Allowlist.antt =====
-- A claw's models stay within what its fleet allows.
use crabhelm.Common.{
  String, Bool, List, ◌≡◌, ◌≢◌, all, not, true, ◌∷◌, str_in, str_eq, ◌&&◌, map, Bool-cases, arith,
  sym, All, inl, ◌∙◌, eq_iff, [], subst, inr, refl, ◌<>◌, some, or_else, ap, Option, eq_refl,
}
use crabhelm.Claw.Models.{
  distinct, insert, sort, ClawRouterFleetPolicy, route, provided, providers_of, without,
  credential_id, check_models, normalize_models, is_model, InferenceInput, is_routed_model,
  default_of, check_provider, budget_of, routed_by,
}
use crabhelm.Claw.Types.{InferenceRouter, InferencePolicy, clawrouter}
use crabhelm.Effect.{ok, Result-cases, bind_result-eq-ok, ok-injective}
use crabhelm.Claw.Policies.{optional_text_field, require_text}

all-without :
    (p : String → Bool) (s : String) (xs : List String)
    → p s ≡ true
    → all p (without s xs) ≡ all p xs
all-without p s [] h = refl
all-without p s (x ∷ xs) h = elim (Bool-cases (str_eq x s)) [
  | inl same ↦
      let e : x ≡ s = (eq_iff x s).0 same in
      let q : p x ≡ true = subst (λ y. p y ≡ true) (sym e) h in ground (arith, all-without p s xs h)
  | inr other ↦ ground (arith, all-without p s xs h)
]

all-distinct : (p : String → Bool) (xs : List String) → all p (distinct xs) ≡ all p xs
unfolding distinct
all-distinct p [] = refl
all-distinct p (x ∷ xs) = elim (Bool-cases (p x)) [
  | inl h ↦ ground (arith, all-without p x (distinct xs) h, all-distinct p xs)
  | inr h ↦ ground arith
]

all-insert :
    (p : String → Bool) (x : String) (xs : List String) → all p (insert x xs) ≡ (p x && all p xs)
unfolding insert
all-insert p x [] = refl
all-insert p x (y ∷ ys) = ground (arith, all-insert p x ys)

all-sort : (p : String → Bool) (xs : List String) → all p (sort xs) ≡ all p xs
unfolding sort
all-sort p [] = refl
all-sort p (x ∷ xs) = ground (arith, all-insert p x (sort xs), all-sort p xs)

str_in-all : (s : String) (xs : List String) → not (str_in s xs) ≡ all (λ x. not (str_eq x s)) xs
str_in-all s [] = refl
str_in-all s (x ∷ xs) = ground (arith, str_in-all s xs)

all-providers :
    (p : String → Bool) (xs : List String) → all p (sort (distinct xs)) ≡ true → all p xs ≡ true
all-providers p xs h = sym (all-distinct p xs) ∙ sym (all-sort p (distinct xs)) ∙ h

-- The provider that the fleet maps a model to is there, and allowed.
abbrev pub IsAllowed : ClawRouterFleetPolicy → String → Type 0
IsAllowed fleet m =
    (provided fleet.model_providers m ≢ "")
    × (str_in (provided fleet.model_providers m) fleet.allowed_providers ≡ true)

mapped-IsAllowed :
    (fleet : ClawRouterFleetPolicy) (models : List String)
    → all (λ x. not (str_eq x "")) (map (provided fleet.model_providers) models) ≡ true
    → all (λ p. str_in p fleet.allowed_providers) (map (provided fleet.model_providers) models)
      ≡ true
    → All (IsAllowed fleet) models
mapped-IsAllowed fleet [] there_ allowed = tt
mapped-IsAllowed fleet (m ∷ ms) there_ allowed = (
  (
    λ empty. let hit = (eq_iff (provided fleet.model_providers m) "").1 empty in ground arith,
    ground arith,
  ),
  mapped-IsAllowed fleet ms (ground arith) (ground arith),
)

route-IsAllowed :
    (by_locale : List (String × String) → List (String × String)) (fleet : ClawRouterFleetPolicy)
    (claw_id : String) (models : List String) (made : InferenceRouter × String)
    → route by_locale fleet claw_id models ≡ ok made
    → All (IsAllowed fleet) models
unfolding route providers_of
route-IsAllowed by_locale fleet claw_id models made e =
    let names = map (provided fleet.model_providers) models in
    let named : not (str_in "" (sort (distinct names))) ≡ true = ground arith in
    let kept : all (λ p. str_in p fleet.allowed_providers) (sort (distinct names)) ≡ true =
      ground arith in
    let present : all (λ x. not (str_eq x "")) (sort (distinct names)) ≡ true =
      sym (str_in-all "" (sort (distinct names))) ∙ named in
    mapped-IsAllowed fleet models (all-providers (λ x. not (str_eq x "")) names present)
      (all-providers (λ p. str_in p fleet.allowed_providers) names kept)

-- The router of a fleet for a claw: to the fleet's address and tenant, with this credential and this
-- claw's id, for the providers that the fleet allows and the models' own.
pub record IsRouter (by_locale : List (String × String) → List (String × String))
    (fleet : ClawRouterFleetPolicy) (claw_id credential : String) (models : List String)
    (r : InferenceRouter) : Type 0 where
  pub providers : List String
  pub is :
      r
      ≡ clawrouter fleet.base_url fleet.tenant_id credential credential claw_id
          fleet.allowed_providers
          (by_locale fleet.model_providers)
          providers
  pub served : All (λ m. str_in (provided fleet.model_providers m) providers ≡ true) models

str_in-sorted : (s : String) (xs : List String) → str_in s (sort (distinct xs)) ≡ str_in s xs
str_in-sorted s xs =
    let same : not (str_in s (sort (distinct xs))) ≡ not (str_in s xs) =
      str_in-all s (sort (distinct xs))
      ∙ all-sort (λ x. not (str_eq x s)) (distinct xs)
      ∙ all-distinct (λ x. not (str_eq x s)) xs
      ∙ sym (str_in-all s xs) in
    ground arith

served_by :
    (f : String → String) (xs ms : List String)
    → ((s : String) → str_in s (map f ms) ≡ true → str_in s xs ≡ true)
    → All (λ m. str_in (f m) xs ≡ true) ms
served_by f xs [] h = tt
served_by f xs (m ∷ ms) h =
    (h (f m) (ground (arith, eq_refl (f m))), served_by f xs ms (λ s q. h s (ground arith)))

route-IsRouter :
    (by_locale : List (String × String) → List (String × String)) (fleet : ClawRouterFleetPolicy)
    (claw_id : String) (models : List String) (made : InferenceRouter × String)
    → route by_locale fleet claw_id models ≡ ok made
    → (credential : String) × (credential_id claw_id ≡ ok credential)
      × IsRouter by_locale fleet claw_id credential models made.0
      × (made.1 ≡ "clawrouter:" <> credential)
unfolding route providers_of
route-IsRouter by_locale fleet claw_id models made e = elim (Result-cases (credential_id claw_id)) [
  | inl (credential, known) ↦
      let providers = sort (distinct (map (provided fleet.model_providers) models)) in
      let is_router : IsRouter by_locale fleet claw_id credential models made.0 = record {
        providers = providers;
        is = ground arith;
        served =
            served_by (provided fleet.model_providers) providers models
              (λ s q. str_in-sorted s (map (provided fleet.model_providers) models) ∙ q);
      } in
      (credential, known, is_router, ground arith)
  | inr (x, refused) ↦ ground arith
]

check_models-All :
    (routed : Bool) (models : List String) (u : Unit {0})
    → check_models routed models ≡ ok u
    → All (λ m. is_model routed m ≡ true) models
unfolding check_models
check_models-All routed [] u e = tt
check_models-All routed (m ∷ ms) u e = (ground arith, check_models-All routed ms u (ground arith))

-- Where a fleet routes its models, every model of an accepted inference policy, the fallbacks
-- included, has the form `clawrouter/provider/model` and is one that the fleet maps to a provider
-- that it allows, whatever order the mapping is kept in. The policy's router is the fleet's, with the claw's
-- own credential and the provider of every model, and the policy refers to that same credential.
pub normalize_models-IsAllowed :
    (by_locale : List (String × String) → List (String × String)) (input : InferenceInput)
    (claw_id : String) (fleet : ClawRouterFleetPolicy) (allow_template : Bool) (p : InferencePolicy)
    → normalize_models by_locale input claw_id (some fleet) allow_template ≡ ok p
    → All (IsAllowed fleet) (p.model ∷ p.fallback_models)
      × All (λ m. is_routed_model m ≡ true) (p.model ∷ p.fallback_models)
      × ((credential : String) × (credential_id claw_id ≡ ok credential)
          × IsRouter by_locale fleet claw_id credential (p.model ∷ p.fallback_models) p.router
          × (p.auth_ref ≡ some ("clawrouter:" <> credential)))
unfolding normalize_models is_model
normalize_models-IsAllowed by_locale input claw_id fleet allow_template p e =
    let (model, _, e1) =
      bind_result-eq-ok
        (require_text (some (or_else input.model (default_of (some fleet)))) "inference model" 220)
        _ e in
    let models : List String = model ∷ distinct (or_else input.fallback_models []) in
    let (u, formed, e2) = bind_result-eq-ok (check_models true models) _ e1 in
    let (_, _, e3) = bind_result-eq-ok (check_provider input.provider model) _ e2 in
    let (_, _, e4) = bind_result-eq-ok (budget_of input.monthly_budget_usd) _ e3 in
    let (auth, _, e5) =
      bind_result-eq-ok (optional_text_field input.auth_ref "inference auth ref" 240) _ e4 in
    let (made, routed, e6) =
      bind_result-eq-ok (routed_by by_locale (some fleet) claw_id models auth) _ e5 in
    let (r, at, e7) = bind_result-eq-ok (route by_locale fleet claw_id models) _ routed in
    let (credential, known, is_router, named) =
      route-IsRouter by_locale fleet claw_id models r at in
    let is_made : IsRouter by_locale fleet claw_id credential models made.0 =
      subst (IsRouter by_locale fleet claw_id credential models)
        (ap (λ (x : InferenceRouter × Option String). x.0) (ok-injective e7)) is_router in
    let reference : made.1 ≡ some ("clawrouter:" <> credential) =
      sym (ap (λ (x : InferenceRouter × Option String). x.1) (ok-injective e7)) ∙ ap some named in
    subst
      (λ (p : InferencePolicy).
        All (IsAllowed fleet) (p.model ∷ p.fallback_models)
        × All (λ m. is_routed_model m ≡ true) (p.model ∷ p.fallback_models)
        × ((credential : String) × (credential_id claw_id ≡ ok credential)
            × IsRouter by_locale fleet claw_id credential (p.model ∷ p.fallback_models) p.router
            × (p.auth_ref ≡ some ("clawrouter:" <> credential))))
      (ok-injective e6)
      (
        route-IsAllowed by_locale fleet claw_id models r at,
        check_models-All true models u formed,
        (credential, known, is_made, reference),
      )
