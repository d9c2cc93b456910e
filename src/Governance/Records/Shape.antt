-- ===== src/Governance/Records/Shape.antt =====
-- What every persona that `createPersonaRecord` builds satisfies.
use crabhelm.Governance.Records.Parts.{
  ActorPolicyInput, normalize_actor_policy, map_each, normalize_binding, normalize_context,
  capability_ids, slug_for, optional_field, is_https, ContextInput, BindingInput,
  normalize_bindings, normalize_published_context, parse_kind, normalize_instructions,
}
use crabhelm.Common.{
  ◌≢◌, ap, ◌≡◌, ◌↔◌, none, List, [], ◌∷◌, length, All, arith, String, Option, suc, true,
  is_distinct, refl, ℕ, or_else, ◌≤◌, some,
}
use crabhelm.Effect.{Result, ok, ok-injective, bind_result-eq-ok}
use crabhelm.Governance.Types.{
  PersonaKind, profile, invoker, ActorPolicy, PersonaBinding, PublishedContext, slack,
  CapabilityDefinition, PersonaRecord, Timestamp,
}
use crabhelm.Governance.Records.Persona.{create_persona_record, PersonaInput}
use crabhelm.Governance.Capabilities.{capability_by_id}
use crabhelm.Governance.Records.Fields.{unique, text}
use crabhelm.Slug.{is_slug}

-- A profile assistant acts as its requester, and a service principal is named exactly where the
-- mode can use one.
pub record IsSoundPolicy (kind : PersonaKind) (policy : ActorPolicy) : Type 0 where
  pub as_requester : kind ≡ profile → policy.mode ≡ invoker
  pub delegated : (policy.mode ≡ invoker) ↔ (policy.service_principal_id ≡ none)

normalize_actor_policy-IsSoundPolicy :
    (kind : PersonaKind) (input : ActorPolicyInput) {policy : ActorPolicy}
    → normalize_actor_policy kind input ≡ ok policy
    → IsSoundPolicy kind policy
unfolding normalize_actor_policy
normalize_actor_policy-IsSoundPolicy kind input e = record {
  as_requester = ground arith;
  delegated = (ground arith, ground arith);
}

pub map_each-All :
    {A B : Type 0} (P : B → Type 0) (f : A → Result B)
    → ((a : A) (b : B) → f a ≡ ok b → P b)
    → (xs : List A) (ys : List B) → map_each f xs ≡ ok ys
    → All P ys × (length ys ≡ length xs)
unfolding map_each
map_each-All P f h [] ys e = rw (← ok-injective e) (tt, refl)
map_each-All P f h (x ∷ xs) ys e =
    let (y, ey, e') = bind_result-eq-ok (f x) _ e in
    let (zs, ez, e'') = bind_result-eq-ok (map_each f xs) _ e' in
    let (p, l) = map_each-All P f h xs zs ez in rw (← ok-injective e'') ((h x y ey, p), ap suc l)

-- A Slack binding names its workspace and its channel.
abbrev IsRoutable : PersonaBinding → Type 0
IsRoutable b = b.surface ≡ slack → (b.workspace_id ≢ none) × (b.channel_id ≢ none)

normalize_binding-IsRoutable :
    (input : BindingInput) (b : PersonaBinding) → normalize_binding input ≡ ok b → IsRoutable b
unfolding normalize_binding optional_field
normalize_binding-IsRoutable input b e h = (ground arith, ground arith)

abbrev IsPublishable : PublishedContext → Type 0
IsPublishable c = is_https c.url ≡ true

normalize_context-IsPublishable :
    (input : ContextInput) (c : PublishedContext) → normalize_context input ≡ ok c → IsPublishable c
unfolding normalize_context
normalize_context-IsPublishable input c e = ground arith

abbrev pub IsConfigured : String → Type 0
IsConfigured id = (c : CapabilityDefinition) × (capability_by_id id ≡ ok c)

unique-is_distinct :
    (values : List String) (label : String) (most : ℕ) (ids : List String)
    → unique values label most ≡ ok ids
    → is_distinct ids ≡ true
unfolding unique
unique-is_distinct values label most ids e = ground arith

map_each-IsConfigured :
    (ids : List String) (found : List CapabilityDefinition)
    → map_each capability_by_id ids ≡ ok found
    → All IsConfigured ids
unfolding map_each
map_each-IsConfigured [] found e = tt
map_each-IsConfigured (x ∷ xs) found e =
    let (y, ey, e') = bind_result-eq-ok (capability_by_id x) _ e in
    let (zs, ez, _) = bind_result-eq-ok (map_each capability_by_id xs) _ e' in
    ((y, ey), map_each-IsConfigured xs zs ez)

capability_ids_sound :
    (values : Option (List String)) (ids : List String)
    → capability_ids values ≡ ok ids
    → All IsConfigured ids × (is_distinct ids ≡ true)
unfolding capability_ids
capability_ids_sound values ids e =
    let (us, eu, e') = bind_result-eq-ok (unique (or_else values []) _ _) _ e in
    let (found, ef, e'') = bind_result-eq-ok (map_each capability_by_id us) _ e' in
    rw (← ok-injective e'')
      (map_each-IsConfigured us found ef, unique-is_distinct (or_else values []) _ _ us eu)

slug_for_sound :
    (slug : Option String) (name what : String) (made : String)
    → slug_for slug name what ≡ ok made
    → is_slug made ≡ true
unfolding slug_for
slug_for_sound slug name what made e = ground arith

normalize_bindings_sound :
    (input : Option (List BindingInput)) (bs : List PersonaBinding)
    → normalize_bindings input ≡ ok bs
    → All IsRoutable bs × (length bs ≤ 50)
unfolding normalize_bindings
normalize_bindings_sound none bs e = rw (← ok-injective e) (tt, omega arith)
normalize_bindings_sound (some input) bs e =
    let (h, l) =
      map_each-All IsRoutable normalize_binding normalize_binding-IsRoutable input bs
        (ground arith) in
    (h, ground arith)

normalize_published_context_sound :
    (input : Option (List ContextInput)) (cs : List PublishedContext)
    → normalize_published_context input ≡ ok cs
    → All IsPublishable cs × (length cs ≤ 50)
unfolding normalize_published_context
normalize_published_context_sound none cs e = rw (← ok-injective e) (tt, omega arith)
normalize_published_context_sound (some input) cs e =
    let (h, l) =
      map_each-All IsPublishable normalize_context normalize_context-IsPublishable input cs
        (ground arith) in
    (h, ground arith)

-- What holds of every persona record.
pub record IsWellFormed (p : PersonaRecord) : Type 0 where
  pub slug : is_slug p.slug ≡ true
  pub policy : IsSoundPolicy p.kind p.actor_policy
  pub bindings : All IsRoutable p.bindings × (length p.bindings ≤ 50)
  pub capabilities : All IsConfigured p.capability_ids × (is_distinct p.capability_ids ≡ true)
  pub skills : is_distinct p.skill_ids ≡ true
  pub context : All IsPublishable p.published_context × (length p.published_context ≤ 50)

-- Every persona that an input can create has a slug of the DNS shape, acts as its requester if it is
-- a profile assistant, names a service principal exactly where its mode can use one, binds Slack
-- only with a workspace and a channel, holds distinct configured capabilities and distinct skills,
-- publishes HTTPS links only, in at most 50 entries each; it is new: enabled, at revision 1.
pub create_persona_record-IsWellFormed :
    (input : PersonaInput) (id : String) (now : Timestamp) (p : PersonaRecord)
    → create_persona_record input id now ≡ ok p
    → IsWellFormed p × (p.id ≡ id) × (p.revision ≡ 1) × (p.enabled ≡ true)
unfolding create_persona_record
create_persona_record-IsWellFormed input id now p e =
    let (name, _, e1) = bind_result-eq-ok (text input.name "persona name" 80) _ e in
    let (slug, eslug, e2) = bind_result-eq-ok (slug_for input.slug name "persona") _ e1 in
    let (kind, _, e3) = bind_result-eq-ok (parse_kind input.kind) _ e2 in
    let (policy, epolicy, e4) =
      bind_result-eq-ok (normalize_actor_policy kind input.actor_policy) _ e3 in
    let (owner, _, e5) =
      bind_result-eq-ok (text input.owner_principal_id "persona owner" 200) _ e4 in
    let (claw, _, e6) = bind_result-eq-ok (text input.claw_id "persona claw" 200) _ e5 in
    let (bindings, ebindings, e7) = bind_result-eq-ok (normalize_bindings input.bindings) _ e6 in
    let (capabilities, ecapabilities, e8) =
      bind_result-eq-ok (capability_ids input.capability_ids) _ e7 in
    let (skills, eskills, e9) =
      bind_result-eq-ok (unique (or_else input.skill_ids []) "persona skill ids" 100) _ e8 in
    let (instructions, _, e10) =
      bind_result-eq-ok (normalize_instructions input.instructions) _ e9 in
    let (context, econtext, e11) =
      bind_result-eq-ok (normalize_published_context input.published_context) _ e10 in
    rw (← ok-injective e11) (
      record {
        slug = slug_for_sound input.slug name "persona" slug eslug;
        policy = normalize_actor_policy-IsSoundPolicy kind input.actor_policy epolicy;
        bindings = normalize_bindings_sound input.bindings bindings ebindings;
        capabilities = capability_ids_sound input.capability_ids capabilities ecapabilities;
        skills = unique-is_distinct (or_else input.skill_ids []) _ _ skills eskills;
        context = normalize_published_context_sound input.published_context context econtext;
      },
      refl,
      refl,
      refl,
    )
