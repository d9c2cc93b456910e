-- ===== src/Governance/Records/Parts.antt =====
-- The normalisation of a persona's parts: `normalizeActorPolicy`, `normalizeBindings`,
-- `normalizeInstructions`, `normalizePublishedContext` and `capabilityIds` (src/governance.ts).
use package.text.Mathlib.Text.{starts_with}
use crabhelm.Common.{
  ℕ, ◌*◌, String, Bool, true, false, not, ◌&&◌, ◌||◌, Option, none, some, List, [], ◌∷◌, leb,
  if◌then◌else◌, is_empty, length, or_else, str_eq, ◌<>◌,
}
use crabhelm.Errors.{other}
use crabhelm.Effect.{Result, ok, err, require_true}
use crabhelm.Slug.{slugify, is_slug}
use crabhelm.Governance.Types.{
  PersonaKind, personal, shared, profile, ActorMode, invoker, invoker_with_service_fallback,
  ActorPolicy, Surface, slack, web, api, PersonaBinding, PublishedContext, PersonaInstructions,
}
use crabhelm.Governance.Actor.{mode_eq, is_profile}
use crabhelm.Governance.Capabilities.{capability_by_id}
use crabhelm.Governance.Records.Fields.{◌>>=◌, ◌>>◌, text, optional_text, unique}

pub record ActorPolicyInput : Type 0 where
  pub mode : Option String
  pub service_principal_id : Option String

pub record BindingInput : Type 0 where
  pub surface : Option String
  pub workspace_id : Option String
  pub channel_id : Option String

pub record InstructionsInput : Type 0 where
  pub identity : Option String
  pub soul : Option String
  pub agents : Option String

pub record ContextInput : Type 0 where
  pub label : Option String
  pub value : Option String
  pub url : Option String

-- A value that is neither `undefined` nor the empty text.
abbrev pub is_truthy : Option String → Bool
is_truthy none = false
is_truthy (some s) = not (is_empty s)

abbrev pub is_option : Option String → String → Bool
is_option none s = false
is_option (some v) s = str_eq v s

unfoldable pub parse_mode : Option String → Result ActorMode
parse_mode value =
    if is_option value "invoker"
    then ok invoker
    else if is_option value "service"
    then ok ActorMode.service
    else if is_option value "invoker-with-service-fallback"
    then ok invoker_with_service_fallback
    else err (other "persona actor mode is invalid")

unfoldable pub parse_kind : Option String → Result PersonaKind
parse_kind value =
    if is_option value "personal"
    then ok personal
    else if is_option value "shared"
    then ok shared
    else if is_option value "profile"
    then ok profile
    else err (other "persona kind must be personal, shared, or profile")

unfoldable pub parse_surface : Option String → Result Surface
parse_surface value =
    if is_option value "slack"
    then ok slack
    else if is_option value "web"
    then ok web
    else if is_option value "api"
    then ok api
    else err (other "persona binding surface is invalid")

unfoldable pub normalize_actor_policy : PersonaKind → ActorPolicyInput → Result ActorPolicy
normalize_actor_policy kind input = do
  mode ← parse_mode (some (or_else input.mode "invoker"))
  require_true (not (is_profile kind && not (mode_eq mode invoker)))
      (other "profile assistants must use invoker actor mode")
  let service = do
    id ← text input.service_principal_id "service principal" 200
    ok (record { mode = mode; service_principal_id = some id })
  if mode_eq mode invoker then ok (record { mode = mode; service_principal_id = none }) else service

-- `values.map(f)` where `f` may throw.
unfoldable pub map_each : {A B : Type 0} → (A → Result B) → List A → Result (List B)
map_each f [] = ok []
map_each f (x ∷ xs) = do y ← f x; ys ← map_each f xs; ok (y ∷ ys)

-- `...(value ? { field: text(value, label, max) } : {})`.
unfoldable pub optional_field : Option String → String → ℕ → Result (Option String)
optional_field value label most =
    let given = (do s ← text value label most; ok (some s)) in
    if is_truthy value then given else ok none

abbrev pub is_slack : Surface → Bool
is_slack slack = true
is_slack _ = false

unfoldable pub normalize_binding : BindingInput → Result PersonaBinding
normalize_binding binding = do
  surface ← parse_surface binding.surface
  require_true
      (not (
        is_slack surface
        && (not (is_truthy binding.workspace_id) || not (is_truthy binding.channel_id))))
      (other "Slack persona binding requires workspace and channel ids")
  workspace ← optional_field binding.workspace_id "binding workspace" 100
  channel ← optional_field binding.channel_id "binding channel" 100
  ok (record { surface = surface; workspace_id = workspace; channel_id = channel })

unfoldable pub normalize_bindings : Option (List BindingInput) → Result (List PersonaBinding)
normalize_bindings none = ok []
normalize_bindings (some input) = do
  require_true (leb (length input) 50) (other "persona bindings exceed 50 entries")
  map_each normalize_binding input

unfoldable pub normalize_instructions : InstructionsInput → Result PersonaInstructions
normalize_instructions input = do
  identity ← optional_text input.identity "IDENTITY.md" (16 * 1024)
  soul ← optional_text input.soul "SOUL.md" (16 * 1024)
  agents ← optional_text input.agents "AGENTS.md" (32 * 1024)
  ok (record { identity = identity; soul = soul; agents = agents })

abbrev pub is_https : Option String → Bool
is_https none = true
is_https (some url) = starts_with url "https://"

unfoldable pub normalize_context : ContextInput → Result PublishedContext
normalize_context entry = do
  url ← optional_field entry.url "published context URL" 500
  require_true (is_https url) (other "published context URL must use HTTPS")
  label ← text entry.label "published context label" 120
  value ← text entry.value "published context value" 2000
  ok (record { label = label; value = value; url = url })

unfoldable pub normalize_published_context :
    Option (List ContextInput) → Result (List PublishedContext)
normalize_published_context none = ok []
normalize_published_context (some input) = do
  require_true (leb (length input) 50) (other "published context exceeds 50 entries")
  map_each normalize_context input

unfoldable pub capability_ids : Option (List String) → Result (List String)
capability_ids values = do
  ids ← unique (or_else values []) "persona capability ids" 100
  found ← map_each capability_by_id ids
  ok ids

-- `slug ? text(slug, label, 63) : slugify(name)`, and the slug's shape.
unfoldable pub slug_for : Option String → String → String → Result String
slug_for slug name what = do
  made ← (if is_truthy slug then text slug (what <> " slug") 63 else ok (slugify name))
  require_true (is_slug made) (other (what <> " slug must be a lowercase DNS label"))
  ok made
