-- ===== src/Claw/Models.antt =====
-- The inference policy of a claw: `normalizeModels` and `clawRouterCredentialId` (src/domain.ts).
pub mod Allowlist
mod Tests
use crabhelm.Claw.Telemetry.{Number, whole, ratio, unfit}
use Prim.Native.Char.{code}
use Prim.Native.Nat.{◌/◌, ◌%◌}
use package.text.Mathlib.Text.{starts_with}
use crabhelm.Governance.Records.Fields.{◌>>=◌, ◌>>◌}
use crabhelm.Common.{
  String, Option, List, ℕ, Bool, select, ◌∷◌, [], true, leb, ◌||◌, false, ◌&&◌, not, if◌then◌else◌,
  map, some, str_eq, ltb, all, or_else, ◌+◌, ◌==◌, length, ◌-◌, none, ◌<>◌, all_chars, str_in,
  is_some, ◌*◌,
}
use crabhelm.Errors.{Error, request}
use crabhelm.Claw.Policies.{require_text, optional_text_field}
use crabhelm.Effect.{Result, ok, require_true, err}
use crabhelm.Claw.Types.{Quotient, InferenceRouter, InferencePolicy, direct, clawrouter}
use crabhelm.Slug.{to_lower_case, characters}

pub record ClawRouterFleetPolicy : Type 0 where
  pub base_url : String
  pub tenant_id : String
  pub default_model : Option String
  pub allowed_providers : List String
  pub model_providers : List (String × String)

pub record InferenceInput : Type 0 where
  pub provider : Option String
  pub model : Option String
  pub fallback_models : Option (List String)
  pub auth_ref : Option String
  pub monthly_budget_usd : Option Number

-- `[...new Set(xs)]`.
abbrev pub without : String → List String → List String
without s xs = select (λ x. not (str_eq x s)) xs

unfoldable pub distinct : List String → List String
distinct [] = []
distinct (x ∷ xs) = x ∷ without x (distinct xs)

-- The UTF-16 code units of a text, which `sort()` compares.
abbrev code_units : String → List ℕ
code_units String.[] = []
code_units (String.◌∷◌ c s) =
    let rest = code_units s in
    if leb (code c) 0xffff
    then code c ∷ rest
    else (0xd800 + (code c - 0x10000) / 0x400) ∷ (0xdc00 + (code c - 0x10000) % 0x400) ∷ rest

abbrev before_or_same : List ℕ → List ℕ → Bool
before_or_same [] ys = true
before_or_same (x ∷ xs) [] = false
before_or_same (x ∷ xs) (y ∷ ys) =
    let rest = before_or_same xs ys in if ltb x y then true else if x == y then rest else false

unfoldable pub insert : String → List String → List String
insert x [] = x ∷ []
insert x (y ∷ ys) =
    if before_or_same (code_units x) (code_units y) then x ∷ y ∷ ys else y ∷ insert x ys

-- `xs.sort()`.
unfoldable pub sort : List String → List String
sort [] = []
sort (x ∷ xs) = insert x (sort xs)

abbrev extend : ℕ → List (List ℕ) → List (List ℕ)
extend c [] = []
extend c (s ∷ ss) = if c == b'/' then [] ∷ s ∷ ss else (c ∷ s) ∷ ss

-- `split("/")`, of code points.
abbrev segments : String → List (List ℕ)
segments String.[] = [] ∷ []
segments (String.◌∷◌ c s) = extend (code c) (segments s)

abbrev is_lower : ℕ → Bool
is_lower c = (leb b'a' c && leb c b'z') || (leb b'0' c && leb c b'9')

abbrev is_letter_or_digit : ℕ → Bool
is_letter_or_digit c = is_lower c || (leb b'A' c && leb c b'Z')

-- `[first][rest]{0,most}`.
abbrev segment : (ℕ → Bool) → (ℕ → Bool) → ℕ → List ℕ → Bool
segment first rest most [] = false
segment first rest most (c ∷ cs) = first c && all rest cs && leb (length cs) most

-- A segment of a model's name.
abbrev is_name : List ℕ → Bool
is_name =
    segment is_letter_or_digit
      (λ c. is_letter_or_digit c || c == b'_' || c == b'.' || c == b':' || c == b'-') 199

abbrev direct_segments : List (List ℕ) → Bool
direct_segments [] = false
direct_segments (s ∷ []) = false
direct_segments (s ∷ n ∷ names) =
    segment is_lower (λ c. is_lower c || c == b'_' || c == b'.' || c == b'-') (length s) s
    && all is_name (n ∷ names)

abbrev routed_segments : List (List ℕ) → Bool
routed_segments (r ∷ p ∷ n ∷ names) =
    segment is_lower (λ c. is_lower c || c == b'-') 63 p && all is_name (n ∷ names)
routed_segments _ = false

-- `directModelPattern` and `clawRouterModelPattern`.
unfoldable pub is_direct_model : String → Bool
is_direct_model s = direct_segments (segments s)

unfoldable pub is_routed_model : String → Bool
is_routed_model s = starts_with s "clawrouter/" && routed_segments (segments s)

unfoldable pub is_model : Bool → String → Bool
is_model true s = is_routed_model s
is_model false s = not (starts_with s "clawrouter/") && is_direct_model s

unfoldable pub check_models : Bool → List String → Result (Unit {0})
check_models routed [] = ok tt
check_models routed (m ∷ ms) = do
  require_true (is_model routed m) (
      request (
        (if routed
          then "ClawRouter fleets require clawrouter/provider/model form: "
          else "model must use provider/model form: ")
        <> m))
  check_models routed ms

-- `model.slice(0, model.indexOf("/"))`, of a model with a slash.
unfoldable pub provider_of : String → String
provider_of String.[] = ""
provider_of (String.◌∷◌ c s) =
    let rest = provider_of s in if code c == b'/' then "" else String.◌∷◌ c rest

unfoldable pub check_provider : Option String → String → Result (Unit {0})
check_provider none model = ok tt
check_provider (some given) model = do
  requested ← require_text (some given) "inference provider" 80
  require_true (str_eq requested (provider_of model))
      (request ("inference provider " <> requested <> " does not match model " <> model))

abbrev bad_budget : Error
bad_budget = request "monthly budget must be between 0 and 1000000 USD"

unfoldable pub budget_of : Option Number → Result (Option Quotient)
budget_of none = ok none
budget_of (some (whole n)) = do
  require_true (leb n 1000000) bad_budget
  ok (some (record { numerator = n; denominator = 1 }))
budget_of (some (ratio n d)) = do
  require_true (leb n (1000000 * (d + 1))) bad_budget
  ok (some (record { numerator = n; denominator = d + 1 }))
budget_of (some unfit) = err bad_budget

abbrev without_dashes : String → String
without_dashes String.[] = ""
without_dashes (String.◌∷◌ c s) =
    let rest = without_dashes s in if code c == b'-' then rest else String.◌∷◌ c rest

unfoldable pub credential_id : String → Result String
credential_id claw_id =
    let compact = to_lower_case (without_dashes claw_id) in
    if characters compact == 32
      && all_chars (λ c. (leb b'0' c && leb c b'9') || (leb b'a' c && leb c b'f')) compact
    then ok ("crabhelm_" <> compact)
    else err (request "claw id is invalid for ClawRouter identity")

-- `modelProviders[value] ?? ""`.
unfoldable pub provided : List (String × String) → String → String
provided [] m = ""
provided ((k, v) ∷ rest) m = if str_eq k m then v else provided rest m

unfoldable pub providers_of : ClawRouterFleetPolicy → List String → List String
providers_of fleet models = sort (distinct (map (provided fleet.model_providers) models))

-- The router of a fleet that has one, and the reference to its credential; `by_locale` sorts the
-- entries of the mapping by `localeCompare` of their keys.
unfoldable pub route :
    (List (String × String) → List (String × String))
    → ClawRouterFleetPolicy
    → String
    → List String
    → Result (InferenceRouter × String)
route by_locale fleet claw_id models = do
  require_true (all (λ m. starts_with m "clawrouter/") models)
      (request "ClawRouter fleets require clawrouter/provider/model references")
  let providers = providers_of fleet models
  require_true (not (str_in "" providers))
      (request "every ClawRouter model requires an explicit fleet model-to-provider mapping")
  require_true (all (λ p. str_in p fleet.allowed_providers) providers)
      (request "inference model provider is outside the fleet ClawRouter allowlist")
  credential ← credential_id claw_id
  ok (
    clawrouter fleet.base_url fleet.tenant_id credential credential claw_id fleet.allowed_providers
        (by_locale fleet.model_providers) providers,
    "clawrouter:" <> credential,
  )

abbrev default_of : Option ClawRouterFleetPolicy → String
default_of none = "openai/gpt-5.5"
default_of (some fleet) = or_else fleet.default_model "openai/gpt-5.5"

abbrev routed_by :
    (List (String × String) → List (String × String))
    → Option ClawRouterFleetPolicy
    → String
    → List String
    → Option String
    → Result (InferenceRouter × Option String)
routed_by by_locale none claw_id models auth = ok (direct, auth)
routed_by by_locale (some fleet) claw_id models auth = do
  made ← route by_locale fleet claw_id models
  ok (made.0, some made.1)

unfoldable pub normalize_models :
    (List (String × String) → List (String × String))
    → InferenceInput
    → String
    → Option ClawRouterFleetPolicy
    → Bool
    → Result InferencePolicy
normalize_models by_locale input claw_id fleet allow_template = do
  model ← require_text (some (or_else input.model (default_of fleet))) "inference model" 220
  let fallbacks = distinct (or_else input.fallback_models [])
  check_models (is_some fleet || (allow_template && starts_with model "clawrouter/"))
      (model ∷ fallbacks)
  check_provider input.provider model
  budget ← budget_of input.monthly_budget_usd
  auth ← optional_text_field input.auth_ref "inference auth ref" 240
  made ← routed_by by_locale fleet claw_id (model ∷ fallbacks) auth
  ok (record {
    provider = provider_of model;
    model = model;
    fallback_models = fallbacks;
    auth_ref = made.1;
    monthly_budget_usd = budget;
    router = made.0;
  })
