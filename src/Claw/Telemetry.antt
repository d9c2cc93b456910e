-- ===== src/Claw/Telemetry.antt =====
-- The observability policy that a request gives: `normalizeObservability` (src/domain.ts). Values of a
-- type that the request's own type excludes are left out.
pub mod Bounds
mod Tests
use Prim.Native.Char.{code}
use crabhelm.Claw.Types.{
  error, warn, info, debug, LogLevel, Quotient, OpenTelemetryPolicy, ObservabilityPolicy,
}
use crabhelm.Governance.Records.Fields.{◌>>=◌, ◌>>◌}
use crabhelm.Common.{
  String, Option, ℕ, if◌then◌else◌, Bool, some, leb, str_eq, none, or_else, false, is_empty, true,
  ◌+◌, ◌<>◌, ◌&&◌, trim, not, ◌||◌, all_chars, is_some, ◌==◌,
}
use crabhelm.Effect.{Result, err, ok, require_true}
use crabhelm.Errors.{Error, request}
use crabhelm.Slug.{characters}
use crabhelm.Claw.Policies.{require_text}

-- A number of a request: a whole one, `n / (d + 1)` where that is not whole, or one that is
-- negative, infinite or NaN.
pub data Number : Type 0 where
  whole : ℕ → Number
  ratio : ℕ → ℕ → Number
  unfit : Number

-- What `new URL` reads of a text, where `URL.canParse` accepts it.
pub record Url : Type 0 where
  pub protocol : String
  pub username : String
  pub password : String
  pub search : String
  pub hash : String

pub record TelemetryInput : Type 0 where
  pub enabled : Option Bool
  pub endpoint : Option String
  pub service_name : Option String
  pub traces : Option Bool
  pub metrics : Option Bool
  pub logs : Option Bool
  pub sample_rate : Option Number
  pub flush_interval_ms : Option Number

unfoldable pub parse_log_level : String → Result LogLevel
parse_log_level level =
    if str_eq level "error"
    then ok error
    else if str_eq level "warn"
    then ok warn
    else if str_eq level "info"
    then ok info
    else if str_eq level "debug"
    then ok debug
    else err (request "log level must be error, warn, info, or debug")

-- An integer from `least` to `most`, or the error.
unfoldable pub whole_between : Number → ℕ → ℕ → Error → Result ℕ
whole_between (whole n) least most e = do require_true (leb least n && leb n most) e; ok n
whole_between (ratio _ _) least most e = err e
whole_between unfit least most e = err e

-- A number from 0 to 1, or the error.
unfoldable pub rate : Number → Error → Result Quotient
rate (whole n) e = do require_true (leb n 1) e; ok (record { numerator = n; denominator = 1 })
rate (ratio n d) e = do
  require_true (leb n (d + 1)) e
  ok (record { numerator = n; denominator = d + 1 })
rate unfit e = err e

abbrev pub is_plain_https : Option Url → Bool
is_plain_https none = false
is_plain_https (some url) =
    str_eq url.protocol "https:"
    && is_empty url.username
    && is_empty url.password
    && is_empty url.search
    && is_empty url.hash

abbrev pub trimmed : Option String → Option String
trimmed none = none
trimmed (some s) = if is_empty (trim s) then none else some (trim s)

abbrev pub is_acceptable : (String → Option Url) → Option String → Bool
is_acceptable parse_url none = true
is_acceptable parse_url (some endpoint) = is_plain_https (parse_url endpoint)

abbrev is_letter_or_digit : ℕ → Bool
is_letter_or_digit c =
    (leb b'a' c && leb c b'z') || (leb b'A' c && leb c b'Z') || (leb b'0' c && leb c b'9')

unfoldable pub is_service_name : String → Bool
is_service_name String.[] = false
is_service_name (String.◌∷◌ c s) =
    is_letter_or_digit (code c)
    && all_chars (λ d. is_letter_or_digit d || d == b'.' || d == b'_' || d == b'-') s
    && leb (characters s) 119

unfoldable pub sample_of : Option Number → Result Quotient
sample_of input =
    rate (or_else input (ratio 1 9)) (request "OpenTelemetry sample rate must be between 0 and 1")

unfoldable pub interval_of : Option Number → Result ℕ
interval_of input =
    whole_between (or_else input (whole 60000)) 1000 300000
      (request "OpenTelemetry flush interval must be between 1000 and 300000 milliseconds")

unfoldable pub service_of : Option String → String → Result String
service_of input slug = do
  service_name ←
      require_text (some (or_else input ("crabhelm-" <> slug))) "OpenTelemetry service name" 120
  require_true (is_service_name service_name)
      (request "OpenTelemetry service name contains unsupported characters")
  ok service_name

-- The checks of an endpoint and of what is exported to it.
unfoldable pub check_export :
    (String → Option Url) → Option String → Bool → Bool → Bool → Bool → Result (Unit {0})
check_export parse_url endpoint enabled traces metrics logs = do
  require_true (is_acceptable parse_url endpoint) (
      request "OpenTelemetry endpoint must be an HTTPS URL without credentials, query, or fragment")
  require_true (not (enabled && not (is_some endpoint)))
      (request "OpenTelemetry endpoint is required when export is enabled")
  require_true (not (enabled && not traces && not metrics))
      (request "OpenTelemetry export requires traces, metrics, or both")
  require_true (not logs)
      (request "OpenTelemetry log export is unavailable under metadata-only policy")

unfoldable pub normalize_telemetry :
    (String → Option Url) → TelemetryInput → String → Result OpenTelemetryPolicy
normalize_telemetry parse_url input slug = do
  let endpoint = trimmed input.endpoint
  let enabled = or_else input.enabled false
  let traces = or_else input.traces true
  let metrics = or_else input.metrics true
  check_export parse_url endpoint enabled traces metrics (or_else input.logs false)
  sample_rate ← sample_of input.sample_rate
  flush_interval_ms ← interval_of input.flush_interval_ms
  service_name ← service_of input.service_name slug
  ok (record {
    enabled = enabled;
    endpoint = endpoint;
    service_name = service_name;
    traces = traces;
    metrics = metrics;
    sample_rate = sample_rate;
    flush_interval_ms = flush_interval_ms;
  })

unfoldable pub normalize_observability :
    (String → Option Url)
    → Option String
    → Option Number
    → TelemetryInput
    → String
    → Result ObservabilityPolicy
normalize_observability parse_url level retention otel_input slug = do
  log_level ← parse_log_level (or_else level "info")
  retention_days ←
      whole_between (or_else retention (whole 30)) 1 365
        (request "retention must be between 1 and 365 days")
  otel ← normalize_telemetry parse_url otel_input slug
  ok (record { log_level = log_level; retention_days = retention_days; otel = otel })
