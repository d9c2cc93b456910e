-- ===== src/Claw/Telemetry/Bounds.antt =====
-- What every observability policy that is accepted satisfies.
use crabhelm.Claw.Telemetry.{
  rate, whole_between, normalize_observability, Number, normalize_telemetry, Url, TelemetryInput,
  is_acceptable, whole, parse_log_level, ratio, unfit, is_service_name, check_export, service_of,
  sample_of, interval_of, trimmed,
}
use crabhelm.Common.{
  String, Option, ℕ, ◌≡◌, ◌≤◌, true, arith, ◌≢◌, or_else, none, ◌⊎◌, Bool, subst, false,
}
use crabhelm.Errors.{Error}
use crabhelm.Claw.Types.{ObservabilityPolicy, Quotient, OpenTelemetryPolicy}
use crabhelm.Effect.{ok, bind_result-eq-ok, ok-injective}

-- Export is on only with an endpoint and with traces or metrics; an endpoint is a plain HTTPS address;
-- the rate is at most 1, and the interval from one second to five minutes.
pub record IsExportable (parse_url : String → Option Url) (p : OpenTelemetryPolicy) : Type 0 where
  pub flush : (1000 ≤ p.flush_interval_ms) × (p.flush_interval_ms ≤ 300000)
  pub sample :
      (p.sample_rate.numerator ≤ p.sample_rate.denominator) × (1 ≤ p.sample_rate.denominator)
  pub endpoint : is_acceptable parse_url p.endpoint ≡ true
  pub export : p.enabled ≡ true → (p.endpoint ≢ none) × ((p.traces ≡ true) ⊎ (p.metrics ≡ true))
  pub name : is_service_name p.service_name ≡ true

rate_bounded :
    (n : Number) (e : Error) (q : Quotient)
    → rate n e ≡ ok q
    → (q.numerator ≤ q.denominator) × (1 ≤ q.denominator)
unfolding rate
rate_bounded (whole n) e q h = ground arith
rate_bounded (ratio n d) e q h = ground arith
rate_bounded unfit e q h = ground arith

whole_between_bounded :
    (n : Number) (least most : ℕ) (e : Error) (v : ℕ)
    → whole_between n least most e ≡ ok v
    → (least ≤ v) × (v ≤ most)
unfolding whole_between
whole_between_bounded (whole n) least most e v h = ground arith
whole_between_bounded (ratio a b) least most e v h = ground arith
whole_between_bounded unfit least most e v h = ground arith

check_export_sound :
    (parse_url : String → Option Url) (endpoint : Option String) (on traces metrics logs : Bool)
    (u : Unit {0})
    → check_export parse_url endpoint on traces metrics logs ≡ ok u
    → (is_acceptable parse_url endpoint ≡ true)
      × (on ≡ true → (endpoint ≢ none) × ((traces ≡ true) ⊎ (metrics ≡ true)))
unfolding check_export
check_export_sound parse_url endpoint on traces metrics logs u e =
    (ground arith, λ h. (ground arith, ground arith))

service_of_sound :
    (input : Option String) (slug s : String)
    → service_of input slug ≡ ok s
    → is_service_name s ≡ true
unfolding service_of
service_of_sound input slug s e = ground arith

normalize_telemetry-IsExportable :
    (parse_url : String → Option Url) (input : TelemetryInput) (slug : String)
    (p : OpenTelemetryPolicy)
    → normalize_telemetry parse_url input slug ≡ ok p
    → IsExportable parse_url p
unfolding normalize_telemetry sample_of interval_of
normalize_telemetry-IsExportable parse_url input slug p e =
    let (u, checked, e1) =
      bind_result-eq-ok
        (check_export parse_url (trimmed input.endpoint) (or_else input.enabled false)
          (or_else input.traces true) (or_else input.metrics true) (or_else input.logs false))
        _ e in
    let (q, sampled, e2) = bind_result-eq-ok (sample_of input.sample_rate) _ e1 in
    let (n, flushed, e3) = bind_result-eq-ok (interval_of input.flush_interval_ms) _ e2 in
    let (service, named, e4) = bind_result-eq-ok (service_of input.service_name slug) _ e3 in
    let (plain, useful) = check_export_sound parse_url _ _ _ _ _ u checked in
    let made : OpenTelemetryPolicy = record {
      enabled = or_else input.enabled false;
      endpoint = trimmed input.endpoint;
      service_name = service;
      traces = or_else input.traces true;
      metrics = or_else input.metrics true;
      sample_rate = q;
      flush_interval_ms = n;
    } in
    subst (IsExportable parse_url) {x = made} (ok-injective e4) (record {
      flush =
          whole_between_bounded (or_else input.flush_interval_ms (whole 60000)) 1000 300000 _ n
            flushed;
      sample = rate_bounded (or_else input.sample_rate (ratio 1 9)) _ q sampled;
      endpoint = plain;
      export = useful;
      name = service_of_sound input.service_name slug service named;
    })

-- Whatever the reader of URLs accepts, every observability policy that `normalizeObservability`
-- accepts keeps 1 to 365 days, flushes every 1 to 300 seconds, samples at a rate from 0 to 1, has a
-- service name of the allowed characters, names an endpoint only if it is a plain HTTPS address, and
-- exports only with an endpoint and with traces or metrics.
pub normalize_observability-IsExportable :
    (parse_url : String → Option Url) (level : Option String) (retention : Option Number)
    (otel : TelemetryInput) (slug : String) (p : ObservabilityPolicy)
    → normalize_observability parse_url level retention otel slug ≡ ok p
    → (1 ≤ p.retention_days) × (p.retention_days ≤ 365) × IsExportable parse_url p.otel
unfolding normalize_observability
normalize_observability-IsExportable parse_url level retention otel slug p e =
    let (log_level, _, e1) = bind_result-eq-ok (parse_log_level (or_else level "info")) _ e in
    let (days, kept, e2) =
      bind_result-eq-ok (whole_between (or_else retention (whole 30)) 1 365 _) _ e1 in
    let (policy, made, e3) = bind_result-eq-ok (normalize_telemetry parse_url otel slug) _ e2 in
    let (least, most) = whole_between_bounded _ 1 365 _ days kept in
    let q : ObservabilityPolicy = record {
      log_level = log_level;
      retention_days = days;
      otel = policy;
    } in
    subst
      (λ (p : ObservabilityPolicy).
        (1 ≤ p.retention_days) × (p.retention_days ≤ 365) × IsExportable parse_url p.otel)
      {x = q} (ok-injective e3)
      (least, most, normalize_telemetry-IsExportable parse_url otel slug policy made)
