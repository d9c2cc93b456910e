-- ===== src/Claw/Telemetry/Tests.antt =====
-- An observability policy of a request.
use crabhelm.Claw.Telemetry.{
  Url, TelemetryInput, normalize_observability, parse_log_level, whole_between, normalize_telemetry,
  whole, check_export, sample_of, rate, interval_of, service_of, is_service_name,
}
use crabhelm.Claw.Policies.{require_text, units}
use crabhelm.Common.{
  String, ◌≤◌, Option, some, true, if◌then◌else◌, str_eq, none, false, trim, ◌≡◌, refl,
}
use crabhelm.Claw.Types.{ObservabilityPolicy, info}
use crabhelm.Claw.Telemetry.Bounds.{IsExportable, normalize_observability-IsExportable}
use crabhelm.Effect.{ok}

abbrev collector : Url
collector = record { protocol = "https:"; username = ""; password = ""; search = ""; hash = "" }

-- A reader of URLs that knows one.
abbrev read_url : String → Option Url
read_url s = if str_eq s "https://otel.example" then some collector else none

abbrev telemetry : TelemetryInput
telemetry = record {
  enabled = some true;
  endpoint = some " https://otel.example ";
  service_name = none;
  traces = none;
  metrics = some false;
  logs = none;
  sample_rate = none;
  flush_interval_ms = some (whole 1000);
}

abbrev exported : ObservabilityPolicy
exported = record {
  log_level = info;
  retention_days = 30;
  otel = record {
    enabled = true;
    endpoint = some "https://otel.example";
    service_name = "crabhelm-helper";
    traces = true;
    metrics = false;
    sample_rate = record { numerator = 1; denominator = 10 };
    flush_interval_ms = 1000;
  };
}

is_exported : normalize_observability read_url none none telemetry "helper" ≡ ok exported
unfolding normalize_observability parse_log_level whole_between normalize_telemetry check_export
    sample_of rate interval_of service_of require_text is_service_name units trim
is_exported = refl

normalize_observability-IsExportable_example :
    (1 ≤ exported.retention_days)
    × (exported.retention_days ≤ 365)
    × IsExportable read_url exported.otel
normalize_observability-IsExportable_example =
    normalize_observability-IsExportable read_url none none telemetry "helper" exported is_exported
