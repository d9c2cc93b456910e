-- ===== src/Claw/Samples.antt =====
-- A sample claw for the tests.
use crabhelm.Claw.Telemetry.{TelemetryInput}
use crabhelm.Claw.Types.{LogLevel}
use crabhelm.Claw.Types.{
  ClawRecord, OwnerSource, direct, socket, pairing, GroupPolicy, ready, healthy, paired,
}
use crabhelm.Common.{some, none, [], false, true}
use crabhelm.Governance.Samples.{quiet}
use crabhelm.Governance.Types.{iso}
use crabhelm.Claw.Create.{Setting, CreateInput, first_observed}

abbrev pub sample_claw : ClawRecord
sample_claw = record {
  id = "claw1";
  revision = some 3;
  desired = record {
    generation = 2;
    name = "Helper";
    slug = "helper";
    owner = record { subject = "github:alice"; label = "Alice"; source = OwnerSource.github };
    template_id = "t";
    template_version = 1;
    deployment = record { target = "aws"; profile = "small"; region = none; appliance = none };
    inference = record {
      provider = "openai";
      model = "openai/gpt-5.5";
      fallback_models = [];
      auth_ref = none;
      monthly_budget_usd = none;
      router = direct;
    };
    slack = record {
      enabled = false;
      mode = socket;
      workspace_id = none;
      route_key = some "helper";
      bot_token_ref = none;
      relay_token_ref = none;
    };
    access = record { dm_policy = pairing; group_policy = GroupPolicy.allowlist };
    observability = quiet;
    enabled = true;
    credentials_generation = some 1;
  };
  observed = record {
    generation = 2;
    phase = ready;
    message = "ready";
    health = healthy;
    lifecycle = none;
    control_link = record {
      status = paired;
      transport = "wss";
      command = "run";
      node_id = none;
      last_seen_at = none;
    };
    gateway_version = none;
    config_hash = none;
    last_seen_at = none;
    inference = none;
    probes = none;
    deletion = none;
    user_access = none;
  };
  created_at = iso 0;
  updated_at = iso 1;
}

-- A claw as the smallest request makes it, without a router.
abbrev pub plain_setting : Setting
plain_setting = record {
  parse_url = λ _. none;
  by_locale = λ entries. entries;
  fleet = none;
  id = "claw2";
  now = iso 9;
}

abbrev pub no_telemetry : TelemetryInput
no_telemetry = record {
  enabled = none;
  endpoint = none;
  service_name = none;
  traces = none;
  metrics = none;
  logs = none;
  sample_rate = none;
  flush_interval_ms = none;
}

abbrev pub small_request : CreateInput
small_request = record {
  name = some "Second Helper";
  slug = none;
  owner = record { subject = some "github:alice"; label = some "Alice"; source = some "github" };
  template_id = none;
  template_version = none;
  deployment = record { target = none; profile = none; region = none; appliance = none };
  inference = record {
    provider = none;
    model = none;
    fallback_models = none;
    auth_ref = none;
    monthly_budget_usd = none;
  };
  slack = record {
    enabled = none;
    mode = none;
    workspace_id = none;
    route_key = none;
    bot_token_ref = none;
    relay_token_ref = none;
  };
  dm_policy = none;
  group_policy = none;
  log_level = none;
  retention_days = none;
  otel = no_telemetry;
}

abbrev pub second_claw : ClawRecord
second_claw = record {
  id = "claw2";
  revision = some 1;
  desired = record {
    generation = 1;
    name = "Second Helper";
    slug = "second-helper";
    owner = record { subject = "github:alice"; label = "Alice"; source = OwnerSource.github };
    template_id = "default";
    template_version = 1;
    deployment = record {
      target = "default";
      profile = "openclaw-core";
      region = none;
      appliance = none;
    };
    inference = record {
      provider = "openai";
      model = "openai/gpt-5.5";
      fallback_models = [];
      auth_ref = none;
      monthly_budget_usd = none;
      router = direct;
    };
    slack = record {
      enabled = false;
      mode = socket;
      workspace_id = none;
      route_key = some "second-helper";
      bot_token_ref = none;
      relay_token_ref = none;
    };
    access = record { dm_policy = pairing; group_policy = GroupPolicy.allowlist };
    observability = record {
      log_level = LogLevel.info;
      retention_days = 30;
      otel = record {
        enabled = false;
        endpoint = none;
        service_name = "crabhelm-second-helper";
        traces = true;
        metrics = true;
        sample_rate = record { numerator = 1; denominator = 10 };
        flush_interval_ms = 60000;
      };
    };
    enabled = true;
    credentials_generation = some 1;
  };
  observed = first_observed;
  created_at = iso 9;
  updated_at = iso 9;
}
