-- ===== src/Claw/Create/Tests.antt =====
-- The smallest request for a claw.
use crabhelm.Claw.Telemetry.{
  normalize_observability, parse_log_level, whole_between, normalize_telemetry, check_export,
  sample_of, rate, interval_of, service_of, is_service_name,
}
use crabhelm.Claw.Create.{create_claw_record, claw_slug, claw_profile, label_of}
use crabhelm.Claw.Create.Shape.{IsNew, create_claw_record-IsNew}
use crabhelm.Claw.Samples.{plain_setting, second_claw, small_request}
use crabhelm.Slug.{slugify, to_lower_case, is_slug}
use crabhelm.Claw.Policies.{
  units, normalize_appliance, normalize_owner, parse_owner_source, optional_text_field,
  normalize_slack, parse_slack_mode, normalize_access, parse_dm, parse_group, require_text,
}
use crabhelm.Common.{trim, ◌≡◌, refl}
use crabhelm.Governance.Records.Fields.{is_subject}
use crabhelm.Claw.Models.{
  normalize_models, distinct, check_models, is_model, is_direct_model, check_provider, budget_of,
  provider_of,
}
use crabhelm.Effect.{ok}

pub second_created : create_claw_record plain_setting small_request ≡ ok second_claw
unfolding create_claw_record claw_slug claw_profile label_of slugify to_lower_case is_slug
    require_text units trim normalize_appliance normalize_owner parse_owner_source is_subject
    optional_text_field normalize_models distinct check_models is_model is_direct_model
    check_provider budget_of provider_of normalize_slack parse_slack_mode normalize_access parse_dm
    parse_group normalize_observability parse_log_level whole_between normalize_telemetry
    check_export sample_of rate interval_of service_of is_service_name
second_created = refl

create_claw_record-IsNew_example : IsNew plain_setting second_claw
create_claw_record-IsNew_example =
    create_claw_record-IsNew plain_setting small_request second_claw second_created
