-- ===== src/Claw/Policies.antt =====
-- The parts of a claw's desired state that a request gives: `requireText`, `normalizeOwner`,
-- `normalizeSlack`, `normalizeAccess` and `normalizeAppliance` (src/domain.ts). Values of a type that the request's own type excludes are left out.
use crabhelm.Governance.Records.Parts.{is_truthy, is_option}
use Prim.Native.Char.{code}
use crabhelm.Claw.Types.{
  pairing, relay, socket, http, DmPolicy, GroupPolicy, OwnerSource, OwnerRef, SlackMode,
  SlackPolicy, AccessPolicy, ApplianceRelease,
}
use crabhelm.Governance.Records.Fields.{◌>>=◌, ◌>>◌, is_subject}
use crabhelm.Common.{
  String, Option, ℕ, if◌then◌else◌, Bool, some, leb, str_eq, none, or_else, false, is_empty, ◌+◌,
  ◌<>◌, ◌&&◌, trim, not, show, ◌||◌, all_chars, ◌==◌,
}
use crabhelm.Effect.{Result, err, ok, require_true}
use crabhelm.Errors.{request}
use crabhelm.Slug.{characters}

-- `text.length`: a code point above U+FFFF is two units.
unfoldable pub units : String → ℕ
units String.[] = 0
units (String.◌∷◌ c s) = (if leb (code c) 0xffff then 1 else 2) + units s

unfoldable pub require_text : Option String → String → ℕ → Result String
require_text none label most = err (request (label <> " is required"))
require_text (some value) label most = do
  require_true (not (is_empty (trim value)) && leb (units (trim value)) most)
      (request (label <> " must be between 1 and " <> show most <> " characters"))
  ok (trim value)

pub record OwnerInput : Type 0 where
  pub subject : Option String
  pub label : Option String
  pub source : Option String

unfoldable pub parse_owner_source : Option String → Result OwnerSource
parse_owner_source value =
    if is_option value "github"
    then ok OwnerSource.github
    else if is_option value "slack"
    then ok OwnerSource.slack
    else if is_option value "email"
    then ok OwnerSource.email
    else if is_option value "manual"
    then ok OwnerSource.manual
    else err (request "owner source must be github, slack, email, or manual")

unfoldable pub normalize_owner : OwnerInput → Result OwnerRef
normalize_owner owner = do
  subject ← require_text owner.subject "owner subject" 200
  require_true (is_subject subject) (request "owner subject contains unsupported characters")
  source ← parse_owner_source owner.source
  label ← require_text owner.label "owner label" 120
  ok (record { subject = subject; label = label; source = source })

pub record SlackInput : Type 0 where
  pub enabled : Option Bool
  pub mode : Option String
  pub workspace_id : Option String
  pub route_key : Option String
  pub bot_token_ref : Option String
  pub relay_token_ref : Option String

unfoldable pub parse_slack_mode : String → Result SlackMode
parse_slack_mode mode =
    if str_eq mode "relay"
    then ok relay
    else if str_eq mode "socket"
    then ok socket
    else if str_eq mode "http"
    then ok http
    else err (request "Slack mode must be relay, socket, or http")

-- `...(value ? { field: requireText(value, label, max) } : {})`.
unfoldable pub optional_text_field : Option String → String → ℕ → Result (Option String)
optional_text_field value label most =
    let given = (do s ← require_text value label most; ok (some s)) in
    if is_truthy value then given else ok none

unfoldable pub normalize_slack : SlackInput → String → Result SlackPolicy
normalize_slack input slug = do
  mode ← parse_slack_mode (or_else input.mode "socket")
  workspace ← optional_text_field input.workspace_id "Slack workspace id" 80
  route ← require_text (some (or_else input.route_key slug)) "Slack route key" 120
  bot ← optional_text_field input.bot_token_ref "Slack bot token ref" 240
  relay_token ← optional_text_field input.relay_token_ref "Slack relay token ref" 240
  ok (record {
    enabled = or_else input.enabled false;
    mode = mode;
    workspace_id = workspace;
    route_key = some route;
    bot_token_ref = bot;
    relay_token_ref = relay_token;
  })

unfoldable pub parse_dm : String → Result DmPolicy
parse_dm policy =
    if str_eq policy "pairing"
    then ok pairing
    else if str_eq policy "allowlist"
    then ok DmPolicy.allowlist
    else if str_eq policy "disabled"
    then ok DmPolicy.disabled
    else err (request "DM policy must be pairing, allowlist, or disabled")

unfoldable pub parse_group : String → Result GroupPolicy
parse_group policy =
    if str_eq policy "allowlist"
    then ok GroupPolicy.allowlist
    else if str_eq policy "disabled"
    then ok GroupPolicy.disabled
    else err (request "group policy must be allowlist or disabled")

unfoldable pub normalize_access : Option String → Option String → Result AccessPolicy
normalize_access dm group = do
  dm_policy ← parse_dm (or_else dm "pairing")
  group_policy ← parse_group (or_else group "allowlist")
  ok (record { dm_policy = dm_policy; group_policy = group_policy })

pub record ApplianceInput : Type 0 where
  pub manifest_sha256 : Option String
  pub archive_sha256 : Option String
  pub node_sha256 : Option String

-- `sha256Pattern`.
unfoldable pub is_sha256 : String → Bool
is_sha256 s =
    characters s == 64
    && all_chars (λ c. (leb b'0' c && leb c b'9') || (leb b'a' c && leb c b'f')) s

unfoldable pub digest_each : ApplianceInput → Result ApplianceRelease
digest_each input = do
  manifest ← require_text input.manifest_sha256 "appliance manifest SHA-256" 64
  archive ← require_text input.archive_sha256 "appliance archive SHA-256" 64
  node ← require_text input.node_sha256 "appliance Node SHA-256" 64
  require_true (is_sha256 manifest && is_sha256 archive && is_sha256 node)
      (request "appliance release digests must be lowercase SHA-256 values")
  ok (record { manifest_sha256 = manifest; archive_sha256 = archive; node_sha256 = node })

unfoldable pub normalize_appliance : Option ApplianceInput → Result (Option ApplianceRelease)
normalize_appliance none = ok none
normalize_appliance (some input) = do release ← digest_each input; ok (some release)
