-- ===== src/Registry.antt =====
-- The registry of claws, `CrabhelmRegistry` (src/registry.ts): its look-up, and the methods that
-- enable, disable, rotate, remove and observe a claw.
pub mod Removal
pub mod Writes
pub mod Conflicts
pub mod Creation
mod Tests
use crabhelm.Store.{Store, lookup, register}
use crabhelm.Common.{
  ℕ, String, Option, Bool, some, true, is_some, List, if◌then◌else◌, [], false, ◌||◌, ◌+◌, ◌==◌,
  none, not, str_eq, ◌<>◌, show,
}
use crabhelm.Claw.Types.{
  ClawRecord, ClawPhase, AuditEvent, Outcome, ClawObserved, deleting, disable,
}
use crabhelm.Effect.{M, write, serialize, pure, ◌>>=◌, ◌>>◌, throw_unless, err, ok, lift, Result}
use crabhelm.Claw.Fleet.{
  is_gone, is_safe, set_claw_enabled, bool_eq, rotate_claw_credentials, claw_credentials_generation,
}
use crabhelm.Governance.Types.{Timestamp, iso}
use crabhelm.Errors.{write_conflict, request}

-- The stores of claws and of audit events.
pub record Fleet : Type 0 where
  pub claws : Store ClawRecord
  pub events : Store AuditEvent

-- One call's reading of the clock and its call of `randomUUID()`.
pub record Call : Type 0 where
  pub now : ℕ
  pub event_id : String

-- An event but for its id and its time.
pub record EventInput : Type 0 where
  pub actor : String
  pub action : String
  pub outcome : Outcome
  pub summary : String
  pub generation : Option ℕ
  pub details : List (String × String)

-- A revision that is absent or no safe integer counts as 0.
abbrev pub revision_of : Option ℕ → ℕ
revision_of none = 0
revision_of (some r) = if is_safe r then r else 0

-- `normalizeRecord`, of a record that has its router and its observability policy.
unfoldable pub normalize_record : ClawRecord → ClawRecord
normalize_record r = record r { revision = some (revision_of r.revision) }

abbrev pub claw_of : Option ClawRecord → Result ClawRecord
claw_of none = err (request "claw not found")
claw_of (some r) = ok (normalize_record r)

unfoldable pub require_claw : String → M Fleet ClawRecord
require_claw id s = (claw_of (lookup id s.claws), s)

unfoldable pub put_claw : String → ClawRecord → M Fleet (Unit {0})
put_claw id r = write λ s. record s { claws = register id r s.claws }

unfoldable pub audit : Call → String → EventInput → M Fleet (Unit {0})
audit call id e = write λ s. record s {
  events =
      register call.event_id
        (record {
          id = call.event_id;
          claw_id = some id;
          at = iso call.now;
          actor = e.actor;
          action = e.action;
          outcome = e.outcome;
          summary = e.summary;
          generation = e.generation;
          details = e.details;
        })
        s.events;
}

abbrev pub requested_event : String → String → String → ClawRecord → EventInput
requested_event actor action summary r = record {
  actor = actor;
  action = action;
  outcome = Outcome.requested;
  summary = summary;
  generation = some r.desired.generation;
  details = [];
}

abbrev pub is_deleting : ClawPhase → Bool
is_deleting deleting = true
is_deleting _ = false

-- The guard of the methods that change a claw.
abbrev pub is_leaving : ClawRecord → Bool
is_leaving r =
    is_gone r.observed.phase || is_deleting r.observed.phase || is_some r.observed.deletion

unfoldable pub setting_enabled : Call → String → Bool → String → M Fleet ClawRecord
setting_enabled call id enabled actor = do
  current ← require_claw id
  throw_unless (not (is_leaving current)) (request "cannot change a deleting or deleted claw")
  let next = set_claw_enabled current enabled (iso call.now)
  let change : M Fleet ClawRecord = (do
    put_claw id next
    audit call id (
        requested_event actor (if enabled then "claw.enable" else "claw.disable")
          ((if enabled then "Enabled" else "Disabled") <> " " <> next.desired.name) next)
    pure next)
  if bool_eq current.desired.enabled enabled then pure current else change

unfoldable pub set_enabled : Bool → Call → String → Bool → String → M Fleet ClawRecord
unfolding setting_enabled
set_enabled tx call id enabled actor = serialize tx (setting_enabled call id enabled actor)

unfoldable pub rotating : Call → String → String → M Fleet ClawRecord
rotating call id actor = do
  current ← require_claw id
  throw_unless (not (is_leaving current))
      (request "cannot rotate credentials for a deleting or deleted claw")
  next ← lift (rotate_claw_credentials current (iso call.now))
  put_claw id next
  audit call id (
      requested_event actor "claw.rotate-credentials"
        ("Requested credential re-delivery for "
          <> next.desired.name
          <> " (epoch "
          <> show (claw_credentials_generation next)
          <> ")")
        next)
  pure next

unfoldable pub rotate_credentials : Bool → Call → String → String → M Fleet ClawRecord
unfolding rotating
rotate_credentials tx call id actor = serialize tx (rotating call id actor)

-- The claw that a request for removal leaves.
unfoldable pub leaving : ClawRecord → Timestamp → ClawRecord
leaving r now = record r {
  revision = some (revision_of r.revision + 1);
  desired = record r.desired { enabled = false; generation = r.desired.generation + 1 };
  observed = record r.observed {
    phase = deleting;
    message = "Removal requested; disabling child ingress before release";
    deletion =
        some (record {
          stage = disable;
          requested_at = now;
          last_attempt_at = none;
          drained_at = none;
        });
  };
  updated_at = now;
}

unfoldable pub removing : Call → String → String → String → M Fleet ClawRecord
removing call id actor confirmation = do
  current ← require_claw id
  throw_unless
      (str_eq confirmation current.desired.name || str_eq confirmation current.desired.slug)
      (request "typed confirmation must match the claw name or slug")
  let next = leaving current (iso call.now)
  let remove : M Fleet ClawRecord = (do
    put_claw id next
    audit call id
        (requested_event actor "claw.remove" ("Requested removal of " <> next.desired.name) next)
    pure next)
  if is_gone current.observed.phase || is_some current.observed.deletion
      then pure current
      else remove

unfoldable pub request_removal : Bool → Call → String → String → String → M Fleet ClawRecord
unfolding removing
request_removal tx call id actor confirmation = serialize tx (removing call id actor confirmation)

abbrev pub is_expected : Option ℕ → ℕ → Bool
is_expected none now = true
is_expected (some expected) now = now == expected

abbrev pub audit_if : Call → String → Option EventInput → M Fleet (Unit {0})
audit_if call id none = pure tt
audit_if call id (some e) = audit call id e

unfoldable pub writing :
    Call → String → ClawObserved → Option EventInput → Option ℕ → M Fleet ClawRecord
writing call id observed event expected_revision = do
  current ← require_claw id
  throw_unless (is_expected expected_revision (revision_of current.revision)) write_conflict
  let next : ClawRecord = record current {
    revision = some (revision_of current.revision + 1);
    observed = observed;
    updated_at = iso call.now;
  }
  put_claw id next
  audit_if call id event
  pure next

unfoldable pub write_observed :
    Bool → Call → String → ClawObserved → Option EventInput → Option ℕ → M Fleet ClawRecord
unfolding writing
write_observed tx call id observed event expected_revision =
    serialize tx (writing call id observed event expected_revision)
