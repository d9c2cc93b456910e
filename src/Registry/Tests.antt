-- ===== src/Registry/Tests.antt =====
-- The registry of claws on a sample claw.
use crabhelm.Registry.Conflicts.{write_observed_no_lost_update}
use crabhelm.Registry.Writes.{start, next, rotated, Run, observed, enabled}
use crabhelm.Registry.{
  Fleet, Call, request_removal, set_enabled, write_observed, rotate_credentials, require_claw,
  normalize_record, put_claw, revision_of, audit, leaving,
}
use crabhelm.Claw.Types.{ClawRecord, deleting, disable}
use crabhelm.Store.{lookup, register}
use crabhelm.Common.{◌+◌, true, ◌≡◌, ◌≤◌, ◌∷◌, some, none, arith, [], false, refl}
use crabhelm.Claw.Samples.{sample_claw}
use crabhelm.Effect.{err, ok}
use crabhelm.Errors.{request}
use crabhelm.Governance.Types.{iso}
use crabhelm.Registry.Removal.{request_removal_final}

abbrev one_claw : Fleet
one_claw = record { claws = record { key = "claw1"; value = sample_claw } ∷ []; events = [] }

abbrev at_nine : Call
at_nine = record { now = 9; event_id = "e1" }

abbrev removed_claw : ClawRecord
removed_claw = record sample_claw {
  revision = some 4;
  desired = record sample_claw.desired { enabled = false; generation = 3 };
  observed = record sample_claw.observed {
    phase = deleting;
    message = "Removal requested; disabling child ingress before release";
    deletion = some (record {
      stage = disable;
      requested_at = iso 9;
      last_attempt_at = none;
      drained_at = none;
    });
  };
  updated_at = iso 9;
}

abbrev after_removal : Fleet
after_removal = (request_removal true at_nine "claw1" "alice" "helper" one_claw).1

removes :
    request_removal true at_nine "claw1" "alice" "helper" one_claw
    ≡ (ok removed_claw, after_removal)
unfolding request_removal require_claw normalize_record put_claw audit leaving lookup register
removes = refl

-- The reconciler writes what it observed, and someone tries to enable the claw.
abbrev after_report : Fleet
after_report =
    (write_observed true at_nine "claw1" removed_claw.observed none (some 4) after_removal).1

abbrev after_attempt : Fleet
after_attempt = (set_enabled true at_nine "claw1" true "bob" after_report).1

abbrev later : Run true after_removal 2 after_attempt
later =
    next (next start (observed at_nine "claw1" removed_claw.observed none (some 4) refl))
      (enabled at_nine "claw1" true "bob" refl)

request_removal_final_example :
    (set_enabled true at_nine "claw1" true "alice" after_attempt
      ≡ (err (request "cannot change a deleting or deleted claw"), after_attempt))
    × (rotate_credentials true at_nine "claw1" "alice" after_attempt
        ≡ (err (request "cannot rotate credentials for a deleting or deleted claw"), after_attempt))
request_removal_final_example =
    request_removal_final true at_nine "claw1" "alice" "helper" one_claw removed_claw after_removal
      after_attempt 2 later removes ((tt, (λ same. refl)), tt) true at_nine true "alice"

claw_found : lookup "claw1" one_claw.claws ≡ some sample_claw
unfolding lookup
claw_found = refl

abbrev seen_claw : ClawRecord
seen_claw = record sample_claw { revision = some 4; updated_at = iso 9 }

abbrev after_write : Fleet
after_write = (write_observed true at_nine "claw1" sample_claw.observed none (some 3) one_claw).1

writes :
    write_observed true at_nine "claw1" sample_claw.observed none (some 3) one_claw
    ≡ (ok seen_claw, after_write)
unfolding write_observed require_claw normalize_record put_claw lookup register
writes = refl

-- A call that another claw's absence refuses.
refused_call : one_claw ≡ (rotate_credentials true at_nine "claw2" "alice" one_claw).1
unfolding rotate_credentials require_claw lookup
refused_call = refl

small : 3 + 1 ≤ 9007199254740991
small = omega arith

write_observed_no_lost_update_example :
    (lookup "claw1" one_claw.claws ≡ some sample_claw)
    × (lookup "claw1" after_write.claws ≡ some seen_claw)
    × (seen_claw ≡ record sample_claw {
      revision = some (revision_of sample_claw.revision + 1);
      observed = sample_claw.observed;
      updated_at = iso 9;
    })
write_observed_no_lost_update_example =
    write_observed_no_lost_update true 1 at_nine "claw1" sample_claw.observed none one_claw one_claw
      after_write sample_claw seen_claw claw_found
      (next start (rotated at_nine "claw2" "alice" refused_call)) small writes
