-- ===== src/Registry/Creation/Tests.antt =====
-- A claw created beside another.
use crabhelm.Registry.Creation.Targets.{IsConfigured, create-IsConfigured}
use crabhelm.Registry.{Fleet, Call, put_claw, audit}
use crabhelm.Registry.Creation.{
  Options, create, with_default_deployment, assert_deployment, target_named, check_target, is_taken,
}
use crabhelm.Claw.Create.Shape.{IsNew}
use crabhelm.Store.{lookup, register, values}
use crabhelm.Registry.Creation.Slugs.{AreUnique, create-AreUnique}
use crabhelm.Common.{some, true, arith, none, eq_iff, ◌∷◌, [], ◌≡◌, any, false}
use crabhelm.Claw.Samples.{sample_claw, plain_setting, second_claw, small_request}
use crabhelm.Governance.Types.{iso}
use crabhelm.Claw.Types.{Outcome}
use crabhelm.Effect.{ok}
use crabhelm.Claw.Create.Tests.{second_created}
use crabhelm.Claw.Create.{create_claw_record}

abbrev one_claw : Fleet
one_claw = record { claws = record { key = "claw1"; value = sample_claw } ∷ []; events = [] }

abbrev at_nine : Call
at_nine = record { now = 9; event_id = "e1" }

abbrev one_target : Options
one_target = record {
  targets = some (("default", record { profile = "openclaw-core"; region = none }) ∷ []);
  default_deployment = none;
}

abbrev after_creation : Fleet
after_creation = record {
  claws =
      record { key = "claw1"; value = sample_claw }
      ∷ record { key = "claw2"; value = second_claw }
      ∷ [];
  events =
      record {
        key = "e1";
        value = record {
          id = "e1";
          claw_id = some "claw2";
          at = iso 9;
          actor = "alice";
          action = "claw.create";
          outcome = Outcome.requested;
          summary = "Requested Second Helper";
          generation = some 1;
          details = [];
        };
      }
      ∷ [];
}

creates :
    create true one_target plain_setting at_nine small_request "alice" one_claw
    ≡ (ok second_claw, after_creation)
unfolding create with_default_deployment assert_deployment target_named check_target put_claw audit
    register values
creates = simp (second_created)

create-IsConfigured_example :
    (create_claw_record plain_setting (with_default_deployment one_target small_request)
      ≡ ok second_claw)
    × IsNew plain_setting second_claw
    × IsConfigured one_target.targets second_claw.desired.deployment
    × (any (is_taken "second-helper") (values one_claw.claws) ≡ false)
    × (after_creation.claws ≡ register "claw2" second_claw one_claw.claws)
create-IsConfigured_example =
    create-IsConfigured true one_target plain_setting at_nine small_request "alice" one_claw
      second_claw after_creation creates

one_unique : AreUnique one_claw.claws
unfolding lookup
one_unique j k c d e e' live live' same = ground (arith, eq_iff "claw1" j, eq_iff "claw1" k)

create-AreUnique_example :
    AreUnique (create true one_target plain_setting at_nine small_request "alice" one_claw).1.claws
create-AreUnique_example =
    create-AreUnique true one_target plain_setting at_nine small_request "alice" one_claw one_unique
