-- ===== src/Reconciler/Reports.antt =====
-- The write of a report while no other method changes the stores.
use crabhelm.Registry.{
  audit, Call, Fleet, revision_of, audit_if, write_observed, writing, is_expected, require_claw,
  EventInput, normalize_record, put_claw,
}
use crabhelm.Common.{refl, String, Bool, ◌≡◌, some, ◌+◌, Option, ap, none, true, arith, false}
use crabhelm.Claw.Types.{ClawRecord, ClawObserved}
use crabhelm.Reconciler.Round.{Round, Turn, write_report}
use crabhelm.Reconciler.Provider.{Report}
use crabhelm.Store.{lookup, register}
use crabhelm.Governance.Types.{iso}
use crabhelm.Effect.{ok, serialize, M, ◌>>◌, roll_back, pure}
use crabhelm.Store.Laws.{lookup-register_self}
use crabhelm.Registry.Writes.{revision_of_safe}

-- A claw after a write of what was observed of it.
abbrev pub observed_as : Call → ClawRecord → ClawObserved → ClawRecord
observed_as call c o = record c {
  revision = some (revision_of c.revision + 1);
  observed = o;
  updated_at = iso call.now;
}

-- The stores after such a write.
unfoldable pub stored : Call → String → ClawRecord → Report → Fleet → Fleet
unfolding audit
stored call id c report s =
    (audit_if call id report.event
      (record s { claws = register id (observed_as call c report.observed) s.claws })).1

abbrev no_conflict : ClawRecord → Bool
no_conflict c = is_expected (some (revision_of c.revision)) (revision_of c.revision)

pub lookup-stored :
    (call : Call) (id : String) (c : ClawRecord) (report : Report) (s : Fleet)
    → lookup id (stored call id c report s).claws ≡ some (observed_as call c report.observed)
unfolding stored audit
lookup-stored call id c report s = go report.event
  where
    go :
        (event : Option EventInput)
        → lookup id
            (audit_if call id event (record s {
              claws = register id (observed_as call c report.observed) s.claws;
            })).1.claws
          ≡ some (observed_as call c report.observed)
    go none = lookup-register_self id (observed_as call c report.observed) s.claws
    go (some e) = lookup-register_self id (observed_as call c report.observed) s.claws

audit_if-ok :
    (call : Call) (id : String) (event : Option EventInput) (next : ClawRecord) (s : Fleet)
    → (audit_if call id event >> pure next) s ≡ (ok next, (audit_if call id event s).1)
unfolding audit
audit_if-ok call id none next s = refl
audit_if-ok call id (some e) next s = refl

serialize_of_ok :
    {S A : Type 0} (tx : Bool) (m : M S A) (s : S) {a : A} {t : S}
    → m s ≡ (ok a, t)
    → serialize tx m s ≡ (ok a, t)
serialize_of_ok true m s e = ap (roll_back s) e
serialize_of_ok false m s e = e

writing_of_read :
    (call : Call) (id : String) (c : ClawRecord) (report : Report) (s : Fleet)
    → lookup id s.claws ≡ some c
    → writing call id report.observed report.event (some (revision_of c.revision)) s
      ≡ (ok (observed_as call c report.observed), stored call id c report s)
unfolding writing require_claw normalize_record put_claw stored
writing_of_read call id c report s found =
    let next = observed_as call c report.observed in
    let safe = revision_of_safe c.revision in
    let last =
      audit_if-ok call id report.event next (record s { claws = register id next s.claws }) in
    ground (arith, last)

-- The claw that a round works on: the stored one as it is read, but for what was observed.
pub record IsSeen (id : String) (c seen : ClawRecord) : Type 0 where
  pub is_id : seen.id ≡ id
  pub is_read : seen.revision ≡ some (revision_of c.revision)
  pub is_desired : seen.desired ≡ c.desired

module _ (tx : Bool) (round : Round) (turn : Turn) (id : String) (c : ClawRecord) (s : Fleet) where
  pub write_report_stores :
      (seen : ClawRecord) (report : Report)
      → turn.others s ≡ s
      → lookup id s.claws ≡ some c
      → IsSeen id c seen
      → write_report tx round turn seen report s
        ≡ (ok (observed_as turn.call c report.observed), stored turn.call id c report s)
  unfolding write_report write_observed stored
  write_report_stores seen report alone found is =
      rw (alone, is.is_id, is.is_read)
        (serialize_of_ok tx
          (writing turn.call id report.observed report.event (some (revision_of c.revision))) s
          (writing_of_read turn.call id c report s found))
