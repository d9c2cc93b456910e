-- ===== src/GovernanceRegistry/Tests/Delegation.antt =====
-- Confirmations, invocations and OAuth states on sample stores.
use crabhelm.GovernanceRegistry.Confirmations.OneUse.{Run, start, next, created, decided}
use crabhelm.Governance.Types.{Timestamp, Provider, iso, invoker}
use crabhelm.GovernanceRegistry.Confirmations.{
  use_confirmation, create_confirmation, decide_confirmation, put_confirmation, decide_pending,
  is_expected,
}
use crabhelm.GovernanceRegistry.Stores.{Stores, require_confirmation, require_principal, audit}
use crabhelm.Store.{lookup, delete, register}
use crabhelm.GovernanceRegistry.Confirmations.Runs.{
  HasApproval, granted_was_approved, use_confirmation_once,
}
use crabhelm.GovernanceRegistry.Types.{
  InvocationStatus, OAuthStateRecord, ConfirmationRecord, InvocationRecord, ConfirmationStatus,
  used, pending, running,
}
use crabhelm.GovernanceRegistry.OAuthStates.{create_oauth_state, consume_oauth_state}
use crabhelm.Common.{◌<◌, true, ◌≡◌, false, arith, none, some, ◌∷◌, ◌≢◌, inl, [], refl, String}
use crabhelm.GovernanceRegistry.Samples.{
  as_asked, with_confirmation, empty, people, comment, at_time, entry,
}
use crabhelm.GovernanceRegistry.Invocations.{InvocationPatch}
use crabhelm.GovernanceRegistry.Invocations.Finality.{update_all, update_invocation_final}
use crabhelm.Store.Laws.{IsKeyed}
use crabhelm.Effect.{ok, err}
use crabhelm.Errors.{other}
use crabhelm.GovernanceRegistry.OAuthStates.Consumption.{
  consume_oauth_state_once, create_oauth_state_consumed,
}
use crabhelm.GovernanceRegistry.Confirmations.Expiry.{decide_confirmation_expired, Refuses, IsLate}

abbrev approved_at : Timestamp → ConfirmationRecord
approved_at t = comment ConfirmationStatus.approved (some t)

abbrev spent_at : Timestamp → ConfirmationRecord
spent_at t = comment used (some t)

used_first :
    use_confirmation true (at_time 50 "x") "f1" as_asked (with_confirmation (approved_at (iso 20)))
    ≡ (ok (spent_at (iso 20)), with_confirmation (spent_at (iso 20)))
unfolding use_confirmation require_confirmation put_confirmation is_expected lookup register
used_first = refl

use_confirmation_once_example :
    use_confirmation true (at_time 51 "x") "f1" as_asked (with_confirmation (spent_at (iso 20)))
    ≢ (ok (spent_at (iso 20)), with_confirmation (spent_at (iso 20)))
use_confirmation_once_example =
    use_confirmation_once true (at_time 50 "x") (at_time 51 "x") "f1" as_asked as_asked
      (with_confirmation (approved_at (iso 20))) (with_confirmation (spent_at (iso 20)))
      (with_confirmation (spent_at (iso 20))) (with_confirmation (spent_at (iso 20)))
      (spent_at (iso 20)) (spent_at (iso 20)) used_first start

-- A run that creates a confirmation and approves it.
abbrev asked : Stores
asked = with_confirmation (comment pending none)

abbrev approving : Stores
approving = (decide_confirmation true (at_time 20 "x") "f1" "p1" true asked).1

creates : asked ≡ (create_confirmation (at_time 10 "f1") (comment used none) empty).1
unfolding create_confirmation put_confirmation register
creates = refl

none_yet : lookup "f1" empty.confirmations ≡ none
unfolding lookup
none_yet = refl

abbrev approval : Run true empty approving
approval =
    next (next start (created (at_time 10 "f1") (comment used none) none_yet creates))
      (decided (at_time 20 "x") "f1" "p1" true refl)

approval_found : lookup "f1" approving.confirmations ≡ some (approved_at (iso 20))
unfolding decide_confirmation decide_pending require_confirmation put_confirmation audit lookup
    register
approval_found = refl

granted_was_approved_example : HasApproval true "f1" "p1" approval
granted_was_approved_example =
    granted_was_approved true "f1" approval (approved_at (iso 20)) none_yet approval_found
      (inl refl)

decides :
    decide_confirmation true (at_time 20 "x") "f1" "p1" true asked
    ≡ (ok (approved_at (iso 20)), approving)
unfolding decide_confirmation decide_pending require_confirmation put_confirmation audit lookup
    register
decides = refl

asked_found : lookup "f1" asked.confirmations ≡ some (comment pending none)
unfolding lookup
asked_found = refl

decide_confirmation_expired_example :
    Refuses (at_time 100 "x") "f1" asked (decide_confirmation true (at_time 100 "x") "f1" "p1" true)
    × IsLate
        (at_time 100 "x")
        "f1"
        asked
        "p1"
        (comment pending none)
        (decide_confirmation false (at_time 100 "x") "f1" "p1" true)
decide_confirmation_expired_example =
    decide_confirmation_expired (at_time 100 "x") "f1" asked "p1" true (comment pending none)
      asked_found refl

abbrev run_of : InvocationStatus → InvocationRecord
run_of status = record {
  id = "i1";
  claw_id = "claw1";
  requester_id = "p1";
  persona_id = "a1";
  actor_id = "p1";
  actor_mode = invoker;
  fallback_used = false;
  capability_id = "github.issue.read";
  target = "org/repo#1";
  arguments_digest = "g1";
  policy_revision = 1;
  confirmation_id = none;
  status = status;
  issued_at = iso 1;
  expires_at = iso 2;
  completed_at = none;
}

abbrev to_status : InvocationStatus → InvocationPatch
to_status status = record {
  claw_id = none;
  requester_id = none;
  persona_id = none;
  actor_id = none;
  actor_mode = none;
  fallback_used = none;
  capability_id = none;
  target = none;
  arguments_digest = none;
  policy_revision = none;
  confirmation_id = none;
  status = some status;
  issued_at = none;
  expires_at = none;
  completed_at = none;
}

abbrev finished : Stores
finished = record empty { invocations = entry "i1" (run_of InvocationStatus.succeeded) ∷ [] }

finished_found : lookup "i1" finished.invocations ≡ some (run_of InvocationStatus.succeeded)
unfolding lookup
finished_found = refl

update_invocation_final_example :
    lookup "i1"
      (update_all true
        (("i1", to_status InvocationStatus.failed) ∷ ("i2", to_status running) ∷ [])
        finished).invocations
    ≡ some (run_of InvocationStatus.succeeded)
update_invocation_final_example =
    update_invocation_final "i1" (run_of InvocationStatus.succeeded) refl true
      (("i1", to_status InvocationStatus.failed) ∷ ("i2", to_status running) ∷ []) finished
      finished_found

abbrev state_of : OAuthStateRecord
state_of = record {
  id = "t1";
  principal_id = "p1";
  provider = Provider.github;
  created_at = iso 5;
  expires_at = iso 600005;
}

abbrev with_state : Stores
with_state = record people { oauth_states = entry "t1" state_of ∷ [] }

creates_state : create_oauth_state (at_time 5 "t1") "p1" people ≡ (ok state_of, with_state)
unfolding create_oauth_state require_principal lookup register
creates_state = refl

early : 600004 < 600005
early = omega arith

create_oauth_state_consumed_example :
    (consume_oauth_state true (at_time 600004 "x") "t1" "p1" with_state
      ≡ (ok state_of, record with_state { oauth_states = delete "t1" with_state.oauth_states }))
    × ((p : String)
        → p ≢ "p1"
        → consume_oauth_state true (at_time 600004 "x") "t1" p with_state
          ≡ (err (other "OAuth state is invalid or expired"), with_state))
create_oauth_state_consumed_example =
    create_oauth_state_consumed true (at_time 5 "t1") (at_time 600004 "x") "p1" people with_state
      state_of creates_state early

state-IsKeyed : IsKeyed with_state.oauth_states
unfolding lookup
state-IsKeyed = (refl, tt)

consumes : consume_oauth_state true (at_time 9 "x") "t1" "p1" with_state ≡ (ok state_of, people)
unfolding consume_oauth_state lookup delete
consumes = refl

consume_oauth_state_once_example :
    consume_oauth_state true (at_time 10 "x") "t1" "p1" people ≢ (ok state_of, people)
consume_oauth_state_once_example =
    consume_oauth_state_once true (at_time 9 "x") (at_time 10 "x") "t1" "p1" "p1" with_state people
      people state_of state_of state-IsKeyed consumes
