-- ===== src/Coordinator/Calls.antt =====
-- Any sequence of the coordinator's calls keeps the rows of its jobs sound.
use crabhelm.Coordinator.Tables.{EnqueueTurnInput, Env, Tables}
use crabhelm.Coordinator.Jobs.{enqueue_turn, cancel_pending, prepare_for_removal}
use crabhelm.Common.{List, String, [], ◌∷◌}
use crabhelm.Coordinator.Completion.{CompletionInput, complete}
use crabhelm.Coordinator.Delivery.{cancel_active_turns, on_alarm}
use crabhelm.Coordinator.Soundness.{
  IsCalm, enqueue_turn-IsSound, cancel_pending-IsSound, prepare_for_removal-IsSound,
}
use crabhelm.Coordinator.Rows.{IsSound}
use crabhelm.Coordinator.Runtime.{claim, start, socket_closed, restart_runtime_connections}
use crabhelm.Coordinator.Alarms.{
  cancel_active_turns-IsSound, socket_closed-IsSound, restart-IsSound, on_alarm-IsSound,
}
use crabhelm.Coordinator.Offers.{claim-IsSound, start-IsSound}
use crabhelm.Coordinator.Answers.{complete-IsSound}

-- A call that changes the jobs: of the worker, of a runtime, or of the clock.
pub data Call : Type 0 where
  enqueued : EnqueueTurnInput → Call
  cancelled reset removed : String → Call
  claimed closed : String → Call
  started : (runtime_id id : String) → Call
  finished : (runtime_id : String) → CompletionInput → Call
  restarted rang : Call

unfoldable pub perform : Env → Call → Tables → Tables
unfolding enqueue_turn cancel_pending cancel_active_turns prepare_for_removal claim start complete
    socket_closed restart_runtime_connections on_alarm
perform env (enqueued input) t = (enqueue_turn env input t).1
perform env (cancelled reason) t = (cancel_pending env reason t).1
perform env (reset reason) t = (cancel_active_turns env reason t).1
perform env (removed reason) t = (prepare_for_removal env reason t).1
perform env (claimed runtime_id) t = (claim env runtime_id t).1
perform env (closed runtime_id) t = (socket_closed env runtime_id t).1
perform env (started runtime_id id) t = (start env runtime_id id t).1
perform env (finished runtime_id input) t = (complete env runtime_id input t).1
perform env restarted t = (restart_runtime_connections env t).1
perform env rang t = (on_alarm env t).1

unfoldable pub perform_all : List (Env × Call) → Tables → Tables
unfolding perform
perform_all [] t = t
perform_all ((env, call) ∷ calls) t = perform_all calls (perform env call t)

perform-IsSound :
    (env : Env) (call : Call) (t : Tables) → IsCalm env → IsSound t → IsSound (perform env call t)
unfolding perform
perform-IsSound env (enqueued input) t calm h = enqueue_turn-IsSound env calm input t h
perform-IsSound env (cancelled reason) t calm h = cancel_pending-IsSound env calm reason t h
perform-IsSound env (reset reason) t calm h = cancel_active_turns-IsSound env calm reason t h
perform-IsSound env (removed reason) t calm h = prepare_for_removal-IsSound env calm reason t h
perform-IsSound env (claimed runtime_id) t calm h = claim-IsSound env calm runtime_id t h
perform-IsSound env (closed runtime_id) t calm h = socket_closed-IsSound env calm runtime_id t h
perform-IsSound env (started runtime_id id) t calm h = start-IsSound env calm runtime_id id t h
perform-IsSound env (finished runtime_id input) t calm h =
    complete-IsSound env calm runtime_id input t h
perform-IsSound env restarted t calm h = restart-IsSound env calm t h
perform-IsSound env rang t calm h = on_alarm-IsSound env calm t h

abbrev pub AllCalm : List (Env × Call) → Type 0
AllCalm [] = Unit {0}
AllCalm ((env, call) ∷ calls) = IsCalm env × AllCalm calls

-- Whatever sequence of calls the coordinator answers, whatever the envelopes, Slack and the sockets
-- make of each, and whether it throws or not, the rows of its jobs stay sound: no two have the same
-- id, a job that waits or runs has no outcome, one that is offered or runs has a runtime and the time
-- of its claim, and one that has ended has the time of its end, an answer to deliver or a delivery
-- that is over, and an error exactly where it failed. What other calls do while a call awaits
-- something keeps the rows sound, and leaves every job that is there and has ended so, under its id;
-- they may add jobs under other ids.
pub calls_keep_jobs-IsSound :
    (calls : List (Env × Call)) (t : Tables)
    → AllCalm calls
    → IsSound t
    → IsSound (perform_all calls t)
unfolding perform_all
calls_keep_jobs-IsSound [] t calm h = h
calls_keep_jobs-IsSound ((env, call) ∷ calls) t (calm, rest) h =
    calls_keep_jobs-IsSound calls (perform env call t) rest (perform-IsSound env call t calm h)
