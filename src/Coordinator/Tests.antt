-- ===== src/Coordinator/Tests.antt =====
-- Tests of the coordinator and concrete instances of its theorems.
use crabhelm.Coordinator.Tables.{
  delivered, Tables, EnqueueTurnInput, SlackAnswer, Env, schedule_cleanup, byte_length, completed,
  Job, JobStatus, DeliveryStatus,
}
use crabhelm.Common.{
  ℕ, List, find, [], some, none, true, ◌∷◌, false, ◌≡◌, arith, trim, clip, map, refl,
}
use crabhelm.Effect.{Result, ok}
use crabhelm.Coordinator.Completion.{CompletionInput, complete}
use crabhelm.Coordinator.Rows.{IsSound}
use crabhelm.Coordinator.Calls.{
  perform_all, calls_keep_jobs-IsSound, perform, Call, enqueued, claimed, started, finished, rang,
}
use crabhelm.Coordinator.Sql.{limit, update_where, count_where, order_by, insert_by, delete_where}
use crabhelm.Coordinator.Attempts.{waits_at, deliver_each, deliveries_end}
use crabhelm.Coordinator.Soundness.{IsCalm}
use crabhelm.Coordinator.Jobs.{enqueue_turn, validate_turn, end_waiting}
use crabhelm.Coordinator.Runtime.{claim, start}
use crabhelm.Coordinator.Delivery.{
  on_alarm, deliver_pending, clean_up, can_deliver, outcome_of, slack_delivery_retryable, fail_job,
}
use crabhelm.Coordinator.Interleaving.{enqueuing, enqueuing-IsCalm, alone-IsCalm}

abbrev at_time : ℕ → Result SlackAnswer → Env
at_time now answer = record {
  now = now;
  encrypt = λ context prompt. ok prompt;
  decrypt = λ context envelope. ok envelope;
  chunks = λ message. message.prompt ∷ [];
  slack_mode = none;
  slack_bot_token = some "xoxb";
  post = λ channel thread text. answer;
  send_error = none;
  others = λ t. t;
}

abbrev good_answer : Result SlackAnswer
good_answer = ok (record { status = 200; is_ok = true; ok = true; error = none })

abbrev busy_answer : Result SlackAnswer
busy_answer = ok (record { status = 429; is_ok = false; ok = false; error = some "ratelimited" })

abbrev no_rows : Tables
no_rows = record {
  grants = [];
  runs = [];
  refreshes = [];
  tickets = [];
  jobs = [];
  reset_generation = 0;
  alarm = none;
}

abbrev a_turn : EnqueueTurnInput
a_turn = record {
  id = "job1";
  event_id = "ev1";
  claw_id = "claw1";
  requester_id = "alice";
  persona_id = "helper";
  prompt = "hello";
  turn_token = "token";
  source = record { surface = "slack"; workspace_id = "T1"; channel_id = "C1"; thread_ts = "1.2" };
  expires_at = 1000000;
}

abbrev an_answer : CompletionInput
an_answer = record { id = some "job1"; ok = true; output = some "done"; error = none }

-- Another turn, which is enqueued while the answer is encrypted or sent to Slack.
abbrev another_turn : EnqueueTurnInput
another_turn = record a_turn { id = "job2"; event_id = "ev2" }

abbrev busy_at : ℕ → Result SlackAnswer → Env
busy_at now answer = enqueuing (at_time now answer) another_turn

abbrev a_day : List (Env × Call)
a_day =
    (at_time 10 good_answer, enqueued a_turn)
    ∷ (at_time 20 good_answer, claimed "rt1")
    ∷ (at_time 30 good_answer, started "rt1" "job1")
    ∷ (busy_at 40 busy_answer, finished "rt1" an_answer)
    ∷ (busy_at 100 good_answer, rang)
    ∷ []

busy_at-IsCalm : (now : ℕ) (answer : Result SlackAnswer) → IsCalm (busy_at now answer)
busy_at-IsCalm now answer = enqueuing-IsCalm (at_time now answer) another_turn

calls_keep_jobs-IsSound_example : IsSound (perform_all a_day no_rows)
calls_keep_jobs-IsSound_example =
    calls_keep_jobs-IsSound a_day no_rows
      (
        alone-IsCalm (at_time 10 good_answer),
        (
          alone-IsCalm (at_time 20 good_answer),
          (
            alone-IsCalm (at_time 30 good_answer),
            (busy_at-IsCalm 40 busy_answer, (busy_at-IsCalm 100 good_answer, tt)),
          ),
        ),
      )
      (tt, tt)

abbrev brief : Job → JobStatus × DeliveryStatus × ℕ
brief j = (j.status, j.delivery_status, j.delivery_attempts)

-- Slack was busy when the turn was completed, and took the answer when the alarm rang.
a_day_delivers :
    map brief (perform_all a_day no_rows).jobs
    ≡ (completed, delivered, 1) ∷ (JobStatus.pending, DeliveryStatus.idle, 0) ∷ []
unfolding perform_all perform enqueue_turn validate_turn schedule_cleanup claim start complete
    on_alarm deliver_pending update_where count_where trim byte_length order_by insert_by limit
    clean_up delete_where can_deliver outcome_of slack_delivery_retryable end_waiting fail_job clip
a_day_delivers = refl

abbrev waiting_rows : Tables
waiting_rows =
    perform_all
      ((at_time 10 good_answer, enqueued a_turn)
        ∷ (at_time 20 good_answer, claimed "rt1")
        ∷ (at_time 30 good_answer, started "rt1" "job1")
        ∷ (at_time 40 busy_answer, finished "rt1" an_answer)
        ∷ [])
      no_rows

deliveries_end_example :
    find
      (waits_at "job1")
      (deliver_each
        (at_time 50 busy_answer
          ∷ at_time 60 busy_answer
          ∷ at_time 70 busy_answer
          ∷ at_time 80 busy_answer
          ∷ at_time 90 busy_answer
          ∷ [])
        "job1"
        waiting_rows).jobs
    ≡ none
deliveries_end_example =
    deliveries_end "job1"
      (at_time 50 busy_answer
        ∷ at_time 60 busy_answer
        ∷ at_time 70 busy_answer
        ∷ at_time 80 busy_answer
        ∷ at_time 90 busy_answer
        ∷ [])
      waiting_rows ((λ t. refl), ((λ t. refl), ((λ t. refl), ((λ t. refl), ((λ t. refl), tt)))))
      (omega arith)
