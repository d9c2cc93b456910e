-- ===== src/Coordinator/Delivery.antt =====
-- The delivery of a job's answer to Slack, and the jobs that fail: `#deliverPending`, `#failJob`,
-- cancelActiveTurns and alarm (worker/claw-coordinator.ts), slackDeliveryRetryable
-- (worker/slack-delivery.ts) and slackIngressEnabled (worker/slack-config.ts).
use crabhelm.Common.{
  ℕ, Option, trim, Bool, String, ◌==◌, true, ◌&&◌, none, str_eq, false, ◌||◌, some, not, clip, leb,
  ◌+◌, List, ltb, str_in, or_else, if◌then◌else◌, ◌∷◌, [], find, any, select, length,
}
use crabhelm.Effect.{Result, M, err, bind_result, ok, pure, write, ◌>>=◌, ◌>>◌, read}
use crabhelm.Coordinator.Tables.{
  Env, DeliveryStatus, Job, SlackAnswer, schedule_cleanup, JobStatus, Tables, delivered, is_blank,
  set_jobs, encrypted, await,
}
use crabhelm.Coordinator.Sql.{update_where, delete_where, count_where, order_by, limit}
use crabhelm.Coordinator.Jobs.{
  cancel_pending, end_waiting, is_running, response_context, is_offered, awaits_delivery, ended,
  has_work, is_waiting, next_reset,
}

unfoldable pub slack_delivery_retryable : ℕ → Option String → Bool
slack_delivery_retryable status code =
    status == 429
    || leb 500 status
    || str_in (or_else code "") (
        "fatal_error" ∷ "internal_error" ∷ "ratelimited" ∷ "request_timeout" ∷ "service_unavailable"
        ∷ [])

abbrev pub slack_ingress_enabled : Option String → Bool
slack_ingress_enabled none = true
slack_ingress_enabled (some mode) = str_eq mode "on"

unfoldable pub can_deliver : Env → Job → Bool
unfolding trim
can_deliver env job =
    slack_ingress_enabled env.slack_mode
    && str_eq job.source.surface "slack"
    && not (is_blank (trim (or_else env.slack_bot_token "")))

-- What a delivery came to: it was taken, or it failed and may be tried again or not.
pub data Delivered : Type 0 where
  taken : Delivered
  refused : Bool → Delivered

unfoldable pub outcome_of : Result SlackAnswer → Delivered
unfolding slack_delivery_retryable
outcome_of (err e) = refused true
outcome_of (ok answer) =
    if answer.is_ok && answer.ok
    then taken
    else refused (slack_delivery_retryable answer.status answer.error)

abbrev pub posted : Env → Job → Result SlackAnswer
posted env job =
    bind_result (env.decrypt (response_context job.id) (or_else job.response_envelope ""))
      λ text. env.post job.source.channel_id job.source.thread_ts text

abbrev pub with_delivery : DeliveryStatus → Job → Job
with_delivery status j = record j {
  delivery_status = status;
  payload_envelope = none;
  response_envelope = none;
}

abbrev pub at_id : String → (Job → Job) → M Tables (Unit {0})
at_id id set = set_jobs (update_where (λ j. str_eq j.id id) set)

abbrev pub after_delivery : Env → Job → Delivered → M Tables (Unit {0})
after_delivery env job taken = at_id job.id (with_delivery delivered)
after_delivery env job (refused retryable) =
    let attempts = job.delivery_attempts + 1 in
    if not retryable || leb 5 attempts
    then at_id job.id
        (λ j. with_delivery DeliveryStatus.failed (record j { delivery_attempts = attempts }))
    else (set_jobs (
          update_where (λ j. str_eq j.id job.id && awaits_delivery j.delivery_status)
            (λ j. record j { delivery_attempts = attempts }))
        >> schedule_cleanup env.now)

abbrev pub delivering : Env → Option Job → M Tables (Unit {0})
delivering env none = pure tt
delivering env (some job) =
    if can_deliver env job
    then (await env >> after_delivery env job (outcome_of (posted env job)))
    else at_id job.id (with_delivery DeliveryStatus.failed)

unfoldable pub deliver_pending : Env → String → M Tables (Unit {0})
unfolding can_deliver outcome_of update_where schedule_cleanup
deliver_pending env id = do
  job ← read (λ t. find (λ j. str_eq j.id id && awaits_delivery j.delivery_status) t.jobs)
  delivering env job

abbrev pub failure_notice : String
failure_notice = "Crabhelm could not complete this request. Please retry."

abbrev pub is_running_at : String → Job → Bool
is_running_at id j = str_eq j.id id && is_running j.status

-- A job that was read as running fails, unless it is no longer running.
unfoldable pub fail_job : Env → String → Job → M Tables (Unit {0})
unfolding deliver_pending update_where count_where clip
fail_job env reason job = do
  envelope ← encrypted env (response_context job.id) failure_notice
  written ← read (λ t. count_where (is_running_at job.id) t.jobs)
  set_jobs (update_where (is_running_at job.id) (ended env.now envelope (clip 500 reason)))
  if written == 1 then deliver_pending env job.id else pure tt

-- `for (const job of jobs) await f(job)`.
abbrev pub each : (Job → M Tables (Unit {0})) → List Job → M Tables (Unit {0})
each f [] = pure tt
each f (job ∷ jobs) = let rest = each f jobs in f job >> rest

unfoldable pub cancel_active_turns : Env → String → M Tables ℕ
unfolding cancel_pending fail_job
cancel_active_turns env reason = do
  next_reset
  waiting ← cancel_pending env reason
  jobs ← read (λ t. select (λ j. is_running j.status) t.jobs)
  each (fail_job env reason) jobs
  pure (waiting + length jobs)

abbrev pub before : ℕ → ℕ → Option ℕ → Bool
before age now none = false
before age now (some at) = ltb (at + age) now

abbrev pub released : Job → Job
released j = record j { status = JobStatus.pending; runtime_id = none; claimed_at = none }

abbrev pub expired_notice : String
expired_notice = "This request expired before the teammate could process it. Please retry."

abbrev pub is_over : DeliveryStatus → Bool
is_over delivered = true
is_over DeliveryStatus.failed = true
is_over _ = false

-- The clean-up of the tables: what has expired goes at once, a run after a week, a job after a day.
unfoldable pub clean_up : ℕ → M Tables (Unit {0})
unfolding delete_where
clean_up now = write λ t. record t {
  grants = delete_where (λ r. ltb r.expires_at now) t.grants;
  refreshes = delete_where (λ r. ltb r.expires_at now) t.refreshes;
  tickets = delete_where (λ r. ltb r.expires_at now) t.tickets;
  runs = delete_where (λ r. before 604800000 now r.completed_at) t.runs;
  jobs = delete_where (λ j. before 86400000 now j.completed_at && is_over j.delivery_status) t.jobs;
}

abbrev pub set_alarm : ℕ → M Tables (Unit {0})
set_alarm now =
    write λ t. if any has_work t.jobs then record t { alarm = some (now + 60000) } else t

-- Offers that were not taken up within 30 seconds are released.
abbrev pub is_stale : ℕ → Job → Bool
is_stale now j = is_offered j.status && before 30000 now j.claimed_at

-- A turn that has run for 17 minutes has stalled.
abbrev pub is_stalled : ℕ → Job → Bool
is_stalled now j = is_running j.status && before 1020000 now j.claimed_at

abbrev pub fail_stalled : Env → M Tables (Unit {0})
fail_stalled env = do
  stalled ← read (λ t. select (is_stalled env.now) t.jobs)
  each (fail_job env "runtime turn timed out") stalled

abbrev pub end_expired : Env → M Tables (Unit {0})
end_expired env = do
  expired ← read (λ t. select (λ j. is_waiting j.status && leb j.expires_at env.now) t.jobs)
  end_waiting env expired_notice "turn expired" expired

abbrev pub deliver_answered : Env → M Tables (Unit {0})
deliver_answered env = do
  answered ← read (λ t. limit 20 (
      order_by (λ j. or_else j.completed_at 0)
        (select (λ j. awaits_delivery j.delivery_status) t.jobs)))
  each (λ j. deliver_pending env j.id) answered

-- Statements one after the other.
abbrev pub in_turn : List (M Tables (Unit {0})) → M Tables (Unit {0})
in_turn [] = pure tt
in_turn (m ∷ ms) = let rest = in_turn ms in m >> rest

abbrev pub alarm_steps : Env → List (M Tables (Unit {0}))
alarm_steps env =
    write (λ t. record t { alarm = none })
    ∷ set_jobs (update_where (is_stale env.now) released)
    ∷ fail_stalled env
    ∷ end_expired env
    ∷ deliver_answered env
    ∷ clean_up env.now
    ∷ set_alarm env.now
    ∷ []

-- The alarm that has rung is no longer set.
unfoldable pub on_alarm : Env → M Tables (Unit {0})
unfolding update_where fail_job end_waiting order_by limit deliver_pending clean_up
on_alarm env = in_turn (alarm_steps env)
