-- ===== src/Coordinator/Jobs.antt =====
-- The jobs of the coordinator and their offers to a runtime: enqueueTurn, runtimeStatus, jobStatus,
-- cancelPending, prepareForRemoval, the release of offers, `#claim` and `#start`
-- (worker/claw-coordinator.ts).
use crabhelm.Coordinator.Tables.{
  byte_length, Env, EnqueueTurnInput, Job, schedule_cleanup, JobStatus, DeliveryStatus, Tables,
  idle, encrypted, set_jobs, offered, is_blank, constraint_failed, SlackTurnSource, cleanup_if,
}
use crabhelm.Common.{
  ℕ, Option, String, trim, some, List, Bool, ◌<>◌, clip, none, any, ◌++◌, true, ◌||◌, is_some,
  or_else, str_eq, ◌∷◌, false, select, ◌+◌, not, [], find, ◌&&◌, if◌then◌else◌, leb, length, ltb,
}
use crabhelm.Coordinator.Sql.{count_where, update_where}
use crabhelm.Effect.{M, pure, read, write, ◌>>=◌, ◌>>◌, throw_unless, Result, lift, err, ok}
use crabhelm.Errors.{other}
use crabhelm.Claw.Policies.{units}

abbrev has_identity : EnqueueTurnInput → Bool
has_identity input =
    not (is_blank input.id)
    && not (is_blank input.event_id)
    && not (is_blank input.claw_id)
    && not (is_blank input.requester_id)
    && not (is_blank input.persona_id)
    && not (is_blank input.turn_token)

abbrev is_from_slack : SlackTurnSource → Bool
is_from_slack source =
    str_eq source.surface "slack"
    && not (is_blank source.workspace_id)
    && not (is_blank source.channel_id)
    && not (is_blank source.thread_ts)

unfoldable pub validate_turn : Env → EnqueueTurnInput → Result (Unit {0})
unfolding byte_length trim
validate_turn env input =
    if not (has_identity input)
    then err (other "turn identity is incomplete")
    else if is_blank (trim input.prompt) || ltb 49152 (byte_length input.prompt)
    then err (other "turn prompt is invalid")
    else if leb input.expires_at env.now || ltb (env.now + 3600000) input.expires_at
    then err (other "turn expiry is invalid")
    else if not (is_from_slack input.source)
    then err (other "turn source is invalid")
    else ok tt

abbrev pub new_job : Env → EnqueueTurnInput → String → Job
new_job env input payload = record {
  id = input.id;
  event_id = input.event_id;
  claw_id = input.claw_id;
  requester_id = input.requester_id;
  persona_id = input.persona_id;
  status = JobStatus.pending;
  turn_token = input.turn_token;
  payload_envelope = some payload;
  source = input.source;
  runtime_id = none;
  response_envelope = none;
  delivery_status = idle;
  created_at = env.now;
  claimed_at = none;
  completed_at = none;
  expires_at = input.expires_at;
  error = none;
  delivery_attempts = 0;
}

abbrev pub is_taken : EnqueueTurnInput → List Job → Bool
is_taken input rows = any (λ r. str_eq r.id input.id || str_eq r.event_id input.event_id) rows

abbrev pub insert_job : Job → Tables → Tables
insert_job job t = record t { jobs = t.jobs ++ (job ∷ []) }

abbrev pub insert_new : Env → EnqueueTurnInput → String → M Tables (String × Bool)
insert_new env input payload = do
  taken ← read (λ t. is_taken input t.jobs)
  throw_unless (not taken) constraint_failed
  write (insert_job (new_job env input payload))
  schedule_cleanup env.now
  pure (input.id, false)

abbrev pub enqueue_new : Env → EnqueueTurnInput → M Tables (String × Bool)
enqueue_new env input = encrypted env input.id input.prompt >>= insert_new env input

abbrev pub enqueue_found : Env → EnqueueTurnInput → Option Job → M Tables (String × Bool)
enqueue_found env input none = enqueue_new env input
enqueue_found env input (some job) = pure (job.id, true)

-- The id of the turn's job, and whether the event had one.
unfoldable pub enqueue_turn : Env → EnqueueTurnInput → M Tables (String × Bool)
unfolding validate_turn schedule_cleanup
enqueue_turn env input = do
  lift (validate_turn env input)
  existing ← read (λ t. find (λ r. str_eq r.event_id input.event_id) t.jobs)
  enqueue_found env input existing

abbrev pub is_waiting : JobStatus → Bool
is_waiting JobStatus.pending = true
is_waiting offered = true
is_waiting _ = false

abbrev pub is_offered : JobStatus → Bool
is_offered offered = true
is_offered _ = false

abbrev pub is_pending : JobStatus → Bool
is_pending JobStatus.pending = true
is_pending _ = false

abbrev pub is_running : JobStatus → Bool
is_running JobStatus.running = true
is_running _ = false

abbrev pub awaits_delivery : DeliveryStatus → Bool
awaits_delivery DeliveryStatus.pending = true
awaits_delivery _ = false

abbrev pub has_work : Job → Bool
has_work j = is_waiting j.status || is_running j.status || awaits_delivery j.delivery_status

pub record RuntimeStatus : Type 0 where
  pub connected : ℕ
  pub pending : ℕ
  pub running : ℕ
  pub awaiting_delivery : ℕ

-- `connected` counts the sockets of the runtime.
unfoldable pub runtime_status : ℕ → M Tables RuntimeStatus
unfolding count_where
runtime_status connected = read λ t. record {
  connected = connected;
  pending = count_where (λ j. is_waiting j.status) t.jobs;
  running = count_where (λ j. is_running j.status) t.jobs;
  awaiting_delivery = count_where (λ j. awaits_delivery j.delivery_status) t.jobs;
}

pub record JobState : Type 0 where
  pub status : JobStatus
  pub delivery_status : DeliveryStatus
  pub completed_at : Option ℕ
  pub failed : Bool

abbrev pub state_of : Option Job → Option JobState
state_of none = none
state_of (some j) = some (record {
  status = j.status;
  delivery_status = j.delivery_status;
  completed_at = j.completed_at;
  failed = is_some j.error;
})

unfoldable pub job_status : String → M Tables (Option JobState)
job_status id = do
  throw_unless (not (is_blank id) && leb (units id) 200) (other "invalid job id")
  read (λ t. state_of (find (λ j. str_eq j.id id) t.jobs))

abbrev pub disabled_notice : String
disabled_notice = "This Crabhelm teammate is currently disabled. Please contact an administrator."

-- A job that has ended without an answer of the runtime, with the envelope of a notice.
abbrev pub ended : ℕ → String → String → Job → Job
ended now envelope reason j = record j {
  status = JobStatus.failed;
  completed_at = some now;
  response_envelope = some envelope;
  delivery_status = DeliveryStatus.pending;
  error = some reason;
}

abbrev pub response_context : String → String
response_context id = id <> ":response"

-- Jobs that wait fail one after the other, each with the envelope of the notice.
unfoldable pub end_waiting : Env → String → String → List Job → M Tables (Unit {0})
unfolding update_where
end_waiting env notice reason [] = pure tt
end_waiting env notice reason (job ∷ jobs) =
    let rest = end_waiting env notice reason jobs in
    do
      envelope ← encrypted env (response_context job.id) notice
      set_jobs (
          update_where (λ j. str_eq j.id job.id && is_waiting j.status)
            (ended env.now envelope reason))
      rest

unfoldable pub cancel_pending : Env → String → M Tables ℕ
unfolding end_waiting schedule_cleanup clip
cancel_pending env reason = do
  jobs ← read (λ t. select (λ j. is_waiting j.status) t.jobs)
  end_waiting env disabled_notice (clip 500 reason) jobs
  cleanup_if (leb 1 (length jobs)) env.now
  pure (length jobs)

abbrev pub next_reset : M Tables (Unit {0})
next_reset = write λ t. record t { reset_generation = t.reset_generation + 1 }

abbrev pub removed : ℕ → String → Job → Job
removed now reason j = record j {
  status = JobStatus.failed;
  completed_at = some (or_else j.completed_at now);
  delivery_status = DeliveryStatus.failed;
  payload_envelope = none;
  response_envelope = none;
  error = some reason;
}

-- The sockets of the runtime are closed as well.
unfoldable pub prepare_for_removal : Env → String → M Tables ℕ
unfolding update_where count_where clip
prepare_for_removal env reason = do
  next_reset
  active ← read (λ t. count_where has_work t.jobs)
  set_jobs (update_where has_work (removed env.now (clip 500 reason)))
  pure active
