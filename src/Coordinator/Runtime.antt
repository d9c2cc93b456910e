-- ===== src/Coordinator/Runtime.antt =====
-- What a runtime asks of the coordinator over its socket, for the jobs that it is offered: `#claim`,
-- `#start`, `#releaseOffers`, restartRuntimeConnections and the close of a socket
-- (worker/claw-coordinator.ts). A handler gives the replies that it sends.
use Prim.Native.Char.{code}
use crabhelm.Common.{
  String, ℕ, clip, Bool, if◌then◌else◌, List, Option, leb, ◌<>◌, false, ◌&&◌, some, ◌∷◌, str_eq,
  none, any, [], or_else, ◌+◌, length, select, find, ltb, ◌==◌, ◌||◌,
}
use crabhelm.Coordinator.Sql.{update_where, order_by, count_where, first}
use crabhelm.Coordinator.Tables.{
  schedule_cleanup, Job, Env, SlackTurnSource, TurnMessage, Tables, Reply, set_jobs, job_turn_ready,
  job_preparing, is_blank, is_same, job_none, await, runtime_error, job_turn_chunk, job_turn_start,
  job_retry, JobStatus, offered, DeliveryStatus, job_started_ack, cleanup_if,
}
use crabhelm.Effect.{M, Result, ◌>>◌, pure, ok, ◌>>=◌, read, err}
use crabhelm.Coordinator.Jobs.{is_offered, is_running, is_pending, has_work}
use crabhelm.Coordinator.Delivery.{released}

abbrev pub is_offered_to : String → Job → Bool
is_offered_to runtime_id j = is_offered j.status && is_same j.runtime_id runtime_id

unfoldable pub release_offers : String → M Tables (Unit {0})
unfolding update_where
release_offers runtime_id = set_jobs (update_where (is_offered_to runtime_id) released)

abbrev pub schedule_work : ℕ → M Tables (Unit {0})
schedule_work now = do busy ← read (λ t. any has_work t.jobs); cleanup_if busy now

-- `webSocketClose` and `webSocketError`.
unfoldable pub socket_closed : Env → String → M Tables (Unit {0})
unfolding release_offers schedule_cleanup
socket_closed env runtime_id = release_offers runtime_id >> schedule_work env.now

-- Every socket is disabled and closed, and every offer released.
unfoldable pub restart_runtime_connections : Env → M Tables (Unit {0})
unfolding update_where schedule_cleanup
restart_runtime_connections env =
    set_jobs (update_where (λ j. is_offered j.status) released) >> schedule_work env.now

-- `replace(/[^A-Za-z0-9._-]/gu, "-")`.
unfoldable pub dashed : String → String
dashed String.[] = ""
dashed (String.◌∷◌ c s) =
    let rest = dashed s in
    if (leb b'A' (code c) && leb (code c) b'Z')
      || (leb b'a' (code c) && leb (code c) b'z')
      || (leb b'0' (code c) && leb (code c) b'9')
      || code c == b'.'
      || code c == b'_'
      || code c == b'-'
    then String.◌∷◌ c rest
    else "-" <> rest

unfoldable pub session_id : SlackTurnSource → String
unfolding dashed clip
session_id source = clip 180 (
    dashed (
      "crabhelm-slack-" <> source.workspace_id <> "-" <> source.channel_id <> "-"
      <> source.thread_ts))

abbrev pub turn_message : Job → String → TurnMessage
turn_message job prompt = record {
  id = job.id;
  prompt = prompt;
  requester_id = job.requester_id;
  persona_id = job.persona_id;
  turn_token = job.turn_token;
  session_id = session_id job.source;
}

abbrev chunk_replies : String → ℕ → List String → List Reply
chunk_replies id index [] = job_turn_ready id ∷ []
chunk_replies id index (data_ ∷ rest) =
    job_turn_chunk id index data_ ∷ chunk_replies id (index + 1) rest

abbrev pub turn_replies : String → List String → List Reply
turn_replies id chunks =
    job_preparing id ∷ job_turn_start id (length chunks) ∷ chunk_replies id 0 chunks

-- The offer of a turn that cannot be sent is released.
abbrev pub offer_failed : Env → String → Job → M Tables (List Reply)
offer_failed env runtime_id job = do
  set_jobs (update_where (λ j. str_eq j.id job.id && is_offered_to runtime_id j) released)
  schedule_cleanup env.now
  pure (job_retry ∷ [])

abbrev pub sending : Env → String → Job → Option String → String → M Tables (List Reply)
sending env runtime_id job none prompt =
    pure (turn_replies job.id (env.chunks (turn_message job prompt)))
sending env runtime_id job (some error) prompt = offer_failed env runtime_id job

abbrev pub send_turn : Env → String → Job → Result String → M Tables (List Reply)
send_turn env runtime_id job (ok prompt) = sending env runtime_id job env.send_error prompt
send_turn env runtime_id job (err e) = offer_failed env runtime_id job

abbrev pub offered_to : Env → String → Job → Job
offered_to env runtime_id j = record j {
  status = offered;
  runtime_id = some runtime_id;
  claimed_at = some env.now;
}

abbrev pub unsent : Env → String → Job → Job
unsent env error j = record j {
  status = JobStatus.failed;
  completed_at = some env.now;
  delivery_status = DeliveryStatus.pending;
  error = some (clip 500 error);
}

abbrev pub is_pending_at : String → Job → Bool
is_pending_at id j = str_eq j.id id && is_pending j.status

abbrev pub offer : Env → String → Job → Option String → M Tables (List Reply)
offer env runtime_id job none = do
  set_jobs (update_where (is_pending_at job.id) (offered_to env runtime_id))
  pure (job_retry ∷ [])
offer env runtime_id job (some error) = do
  set_jobs (update_where (is_pending_at job.id) (unsent env error))
  set_jobs (update_where (λ j. str_eq j.id job.id && is_offered j.status) released)
  schedule_cleanup env.now
  pure []

abbrev pub offer_next : Env → String → Option Job → M Tables (List Reply)
offer_next env runtime_id none = pure (job_none ∷ [])
offer_next env runtime_id (some job) = offer env runtime_id job env.send_error

abbrev pub claim_next : Env → String → M Tables (List Reply)
claim_next env runtime_id = do
  row ← read (λ t. first (
      order_by (λ j. j.created_at)
        (select (λ j. is_pending j.status && ltb env.now j.expires_at) t.jobs)))
  offer_next env runtime_id row

abbrev pub claim_owned : Env → String → Option Job → M Tables (List Reply)
claim_owned env runtime_id none = claim_next env runtime_id
claim_owned env runtime_id (some job) =
    await env >> send_turn env runtime_id job (env.decrypt job.id (or_else job.payload_envelope ""))

-- `#claim`: the turn that the runtime has been offered, or the offer of the oldest that waits.
unfoldable pub claim : Env → String → M Tables (List Reply)
unfolding order_by update_where schedule_cleanup session_id clip
claim env runtime_id = do
  owned ← read (λ t. first (
      order_by (λ j. j.created_at)
        (select (λ j. is_offered_to runtime_id j && ltb env.now j.expires_at) t.jobs)))
  claim_owned env runtime_id owned

abbrev pub is_started_by : String → Option Job → Bool
is_started_by runtime_id none = false
is_started_by runtime_id (some j) = is_running j.status && is_same j.runtime_id runtime_id

abbrev pub start_offered : Env → String → String → M Tables (List Reply)
start_offered env runtime_id id = do
  written ← read (λ t. count_where (λ j. str_eq j.id id && is_offered_to runtime_id j) t.jobs)
  set_jobs (
      update_where (λ j. str_eq j.id id && is_offered_to runtime_id j)
        (λ j. record j { status = JobStatus.running; claimed_at = some env.now }))
  existing ← read (λ t. find (λ j. str_eq j.id id) t.jobs)
  pure (
      (if written == 1 || is_started_by runtime_id existing
        then job_started_ack id
        else runtime_error "job offer is not owned by this runtime")
      ∷ [])

-- `#start`, of the id that a message has.
unfoldable pub start : Env → String → String → M Tables (List Reply)
unfolding update_where count_where
start env runtime_id id =
    if is_blank id
    then pure (runtime_error "job offer is not owned by this runtime" ∷ [])
    else start_offered env runtime_id id
