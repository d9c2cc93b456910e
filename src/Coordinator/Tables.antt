-- ===== src/Coordinator/Tables.antt =====
-- The tables of the coordinator (worker/claw-coordinator.ts), and what it meets outside: the clock,
-- the envelopes of turns, Slack, and the other calls that run while one of its calls awaits them.
use Prim.Native.Char.{code}
use crabhelm.Common.{
  String, List, ℕ, Option, Bool, if◌then◌else◌, str_eq, leb, false, true, some, ltb, none, ◌+◌,
}
use crabhelm.Effect.{M, Result, write, ◌>>◌, lift, pure}
use crabhelm.Errors.{Error, other}

pub record Grant : Type 0 where
  pub invocation_id : String
  pub jti : String
  pub arguments_digest : String
  pub expires_at : ℕ
  pub consumed_at : Option ℕ

pub data RunStatus : Type 0 where
  running succeeded failed : RunStatus

pub record RunRow : Type 0 where
  pub invocation_id : String
  pub status : RunStatus
  pub started_at : ℕ
  pub completed_at : Option ℕ
  pub error : Option String

pub record Refresh : Type 0 where
  pub jti : String
  pub expires_at : ℕ
  pub consumed_at : Option ℕ
  pub response_envelope : Option String

pub record Ticket : Type 0 where
  pub jti : String
  pub expires_at : ℕ
  pub consumed_at : Option ℕ

pub data JobStatus : Type 0 where
  pending offered running completed failed : JobStatus

-- The delivery of a job's answer to Slack; `idle` is "none".
pub data DeliveryStatus : Type 0 where
  idle pending delivered failed : DeliveryStatus

pub record SlackTurnSource : Type 0 where
  pub surface : String
  pub workspace_id : String
  pub channel_id : String
  pub thread_ts : String

-- A row of `turn_jobs`. Its source is kept as JSON, which gives back what it was made from.
pub record Job : Type 0 where
  pub id : String
  pub event_id : String
  pub claw_id : String
  pub requester_id : String
  pub persona_id : String
  pub status : JobStatus
  pub turn_token : String
  pub payload_envelope : Option String
  pub source : SlackTurnSource
  pub runtime_id : Option String
  pub response_envelope : Option String
  pub delivery_status : DeliveryStatus
  pub created_at : ℕ
  pub claimed_at : Option ℕ
  pub completed_at : Option ℕ
  pub expires_at : ℕ
  pub error : Option String
  pub delivery_attempts : ℕ

pub record Tables : Type 0 where
  pub grants : List Grant
  pub runs : List RunRow
  pub refreshes : List Refresh
  pub tickets : List Ticket
  pub jobs : List Job
  pub reset_generation : ℕ
  pub alarm : Option ℕ

pub record EnqueueTurnInput : Type 0 where
  pub id : String
  pub event_id : String
  pub claw_id : String
  pub requester_id : String
  pub persona_id : String
  pub prompt : String
  pub turn_token : String
  pub source : SlackTurnSource
  pub expires_at : ℕ

-- Slack's answer to `chat.postMessage`: the status, whether it is a success, and the body's `ok` and
-- `error`.
pub record SlackAnswer : Type 0 where
  pub status : ℕ
  pub is_ok : Bool
  pub ok : Bool
  pub error : Option String

-- The turn that a runtime is sent.
pub record TurnMessage : Type 0 where
  pub id : String
  pub prompt : String
  pub requester_id : String
  pub persona_id : String
  pub turn_token : String
  pub session_id : String

-- What a call of the coordinator meets. `encrypt` and `decrypt` are those of worker/turn-envelope.ts
-- under the vault's key, of a context and a prompt; `chunks` is the base64url text of a message's
-- JSON, in pieces; `post` is the call of Slack, of a channel, a thread and a text, which throws what
-- is no answer; `send_error` is what `ws.send` throws, if it does; `others` is what other calls do to the tables while this one awaits an envelope or
-- Slack.
pub record Env : Type 0 where
  pub now : ℕ
  pub encrypt : String → String → Result String
  pub decrypt : String → String → Result String
  pub chunks : TurnMessage → List String
  pub slack_mode : Option String
  pub slack_bot_token : Option String
  pub post : String → String → String → Result SlackAnswer
  pub send_error : Option String
  pub others : Tables → Tables

-- What a runtime is sent.
pub data Reply : Type 0 where
  job_available job_none job_retry : Reply
  job_preparing job_turn_ready job_started_ack job_ack : String → Reply
  job_turn_start : String → ℕ → Reply
  job_turn_chunk : String → ℕ → String → Reply
  runtime_error : String → Reply

-- `!text`.
abbrev pub is_blank : String → Bool
is_blank s = str_eq s ""

-- `Buffer.byteLength(s, "utf8")`.
unfoldable pub byte_length : String → ℕ
byte_length String.[] = 0
byte_length (String.◌∷◌ c s) =
    let rest = byte_length s in
    if leb (code c) 0x7f
    then 1 + rest
    else if leb (code c) 0x7ff
    then 2 + rest
    else if leb (code c) 0xffff
    then 3 + rest
    else 4 + rest

abbrev pub is_same : Option String → String → Bool
is_same none s = false
is_same (some t) s = str_eq t s

-- An await: other calls may run.
abbrev pub await : Env → M Tables (Unit {0})
await env = write env.others

-- An envelope is made, and then other calls may have run.
abbrev pub encrypted : Env → String → String → M Tables String
encrypted env context prompt = await env >> lift (env.encrypt context prompt)

abbrev pub is_later : ℕ → Option ℕ → Bool
is_later now none = true
is_later now (some at) = ltb (now + 60000) at

unfoldable pub schedule_cleanup : ℕ → M Tables (Unit {0})
schedule_cleanup now =
    write λ t. if is_later now t.alarm then record t { alarm = some (now + 60000) } else t

abbrev pub cleanup_if : Bool → ℕ → M Tables (Unit {0})
cleanup_if true now = schedule_cleanup now
cleanup_if false now = pure tt

-- The error of a key that a table has.
abbrev pub constraint_failed : Error
constraint_failed = other "UNIQUE constraint failed"

abbrev pub set_jobs : (List Job → List Job) → M Tables (Unit {0})
set_jobs f = write λ t. record t { jobs = f t.jobs }
