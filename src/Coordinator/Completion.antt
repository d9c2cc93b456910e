-- ===== src/Coordinator/Completion.antt =====
-- The completion of a turn by its runtime, `#complete` (worker/claw-coordinator.ts).
use crabhelm.Common.{
  Option, ℕ, String, Bool, some, clip, true, List, not, trim, false, if◌then◌else◌, ◌&&◌, or_else,
  none, ◌||◌, ◌∷◌, leb, find, [], str_eq, ltb, ◌==◌,
}
use crabhelm.Coordinator.Tables.{
  JobStatus, Env, Tables, Job, Reply, is_blank, byte_length, completed, DeliveryStatus, encrypted,
  is_same, runtime_error, job_ack, set_jobs, job_available,
}
use crabhelm.Effect.{M, pure, ◌>>=◌, ◌>>◌, read, throw_unless}
use crabhelm.Coordinator.Delivery.{deliver_pending, failure_notice, is_running_at}
use crabhelm.Coordinator.Sql.{update_where, count_where}
use crabhelm.Coordinator.Jobs.{response_context, awaits_delivery, is_pending, is_running}
use crabhelm.Errors.{other, Error}

-- The fields that a message of a runtime has as texts, and whether its `ok` is true.
pub record CompletionInput : Type 0 where
  pub id : Option String
  pub ok : Bool
  pub output : Option String
  pub error : Option String

abbrev pub error_of : Option String → String
error_of none = "runtime turn failed"
error_of (some e) = clip 500 (trim e)

abbrev pub is_terminal : JobStatus → Bool
is_terminal completed = true
is_terminal JobStatus.failed = true
is_terminal _ = false

abbrev pub available : M Tables (List Reply)
available = do
  waiting ← read (λ t. count_where (λ j. is_pending j.status) t.jobs)
  pure (if ltb 0 waiting then job_available ∷ [] else [])

abbrev pub with_answer : ℕ → Bool → String → String → Job → Job
with_answer now ok_ envelope error j = record j {
  status = if ok_ then completed else JobStatus.failed;
  completed_at = some now;
  response_envelope = some envelope;
  delivery_status = DeliveryStatus.pending;
  error = if ok_ then none else some error;
}

abbrev pub acknowledge : String → M Tables (List Reply)
acknowledge id = do more ← available; pure (job_ack id ∷ more)

abbrev pub deliver_answer : Env → String → M Tables (List Reply)
deliver_answer env id = deliver_pending env id >> acknowledge id

-- What `.one()` throws where the row is gone.
abbrev pub no_row : Error
no_row = other "Expected exactly one result from SQL query"

abbrev pub store_answer : Env → String → Bool → String → String → M Tables (List Reply)
store_answer env id ok_ error envelope = do
  set_jobs (update_where (is_running_at id) (with_answer env.now ok_ envelope error))
  rows ← read (λ t. count_where (λ j. str_eq j.id id) t.jobs)
  throw_unless (rows == 1) no_row
  deliver_answer env id

abbrev pub record_answer : Env → String → Bool → String → String → M Tables (List Reply)
record_answer env id ok_ output error =
    encrypted env (response_context id) (if ok_ then output else failure_notice)
    >>= store_answer env id ok_ error

abbrev pub deliver_again : Env → Bool → String → M Tables (Unit {0})
deliver_again env true id = deliver_pending env id
deliver_again env false id = pure tt

abbrev pub complete_known :
    Env → String → String → Bool → String → String → Job → M Tables (List Reply)
complete_known env runtime_id id ok_ output error job =
    if is_terminal job.status && is_same job.runtime_id runtime_id
    then (deliver_again env (awaits_delivery job.delivery_status) job.id >> pure (job_ack id ∷ []))
    else if is_running job.status && is_same job.runtime_id runtime_id
    then record_answer env id ok_ output error
    else pure (runtime_error "job is not owned by this runtime" ∷ [])

abbrev pub complete_found :
    Env → String → String → Bool → String → String → Option Job → M Tables (List Reply)
complete_found env runtime_id id ok_ output error none =
    pure (runtime_error "job is not owned by this runtime" ∷ [])
complete_found env runtime_id id ok_ output error (some job) =
    complete_known env runtime_id id ok_ output error job

abbrev pub is_valid_completion : String → Bool → String → Bool
is_valid_completion id ok_ output =
    not (is_blank id) && (not ok_ || (not (is_blank output) && leb (byte_length output) 24576))

unfoldable pub complete : Env → String → CompletionInput → M Tables (List Reply)
unfolding deliver_pending update_where count_where byte_length trim clip
complete env runtime_id input =
    let id = or_else input.id "" in
    let output = trim (or_else input.output "") in
    if is_valid_completion id input.ok output
    then (read (λ t. find (λ j. str_eq j.id id) t.jobs)
        >>= complete_found env runtime_id id input.ok output (error_of input.error))
    else pure (runtime_error "invalid completion" ∷ [])
