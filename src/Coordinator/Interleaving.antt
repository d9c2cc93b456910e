-- ===== src/Coordinator/Interleaving.antt =====
-- A turn that is enqueued while another call awaits something (worker/claw-coordinator.ts).
use crabhelm.Effect.{lift}
use crabhelm.Coordinator.Tables.{
  Env, Job, schedule_cleanup, EnqueueTurnInput, Tables, is_later, encrypted,
}
use crabhelm.Coordinator.Jobs.{
  enqueue_turn, insert_new, enqueue_found, validate_turn, is_taken, insert_job, new_job,
}
use crabhelm.Coordinator.Soundness.{IsCalm, enqueue_turn-IsSound}
use crabhelm.Common.{
  Bool, List, ℕ, In, any, Bool-cases, String, Option, ◌≡◌, ◌++◌, false, ◌∷◌, inl, some, find, arith,
  [], inr, str_eq, there, ◌||◌, none, eq_iff, here,
}
use crabhelm.Effect.Outcome.{>>=-keeps}
use crabhelm.Coordinator.Rows.{HasEnded, EndedAt}
use crabhelm.Coordinator.Sql.Laws.{append-All}

-- No other call comes between, and the enqueuing of a turn does.
abbrev pub alone : Env → Env
alone env = record env { others = λ t. t }

abbrev pub enqueuing : Env → EnqueueTurnInput → Env
enqueuing env input = record env { others = λ t. (enqueue_turn (alone env) input t).1 }

pub alone-IsCalm : (env : Env) → IsCalm (alone env)
alone-IsCalm env = record { keeps = λ t h. h; ends = λ job t is_there h. h }

-- The job is there and has ended.
abbrev IsOver : Job → Tables → Type 0
IsOver job t = In job t.jobs × HasEnded job.id t

any-In : (p : Job → Bool) (js : List Job) {j : Job} → any p js ≡ false → In j js → p j ≡ false
any-In p [] h i = elim i [ ]
any-In p (j ∷ js) h here = ground arith
any-In p (j ∷ js) h (there i) = any-In p js (ground arith) i

In-append : {j : Job} (js : List Job) (k : Job) → In j js → In j (js ++ (k ∷ []))
In-append [] k i = elim i [ ]
In-append (j ∷ js) k here = here
In-append (j ∷ js) k (there i) = there (In-append js k i)

cleanup-IsOver :
    (job : Job) (now : ℕ) (t : Tables) → IsOver job t → IsOver job (schedule_cleanup now t).1
unfolding schedule_cleanup
cleanup-IsOver job now t h = elim (Bool-cases (is_later now t.alarm)) [
  | inl later ↦ rw later h
  | inr sooner ↦ rw sooner h
]

inserted-IsOver :
    (job : Job) (env : Env) (input : EnqueueTurnInput) (payload : String) (t : Tables)
    → IsOver job t
    → IsOver job (insert_new env input payload t).1
unfolding schedule_cleanup
inserted-IsOver job env input payload t (is_there, over) =
    elim (Bool-cases (is_taken input t.jobs)) [
      | inl known ↦ rw known (is_there, over)
      | inr new ↦
          let free : str_eq job.id input.id ≡ false =
            let both =
              any-In (λ r. str_eq r.id input.id || str_eq r.event_id input.event_id) t.jobs new
                is_there in
            ground arith in
          let differ : str_eq input.id job.id ≡ false =
            ground (arith, eq_iff input.id job.id, eq_iff job.id input.id) in
          rw new (
            cleanup-IsOver job env.now (insert_job (new_job env input payload) t) (
              In-append t.jobs (new_job env input payload) is_there,
              append-All (EndedAt job.id) t.jobs (new_job env input payload) over (ground arith),
            ))
    ]

enqueue_found-IsOver :
    (job : Job) (env : Env) (input : EnqueueTurnInput) (existing : Option Job) (t : Tables)
    → IsOver job t
    → IsOver job (enqueue_found (alone env) input existing t).1
enqueue_found-IsOver job env input (some found) t h = h
enqueue_found-IsOver job env input none t h =
    >>=-keeps (IsOver job) (encrypted (alone env) input.id input.prompt)
      (insert_new (alone env) input) t h (inserted-IsOver job (alone env) input)

enqueue_turn-IsOver :
    (job : Job) (env : Env) (input : EnqueueTurnInput) (t : Tables)
    → IsOver job t
    → IsOver job (enqueue_turn (alone env) input t).1
unfolding enqueue_turn
enqueue_turn-IsOver job env input t h =
    >>=-keeps (IsOver job) (lift (validate_turn (alone env) input)) _ t h λ _ u k.
      enqueue_found-IsOver job env input (find (λ r. str_eq r.event_id input.event_id) u.jobs) u k

-- While another call awaits something, a turn may be enqueued: a call of the worker is calm.
pub enqueuing-IsCalm : (env : Env) (input : EnqueueTurnInput) → IsCalm (enqueuing env input)
enqueuing-IsCalm env input = record {
  keeps = λ t h. enqueue_turn-IsSound (alone env) (alone-IsCalm env) input t h;
  ends = λ job t is_there h. (enqueue_turn-IsOver job env input t (is_there, h)).1;
}
