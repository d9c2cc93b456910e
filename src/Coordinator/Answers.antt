-- ===== src/Coordinator/Answers.antt =====
-- The completion of a turn keeps the rows of the jobs sound.
use crabhelm.Coordinator.Rows.{IsSound, update-IsSound}
use crabhelm.Coordinator.Tables.{Env, Tables, set_jobs, Job, is_same, job_ack}
use crabhelm.Coordinator.Soundness.{IsCalm, >>-IsSound, deliver_pending-IsSound, encrypted-IsSound}
use crabhelm.Coordinator.Delivery.{deliver_pending, failure_notice, is_running_at}
use crabhelm.Common.{
  String, Bool-cases, ◌&&◌, inl, none, inr, refl, Option, str_eq, ◌∷◌, some, [], Bool, or_else,
  if◌then◌else◌, true, false, trim, ◌==◌, find,
}
use crabhelm.Coordinator.Jobs.{is_running, response_context, awaits_delivery}
use crabhelm.Coordinator.Sql.{update_where, count_where}
use crabhelm.Effect.{pure, throw_unless}
use crabhelm.Coordinator.Completion.{
  record_answer, with_answer, deliver_answer, store_answer, deliver_again, complete_found, complete,
  acknowledge, is_terminal, CompletionInput, is_valid_completion, no_row, error_of,
}
use crabhelm.Coordinator.Rows.{Sound}

module _ (env : Env) (calm : IsCalm env) where
  with_answer-Sound :
      (ok_ : Bool) (envelope error : String) (j : Job)
      → Sound (with_answer env.now ok_ envelope error j)
  with_answer-Sound true envelope error j = refl
  with_answer-Sound false envelope error j = refl

  deliver_answer-IsSound :
      (id : String) (t : Tables) → IsSound t → IsSound (deliver_answer env id t).1
  deliver_answer-IsSound id t h =
      >>-IsSound (deliver_pending env id) (acknowledge id) t
        (deliver_pending-IsSound env calm id t h) (λ u k. k)

  record_answer-IsSound :
      (id : String) (ok_ : Bool) (output error : String) (t : Tables)
      → IsSound t
      → IsSound (record_answer env id ok_ output error t).1
  record_answer-IsSound id ok_ output error t h =
      encrypted-IsSound env calm (response_context id) (if ok_ then output else failure_notice)
        (store_answer env id ok_ error) t h
        λ envelope u k.
          let set = with_answer env.now ok_ envelope error in
          let v = (set_jobs (update_where (is_running_at id) set) u).1 in
          let kept : IsSound v =
            update-IsSound (is_running_at id) set u (λ j. refl)
              (λ j s hit. with_answer-Sound ok_ envelope error j) k in
          >>-IsSound (throw_unless (count_where (λ j. str_eq j.id id) v.jobs == 1) no_row)
            (deliver_answer env id) v kept (deliver_answer-IsSound id)

  deliver_again-IsSound :
      (waits : Bool) (id : String) (t : Tables)
      → IsSound t
      → IsSound (deliver_again env waits id t).1
  deliver_again-IsSound true id t h = deliver_pending-IsSound env calm id t h
  deliver_again-IsSound false id t h = h

  complete_found-IsSound :
      (runtime_id id : String) (ok_ : Bool) (output error : String) (found : Option Job)
      (t : Tables)
      → IsSound t
      → IsSound (complete_found env runtime_id id ok_ output error found t).1
  complete_found-IsSound runtime_id id ok_ output error none t h = h
  complete_found-IsSound runtime_id id ok_ output error (some job) t h =
      elim (Bool-cases (is_terminal job.status && is_same job.runtime_id runtime_id)) [
        | inl ended_ ↦ rw ended_ (
            >>-IsSound (deliver_again env (awaits_delivery job.delivery_status) job.id)
              (pure (job_ack id ∷ [])) t
              (deliver_again-IsSound (awaits_delivery job.delivery_status) job.id t h) (λ u k. k))
        | inr open_ ↦
            elim (Bool-cases (is_running job.status && is_same job.runtime_id runtime_id)) [
              | inl runs_ ↦ rw (open_, runs_) (record_answer-IsSound id ok_ output error t h)
              | inr apart ↦ rw (open_, apart) h
            ]
      ]

  pub complete-IsSound :
      (runtime_id : String) (input : CompletionInput) (t : Tables)
      → IsSound t
      → IsSound (complete env runtime_id input t).1
  unfolding complete
  complete-IsSound runtime_id input t h =
      let id = or_else input.id "" in
      let output = trim (or_else input.output "") in
      elim (Bool-cases (is_valid_completion id input.ok output)) [
        | inr invalid ↦ rw invalid h
        | inl valid ↦ rw valid (
            complete_found-IsSound runtime_id id input.ok output (error_of input.error)
              (find (λ j. str_eq j.id id) t.jobs) t h)
      ]
