-- ===== src/Coordinator/Offers.antt =====
-- The offers of jobs to a runtime, and their start, keep the rows of the jobs sound.
use crabhelm.Coordinator.Rows.{IsSound, update-IsSound}
use crabhelm.Coordinator.Tables.{Env, Tables, set_jobs, Job, is_blank, schedule_cleanup, job_retry}
use crabhelm.Coordinator.Soundness.{IsCalm, >>-IsSound, released-Sound, cleanup-IsSound}
use crabhelm.Coordinator.Delivery.{released}
use crabhelm.Coordinator.Runtime.{
  is_offered_to, start, offer, offer_failed, offer_next, claim_owned, claim, send_turn,
  is_pending_at, sending, offered_to, unsent,
}
use crabhelm.Common.{
  String, Bool-cases, ◌&&◌, inl, none, inr, arith, refl, Option, str_eq, ◌∷◌, some, [], or_else,
}
use crabhelm.Coordinator.Jobs.{is_offered}
use crabhelm.Coordinator.Sql.{update_where}
use crabhelm.Effect.{pure, Result, ok, err}

module _ (env : Env) (calm : IsCalm env) where
  offer-IsSound :
      (error : Option String) (runtime_id : String) (job : Job) (t : Tables)
      → IsSound t
      → IsSound (offer env runtime_id job error t).1
  offer-IsSound none runtime_id job t h =
      update-IsSound (is_pending_at job.id) (offered_to env runtime_id) t (λ j. refl)
        (λ j s hit. ground arith) h
  offer-IsSound (some error) runtime_id job t h =
      let unsent_ = (set_jobs (update_where (is_pending_at job.id) (unsent env error)) t).1 in
      >>-IsSound (schedule_cleanup env.now) (pure []) _
        (cleanup-IsSound env.now _ (
          update-IsSound (λ j. str_eq j.id job.id && is_offered j.status) released unsent_
            (λ j. refl) (λ j s hit. released-Sound j s (ground arith))
            (update-IsSound (is_pending_at job.id) (unsent env error) t (λ j. refl)
              (λ j s hit. refl) h)))
        (λ v l. l)

  offer_next-IsSound :
      (runtime_id : String) (row : Option Job) (t : Tables)
      → IsSound t
      → IsSound (offer_next env runtime_id row t).1
  offer_next-IsSound runtime_id none t h = h
  offer_next-IsSound runtime_id (some job) t h = offer-IsSound env.send_error runtime_id job t h

  offer_failed-IsSound :
      (runtime_id : String) (job : Job) (t : Tables)
      → IsSound t
      → IsSound (offer_failed env runtime_id job t).1
  offer_failed-IsSound runtime_id job t h =
      >>-IsSound (schedule_cleanup env.now) (pure (job_retry ∷ [])) _
        (cleanup-IsSound env.now _ (
          update-IsSound (λ j. str_eq j.id job.id && is_offered_to runtime_id j) released t
            (λ j. refl) (λ j s hit. released-Sound j s (ground arith)) h))
        (λ v l. l)

  sending-IsSound :
      (runtime_id : String) (job : Job) (error : Option String) (prompt : String) (t : Tables)
      → IsSound t
      → IsSound (sending env runtime_id job error prompt t).1
  sending-IsSound runtime_id job none prompt t h = h
  sending-IsSound runtime_id job (some error) prompt t h = offer_failed-IsSound runtime_id job t h

  send_turn-IsSound :
      (runtime_id : String) (job : Job) (prompt : Result String) (t : Tables)
      → IsSound t
      → IsSound (send_turn env runtime_id job prompt t).1
  send_turn-IsSound runtime_id job (ok prompt) t h =
      sending-IsSound runtime_id job env.send_error prompt t h
  send_turn-IsSound runtime_id job (err e) t h = offer_failed-IsSound runtime_id job t h

  claim_owned-IsSound :
      (runtime_id : String) (owned : Option Job) (t : Tables)
      → IsSound t
      → IsSound (claim_owned env runtime_id owned t).1
  claim_owned-IsSound runtime_id none t h = offer_next-IsSound runtime_id _ t h
  claim_owned-IsSound runtime_id (some job) t h =
      send_turn-IsSound runtime_id job (env.decrypt job.id (or_else job.payload_envelope ""))
        (env.others t) (calm.keeps t h)

  pub claim-IsSound :
      (runtime_id : String) (t : Tables) → IsSound t → IsSound (claim env runtime_id t).1
  unfolding claim
  claim-IsSound runtime_id t h = claim_owned-IsSound runtime_id _ t h

  pub start-IsSound :
      (runtime_id id : String) (t : Tables) → IsSound t → IsSound (start env runtime_id id t).1
  unfolding start
  start-IsSound runtime_id id t h = elim (Bool-cases (is_blank id)) [
    | inl blank ↦ rw blank h
    | inr named ↦ rw named (
        update-IsSound (λ j. str_eq j.id id && is_offered_to runtime_id j) _ t (λ j. refl)
          (λ j s hit. ground arith) h)
  ]
