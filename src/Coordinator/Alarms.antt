-- ===== src/Coordinator/Alarms.antt =====
-- The alarm, the end of active turns and the close of sockets keep the rows of the jobs sound.
use crabhelm.Coordinator.Rows.{IsSound, delete-IsSound, update-IsSound}
use crabhelm.Coordinator.Tables.{Env, Tables, set_jobs}
use crabhelm.Coordinator.Soundness.{
  IsCalm, >>-IsSound, cleanup_if-IsSound, cancel_pending-IsSound, released-Sound, each-IsSound,
  fail_job-IsSound, end_waiting-IsSound, deliver_pending-IsSound,
}
use crabhelm.Coordinator.Delivery.{
  cancel_active_turns, clean_up, on_alarm, set_alarm, before, is_stale, released, is_over, each,
  fail_job, is_stalled, expired_notice, deliver_pending, alarm_steps, in_turn,
}
use crabhelm.Coordinator.Runtime.{
  release_offers, socket_closed, restart_runtime_connections, is_offered_to, schedule_work,
}
use crabhelm.Common.{
  String, Bool-cases, any, ◌+◌, ◌&&◌, inl, select, inr, arith, refl, length, List, All, ◌∷◌, [],
}
use crabhelm.Effect.Outcome.{>>=-keeps}
use crabhelm.Coordinator.Jobs.{cancel_pending, has_work, is_offered, is_running}
use crabhelm.Coordinator.Sql.{update_where}
use crabhelm.Effect.{pure, M}

KeepsSound : M Tables (Unit {0}) → Type 0
KeepsSound m = (t : Tables) → IsSound t → IsSound (m t).1

in_turn-IsSound : (ms : List (M Tables (Unit {0}))) → All KeepsSound ms → KeepsSound (in_turn ms)
unfolding KeepsSound
in_turn-IsSound [] keep t h = h
in_turn-IsSound (m ∷ ms) (keep, rest) t h =
    >>-IsSound m (in_turn ms) t (keep t h) (in_turn-IsSound ms rest)

module _ (env : Env) (calm : IsCalm env) where
  pub cancel_active_turns-IsSound :
      (reason : String) (t : Tables) → IsSound t → IsSound (cancel_active_turns env reason t).1
  unfolding cancel_active_turns
  cancel_active_turns-IsSound reason t h =
      >>=-keeps IsSound (cancel_pending env reason) _
        (record t { reset_generation = t.reset_generation + 1 })
        (cancel_pending-IsSound env calm reason _ h)
        λ waiting u k.
          let jobs = select (λ j. is_running j.status) u.jobs in
          >>-IsSound (each (fail_job env reason) jobs) (pure (waiting + length jobs)) u
            (each-IsSound (fail_job env reason) jobs (fail_job-IsSound env calm reason) u k)
            (λ v l. l)

  clean_up-IsSound : (t : Tables) → IsSound t → IsSound (clean_up env.now t).1
  unfolding clean_up
  clean_up-IsSound t h =
      delete-IsSound (λ j. before 86400000 env.now j.completed_at && is_over j.delivery_status)
        t.jobs h

  set_alarm-IsSound : (t : Tables) → IsSound t → IsSound (set_alarm env.now t).1
  set_alarm-IsSound t h = elim (Bool-cases (any has_work t.jobs)) [
    | inl busy ↦ rw busy h
    | inr idle_ ↦ rw idle_ h
  ]

  pub on_alarm-IsSound : (t : Tables) → IsSound t → IsSound (on_alarm env t).1
  unfolding on_alarm KeepsSound
  on_alarm-IsSound = in_turn-IsSound (alarm_steps env) (
    (λ t h. h),
    (
      (λ t h.
          update-IsSound (is_stale env.now) released t (λ j. refl)
            (λ j s hit. released-Sound j s (ground arith)) h),
      (
        (λ t h.
            each-IsSound (fail_job env "runtime turn timed out")
              (select (is_stalled env.now) t.jobs)
              (fail_job-IsSound env calm "runtime turn timed out") t h),
        (
          (λ t h. end_waiting-IsSound env calm expired_notice "turn expired" _ t h),
          (
            (λ t h.
                each-IsSound (λ j. deliver_pending env j.id) _
                  (λ j. deliver_pending-IsSound env calm j.id) t h),
            (clean_up-IsSound, (set_alarm-IsSound, tt)),
          ),
        ),
      ),
    ),
  )

  release_offers-IsSound :
      (runtime_id : String) (t : Tables) → IsSound t → IsSound (release_offers runtime_id t).1
  unfolding release_offers
  release_offers-IsSound runtime_id t h =
      update-IsSound (is_offered_to runtime_id) released t (λ j. refl)
        (λ j s hit. released-Sound j s (ground arith)) h

  pub socket_closed-IsSound :
      (runtime_id : String) (t : Tables) → IsSound t → IsSound (socket_closed env runtime_id t).1
  unfolding socket_closed
  socket_closed-IsSound runtime_id t h =
      >>-IsSound (release_offers runtime_id) (schedule_work env.now) t
        (release_offers-IsSound runtime_id t h)
        λ u k. cleanup_if-IsSound (any has_work u.jobs) env.now u k

  pub restart-IsSound : (t : Tables) → IsSound t → IsSound (restart_runtime_connections env t).1
  unfolding restart_runtime_connections
  restart-IsSound t h =
      >>-IsSound (set_jobs (update_where (λ j. is_offered j.status) released))
        (schedule_work env.now) t
        (update-IsSound (λ j. is_offered j.status) released t (λ j. refl) released-Sound h)
        λ u k. cleanup_if-IsSound (any has_work u.jobs) env.now u k
