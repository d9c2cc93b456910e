-- ===== src/Coordinator/Soundness.antt =====
-- The calls of the coordinator keep the rows of its jobs sound.
use crabhelm.Coordinator.Tables.{
  Env, schedule_cleanup, Tables, EnqueueTurnInput, encrypted, is_later, Job, delivered,
  DeliveryStatus, cleanup_if,
}
use crabhelm.Common.{
  ℕ, String, Bool-cases, inl, inr, refl, any, Bool, str_eq, List, select, Option-cases, ◌||◌, ◌≡◌,
  ◌∷◌, find, false, true, ◌&&◌, [], arith, clip, leb, length, subst, ◌==◌, not, sym, ◌+◌, Option,
  some, none, In, find_sound,
}
use crabhelm.Coordinator.Rows.{
  IsSound, HasEnded, Sound, append-Distinct, update-IsSound, at_id-IsSound, awaiting_ended,
}
use crabhelm.Effect.{M, ◌>>=◌, ◌>>◌, pure, lift}
use crabhelm.Coordinator.Jobs.{
  insert_new, is_taken, new_job, insert_job, enqueue_turn, end_waiting, cancel_pending,
  prepare_for_removal, is_offered, ended, validate_turn, response_context, is_waiting, has_work,
  disabled_notice, removed, awaits_delivery, enqueue_found,
}
use crabhelm.Effect.Outcome.{>>=-keeps}
use crabhelm.Coordinator.Sql.Laws.{append-All}
use crabhelm.Coordinator.Delivery.{
  deliver_pending, fail_job, Delivered, each, after_delivery, failure_notice, is_running_at,
  released, with_delivery, refused, can_deliver, outcome_of, posted, taken,
}
use crabhelm.Coordinator.Sql.{count_where}

-- Other calls that keep the rows sound, and let no job that is there and has ended run again. They may
-- add jobs under ids that are not there.
pub record IsCalm (env : Env) : Type 0 where
  pub keeps : (t : Tables) → IsSound t → IsSound (env.others t)
  pub ends :
      (job : Job) (t : Tables) → In job t.jobs → HasEnded job.id t → HasEnded job.id (env.others t)

pub cleanup-IsSound : (now : ℕ) (t : Tables) → IsSound t → IsSound (schedule_cleanup now t).1
unfolding schedule_cleanup
cleanup-IsSound now t h = elim (Bool-cases (is_later now t.alarm)) [
  | inl later ↦ rw later h
  | inr sooner ↦ rw sooner h
]

pub >>-IsSound :
    {B : Type 0} (m : M Tables (Unit {0})) (k : M Tables B) (t : Tables)
    → IsSound (m t).1
    → ((u : Tables) → IsSound u → IsSound (k u).1)
    → IsSound ((m >> k) t).1
>>-IsSound m k t h rest = >>=-keeps IsSound m (λ _. k) t h (λ _. rest)

any_first : (p q : Job → Bool) (js : List Job) → any (λ r. p r || q r) js ≡ false → any p js ≡ false
any_first p q [] h = refl
any_first p q (j ∷ js) h = ground (arith, any_first p q js)

inserted :
    (env : Env) (input : EnqueueTurnInput) (payload : String) (t : Tables)
    → IsSound t
    → IsSound (insert_new env input payload t).1
inserted env input payload t (sound, distinct) = elim (Bool-cases (is_taken input t.jobs)) [
  | inl known ↦ rw known (sound, distinct)
  | inr new ↦
      let job = new_job env input payload in
      let free : any (λ r. str_eq r.id job.id) t.jobs ≡ false =
        any_first (λ r. str_eq r.id input.id) (λ r. str_eq r.event_id input.event_id) t.jobs new in
      rw new (
        >>-IsSound (schedule_cleanup env.now) (pure (input.id, false)) (insert_job job t)
          (cleanup-IsSound env.now (insert_job job t)
            (append-All Sound t.jobs job sound refl, append-Distinct t.jobs job distinct free))
          (λ u k. k))
]

pub released-Sound : (j : Job) → Sound j → is_offered j.status ≡ true → Sound (released j)
released-Sound j s offered_ = ground arith

ended-Sound : (now : ℕ) (envelope reason : String) (j : Job) → Sound (ended now envelope reason j)
ended-Sound now envelope reason j = refl

pub each-IsSound :
    (f : Job → M Tables (Unit {0})) (jobs : List Job)
    → ((job : Job) (t : Tables) → IsSound t → IsSound (f job t).1)
    → (t : Tables) → IsSound t
    → IsSound (each f jobs t).1
each-IsSound f [] keep t h = h
each-IsSound f (job ∷ jobs) keep t h =
    >>-IsSound (f job) (each f jobs) t (keep job t h) (each-IsSound f jobs keep)

pub cleanup_if-IsSound :
    (test : Bool) (now : ℕ) (t : Tables) → IsSound t → IsSound (cleanup_if test now t).1
cleanup_if-IsSound true now t h = cleanup-IsSound now t h
cleanup_if-IsSound false now t h = h

module _ (env : Env) (calm : IsCalm env) where
  pub encrypted-IsSound :
      {B : Type 0} (context prompt : String) (f : String → M Tables B) (t : Tables)
      → IsSound t
      → ((envelope : String) (u : Tables) → IsSound u → IsSound (f envelope u).1)
      → IsSound ((encrypted env context prompt >>= f) t).1
  encrypted-IsSound context prompt f t h rest =
      >>=-keeps IsSound (encrypted env context prompt) f t (calm.keeps t h) rest

  enqueue_found-IsSound :
      (input : EnqueueTurnInput) (existing : Option Job) (t : Tables)
      → IsSound t
      → IsSound (enqueue_found env input existing t).1
  enqueue_found-IsSound input none t h =
      encrypted-IsSound input.id input.prompt (insert_new env input) t h (inserted env input)
  enqueue_found-IsSound input (some job) t h = h

  pub enqueue_turn-IsSound :
      (input : EnqueueTurnInput) (t : Tables) → IsSound t → IsSound (enqueue_turn env input t).1
  unfolding enqueue_turn
  enqueue_turn-IsSound input t h =
      >>-IsSound (lift (validate_turn env input)) _ t h
        λ u k. enqueue_found-IsSound input (find (λ r. str_eq r.event_id input.event_id) u.jobs) u k

  pub end_waiting-IsSound :
      (notice reason : String) (jobs : List Job) (t : Tables)
      → IsSound t
      → IsSound (end_waiting env notice reason jobs t).1
  unfolding end_waiting
  end_waiting-IsSound notice reason [] t h = h
  end_waiting-IsSound notice reason (job ∷ jobs) t h =
      encrypted-IsSound (response_context job.id) notice _ t h λ envelope u k.
        end_waiting-IsSound notice reason jobs _ (
          update-IsSound (λ j. str_eq j.id job.id && is_waiting j.status)
            (ended env.now envelope reason) u (λ j. refl)
            (λ j s hit. ended-Sound env.now envelope reason j) k)

  pub cancel_pending-IsSound :
      (reason : String) (t : Tables) → IsSound t → IsSound (cancel_pending env reason t).1
  unfolding cancel_pending
  cancel_pending-IsSound reason t h =
      let jobs = select (λ j. is_waiting j.status) t.jobs in
      >>-IsSound (end_waiting env disabled_notice (clip 500 reason) jobs) _ t
        (end_waiting-IsSound disabled_notice (clip 500 reason) jobs t h)
        λ u k.
          >>-IsSound (cleanup_if (leb 1 (length jobs)) env.now) (pure (length jobs)) u
            (cleanup_if-IsSound (leb 1 (length jobs)) env.now u k) (λ v l. l)

  pub prepare_for_removal-IsSound :
      (reason : String) (t : Tables) → IsSound t → IsSound (prepare_for_removal env reason t).1
  unfolding prepare_for_removal
  prepare_for_removal-IsSound reason t h =
      update-IsSound has_work (removed env.now (clip 500 reason)) t (λ j. refl) (λ j s hit. refl) h

  after_delivery-IsSound :
      (job : Job) (outcome : Delivered) (t : Tables)
      → IsSound t
      → HasEnded job.id t
      → IsSound (after_delivery env job outcome t).1
  after_delivery-IsSound job taken t h e =
      at_id-IsSound job.id (with_delivery delivered) t (λ j. refl) (λ j. refl)
        (λ j s terminal. ground arith) h e
  after_delivery-IsSound job (refused retryable) t h e =
      elim (Bool-cases (not retryable || leb 5 (job.delivery_attempts + 1))) [
        | inl last ↦ rw last (
            at_id-IsSound job.id
              (λ j.
                with_delivery DeliveryStatus.failed
                  (record j { delivery_attempts = job.delivery_attempts + 1 }))
              t (λ j. refl) (λ j. refl) (λ j s terminal. ground arith) h e)
        | inr again ↦ rw again (
            cleanup-IsSound env.now _ (
              update-IsSound (λ j. str_eq j.id job.id && awaits_delivery j.delivery_status)
                (λ j. record j { delivery_attempts = job.delivery_attempts + 1 }) t (λ j. refl)
                (λ j s hit. ground arith) h))
      ]

  pub deliver_pending-IsSound :
      (id : String) (t : Tables) → IsSound t → IsSound (deliver_pending env id t).1
  unfolding deliver_pending
  deliver_pending-IsSound id t h =
      elim (Option-cases (find (λ j. str_eq j.id id && awaits_delivery j.delivery_status) t.jobs)) [
        | inl none_ ↦ rw none_ h
        | inr (job, found) ↦
            let (same, ended_) = awaiting_ended id t.jobs job h.0 h.1 found in
            let is_there =
              (find_sound (λ j. str_eq j.id id && awaits_delivery j.delivery_status) t.jobs
                found).0 in
            let ended_job : HasEnded job.id t = subst (λ x. HasEnded x t) (sym same) ended_ in
            rw found (elim (Bool-cases (can_deliver env job)) [
              | inl able ↦ rw able (
                  after_delivery-IsSound job (outcome_of (posted env job)) (env.others t)
                    (calm.keeps t h) (calm.ends job t is_there ended_job))
              | inr not_able ↦ rw not_able (
                  at_id-IsSound job.id (with_delivery DeliveryStatus.failed) t (λ j. refl)
                    (λ j. refl) (λ j s terminal. ground arith) h ended_job)
            ])
      ]

  pub fail_job-IsSound :
      (reason : String) (job : Job) (t : Tables) → IsSound t → IsSound (fail_job env reason job t).1
  unfolding fail_job
  fail_job-IsSound reason job t h =
      encrypted-IsSound (response_context job.id) failure_notice _ t h λ envelope u k.
        let kept =
          update-IsSound (is_running_at job.id) (ended env.now envelope (clip 500 reason)) u
            (λ j. refl) (λ j s hit. refl) k in
        elim (Bool-cases (count_where (is_running_at job.id) u.jobs == 1)) [
          | inl one ↦ rw one (deliver_pending-IsSound job.id _ kept)
          | inr none_ ↦ rw none_ kept
        ]
