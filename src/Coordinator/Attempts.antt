-- ===== src/Coordinator/Attempts.antt =====
-- Deliveries end: after five attempts no answer awaits its delivery.
use crabhelm.Effect.{◌>>◌}
use crabhelm.Common.{
  Bool, String, Option, List, ℕ, ◌≡◌, str_eq, some, find, arith, ◌&&◌, false, suc, ◌∷◌, none, ◌-◌,
  Bool-cases, ◌≤◌, inl, inr, not, ◌||◌, [], leb, refl, ◌+◌, subst, Option-cases, sym, find_sound,
  eq_iff, ap, ◌∙◌, All, length,
}
use crabhelm.Coordinator.Sql.{update_where}
use crabhelm.Coordinator.Tables.{
  Env, schedule_cleanup, Job, Tables, set_jobs, delivered, DeliveryStatus,
}
use crabhelm.Coordinator.Jobs.{awaits_delivery}
use crabhelm.Coordinator.Delivery.{
  Delivered, after_delivery, refused, taken, at_id, with_delivery, deliver_pending, can_deliver,
  outcome_of, posted,
}

module _ {A : Type 0} (test : A → Bool) (set : A → A) where
  find-update_where :
      (rs : List A) (r : A)
      → ((q : A) → test (set q) ≡ test q)
      → find test rs ≡ some r
      → find test (update_where test set rs) ≡ some (set r)
  unfolding update_where
  find-update_where [] r keep found = absurd (ground arith)
  find-update_where (q ∷ rs) r keep found = elim (Bool-cases (test q)) [
    | inl hit ↦ ground (arith, keep q)
    | inr miss ↦ let rest = find-update_where rs r keep (ground arith) in ground arith
  ]

-- The answer of the job with this id awaits its delivery.
abbrev pub waits_at : String → Job → Bool
waits_at id j = str_eq j.id id && awaits_delivery j.delivery_status

over_at :
    (id : String) (set : Job → Job) (js : List Job)
    → ((j : Job) → awaits_delivery (set j).delivery_status ≡ false)
    → find (waits_at id) (update_where (λ j. str_eq j.id id) set js) ≡ none
unfolding update_where
over_at id set [] over = refl
over_at id set (j ∷ js) over = elim (Bool-cases (str_eq j.id id)) [
  | inl hit ↦ ground (arith, over j, over_at id set js over)
  | inr miss ↦ ground (arith, over_at id set js over)
]

-- How often an answer may still be tried, at most.
abbrev attempts_left : Option Job → ℕ
attempts_left none = 0
attempts_left (some j) = suc (4 - j.delivery_attempts)

abbrev pub awaited : String → Tables → Option Job
awaited id t = find (waits_at id) t.jobs

-- No other call changes the tables while a delivery awaits Slack.
abbrev pub IsQuiet : Env → Type 0
IsQuiet env = (t : Tables) → env.others t ≡ t

cleanup-jobs : (now : ℕ) (t : Tables) → (schedule_cleanup now t).1.jobs ≡ t.jobs
unfolding schedule_cleanup
cleanup-jobs now t = ground arith

over_nears :
    (id x : String) (set : Job → Job) (t : Tables)
    → x ≡ id
    → ((j : Job) → awaits_delivery (set j).delivery_status ≡ false)
    → awaited id (at_id x set t).1 ≡ none
over_nears id x set t same over =
    subst (λ y. find (waits_at id) (update_where (λ j. str_eq j.id y) set t.jobs) ≡ none) (sym same)
      (over_at id set t.jobs over)

abbrev tried : ℕ → Job → Job
tried attempts j = record j { delivery_attempts = attempts }

again_nears :
    (now attempts : ℕ) (id x : String) (t : Tables) (job : Job)
    → x ≡ id
    → awaited id t ≡ some job
    → awaited id
        ((set_jobs (update_where (waits_at x) (tried attempts)) >> schedule_cleanup now) t).1
      ≡ some (tried attempts job)
again_nears now attempts id x t job same found =
    ap (find (waits_at id))
      (cleanup-jobs now (set_jobs (update_where (waits_at x) (tried attempts)) t).1)
    ∙ subst
        (λ y.
          find (waits_at id) (update_where (waits_at y) (tried attempts) t.jobs)
          ≡ some (tried attempts job))
        (sym same) (find-update_where (waits_at id) (tried attempts) t.jobs job (λ q. refl) found)

module _ (env : Env) (id : String) where
  after_delivery_nears :
      (t : Tables) (job : Job) (outcome : Delivered)
      → job.id ≡ id
      → awaited id t ≡ some job
      → suc (attempts_left (awaited id (after_delivery env job outcome t).1))
        ≤ attempts_left (some job)
  after_delivery_nears t job taken same found =
      rw (over_nears id job.id (with_delivery delivered) t same (λ j. refl)) (omega arith)
  after_delivery_nears t job (refused retryable) same found =
      let attempts = job.delivery_attempts + 1 in
      elim (Bool-cases (not retryable || leb 5 attempts)) [
        | inl last ↦
            rw
              (
                last,
                over_nears id job.id (λ j. with_delivery DeliveryStatus.failed (tried attempts j)) t
                    same (λ j. refl),
              )
              (omega arith)
        | inr again ↦
            let few : leb 5 attempts ≡ false = ground arith in
            rw (again, again_nears env.now attempts id job.id t job same found) (ground arith)
      ]

  -- An attempt leaves nothing to deliver, or fewer attempts than before.
  attempt_nears :
      (t : Tables) (n : ℕ)
      → IsQuiet env
      → attempts_left (awaited id t) ≤ suc n
      → attempts_left (awaited id (deliver_pending env id t).1) ≤ n
  unfolding deliver_pending
  attempt_nears t n quiet enough = elim (Option-cases (awaited id t)) [
    | inl none_ ↦ rw (none_, none_) (omega arith)
    | inr (job, found) ↦
        let (_, waits) = find_sound (waits_at id) t.jobs found in
        let same : job.id ≡ id = (eq_iff job.id id).0 (ground arith) in
        elim (Bool-cases (can_deliver env job)) [
          | inl able ↦
              let nearer = after_delivery_nears t job (outcome_of (posted env job)) same found in
              let enough_ = subst (λ x. attempts_left x ≤ suc n) found enough in
              rw (found, able, quiet t) (omega arith)
          | inr not_able ↦
              rw
                (
                  found,
                  not_able,
                  over_nears id job.id (with_delivery DeliveryStatus.failed) t same (λ j. refl),
                )
                (omega arith)
        ]
  ]

-- Deliveries of a job's answer, one after the other.
unfoldable pub deliver_each : List Env → String → Tables → Tables
unfolding deliver_pending
deliver_each [] id t = t
deliver_each (env ∷ envs) id t = deliver_each envs id (deliver_pending env id t).1

deliveries_near :
    (id : String) (envs : List Env) (t : Tables)
    → All IsQuiet envs
    → attempts_left (awaited id t) ≤ length envs
    → attempts_left (awaited id (deliver_each envs id t)) ≤ 0
unfolding deliver_each
deliveries_near id [] t quiet enough = enough
deliveries_near id (env ∷ envs) t (quiet, rest) enough =
    deliveries_near id envs (deliver_pending env id t).1 rest
      (attempt_nears env id t (length envs) quiet enough)

left_bound : (job : Option Job) → attempts_left job ≤ 5
left_bound none = omega arith
left_bound (some job) = omega arith

none_left : (job : Option Job) → attempts_left job ≤ 0 → job ≡ none
none_left none h = refl
none_left (some job) h = absurd (omega arith)

-- Deliveries end: after five deliveries of a job's answer, or more, each of which Slack takes,
-- refuses or leaves without an answer, or whose envelope cannot be read, no answer of the job awaits
-- its delivery, if no other call changes the tables while a delivery awaits Slack.
pub deliveries_end :
    (id : String) (envs : List Env) (t : Tables)
    → All IsQuiet envs
    → 5 ≤ length envs
    → find (waits_at id) (deliver_each envs id t).jobs ≡ none
deliveries_end id envs t quiet enough =
    none_left (awaited id (deliver_each envs id t))
      (deliveries_near id envs t quiet (omega (arith, left_bound (awaited id t))))
