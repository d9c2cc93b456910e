-- ===== src/Coordinator/Rows.antt =====
-- When the rows of the coordinator's table of jobs are sound: each has the fields that its status
-- goes with, and no two have the same id.
use crabhelm.Coordinator.Tables.{JobStatus, Job, Tables, set_jobs, DeliveryStatus, completed, idle}
use crabhelm.Common.{
  String, List, Bool, ◌≡◌, str_eq, ◌∷◌, All, not, any, is_some, true, false, ◌||◌, find, [], ◌&&◌,
  Bool-cases, ◌++◌, arith, subst, sym, inl, inr, some, eq_iff, refl, eq_refl, find_sound,
}
use crabhelm.Coordinator.Sql.{update_where, delete_where}
use crabhelm.Coordinator.Jobs.{awaits_delivery}
use crabhelm.Coordinator.Sql.Laws.{delete_where-All, All-map, update_where-All, append-All, All-In}
use crabhelm.Coordinator.Completion.{is_terminal}
use crabhelm.Coordinator.Delivery.{at_id}

abbrev pub is_idle : DeliveryStatus → Bool
is_idle idle = true
is_idle _ = false

-- The fields of a job in each status. One that waits has no outcome; a job that has one ended at some
-- time, and its answer is on its way or delivered, or its delivery failed.
abbrev pub is_sound_as : JobStatus → Job → Bool
is_sound_as JobStatus.pending j =
    not (is_some j.runtime_id)
    && not (is_some j.claimed_at)
    && not (is_some j.completed_at)
    && is_idle j.delivery_status
    && not (is_some j.error)
is_sound_as completed j =
    is_some j.completed_at && not (is_idle j.delivery_status) && not (is_some j.error)
is_sound_as JobStatus.failed j =
    is_some j.completed_at && not (is_idle j.delivery_status) && is_some j.error
is_sound_as _ j =
    is_some j.runtime_id
    && is_some j.claimed_at
    && not (is_some j.completed_at)
    && is_idle j.delivery_status
    && not (is_some j.error)

abbrev pub Sound : Job → Type 0
Sound j = is_sound_as j.status j ≡ true

abbrev pub Other : String → Job → Type 0
Other id j = str_eq j.id id ≡ false

abbrev pub Distinct : List Job → Type 0
Distinct [] = Unit {0}
Distinct (j ∷ js) = All (Other j.id) js × Distinct js

abbrev pub IsSound : Tables → Type 0
IsSound t = All Sound t.jobs × Distinct t.jobs

-- The jobs with this id have ended.
abbrev pub EndedAt : String → Job → Type 0
EndedAt id j = not (str_eq j.id id) || is_terminal j.status ≡ true

abbrev pub HasEnded : String → Tables → Type 0
HasEnded id t = All (EndedAt id) t.jobs

update_where-Distinct :
    (test : Job → Bool) (set : Job → Job) (js : List Job)
    → ((j : Job) → (set j).id ≡ j.id)
    → Distinct js
    → Distinct (update_where test set js)
unfolding update_where
update_where-Distinct test set [] keep h = tt
update_where-Distinct test set (j ∷ js) keep (h, hs) =
    let rest = update_where-Distinct test set js keep hs in
    let others =
      update_where-All (Other j.id) test set js
        (λ q o hit. subst (λ x. str_eq x j.id ≡ false) (sym (keep q)) o) h in
    elim (Bool-cases (test j)) [
      | inl hit ↦
          subst Distinct (updates hit)
            (subst (λ x. All (Other x) (update_where test set js)) (sym (keep j)) others, rest)
      | inr miss ↦ subst Distinct (skips miss) (others, rest)
    ]
  where
    updates : test j ≡ true → set j ∷ update_where test set js ≡ update_where test set (j ∷ js)
    updates hit = rw hit refl

    skips : test j ≡ false → j ∷ update_where test set js ≡ update_where test set (j ∷ js)
    skips miss = rw miss refl

delete_where-Distinct :
    (test : Job → Bool) (js : List Job) → Distinct js → Distinct (delete_where test js)
unfolding delete_where
delete_where-Distinct test [] h = tt
delete_where-Distinct test (j ∷ js) (h, hs) =
    let rest = delete_where-Distinct test js hs in
    elim (Bool-cases (test j)) [
      | inl hit ↦ subst Distinct (deletes hit) rest
      | inr miss ↦ subst Distinct (skips miss) (delete_where-All (Other j.id) test js h, rest)
    ]
  where
    deletes : test j ≡ true → delete_where test js ≡ delete_where test (j ∷ js)
    deletes hit = rw hit refl

    skips : test j ≡ false → j ∷ delete_where test js ≡ delete_where test (j ∷ js)
    skips miss = rw miss refl

differ_sym : (a b : String) → str_eq a b ≡ false → str_eq b a ≡ false
differ_sym a b h = elim (Bool-cases (str_eq b a)) [
  | inr miss ↦ miss
  | inl hit ↦ absurd (ground (arith, (eq_iff b a).0 hit, eq_refl a))
]

pub append-Distinct :
    (js : List Job) (j : Job)
    → Distinct js
    → any (λ r. str_eq r.id j.id) js ≡ false
    → Distinct (js ++ (j ∷ []))
append-Distinct [] j h new = (tt, tt)
append-Distinct (q ∷ js) j (h, hs) new = (
  append-All (Other q.id) js j h (differ_sym q.id j.id (ground arith)),
  append-Distinct js j hs (ground arith),
)

-- An update that keeps ids and makes sound rows of sound rows.
pub update-IsSound :
    (test : Job → Bool) (set : Job → Job) (t : Tables)
    → ((j : Job) → (set j).id ≡ j.id)
    → ((j : Job) → Sound j → test j ≡ true → Sound (set j))
    → IsSound t
    → IsSound (set_jobs (update_where test set) t).1
update-IsSound test set t keep makes (sound, distinct) = (
  update_where-All Sound test set t.jobs makes sound,
  update_where-Distinct test set t.jobs keep distinct,
)

pub delete-IsSound :
    (test : Job → Bool) (js : List Job)
    → All Sound js × Distinct js
    → All Sound (delete_where test js) × Distinct (delete_where test js)
delete-IsSound test js (sound, distinct) =
    (delete_where-All Sound test js sound, delete_where-Distinct test js distinct)

ended_head :
    (id : String) (j : Job) → Sound j → awaits_delivery j.delivery_status ≡ true → EndedAt id j
ended_head id j s a = ground arith

others_ended : (id x : String) (js : List Job) → x ≡ id → All (Other x) js → All (EndedAt id) js
others_ended id x js same h =
    All-map (λ q o. let o' = subst (λ y. str_eq q.id y ≡ false) same o in ground arith) js h

-- A job whose answer is to be delivered has ended, and is the only one with its id.
pub awaiting_ended :
    (id : String) (js : List Job) (job : Job)
    → All Sound js
    → Distinct js
    → find (λ j. str_eq j.id id && awaits_delivery j.delivery_status) js ≡ some job
    → (job.id ≡ id) × All (EndedAt id) js
awaiting_ended id [] job sound distinct found = absurd (ground arith)
awaiting_ended id (j ∷ js) job (s, sound) (o, distinct) found = elim (Bool-cases (str_eq j.id id)) [
  | inr miss ↦
      let (same, rest) = awaiting_ended id js job sound distinct (ground arith) in
      (same, (ground arith, rest))
  | inl hit ↦ elim (Bool-cases (awaits_delivery j.delivery_status)) [
    | inl waits ↦
        let same = (eq_iff j.id id).0 hit in
        let is : j ≡ job = ground arith in
        (subst (λ x. x.id ≡ id) is same, (ended_head id j s waits, others_ended id j.id js same o))
    | inr idle_ ↦
        let (there_, passed) =
          find_sound (λ j. str_eq j.id id && awaits_delivery j.delivery_status) js {x = job}
            (ground arith) in
        let apart : str_eq job.id j.id ≡ false = All-In (Other j.id) js o there_ in
        let same = (eq_iff j.id id).0 hit in
        absurd (ground (arith, eq_iff job.id j.id, eq_iff job.id id))
  ]
]

zip-All : (P Q : Job → Type 0) (js : List Job) → All P js → All Q js → All (λ j. P j × Q j) js
zip-All P Q [] p q = tt
zip-All P Q (j ∷ js) (p, ps) (q, qs) = ((p, q), zip-All P Q js ps qs)

-- An update of the jobs with an id, all of which have ended.
pub at_id-IsSound :
    (id : String) (set : Job → Job) (t : Tables)
    → ((j : Job) → (set j).id ≡ j.id)
    → ((j : Job) → (set j).status ≡ j.status)
    → ((j : Job) → Sound j → is_terminal j.status ≡ true → Sound (set j))
    → IsSound t
    → HasEnded id t
    → IsSound (at_id id set t).1
at_id-IsSound id set t keep stays makes (sound, distinct) ended_ =
    let both = zip-All Sound (EndedAt id) t.jobs sound ended_ in
    let after =
      update_where-All (λ j. Sound j × EndedAt id j) (λ j. str_eq j.id id) set t.jobs
        (λ j (s, e) hit. (makes j s (ground arith), rw (keep j, stays j) e)) both in
    (
      All-map (λ j (s, e). s) (update_where (λ j. str_eq j.id id) set t.jobs) after,
      update_where-Distinct (λ j. str_eq j.id id) set t.jobs keep distinct,
    )
