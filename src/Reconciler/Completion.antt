-- ===== src/Reconciler/Completion.antt =====
-- Removals end: rounds whose provider does what it is asked delete the claw.
use crabhelm.Reconciler.Provider.{Report}
use crabhelm.Claw.Types.{DeletionState, ClawRecord}
use crabhelm.Common.{
  ℕ, some, ◌≡◌, is_some, ◌≤◌, true, suc, arith, ◌⊎◌, inl, inr, refl, String, Option-cases, Bool,
  subst, sym, Bool-cases,
}
use crabhelm.Reconciler.Removal.{removal_report}
use crabhelm.Reconciler.Round.{Round, reconcile_one, reconciling}
use crabhelm.Claw.Fleet.{is_gone}
use crabhelm.Registry.{Fleet, require_claw, normalize_record, Call}
use crabhelm.Reconciler.Progress.{IsAlone, IsRemoving, seen_as, removal_round_stores}
use crabhelm.Store.{lookup}
use crabhelm.Reconciler.Reports.{stored, lookup-stored, observed_as}
use crabhelm.Reconciler.Nearer.{IsHelpful, left, left_at_bounds, IsDue, left_at, at_stage-IsNearer}

module _ (tx : Bool) (id : String) where
  -- A round that a helpful world answers, in stores that no other method changes, once the quiet
  -- period of a claw that has been seen idle is over.
  pub record IsHelped (round : Round) (s : Fleet) : Type 0 where
    pub alone : IsAlone round s
    pub helpful : IsHelpful round.world
    pub due :
        (c : ClawRecord) (d : DeletionState) → IsRemoving id s c d → IsDue round.world d.drained_at

  -- So many such rounds.
  pub data Helped : Fleet → ℕ → Fleet → Type 0 where
    over : (s : Fleet) → Helped s 0 s
    after :
        {n : ℕ} {s t : Fleet} (round : Round)
        → IsHelped round s
        → Helped (reconcile_one tx round id s).1 n t
        → Helped s (suc n) t

  IsGoneAt : Fleet → Type 0
  IsGoneAt s = (c : ClawRecord) × (lookup id s.claws ≡ some c) × (is_gone c.observed.phase ≡ true)

  gone_stays : (round : Round) (s : Fleet) → IsGoneAt s → IsGoneAt (reconcile_one tx round id s).1
  unfolding IsGoneAt reconcile_one require_claw reconciling normalize_record
  gone_stays round s (c, found, gone) = (c, ground arith, gone)

  all_gone : (s : Fleet) (n : ℕ) (t : Fleet) → Helped s n t → IsGoneAt s → IsGoneAt t
  all_gone s n t (over _) h = h
  all_gone s n t (after {n = m} round helped rest) h =
      all_gone (reconcile_one tx round id s).1 m t rest (gone_stays round s h)

  -- What a round leaves of a removal: nothing, or less than there was.
  IsNearerAt : Fleet → ℕ → Type 0
  IsNearerAt t n =
      IsGoneAt t
      ⊎ ((next : ClawRecord) × (e : DeletionState) × IsRemoving id t next e
          × (suc (left next.observed) ≤ n))

  stored_nearer :
      (call : Call) (s : Fleet) (c : ClawRecord) (p : Report) (n : ℕ)
      → c.id ≡ id
      → suc (left p.observed) ≤ n
      → (is_gone p.observed.phase ≡ true) ⊎ (is_some p.observed.deletion ≡ true)
      → IsNearerAt (stored call id c p s) n
  unfolding IsNearerAt IsGoneAt
  stored_nearer call s c p n keyed near end =
      let found = lookup-stored call id c p s in
      let next = observed_as call c p.observed in
      elim (Bool-cases (is_gone p.observed.phase)) [
        | inl gone ↦ inl (next, found, gone)
        | inr live ↦ elim (Option-cases p.observed.deletion) [
          | inl unasked ↦ absurd (ground arith)
          | inr (e, asked) ↦
              inr
                (next, e, record { found = found; keyed = keyed; live = live; asked = asked }, near)
        ]
      ]

  left_of_removing :
      (s : Fleet) (c : ClawRecord) (d : DeletionState)
      → IsRemoving id s c d
      → left c.observed ≡ left_at d.stage d.drained_at
  left_of_removing s c d is = rw (is.live, is.asked) refl

  round_nearer :
      (round : Round) (s : Fleet) (c : ClawRecord) (d : DeletionState)
      → IsHelped round s
      → IsRemoving id s c d
      → IsNearerAt (reconcile_one tx round id s).1 (left c.observed)
  unfolding removal_report normalize_record
  round_nearer round s c d helped is =
      let (i, asked) = helped.helpful.routes (normalize_record c) in
      let (p, reported, near, end) =
        at_stage-IsNearer round.world (seen_as c i) d helped.helpful d.stage refl
          (helped.due c d is) in
      subst (λ r. IsNearerAt r.1 (left c.observed))
        (sym (removal_round_stores tx round id s c i d p helped.alone is asked reported))
        (stored_nearer round.second.call s c p (left c.observed) is.keyed
          (omega (arith, left_of_removing s c d is)) end)

  removal_completes_from :
      (n : ℕ) (s t : Fleet) (c : ClawRecord) (d : DeletionState)
      → Helped s n t
      → IsRemoving id s c d
      → left c.observed ≤ n
      → IsGoneAt t
  unfolding IsNearerAt
  removal_completes_from n s t c d (over _) is enough =
      let now : left c.observed ≡ left_at d.stage d.drained_at = left_of_removing s c d is in
      absurd (omega (arith, left_at_bounds d.stage d.drained_at))
  removal_completes_from n s t c d (after {n = m} round helped rest) is enough =
      elim (round_nearer round s c d helped is) [
        | inl gone ↦ all_gone (reconcile_one tx round id s).1 m t rest gone
        | inr (next, e, is_next, near) ↦
            removal_completes_from m (reconcile_one tx round id s).1 t next e rest is_next
              (omega arith)
      ]

  -- Removals end: in stores that no other method changes, with a provider and a router that answer
  -- and a provider that does what it is asked (it applies the disabling, finds the drained runs
  -- finished, finds the resource absent and confirms the pairing's absence), and with each round
  -- after a claw was seen idle run once its quiet period is over, six rounds or more of a claw whose
  -- removal was requested, in whatever stage it is, leave the claw deleted.
  pub removal_completes :
      (n : ℕ) (s t : Fleet) (c : ClawRecord) (d : DeletionState)
      → Helped s n t
      → IsRemoving id s c d
      → 6 ≤ n
      → (end : ClawRecord) × (lookup id t.claws ≡ some end) × (is_gone end.observed.phase ≡ true)
  unfolding IsGoneAt
  removal_completes n s t c d rounds is enough =
      removal_completes_from n s t c d rounds is
        (omega (arith, left_of_removing s c d is, left_at_bounds d.stage d.drained_at))
