-- ===== src/Controller/Execute/Outcome.antt =====
-- The answer to an execution is the outcome of GitHub's request, whatever is not recorded.
use crabhelm.GovernanceRegistry.Stores.{audit, event_of}
use crabhelm.Effect.{◌>>=◌, continue_with, pure}
use crabhelm.Effect.{Result, M, ok, err}
use crabhelm.Controller.Execute.{
  Warning, ExecuteSetting, SignedClaims, noted, unless_lost, executed_event, status_of, noting,
  queue_noted, record_audit, record_invocation, recording, audit_not_queued, audit_call,
  update_call, finish_call, outcome_patch, invocation_outcome_not_recorded,
  coordinator_outcome_not_recorded, audit_not_recorded, has_succeeded, error_of, running_github,
  answer, attempt,
}
use crabhelm.Common.{
  Option, String, ◌≡◌, some, [], arith, ◌⊎◌, ◌∷◌, none, inl, inr, List, ◌++◌, refl, ap, ◌∙◌, sym,
}
use crabhelm.Errors.{Error}
use crabhelm.Controller.Prepare.{State}
use crabhelm.GovernanceRegistry.Types.{InvocationRecord, GovernanceAuditEvent}
use crabhelm.Store.{lookup, register}
use crabhelm.Controller.Issue.{sent, in_stores, in_tables}
use crabhelm.Coordinator.Tables.{Tables}
use crabhelm.GovernanceRegistry.Invocations.{update_invocation}
use crabhelm.GovernanceRegistry.Invocations.Outcomes.{update_invocation_outcome}
use crabhelm.Coordinator.Grants.{finish_run}
use crabhelm.Store.Laws.{lookup-register_self}
use crabhelm.Controller.Issue.Confirmed.{in_stores-ok}
use crabhelm.Controller.Arguments.{Arguments}

-- A call that is noted has succeeded, or left its warning.
noted_lem :
    {A : Type 0} (warning : Warning) (r : Result A × State)
    → (noted warning r ≡ (ok [], r.1)) × ((a : A) × (r ≡ (ok a, r.1)))
      ⊎ (noted warning r ≡ (ok (warning ∷ []), r.1))
noted_lem warning (ok a, s) = inl (refl, (a, refl))
noted_lem warning (err e, s) = inr refl

append_none : {A : Type 0} (xs ys : List A) → xs ++ ys ≡ [] → (xs ≡ []) × (ys ≡ [])
append_none [] ys e = (refl, e)
append_none (x ∷ xs) ys e = ground arith

noting_then :
    {A B : Type 0} (warning : Warning) (m : M State A) (f : List Warning → M State B) (s : State)
    → (ws : List Warning) × ((noting warning m >>= f) s ≡ f ws (m s).1)
      × (ws ≡ [] → (a : A) × (m s ≡ (ok a, (m s).1)))
noting_then warning m f s = elim (noted_lem warning (m s)) [
  | inl (e, went) ↦ ([], ap (λ r. continue_with r f) e, λ _. went)
  | inr e ↦ (warning ∷ [], ap (λ r. continue_with r f) e, λ none_. ground arith)
]

unless_lost_lem :
    {A : Type 0} (lost : Option Error) (call : M State A) (s t : State) (a : A)
    → unless_lost lost call s ≡ (ok a, t)
    → call s ≡ (ok a, t)
unless_lost_lem none call s t a e = e
unless_lost_lem (some x) call s t a e = ground arith

module _ (w : ExecuteSetting) (id : String) (c : SignedClaims) (outcome : Result String) where
  abbrev event : GovernanceAuditEvent
  event = event_of w.base.ambient (executed_event w id c outcome)

  -- The outcome is in the invocation's record, in the stored events and in the queue.
  pub record IsRecorded (s t : State) : Type 0 where
    pub invocation : InvocationRecord
    pub stored : lookup id t.stores.invocations ≡ some invocation
    pub status : invocation.status ≡ status_of outcome
    pub audited_ : lookup w.base.ambient.event_id t.stores.events ≡ some event
    pub queued : t.queued ≡ event ∷ s.queued

  queue_then :
      (stored : List Warning) (f : List Warning → M State (List Warning)) (s : State)
      → (ws : List Warning) × (t : State) × ((queue_noted w (executed_event w id c outcome) stored
              >>= f)
            s
          ≡ f ws t)
        × (ws ≡ [] → (stored ≡ []) × (t.stores ≡ s.stores) × (t.queued ≡ event ∷ s.queued))
  queue_then (x ∷ xs) f s = (x ∷ xs, s, refl, λ e. ground arith)
  queue_then [] f s =
      let (ws, e, went) =
        noting_then (audit_not_queued w.base.ambient.event_id)
          (sent w.base w.base.queue_error event) f s in
      (
        ws,
        (sent w.base w.base.queue_error event s).1,
        e,
        λ none_.
            let (u, is) = went none_ in
            let (stores, queue) = sent_lem w.base.queue_error u is in (refl, stores, queue),
      )
    where
      sent_lem :
          (lost : Option Error) (u : Unit {0})
          → sent w.base lost event s ≡ (ok u, (sent w.base lost event s).1)
          → ((sent w.base lost event s).1.stores ≡ s.stores)
            × ((sent w.base lost event s).1.queued ≡ event ∷ s.queued)
      sent_lem none u e = (refl, refl)
      sent_lem (some x) u e = ground arith

  audited_lem :
      (lost : Option Error) (s t : State) (u : Unit {0})
      → unless_lost lost (in_stores w.base (audit w.base.ambient (executed_event w id c outcome))) s
        ≡ (ok u, t)
      → t ≡ record s {
        stores = record s.stores {
          events = register w.base.ambient.event_id event s.stores.events;
        };
      }
  unfolding audit
  audited_lem none s t u e = sym (ap (λ x. x.1) e)
  audited_lem (some x) s t u e = ground arith

  audit_then :
      (ws : List Warning) (s : State)
      → (vs : List Warning) × (t : State) × (record_audit w id c outcome ws s ≡ (ok vs, t))
        × (vs ≡ []
            → (ws ≡ [])
              × (t.stores.invocations ≡ s.stores.invocations)
              × (lookup w.base.ambient.event_id t.stores.events ≡ some event)
              × (t.queued ≡ event ∷ s.queued))
  audit_then ws s =
      let call = audit_call w (executed_event w id c outcome) in
      let then_queue : List Warning → M State (List Warning) = λ stored.
        queue_noted w (executed_event w id c outcome) stored >>= λ queued. pure (ws ++ queued) in
      let (stored, e, went) = noting_then audit_not_recorded call then_queue s in
      let (queued, t, e', sent_) = queue_then stored (λ queued. pure (ws ++ queued)) (call s).1 in
      (
        ws ++ queued,
        t,
        e ∙ e',
        λ none_.
            let (first, last) = append_none ws queued none_ in
            let (no_warning, stores, queue) = sent_ last in
            let (u, is) = went no_warning in
            let s1 = audited_lem w.audit_error s (call s).1 u is in
            (
              first,
              ap (λ x. x.invocations) stores ∙ ap (λ x. x.stores.invocations) s1,
              ap (λ x. lookup w.base.ambient.event_id x.events) stores
                  ∙ ap (λ x. lookup w.base.ambient.event_id x.stores.events) s1
                  ∙ lookup-register_self w.base.ambient.event_id event s.stores.events,
              queue ∙ ap (λ x. event ∷ x.queued) s1,
            ),
      )

  updated_lem :
      (lost : Option Error) (s t : State) (r : InvocationRecord)
      → unless_lost lost
          (in_stores w.base (update_invocation w.base.tx id (outcome_patch w outcome)))
          s
        ≡ (ok r, t)
      → (lookup id t.stores.invocations ≡ some r)
        × (r.status ≡ status_of outcome)
        × (t.queued ≡ s.queued)
  updated_lem none s t r e =
      let m = update_invocation w.base.tx id (outcome_patch w outcome) in
      let (at, is) =
        update_invocation_outcome w.base.tx id (outcome_patch w outcome) (status_of outcome)
          s.stores r t.stores refl (in_stores-ok w.base m s t r e) in
      (at, is, sym (ap (λ x. x.1.queued) e))
  updated_lem (some x) s t r e = ground arith

  invocation_then :
      (ws : List Warning) (s : State)
      → (vs : List Warning) × (t : State) × (record_invocation w id c outcome ws s ≡ (ok vs, t))
        × (vs ≡ [] → (ws ≡ []) × IsRecorded s t)
  invocation_then ws s =
      let call = update_call w id outcome in
      let (late, e, went) =
        noting_then invocation_outcome_not_recorded call
          (λ late. record_audit w id c outcome (ws ++ late)) s in
      let (vs, t, e', then_) = audit_then (ws ++ late) (call s).1 in
      (
        vs,
        t,
        e ∙ e',
        λ none_.
            let (both, invocations, at_event, queue) = then_ none_ in
            let (first, last) = append_none ws late both in
            let (r, is) = went last in
            let (at, has_status, same) = updated_lem w.invocation_error s (call s).1 r is in
            (
              first,
              record {
                invocation = r;
                stored = ap (lookup id) invocations ∙ at;
                status = has_status;
                audited_ = at_event;
                queued = queue ∙ ap (λ q. event ∷ q) same;
              },
            ),
      )

  queue_kept :
      {A : Type 0} (lost : Option Error) (m : M Tables A) (s : State)
      → (unless_lost lost (in_tables w.base m) s).1.queued ≡ s.queued
  queue_kept none m s = refl
  queue_kept (some x) m s = refl

  moved : (s s' t : State) → s'.queued ≡ s.queued → IsRecorded s' t → IsRecorded s t
  moved s s' t same is = record {
    invocation = is.invocation;
    stored = is.stored;
    status = is.status;
    audited_ = is.audited_;
    queued = is.queued ∙ ap (λ q. event ∷ q) same;
  }

  recording_lem :
      (s : State)
      → (ws : List Warning) × (t : State) × (recording w id c outcome s ≡ (ok ws, t))
        × (ws ≡ [] → IsRecorded s t)
  unfolding recording
  recording_lem s =
      let call = finish_call w id outcome in
      let (run, e, went) =
        noting_then coordinator_outcome_not_recorded call (record_invocation w id c outcome) s in
      let (ws, t, e', then_) = invocation_then run (call s).1 in
      (
        ws,
        t,
        e ∙ e',
        λ none_.
            let (_, is) = then_ none_ in
            moved s (call s).1 t
              (queue_kept w.coordinator_error
                (finish_run w.base.coordinator id (has_succeeded outcome) (error_of w outcome)) s)
              is,
      )

module _ (w : ExecuteSetting) (id : String) (c : SignedClaims) (args : Arguments) (s : State) where
  -- Once a grant is spent, the answer is the outcome of GitHub's request, whatever fails while it is
  -- recorded; and an answer without warnings is in the invocation's record, in the stored events and
  -- in the archive's queue.
  pub running_github-IsRecorded :
      (ws : List Warning) × (t : State) × (running_github w id c args s
        ≡ (ok (answer (attempt w c args s.stores) ws), t))
      × (ws ≡ [] → IsRecorded w id c (attempt w c args s.stores) s t)
  unfolding running_github
  running_github-IsRecorded =
      let outcome = attempt w c args s.stores in
      let (ws, t, e, is) = recording_lem w id c outcome s in
      (ws, t, ap (λ r. continue_with r (λ warnings. pure (answer outcome warnings))) e, is)
