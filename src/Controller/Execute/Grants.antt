-- ===== src/Controller/Execute/Grants.antt =====
-- An execution leaves the grants as it finds them once it has spent its own.
use crabhelm.Effect.{◌>>=◌, M, Result, continue_with, ok, err, pure}
use crabhelm.Controller.Execute.{
  Warning, noting, unless_lost, noted, ExecuteSetting, SignedClaims, record_audit,
  record_invocation, recording, running_github, queue_noted, audit_not_recorded,
  invocation_outcome_not_recorded, attempt, audit_not_queued, audit_call, update_call,
  coordinator_outcome_not_recorded, with_grant, executed_event, finish_call, answer, audit,
  has_succeeded, outcome_patch, error_of, no_patch, running,
}
use crabhelm.Common.{
  Option, String, List, some, ◌≡◌, true, ◌∷◌, arith, Bool-cases, ◌∙◌, inl, inr, [], refl, none,
  Bool, any, str_eq, ◌++◌, false,
}
use crabhelm.Coordinator.Grants.{start_run, finish_run}
use crabhelm.Controller.Prepare.{State, IssueSetting}
use crabhelm.Errors.{Error}
use crabhelm.GovernanceRegistry.Types.{GovernanceAuditEvent, AuditInput}
use crabhelm.Controller.Issue.{sent, in_tables, in_stores}
use crabhelm.Controller.Arguments.{Arguments}
use crabhelm.GovernanceRegistry.Stores.{event_of}
use crabhelm.GovernanceRegistry.Invocations.{update_invocation}

-- A call that leaves the grants as they are.
abbrev pub KeepsGrants : {A : Type 0} → M State A → Type 0
KeepsGrants m = (s : State) → (m s).1.tables.grants ≡ s.tables.grants

>>=-KeepsGrants :
    {A B : Type 0} (m : M State A) (f : A → M State B)
    → KeepsGrants m
    → ((a : A) → KeepsGrants (f a))
    → KeepsGrants (m >>= f)
>>=-KeepsGrants m f hm hf s = onwards (m s) (hm s)
  where
    onwards :
        (r : Result _ × State)
        → r.1.tables.grants ≡ s.tables.grants
        → (continue_with r f).1.tables.grants ≡ s.tables.grants
    onwards (ok a, t) e = hf a t ∙ e
    onwards (err x, t) e = e

noting-KeepsGrants :
    {A : Type 0} (warning : Warning) (m : M State A)
    → KeepsGrants m
    → KeepsGrants (noting warning m)
noting-KeepsGrants {A = A} warning m hm s = same (m s) ∙ hm s
  where
    same : (r : Result A × State) → (noted warning r).1.tables.grants ≡ r.1.tables.grants
    same (ok a, t) = refl
    same (err e, t) = refl

unless_lost-KeepsGrants :
    {A : Type 0} (lost : Option Error) (m : M State A)
    → KeepsGrants m
    → KeepsGrants (unless_lost lost m)
unless_lost-KeepsGrants none m hm = hm
unless_lost-KeepsGrants (some e) m hm = λ s. refl

sent-KeepsGrants :
    (w : IssueSetting) (lost : Option Error) (event : GovernanceAuditEvent)
    → KeepsGrants (sent w lost event)
sent-KeepsGrants w none event = λ s. refl
sent-KeepsGrants w (some e) event = λ s. refl

module _ (w : ExecuteSetting) (id : String) (c : SignedClaims) where
  queue_noted-KeepsGrants :
      (input : AuditInput) (stored : List Warning) → KeepsGrants (queue_noted w input stored)
  queue_noted-KeepsGrants input [] =
      noting-KeepsGrants (audit_not_queued w.base.ambient.event_id)
        (sent w.base w.base.queue_error (event_of w.base.ambient input))
        (sent-KeepsGrants w.base w.base.queue_error (event_of w.base.ambient input))
  queue_noted-KeepsGrants input (x ∷ xs) = λ s. refl

  record_audit-KeepsGrants :
      (outcome : Result String) (ws : List Warning) → KeepsGrants (record_audit w id c outcome ws)
  record_audit-KeepsGrants outcome ws =
      >>=-KeepsGrants (noting audit_not_recorded (audit_call w (executed_event w id c outcome)))
        (λ stored.
          queue_noted w (executed_event w id c outcome) stored >>= λ queued. pure (ws ++ queued))
        (noting-KeepsGrants audit_not_recorded (audit_call w (executed_event w id c outcome)) (
          unless_lost-KeepsGrants w.audit_error
            (in_stores w.base (audit w.base.ambient (executed_event w id c outcome))) (λ s. refl)))
        (λ stored.
          >>=-KeepsGrants (queue_noted w (executed_event w id c outcome) stored)
            (λ queued. pure (ws ++ queued))
            (queue_noted-KeepsGrants (executed_event w id c outcome) stored) (λ queued s. refl))

  record_invocation-KeepsGrants :
      (outcome : Result String) (ws : List Warning)
      → KeepsGrants (record_invocation w id c outcome ws)
  record_invocation-KeepsGrants outcome ws =
      >>=-KeepsGrants (noting invocation_outcome_not_recorded (update_call w id outcome))
        (λ late. record_audit w id c outcome (ws ++ late))
        (noting-KeepsGrants invocation_outcome_not_recorded (update_call w id outcome) (
          unless_lost-KeepsGrants w.invocation_error
            (in_stores w.base (update_invocation w.base.tx id (outcome_patch w outcome)))
            (λ s. refl)))
        (λ late. record_audit-KeepsGrants outcome (ws ++ late))

  recording-KeepsGrants : (outcome : Result String) → KeepsGrants (recording w id c outcome)
  unfolding recording finish_run
  recording-KeepsGrants outcome =
      >>=-KeepsGrants (noting coordinator_outcome_not_recorded (finish_call w id outcome))
        (record_invocation w id c outcome)
        (noting-KeepsGrants coordinator_outcome_not_recorded (finish_call w id outcome) (
          unless_lost-KeepsGrants w.coordinator_error
            (in_tables w.base
              (finish_run w.base.coordinator id (has_succeeded outcome) (error_of w outcome)))
            (λ s. refl)))
        (record_invocation-KeepsGrants outcome)

  running_github-KeepsGrants : (args : Arguments) → KeepsGrants (running_github w id c args)
  unfolding running_github
  running_github-KeepsGrants args s =
      >>=-KeepsGrants (recording w id c (attempt w c args s.stores))
        (λ ws. pure (answer (attempt w c args s.stores) ws))
        (recording-KeepsGrants (attempt w c args s.stores)) (λ ws t. refl) s

  start_run-KeepsGrants : KeepsGrants (in_tables w.base (start_run w.base.coordinator id))
  unfolding start_run
  start_run-KeepsGrants s = elim (Bool-cases (any (λ r. str_eq r.invocation_id id) s.tables.runs)) [
    | inl taken ↦ ground arith
    | inr new ↦ ground arith
  ]

  pub with_grant-KeepsGrants :
      (args : Arguments) (b : Bool) → KeepsGrants (with_grant w id c args b)
  with_grant-KeepsGrants args false = λ s. refl
  with_grant-KeepsGrants args true =
      >>=-KeepsGrants (in_tables w.base (start_run w.base.coordinator id))
        (λ _.
          in_stores w.base
            (update_invocation w.base.tx id (record no_patch { status = some running }))
          >>= λ _. running_github w id c args)
        start_run-KeepsGrants
        (λ _.
          >>=-KeepsGrants
            (in_stores w.base
              (update_invocation w.base.tx id (record no_patch { status = some running })))
            (λ _. running_github w id c args) (λ s. refl) (λ _. running_github-KeepsGrants args))
