-- ===== src/Controller/Issue/Confirmed.antt =====
-- What a confirmed action needs before its grant is issued.
use crabhelm.GovernanceRegistry.Types.{
  InvocationRecord, ConfirmationRecord, approved, used, GovernanceAuditEvent, AuditInput,
}
use crabhelm.Common.{
  ℕ, String, Option, ◌≡◌, some, false, true, ap, sym, ◌∙◌, arith, none, ◌⊎◌, inl, inr, refl, subst,
  Bool,
}
use crabhelm.Controller.Prepare.{IssueSetting, State, Prepared, IssueInput, prepare}
use crabhelm.GovernanceRegistry.Confirmations.{
  Expected, is_expected, create_confirmation, use_confirmation,
}
use crabhelm.GovernanceRegistry.Stores.{Stores, audit, event_of}
use crabhelm.Effect.{M, ok, lift}
use crabhelm.GovernanceRegistry.Invocations.{save_invocation, put_invocation}
use crabhelm.Controller.Issue.{
  in_stores, Issued, granting, granted, invocation_of, in_tables, registration_of, emit, grant, ask,
  issue_event, sent, claims_of, asked_confirmation, asked_event, expected_of, with_confirmation,
  by_confirmation, issue_invocation, given_id,
}
use crabhelm.Effect.{◌>>=◌}
use crabhelm.Store.{lookup}
use crabhelm.Governance.Types.{passed, Confirmation, never, always}
use crabhelm.Effect.Outcome.{>>=-eq-ok}
use crabhelm.Coordinator.Grants.{register_grant}
use crabhelm.Errors.{Error}
use crabhelm.Coordinator.Tables.{Tables}
use crabhelm.GovernanceRegistry.Confirmations.Lifecycle.{IsUse, use_confirmation-IsUse}
use crabhelm.Store.Laws.{lookup-register_self}
use crabhelm.Controller.Arguments.{required_text}

-- The request that an invocation answers to.
abbrev pub request_of : InvocationRecord → Expected
request_of r = record {
  requester_id = r.requester_id;
  persona_id = r.persona_id;
  actor_id = r.actor_id;
  capability_id = r.capability_id;
  target = r.target;
  arguments_digest = r.arguments_digest;
}

-- Before the issue there was an approved confirmation of this very request that had not expired; it
-- is used after it.
pub record IsConfirmed (clock : ℕ) (s : Stores) (r : InvocationRecord) (t : Stores) : Type 0 where
  pub key : String
  pub confirmation : ConfirmationRecord
  pub before : lookup key s.confirmations ≡ some confirmation
  pub approved_ : confirmation.status ≡ approved
  pub in_time : passed confirmation.expires_at clock ≡ false
  pub matching : is_expected confirmation (request_of r) ≡ true
  pub after : lookup key t.confirmations ≡ some (record confirmation { status = used })

module _ (w : IssueSetting) where
  pub in_stores-ok :
      {A : Type 0} (m : M Stores A) (s t : State) (a : A)
      → in_stores w m s ≡ (ok a, t)
      → m s.stores ≡ (ok a, t.stores)
  in_stores-ok m s t a e = ap (λ x. (x.0, x.1.stores)) e

  -- No confirmation has changed.
  AreKept : State → State → Type 0
  AreKept s t = t.stores.confirmations ≡ s.stores.confirmations

  sent_keeps :
      (error : Option Error) (event : GovernanceAuditEvent) (s t : State) {u : Unit {0}}
      → sent w error event s ≡ (ok u, t)
      → AreKept s t
  unfolding AreKept
  sent_keeps none event s t e = sym (ap (λ x. x.1.stores.confirmations) e)
  sent_keeps (some x) event s t e = sym (ap (λ x. x.1.stores.confirmations) e)

  emit_keeps :
      (input : AuditInput) (s t : State) {u : Unit {0}} → emit w input s ≡ (ok u, t) → AreKept s t
  unfolding emit AreKept audit
  emit_keeps input s t e =
      let (_, t1, audited, e1) =
        >>=-eq-ok (in_stores w (audit w.ambient input))
          (λ _. sent w w.queue_error (event_of w.ambient input)) s e in
      let second = sent_keeps w.queue_error (event_of w.ambient input) t1 t e1 in
      let first = ap (λ x. x.1.stores.confirmations) audited in second ∙ sym first

  saved_keeps :
      (r : InvocationRecord) (s t : State) {u : Unit {0}}
      → in_stores w (save_invocation r) s ≡ (ok u, t)
      → AreKept s t
  unfolding AreKept save_invocation put_invocation
  saved_keeps r s t e = sym (ap (λ x. x.1.stores.confirmations) e)

  tables_keep :
      {A : Type 0} (m : M Tables A) (s t : State) {a : A}
      → in_tables w m s ≡ (ok a, t)
      → AreKept s t
  unfolding AreKept
  tables_keep m s t e = sym (ap (λ x. x.1.stores.confirmations) e)

  granting_keeps :
      (p : Prepared) (id : Option String) (signed : String × String) (s t : State) (i : Issued)
      → granting w p id signed s ≡ (ok i, t)
      → AreKept s t × ((token : String) × (i ≡ granted (invocation_of w p id) token))
  unfolding AreKept
  granting_keeps p id (token, jti) s t i e =
      let (_, t1, saved, e1) =
        >>=-eq-ok (in_stores w (save_invocation (invocation_of w p id))) _ s e in
      let (_, t2, registered, e2) =
        >>=-eq-ok (in_tables w (register_grant w.coordinator (registration_of w p jti))) _ t1 e1 in
      let (_, t3, emitted, e3) = >>=-eq-ok (emit w (issue_event w p)) _ t2 e2 in
      let same : t ≡ t3 = sym (ap (λ x. x.1) e3) in
      (
        ap (λ x. x.stores.confirmations) same
            ∙ emit_keeps (issue_event w p) t2 t3 emitted
            ∙ tables_keep (register_grant w.coordinator (registration_of w p jti)) t1 t2 registered
            ∙ saved_keeps (invocation_of w p id) s t1 saved,
        (token, ground arith),
      )

  grant_keeps :
      (p : Prepared) (id : Option String) (s t : State) (i : Issued)
      → grant w p id s ≡ (ok i, t)
      → AreKept s t × ((token : String) × (i ≡ granted (invocation_of w p id) token))
  unfolding AreKept
  grant_keeps p id s t i e =
      let (signed, t1, made, e1) = >>=-eq-ok (lift (w.sign (claims_of w p id))) _ s e in
      let same : t1 ≡ s = sym (ap (λ x. x.1) made) in
      let (keeps, is) = granting_keeps p id signed t1 t i e1 in
      (keeps ∙ ap (λ x. x.stores.confirmations) same, is)

  ask_asks :
      (p : Prepared) (s t : State) (r : InvocationRecord) (token : String)
      → ask w p s ≡ (ok (granted r token), t)
      → ⊥
  ask_asks p s t r token e =
      let (c, t1, _, e1) =
        >>=-eq-ok (in_stores w (create_confirmation w.ambient (asked_confirmation w p))) _ s e in
      let (_, t2, _, e2) = >>=-eq-ok (emit w (asked_event w p c)) _ t1 e1 in ground arith

  -- What the use of a confirmation and then a grant leaves.
  confirmed :
      (p : Prepared) (key : String) (c : ConfirmationRecord) (s t u : State)
      → IsUse w.ambient.clock key (expected_of w p) s.stores c t.stores
      → AreKept t u
      → (r : InvocationRecord) → request_of r ≡ expected_of w p
      → IsConfirmed w.ambient.clock s.stores r u.stores
  unfolding AreKept
  confirmed p key c s t u use_ keeps r same = record {
    key = key;
    confirmation = use_.current;
    before = use_.before;
    approved_ = use_.was_approved;
    in_time = use_.in_time;
    matching = ap (is_expected use_.current) same ∙ use_.matching;
    after =
        ap (lookup key) (keeps ∙ ap (λ x. x.confirmations) use_.after)
        ∙ lookup-register_self key c s.stores.confirmations
        ∙ ap some use_.made;
  }

  record_is : {a b : InvocationRecord} {x y : String} → granted a x ≡ granted b y → a ≡ b
  record_is e = ground arith

  with_confirmation-IsConfirmed :
      (p : Prepared) (id : Option String) (s t : State) (r : InvocationRecord) (token : String)
      → with_confirmation w p id s ≡ (ok (granted r token), t)
      → (request_of r ≡ expected_of w p) × IsConfirmed w.ambient.clock s.stores r t.stores
  with_confirmation-IsConfirmed p none s t r token e = absurd (ask_asks p s t r token e)
  with_confirmation-IsConfirmed p (some id) s t r token e =
      let (key, s0, read, e1) =
        >>=-eq-ok (lift (required_text (some id) "confirmationId" 200))
          (λ key. in_stores w (use_confirmation w.tx w.ambient key (expected_of w p)) >>= λ _.
            grant w p (some id))
          s e in
      let (c, s1, used_, e2) =
        >>=-eq-ok (in_stores w (use_confirmation w.tx w.ambient key (expected_of w p)))
          (λ _. grant w p (some id)) s0 e1 in
      let same : s0 ≡ s = sym (ap (λ x. x.1) read) in
      let is_use =
        use_confirmation-IsUse w.tx w.ambient key (expected_of w p) s0.stores c s1.stores
          (in_stores-ok (use_confirmation w.tx w.ambient key (expected_of w p)) s0 s1 c used_) in
      let (keeps, (_, is)) = grant_keeps p (some id) s1 t (granted r token) e2 in
      let answers : request_of r ≡ expected_of w p = ap request_of (record_is is) in
      (
        answers,
        subst (λ x. IsConfirmed w.ambient.clock x.stores r t.stores) same
            (confirmed p key c s0 s1 t is_use keeps r answers),
      )

  by_confirmation-IsConfirmed :
      (p : Prepared) (id : Option String) (policy : Confirmation) (s t : State)
      (r : InvocationRecord) (token : String)
      → by_confirmation w p id policy s ≡ (ok (granted r token), t)
      → (request_of r ≡ expected_of w p)
        × ((policy ≡ never) ⊎ IsConfirmed w.ambient.clock s.stores r t.stores)
  by_confirmation-IsConfirmed p id never s t r token e =
      let (_, (_, is)) = grant_keeps p id s t (granted r token) e in
      (ap request_of (record_is is), inl refl)
  by_confirmation-IsConfirmed p id always s t r token e =
      let (answers, is) = with_confirmation-IsConfirmed p id s t r token e in (answers, inr is)

-- An invocation that is granted answers to the request that was checked, and if its capability
-- needs a confirmation, there was an approved and unexpired confirmation of this very request, and
-- the issue has used it.
pub issue_invocation-IsConfirmed :
    (w : IssueSetting) (requester_id : String) (is_admin trusted_ingress : Bool) (raw : IssueInput)
    (s t : State) (r : InvocationRecord) (token : String)
    → issue_invocation w requester_id is_admin trusted_ingress raw s ≡ (ok (granted r token), t)
    → (p : Prepared) × (prepare w s.stores requester_id is_admin trusted_ingress raw ≡ ok p)
      × (request_of r ≡ expected_of w p)
      × ((p.capability.confirmation ≡ never) ⊎ IsConfirmed w.ambient.clock s.stores r t.stores)
unfolding issue_invocation
issue_invocation-IsConfirmed w requester_id is_admin trusted_ingress raw s t r token e =
    let (p, s0, checked, e1) =
      >>=-eq-ok (lift (prepare w s.stores requester_id is_admin trusted_ingress raw))
        (λ p. by_confirmation w p (given_id p.confirmation_id) p.capability.confirmation) s e in
    let same : s0 ≡ s = sym (ap (λ x. x.1) checked) in
    let (answers, is) =
      by_confirmation-IsConfirmed w p (given_id p.confirmation_id) p.capability.confirmation s0 t r
        token e1 in
    (
      p,
      ap (λ x. x.0) checked,
      answers,
      subst
          (λ x.
            (p.capability.confirmation ≡ never) ⊎ IsConfirmed w.ambient.clock x.stores r t.stores)
          same is,
    )
