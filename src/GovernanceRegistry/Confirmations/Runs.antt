-- ===== src/GovernanceRegistry/Confirmations/Runs.antt =====
-- What holds of a confirmation after any run of the registry.
use crabhelm.Common.{
  arith, Bool, String, ◌⊎◌, ◌≡◌, some, subst, sym, refl, ◌≢◌, none, inl, inr, Option-cases,
}
use crabhelm.Store.{lookup}
use crabhelm.GovernanceRegistry.Stores.{Stores, Ambient}
use crabhelm.GovernanceRegistry.Confirmations.Lifecycle.{
  Moves, stay, to_approved, to_denied, to_expired, to_used, use_confirmation-IsUse,
}
use crabhelm.GovernanceRegistry.Confirmations.{
  create_confirmation, put_confirmation, decide_confirmation, use_confirmation, deciding, using,
  Expected,
}
use crabhelm.GovernanceRegistry.Confirmations.OneUse.{
  Step, Run, created, next, Approves, used_up, Changes, serialize-Changes, deciding-Changes, Never,
  using-Changes, decided, start,
}
use crabhelm.GovernanceRegistry.Types.{
  ConfirmationStatus, approved, used, pending, ConfirmationRecord,
}
use crabhelm.GovernanceRegistry.Confirmations.History.{
  Follows, Follows-refl, Changes-follow, Changes-none,
}
use crabhelm.Store.Laws.{lookup-register_ne, lookup-register_self, lookup-register}
use crabhelm.Governance.Types.{iso}
use crabhelm.Effect.{ok}

module _ (tx : Bool) (j : String) where
  -- The call is a decision of `j` by that requester, and an approval.
  abbrev pub IsApproval : {s t : Stores} → String → Step tx s t → Type 0
  IsApproval r (created env input fresh e) = ⊥
  IsApproval r (decided env id requester_id approve e) = Approves id requester_id approve j r
  IsApproval r (used_up env id expected e) = ⊥

  -- Some call of the run is.
  abbrev pub HasApproval : {s t : Stores} → String → Run tx s t → Type 0
  HasApproval r start = ⊥
  HasApproval r (next run step) = HasApproval r run ⊎ IsApproval r step

  Step-Follows :
      {s t : Stores} (step : Step tx s t) (c : ConfirmationRecord)
      → lookup j s.confirmations ≡ some c
      → (d : ConfirmationRecord) × (lookup j t.confirmations ≡ some d)
        × Follows (λ r. IsApproval r step) c d
  unfolding create_confirmation put_confirmation decide_confirmation use_confirmation
  Step-Follows {s} {t} (created env input fresh e) c found = (
    c,
    ground (
      arith,
      lookup-register_ne env.id j
          (record input { id = env.id; status = pending; created_at = iso env.written })
          s.confirmations (λ same. cc),
    ),
    Follows-refl (λ r. ⊥) c,
  )
  Step-Follows {s} {t} (decided env id requester_id approve e) c found =
      Changes-follow (Approves id requester_id approve) s t j c
        (subst (Changes (Approves id requester_id approve) s) (sym e) (
          serialize-Changes (Approves id requester_id approve) tx
            (deciding env id requester_id approve) s
            (deciding-Changes env id requester_id approve s)))
        found
  Step-Follows {s} {t} (used_up env id expected e) c found =
      Changes-follow Never s t j c
        (subst (Changes Never s) (sym e)
          (serialize-Changes Never tx (using env id expected) s (using-Changes env id expected s)))
        found

  Moves-from_used : {x y : ConfirmationStatus} → x ≡ used → Moves x y → y ≡ used
  Moves-from_used h stay = h
  Moves-from_used h to_approved = cc
  Moves-from_used h to_denied = cc
  Moves-from_used h to_expired = cc
  Moves-from_used h to_used = refl

  used_stays :
      {s t : Stores} (run : Run tx s t) (c : ConfirmationRecord)
      → lookup j s.confirmations ≡ some c
      → c.status ≡ used
      → (d : ConfirmationRecord) × (lookup j t.confirmations ≡ some d) × (d.status ≡ used)
  used_stays start c found h = (c, found, h)
  used_stays (next run step) c found h =
      let (d, at, u) = used_stays run c found h in
      let (e, at', f) = Step-Follows step d at in (e, at', Moves-from_used u f.0.moved)

module _ (tx : Bool) (j : String) where
  -- A confirmation that a call makes is pending.
  Step-pending :
      {s t : Stores} (step : Step tx s t) (d : ConfirmationRecord)
      → lookup j s.confirmations ≡ none
      → lookup j t.confirmations ≡ some d
      → d.status ≡ pending
  unfolding create_confirmation put_confirmation decide_confirmation use_confirmation
  Step-pending {s} {t} (created env input fresh e) d absent found = ground (
    arith,
    lookup-register env.id j
        (record input { id = env.id; status = pending; created_at = iso env.written })
        s.confirmations,
  )
  Step-pending {s} {t} (decided env id requester_id approve e) d absent found =
      let kept : lookup j t.confirmations ≡ none =
        Changes-none (Approves id requester_id approve) s t j
          (subst (Changes (Approves id requester_id approve) s) (sym e) (
            serialize-Changes (Approves id requester_id approve) tx
              (deciding env id requester_id approve) s
              (deciding-Changes env id requester_id approve s)))
          absent in
      cc
  Step-pending {s} {t} (used_up env id expected e) d absent found =
      let kept : lookup j t.confirmations ≡ none =
        Changes-none Never s t j
          (subst (Changes Never s) (sym e) (
            serialize-Changes Never tx (using env id expected) s (using-Changes env id expected s)))
          absent in
      cc

  Moves-to_granted :
      {x y : ConfirmationStatus}
      → Moves x y
      → (y ≡ approved) ⊎ (y ≡ used)
      → (y ≡ approved) ⊎ (x ≡ approved) ⊎ (x ≡ used)
  Moves-to_granted stay (inl h) = inl h
  Moves-to_granted stay (inr h) = inr (inr h)
  Moves-to_granted to_approved h = inl refl
  Moves-to_granted to_denied h = ground arith
  Moves-to_granted to_expired h = ground arith
  Moves-to_granted to_used h = inr (inl refl)

-- A confirmation serves once: after a use of it that succeeds, whatever calls of createConfirmation
-- (with fresh ids), decideConfirmation and useConfirmation come between, no use of it succeeds again,
-- at any time and for any request, with or without a transaction.
pub use_confirmation_once :
    (tx : Bool) (env env' : Ambient) (id : String) (expected expected' : Expected)
    (s t u v : Stores) (c d : ConfirmationRecord)
    → use_confirmation tx env id expected s ≡ (ok c, t)
    → Run tx t u
    → use_confirmation tx env' id expected' u ≢ (ok d, v)
use_confirmation_once tx env env' id expected expected' s t u v c d first run second =
    let one = use_confirmation-IsUse tx env id expected s c t first in
    let two = use_confirmation-IsUse tx env' id expected' u d v second in
    let at : lookup id t.confirmations ≡ some c =
      ground (arith, one.after, lookup-register_self id c s.confirmations) in
    let (e, found, h) = used_stays tx id run c at (ground (arith, one.made)) in
    spent e found h two.current two.before two.was_approved
  where
    spent :
        (e : ConfirmationRecord)
        → lookup id u.confirmations ≡ some e
        → e.status ≡ used
        → (x : ConfirmationRecord) → lookup id u.confirmations ≡ some x
        → x.status ≡ approved
        → ⊥
    spent e found h x found' a = cc

module _ (tx : Bool) (j : String) where
  pending_not_granted : {x : ConfirmationStatus} → x ≡ pending → (x ≡ approved) ⊎ (x ≡ used) → ⊥
  pending_not_granted e (inl h) = cc
  pending_not_granted e (inr h) = cc

  granted_by_step :
      (A B : String → Type 0) (c d : ConfirmationRecord)
      → Follows B c d
      → ((c.status ≡ approved) ⊎ (c.status ≡ used) → A c.requester_id)
      → (d.status ≡ approved) ⊎ (c.status ≡ approved) ⊎ (c.status ≡ used)
      → A c.requester_id ⊎ B c.requester_id
  granted_by_step A B c d f before (inr h) = inl (before h)
  granted_by_step A B c d f before (inl h) = elim (f.1 h) [
    | inl was ↦ inl (before (inl was))
    | inr now ↦ inr now
  ]

  -- Every confirmation that was not stored before a run of such calls and is approved or used at its end
  -- was approved in that run, by a decision of its own requester.
  pub granted_was_approved :
      {s t : Stores} (run : Run tx s t) (d : ConfirmationRecord)
      → lookup j s.confirmations ≡ none
      → lookup j t.confirmations ≡ some d
      → (d.status ≡ approved) ⊎ (d.status ≡ used)
      → HasApproval tx j d.requester_id run
  granted_was_approved start d absent found granted = ground arith
  granted_was_approved {s} (next {t} run step) d absent found granted =
      elim (Option-cases (lookup j t.confirmations)) [
        | inl fresh ↦ absurd (pending_not_granted (Step-pending tx j step d fresh found) granted)
        | inr (c, at) ↦
            let (d', found', f') = Step-Follows tx j step c at in
            let same : d' ≡ d = cc in
            let f : Follows (λ r. IsApproval tx j r step) c d =
              subst (Follows (λ r. IsApproval tx j r step) c) same f' in
            let moved : Moves c.status d.status = f.0.moved in
            subst (λ r. HasApproval tx j r run ⊎ IsApproval tx j r step) (sym f.0.requester)
              (granted_by_step (λ r. HasApproval tx j r run) (λ r. IsApproval tx j r step) c d f
                (granted_was_approved run c absent at) (Moves-to_granted tx j moved granted))
      ]
