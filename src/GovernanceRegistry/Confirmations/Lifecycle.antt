-- ===== src/GovernanceRegistry/Confirmations/Lifecycle.antt =====
-- How one confirmation moves through its statuses.
use crabhelm.Store.{lookup, register}
use crabhelm.GovernanceRegistry.Types.{
  ConfirmationRecord, ConfirmationStatus, pending, approved, denied, used, expired,
}
use crabhelm.GovernanceRegistry.Stores.{Stores, Ambient, audit}
use crabhelm.Common.{
  ℕ, ◌≡◌, String, refl, Bool, some, false, if◌then◌else◌, Option, true, arith, eq_iff, subst,
}
use crabhelm.GovernanceRegistry.Confirmations.{
  decide_pending, put_confirmation, decide_confirmation, Expected, use_confirmation, is_expected,
  is_pending,
}
use crabhelm.Effect.{ok}
use crabhelm.Effect.Outcome.{serialize-ok, >>=-eq-ok}
use crabhelm.GovernanceRegistry.Stores.{require_confirmation}
use crabhelm.Governance.Types.{Timestamp, passed, iso}

pub data Moves : ConfirmationStatus → ConfirmationStatus → Type 0 where
  stay : {x : ConfirmationStatus} → Moves x x
  to_approved : Moves pending approved
  to_denied : Moves pending denied
  to_expired : Moves pending expired
  to_used : Moves approved used

-- The same request, at most one move further.
pub record IsSuccessor (c d : ConfirmationRecord) : Type 0 where
  pub moved : Moves c.status d.status
  pub requester : d.requester_id ≡ c.requester_id
  pub persona : d.persona_id ≡ c.persona_id
  pub actor : d.actor_id ≡ c.actor_id
  pub capability : d.capability_id ≡ c.capability_id
  pub target : d.target ≡ c.target
  pub digest : d.arguments_digest ≡ c.arguments_digest
  pub expiry : d.expires_at ≡ c.expires_at

pub IsSuccessor-refl : (c : ConfirmationRecord) → IsSuccessor c c
IsSuccessor-refl c = record {
  moved = stay;
  requester = refl;
  persona = refl;
  actor = refl;
  capability = refl;
  target = refl;
  digest = refl;
  expiry = refl;
}

-- What a decision that succeeds tells.
pub record IsDecision (clock : ℕ) (id requester_id : String) (approve : Bool) (s : Stores)
    (c : ConfirmationRecord) (s' : Stores) : Type 0 where
  pub current : ConfirmationRecord
  pub before : lookup id s.confirmations ≡ some current
  pub requester : current.requester_id ≡ requester_id
  pub was_pending : current.status ≡ pending
  pub in_time : passed current.expires_at clock ≡ false
  pub decided : c.status ≡ (if approve then approved else denied)
  pub successor : IsSuccessor current c
  pub after : s'.confirmations ≡ register id c s.confirmations

decided-Moves :
    (approve : Bool) {x : ConfirmationStatus}
    → x ≡ pending
    → Moves x (if approve then approved else denied)
decided-Moves true h = rw h to_approved
decided-Moves false h = rw h to_denied

pub decided-IsSuccessor :
    (approve : Bool) (c : ConfirmationRecord) (at : Option Timestamp)
    → c.status ≡ pending
    → IsSuccessor c (record c { status = if approve then approved else denied; decided_at = at })
decided-IsSuccessor approve c at h = record {
  moved = decided-Moves approve h;
  requester = refl;
  persona = refl;
  actor = refl;
  capability = refl;
  target = refl;
  digest = refl;
  expiry = refl;
}

pub expired-IsSuccessor :
    (c : ConfirmationRecord) (at : Option Timestamp)
    → c.status ≡ pending
    → IsSuccessor c (record c { status = expired; decided_at = at })
expired-IsSuccessor c at h = record {
  moved = rw h to_expired;
  requester = refl;
  persona = refl;
  actor = refl;
  capability = refl;
  target = refl;
  digest = refl;
  expiry = refl;
}

pub used-IsSuccessor :
    (c : ConfirmationRecord) → c.status ≡ approved → IsSuccessor c (record c { status = used })
used-IsSuccessor c h = record {
  moved = rw h to_used;
  requester = refl;
  persona = refl;
  actor = refl;
  capability = refl;
  target = refl;
  digest = refl;
  expiry = refl;
}

decide_pending-result :
    (env : Ambient) (id requester_id : String) (approve : Bool) (current c : ConfirmationRecord)
    (s s' : Stores)
    → decide_pending env id requester_id approve current s ≡ (ok c, s')
    → (passed current.expires_at env.clock ≡ false)
      × (record current {
        status = if approve then approved else denied;
        decided_at = some (iso env.written);
      }
          ≡ c)
      × (s'.confirmations ≡ register id c s.confirmations)
unfolding decide_pending put_confirmation audit
decide_pending-result env id requester_id approve current c s s' e =
    (ground arith, ground arith, ground arith)

-- A decision that succeeds is made by the confirmation's requester, on a confirmation that was pending
-- and has not expired; it stores the confirmation as approved or denied, as was asked, the same
-- request otherwise, and changes no other confirmation.
pub decide_confirmation-IsDecision :
    (tx : Bool) (env : Ambient) (id requester_id : String) (approve : Bool) (s : Stores)
    (c : ConfirmationRecord) (s' : Stores)
    → decide_confirmation tx env id requester_id approve s ≡ (ok c, s')
    → IsDecision env.clock id requester_id approve s c s'
unfolding decide_confirmation require_confirmation
decide_confirmation-IsDecision tx env id requester_id approve s c s' e =
    let e' = serialize-ok tx _ s e in
    let (current, t, found_at, e1) = >>=-eq-ok (require_confirmation id) _ s e' in
    let same : t ≡ s = ground arith in
    let waiting : is_pending current.status ≡ true = ground arith in
    let e3 : decide_pending env id requester_id approve current s ≡ (ok c, s') = ground arith in
    let (in_time, made, after) =
      decide_pending-result env id requester_id approve current c s s' e3 in
    let was : current.status ≡ pending = ground arith in
    record {
      current = current;
      before = ground arith;
      requester = ground (arith, eq_iff current.requester_id requester_id);
      was_pending = was;
      in_time = in_time;
      decided = ground arith;
      successor =
          subst (IsSuccessor current) made
            (decided-IsSuccessor approve current (some (iso env.written)) was);
      after = ground arith;
    }

-- What a use that succeeds tells.
pub record IsUse (clock : ℕ) (id : String) (expected : Expected) (s : Stores)
    (c : ConfirmationRecord) (s' : Stores) : Type 0 where
  pub current : ConfirmationRecord
  pub before : lookup id s.confirmations ≡ some current
  pub was_approved : current.status ≡ approved
  pub in_time : passed current.expires_at clock ≡ false
  pub matching : is_expected current expected ≡ true
  pub made : c ≡ record current { status = used }
  pub after : s' ≡ record s { confirmations = register id c s.confirmations }

-- A use that succeeds is of an approved confirmation that has not expired and that matches the request
-- in all six fields; it stores the confirmation as used and changes nothing else in any store.
pub use_confirmation-IsUse :
    (tx : Bool) (env : Ambient) (id : String) (expected : Expected) (s : Stores)
    (c : ConfirmationRecord) (s' : Stores)
    → use_confirmation tx env id expected s ≡ (ok c, s')
    → IsUse env.clock id expected s c s'
unfolding use_confirmation require_confirmation put_confirmation
use_confirmation-IsUse tx env id expected s c s' e =
    let e' = serialize-ok tx _ s e in
    let (current, t, found_at, e1) = >>=-eq-ok (require_confirmation id) _ s e' in
    let same : t ≡ s = ground arith in
    record {
      current = current;
      before = ground arith;
      was_approved = ground arith;
      in_time = ground arith;
      matching = ground arith;
      made = ground arith;
      after = ground arith;
    }
