-- ===== src/GovernanceRegistry/Confirmations.antt =====
-- Confirmations of external writes: `createConfirmation`, `decideConfirmation` and
-- `useConfirmation` (src/governance-registry.ts).
pub mod Lifecycle
pub mod Expiry
pub mod OneUse
pub mod History
pub mod Runs
use crabhelm.Store.{register}
use crabhelm.Effect.{M, ◌>>=◌, ◌>>◌, serialize, write, pure, throw, throw_unless}
use crabhelm.GovernanceRegistry.Types.{
  ConfirmationRecord, ConfirmationStatus, pending, approved, denied, used, AuditOutcome,
}
use crabhelm.GovernanceRegistry.Stores.{Stores, Ambient, require_confirmation, audit, blank}
use crabhelm.Common.{Bool, String, true, some, str_eq, false, ◌&&◌, not, if◌then◌else◌, ◌<>◌}
use crabhelm.Governance.Types.{iso, passed}
use crabhelm.Errors.{other}

abbrev pub is_pending : ConfirmationStatus → Bool
is_pending pending = true
is_pending _ = false

abbrev pub is_approved : ConfirmationStatus → Bool
is_approved approved = true
is_approved _ = false

unfoldable pub put_confirmation : String → ConfirmationRecord → M Stores (Unit {0})
put_confirmation id c = write λ s. record s { confirmations = register id c s.confirmations }

-- The request's fields come in a record whose id, status and time of creation are replaced.
unfoldable pub create_confirmation : Ambient → ConfirmationRecord → M Stores ConfirmationRecord
create_confirmation env input = do
  let confirmation = record input { id = env.id; status = pending; created_at = iso env.written }
  put_confirmation env.id confirmation
  pure confirmation

-- The decision on a pending confirmation, once its requester is checked.
unfoldable pub decide_pending :
    Ambient → String → String → Bool → ConfirmationRecord → M Stores ConfirmationRecord
decide_pending env id requester_id approve current =
    let expire : M Stores ConfirmationRecord = (do
      put_confirmation id (record current {
        status = ConfirmationStatus.expired;
        decided_at = some (iso env.written);
      })
      throw (other "confirmation expired")) in
    let next = record current {
      status = if approve then approved else denied;
      decided_at = some (iso env.written);
    } in
    let decide : M Stores ConfirmationRecord = (do
      put_confirmation id next
      audit env
          (record (blank "confirmation.decide"
            (if approve then next.summary else "Denied: " <> next.summary)
            (if approve then AuditOutcome.succeeded else AuditOutcome.denied)) {
              requester_id = some requester_id;
              persona_id = some next.persona_id;
              actor_id = some next.actor_id;
              capability_id = some next.capability_id;
              target = some next.target;
              confirmation_id = some id;
            })
      pure next) in
    if passed current.expires_at env.clock then expire else decide

-- The operation that `decideConfirmation` serializes.
unfoldable pub deciding : Ambient → String → String → Bool → M Stores ConfirmationRecord
deciding env id requester_id approve = do
  current ← require_confirmation id
  throw_unless (str_eq current.requester_id requester_id)
      (other "only the requester may decide confirmation")
  throw_unless (is_pending current.status) (other "confirmation is no longer pending")
  decide_pending env id requester_id approve current

unfoldable pub decide_confirmation :
    Bool → Ambient → String → String → Bool → M Stores ConfirmationRecord
unfolding deciding
decide_confirmation tx env id requester_id approve =
    serialize tx (deciding env id requester_id approve)

-- What a use must match: the six fields that the request and the confirmation share.
pub record Expected : Type 0 where
  pub requester_id : String
  pub persona_id : String
  pub actor_id : String
  pub capability_id : String
  pub target : String
  pub arguments_digest : String

unfoldable pub is_expected : ConfirmationRecord → Expected → Bool
is_expected c e =
    str_eq c.requester_id e.requester_id
    && str_eq c.persona_id e.persona_id
    && str_eq c.actor_id e.actor_id
    && str_eq c.capability_id e.capability_id
    && str_eq c.target e.target
    && str_eq c.arguments_digest e.arguments_digest

-- The operation that `useConfirmation` serializes.
unfoldable pub using : Ambient → String → Expected → M Stores ConfirmationRecord
using env id expected = do
  current ← require_confirmation id
  throw_unless (is_approved current.status && not (passed current.expires_at env.clock))
      (other "approved confirmation is required")
  throw_unless (is_expected current expected)
      (other "confirmation does not match the requested action")
  let next = record current { status = used }
  put_confirmation id next
  pure next

unfoldable pub use_confirmation : Bool → Ambient → String → Expected → M Stores ConfirmationRecord
unfolding using
use_confirmation tx env id expected = serialize tx (using env id expected)
