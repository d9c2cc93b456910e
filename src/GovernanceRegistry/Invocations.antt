-- ===== src/GovernanceRegistry/Invocations.antt =====
-- Invocations: `saveInvocation` and `updateInvocation` (src/governance-registry.ts).
pub mod Finality
pub mod Outcomes
use crabhelm.Common.{
  Option, String, Bool, true, false, some, ℕ, ite, or_else, none, not, if◌then◌else◌,
}
use crabhelm.GovernanceRegistry.Types.{InvocationStatus, InvocationRecord, issued, running}
use crabhelm.Governance.Types.{ActorMode, Timestamp}
use crabhelm.Effect.{M, write, serialize, ◌>>=◌, ◌>>◌, throw_unless, pure}
use crabhelm.GovernanceRegistry.Stores.{Stores, found}
use crabhelm.Store.{register, lookup}
use crabhelm.Errors.{other}

-- The fields that a patch gives; `id` is left out, since `updateInvocation` keeps the record's.
pub record InvocationPatch : Type 0 where
  pub claw_id : Option String
  pub requester_id : Option String
  pub persona_id : Option String
  pub actor_id : Option String
  pub actor_mode : Option ActorMode
  pub fallback_used : Option Bool
  pub capability_id : Option String
  pub target : Option String
  pub arguments_digest : Option String
  pub policy_revision : Option ℕ
  pub confirmation_id : Option String
  pub status : Option InvocationStatus
  pub issued_at : Option Timestamp
  pub expires_at : Option Timestamp
  pub completed_at : Option Timestamp

abbrev pub is_open : InvocationStatus → Bool
is_open issued = true
is_open running = true
is_open _ = false

pub InvocationStatus-discrete : Discrete InvocationStatus
InvocationStatus-discrete = hlevel

-- `patch.status !== undefined && patch.status !== current.status`.
abbrev pub rewrites : Option InvocationStatus → InvocationStatus → Bool
rewrites none now = false
rewrites (some asked) now = ite (InvocationStatus-discrete asked now) false true

abbrev given {ℓ} : {A : Type ℓ} → Option A → Option A → Option A
given none now = now
given (some a) now = some a

-- `{ ...current, ...patch, id: current.id }`.
unfoldable pub patched : InvocationRecord → InvocationPatch → InvocationRecord
patched r patch = record {
  id = r.id;
  claw_id = or_else patch.claw_id r.claw_id;
  requester_id = or_else patch.requester_id r.requester_id;
  persona_id = or_else patch.persona_id r.persona_id;
  actor_id = or_else patch.actor_id r.actor_id;
  actor_mode = or_else patch.actor_mode r.actor_mode;
  fallback_used = or_else patch.fallback_used r.fallback_used;
  capability_id = or_else patch.capability_id r.capability_id;
  target = or_else patch.target r.target;
  arguments_digest = or_else patch.arguments_digest r.arguments_digest;
  policy_revision = or_else patch.policy_revision r.policy_revision;
  confirmation_id = given patch.confirmation_id r.confirmation_id;
  status = or_else patch.status r.status;
  issued_at = or_else patch.issued_at r.issued_at;
  expires_at = or_else patch.expires_at r.expires_at;
  completed_at = given patch.completed_at r.completed_at;
}

unfoldable pub put_invocation : String → InvocationRecord → M Stores (Unit {0})
put_invocation id r = write λ s. record s { invocations = register id r s.invocations }

unfoldable pub save_invocation : InvocationRecord → M Stores (Unit {0})
save_invocation r = put_invocation r.id r

unfoldable pub require_invocation : String → M Stores InvocationRecord
require_invocation id s = (found (lookup id s.invocations) "invocation not found", s)

-- The operation that `updateInvocation` serializes.
unfoldable pub updating : String → InvocationPatch → M Stores InvocationRecord
updating id patch = do
  current ← require_invocation id
  let keep : M Stores InvocationRecord = (do
    throw_unless (not (rewrites patch.status current.status)) (other "invocation outcome is final")
    pure current)
  let change : M Stores InvocationRecord = (do
    put_invocation id (patched current patch)
    pure (patched current patch))
  if is_open current.status then change else keep

unfoldable pub update_invocation : Bool → String → InvocationPatch → M Stores InvocationRecord
unfolding updating
update_invocation tx id patch = serialize tx (updating id patch)
