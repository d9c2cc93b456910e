-- ===== src/GovernanceRegistry/Invocations/Outcomes.antt =====
-- What a successful `updateInvocation` leaves of its record.
use crabhelm.GovernanceRegistry.Types.{InvocationStatus, InvocationRecord}
use crabhelm.GovernanceRegistry.Invocations.{
  updating, update_invocation, rewrites, require_invocation, put_invocation, patched,
  InvocationPatch, InvocationStatus-discrete, is_open,
}
use crabhelm.Common.{Bool, some, String, ◌≡◌, false, sym, arith, Option-cases, inl, inr, Bool-cases}
use crabhelm.GovernanceRegistry.Stores.{Stores}
use crabhelm.Effect.{ok}
use crabhelm.Store.{lookup}
use crabhelm.Effect.Outcome.{serialize-ok}
use crabhelm.Store.Laws.{lookup-register_self}

rewrites_lem : (asked now : InvocationStatus) → rewrites (some asked) now ≡ false → now ≡ asked
rewrites_lem asked now h = elim (InvocationStatus-discrete asked now) [
  | yes e ↦ sym e
  | no _ ↦ ground arith
]

updating_outcome :
    (id : String) (patch : InvocationPatch) (asked : InvocationStatus) (s : Stores)
    (r : InvocationRecord) (t : Stores)
    → patch.status ≡ some asked
    → updating id patch s ≡ (ok r, t)
    → (lookup id t.invocations ≡ some r) × (r.status ≡ asked)
unfolding updating require_invocation put_invocation patched
updating_outcome id patch asked s r t given e = elim (Option-cases (lookup id s.invocations)) [
  | inl missing ↦ ground arith
  | inr (now, at) ↦ elim (Bool-cases (is_open now.status)) [
    | inl open_ ↦ ground (arith, lookup-register_self id (patched now patch) s.invocations)
    | inr closed ↦ ground (arith, rewrites_lem asked now.status)
  ]
]

-- An update with a status that succeeds leaves the stored record that it returns, in that status.
pub update_invocation_outcome :
    (tx : Bool) (id : String) (patch : InvocationPatch) (asked : InvocationStatus) (s : Stores)
    (r : InvocationRecord) (t : Stores)
    → patch.status ≡ some asked
    → update_invocation tx id patch s ≡ (ok r, t)
    → (lookup id t.invocations ≡ some r) × (r.status ≡ asked)
unfolding update_invocation
update_invocation_outcome tx id patch asked s r t given e =
    updating_outcome id patch asked s r t given (serialize-ok tx (updating id patch) s e)
