-- ===== src/GovernanceRegistry/Invocations/Finality.antt =====
-- A recorded terminal outcome is final.
use crabhelm.Common.{
  Bool, String, List, ◌≡◌, false, ◌⊎◌, Option-cases, [], ◌∷◌, some, inl, true, arith, inr,
  Bool-cases, subst, sym,
}
use crabhelm.GovernanceRegistry.Invocations.{
  updating, update_invocation, InvocationPatch, require_invocation, InvocationRecord,
  put_invocation, is_open, patched,
}
use crabhelm.GovernanceRegistry.Stores.{Stores}
use crabhelm.Store.{lookup, register}
use crabhelm.Effect.Outcome.{serialize-state}
use crabhelm.Store.Laws.{lookup-register_ne}

-- A sequence of calls of `updateInvocation`.
abbrev pub update_all : Bool → List (String × InvocationPatch) → Stores → Stores
update_all tx [] s = s
update_all tx ((id, patch) ∷ calls) s = update_all tx calls (update_invocation tx id patch s).1

-- The stores after an update: unchanged, or with the open record patched.
abbrev IsUpdate : String → InvocationPatch → Stores → Stores → Type 0
IsUpdate id patch s t =
    (t ≡ s)
    ⊎ ((r : InvocationRecord) × (lookup id s.invocations ≡ some r)
        × (is_open r.status ≡ true)
        × (t ≡ record s { invocations = register id (patched r patch) s.invocations }))

updating-IsUpdate :
    (id : String) (patch : InvocationPatch) (s : Stores)
    → IsUpdate id patch s (updating id patch s).1
unfolding updating require_invocation put_invocation
updating-IsUpdate id patch s = elim (Option-cases (lookup id s.invocations)) [
  | inl missing ↦ inl (ground arith)
  | inr (r, found) ↦ elim (Bool-cases (is_open r.status)) [
    | inl o ↦ inr (r, found, o, ground arith)
    | inr closed ↦ inl (ground arith)
  ]
]

update_invocation-IsUpdate :
    (tx : Bool) (id : String) (patch : InvocationPatch) (s : Stores)
    → IsUpdate id patch s (update_invocation tx id patch s).1
unfolding update_invocation
update_invocation-IsUpdate tx id patch s = elim (serialize-state tx (updating id patch) s) [
  | inl same ↦ inl same
  | inr plain ↦ subst (IsUpdate id patch s) (sym plain) (updating-IsUpdate id patch s)
]

module _ (j : String) (r : InvocationRecord) (closed : is_open r.status ≡ false) where
  kept :
      (id : String) (patch : InvocationPatch) (s t : Stores)
      → lookup j s.invocations ≡ some r
      → IsUpdate id patch s t
      → lookup j t.invocations ≡ some r
  kept id patch s t at (inl same) = rw same at
  kept id patch s t at (inr (q, found, o, after)) = ground (
    arith,
    after,
    lookup-register_ne id j (patched q patch) s.invocations (λ same. differ same found),
  )
    where
      differ : id ≡ j → lookup id s.invocations ≡ some q → ⊥
      differ same found = clash (subst (λ i. lookup i s.invocations ≡ some q) same found)
        where
          clash : lookup j s.invocations ≡ some q → ⊥
          clash found' = let e : q ≡ r = cc in let f : is_open q.status ≡ false = rw e closed in cc

  -- A terminal record stays exactly as it is through any sequence of updates, of it or of others,
  -- that succeed or fail, with or without a transaction.
  pub update_invocation_final :
      (tx : Bool) (calls : List (String × InvocationPatch)) (s : Stores)
      → lookup j s.invocations ≡ some r
      → lookup j (update_all tx calls s).invocations ≡ some r
  update_invocation_final tx [] s at = at
  update_invocation_final tx ((id, patch) ∷ calls) s at =
      update_invocation_final tx calls (update_invocation tx id patch s).1 (
        kept id patch s (update_invocation tx id patch s).1 at
          (update_invocation-IsUpdate tx id patch s))
