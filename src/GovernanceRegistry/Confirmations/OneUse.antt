-- ===== src/GovernanceRegistry/Confirmations/OneUse.antt =====
-- Confirmations over a whole run of the registry: an approval is its requester's, and serves once.
use crabhelm.Common.{
  Bool, ◌≡◌, String, none, ◌⊎◌, some, true, Bool-cases, inl, inr, arith, if◌then◌else◌, refl,
  Option-cases, str_eq, ap, ◌&&◌, subst, not, sym, eq_iff,
}
use crabhelm.Store.{lookup, register}
use crabhelm.GovernanceRegistry.Stores.{Stores, Ambient, require_confirmation, audit}
use crabhelm.GovernanceRegistry.Types.{ConfirmationRecord, pending, expired, denied, used}
use crabhelm.GovernanceRegistry.Confirmations.{
  create_confirmation, decide_confirmation, decide_pending, Expected, use_confirmation, approved,
  put_confirmation, deciding, using, is_approved, is_pending, is_expected,
}
use crabhelm.GovernanceRegistry.Confirmations.Lifecycle.{
  IsSuccessor, expired-IsSuccessor, decided-IsSuccessor, used-IsSuccessor,
}
use crabhelm.Governance.Types.{passed, iso}
use crabhelm.Effect.{M, serialize}
use crabhelm.Effect.Outcome.{serialize-state}

module _ (tx : Bool) where
  -- One call of a method on confirmations. A created one has a fresh id, as `randomUUID()` gives.
  pub data Step (s t : Stores) : Type 0 where
    created :
        (env : Ambient) (input : ConfirmationRecord)
        → lookup env.id s.confirmations ≡ none
        → t ≡ (create_confirmation env input s).1
        → Step s t
    decided :
        (env : Ambient) (id requester_id : String) (approve : Bool)
        → t ≡ (decide_confirmation tx env id requester_id approve s).1
        → Step s t
    used_up :
        (env : Ambient) (id : String) (expected : Expected)
        → t ≡ (use_confirmation tx env id expected s).1
        → Step s t

  pub data Run (s : Stores) : Stores → Type 0 where
    start : Run s s
    next : {t u : Stores} → Run s t → Step t u → Run s u

-- What a call may do to the confirmations: nothing, or one entry replaced by a successor; `By`
-- says that the call is an approval of an id by a requester.
abbrev pub Changes : (String → String → Type 0) → Stores → Stores → Type 0
Changes By s t =
    (t.confirmations ≡ s.confirmations)
    ⊎ ((id : String) × (c : ConfirmationRecord) × (d : ConfirmationRecord) × (lookup id
            s.confirmations
          ≡ some c)
        × IsSuccessor c d
        × (d.status ≡ approved → By id c.requester_id)
        × (t.confirmations ≡ register id d s.confirmations))

abbrev pub Approves : String → String → Bool → String → String → Type 0
Approves id requester_id approve i r = (i ≡ id) × (r ≡ requester_id) × (approve ≡ true)

abbrev pub Never : String → String → Type 0
Never i r = ⊥

module _ (env : Ambient) (id requester_id : String) (approve : Bool) where
  decide_pending-Changes :
      (c : ConfirmationRecord) (s : Stores)
      → lookup id s.confirmations ≡ some c
      → c.requester_id ≡ requester_id
      → c.status ≡ pending
      → Changes
          (Approves id requester_id approve)
          s
          (decide_pending env id requester_id approve c s).1
  unfolding decide_pending put_confirmation audit
  decide_pending-Changes c s found owner waiting =
      elim (Bool-cases (passed c.expires_at env.clock)) [
        | inl late ↦ inr (
          id,
          c,
          record c { status = expired; decided_at = some (iso env.written) },
          found,
          expired-IsSuccessor c (some (iso env.written)) waiting,
          λ h. cc,
          ground arith,
        )
        | inr early ↦ inr (
          id,
          c,
          record c {
            status = if approve then approved else denied;
            decided_at = some (iso env.written);
          },
          found,
          decided-IsSuccessor approve c (some (iso env.written)) waiting,
          λ h. (refl, owner, ground arith),
          ground arith,
        )
      ]

  pub deciding-Changes :
      (s : Stores)
      → Changes (Approves id requester_id approve) s (deciding env id requester_id approve s).1
  unfolding deciding require_confirmation
  deciding-Changes s = elim (Option-cases (lookup id s.confirmations)) [
    | inl missing ↦ inl (ground arith)
    | inr (c, found) ↦ elim (Bool-cases (str_eq c.requester_id requester_id)) [
      | inr stranger ↦ inl (ground arith)
      | inl owner ↦ elim (Bool-cases (is_pending c.status)) [
        | inr settled ↦ inl (ground arith)
        | inl waiting ↦
            let same : deciding env id requester_id approve s
                ≡ decide_pending env id requester_id approve c s =
              simp (found, owner, waiting) in
            subst (λ r. Changes (Approves id requester_id approve) s r.1) (sym same)
              (decide_pending-Changes c s found ((eq_iff c.requester_id requester_id).0 owner)
                (ground arith))
      ]
    ]
  ]

-- A call under `serialize` changes the confirmations as its operation does.
pub serialize-Changes :
    (By : String → String → Type 0) (tx : Bool) (m : M Stores ConfirmationRecord) (s : Stores)
    → Changes By s (m s).1
    → Changes By s (serialize tx m s).1
serialize-Changes By tx m s h = elim (serialize-state tx m s) [
  | inl same ↦ inl (ap (λ (t : Stores). t.confirmations) same)
  | inr plain ↦ subst (Changes By s) (sym plain) h
]

pub using-Changes :
    (env : Ambient) (id : String) (expected : Expected) (s : Stores)
    → Changes Never s (using env id expected s).1
unfolding using require_confirmation put_confirmation
using-Changes env id expected s = elim (Option-cases (lookup id s.confirmations)) [
  | inl missing ↦ inl (ground arith)
  | inr (c, found) ↦
      elim (Bool-cases (is_approved c.status && not (passed c.expires_at env.clock))) [
        | inr unready ↦ inl (ground arith)
        | inl ready ↦ elim (Bool-cases (is_expected c expected)) [
          | inr other ↦ inl (ground arith)
          | inl matching ↦ inr (
            id,
            c,
            record c { status = used },
            found,
            used-IsSuccessor c (ground arith),
            λ h. cc,
            ground arith,
          )
        ]
      ]
]
