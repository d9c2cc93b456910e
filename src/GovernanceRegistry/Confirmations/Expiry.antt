-- ===== src/GovernanceRegistry/Confirmations/Expiry.antt =====
-- A decision that comes too late.
use crabhelm.Common.{
  String, Bool, ◌≡◌, some, true, false, inl, ◌≢◌, Bool-cases, ap, ◌⊎◌, str_eq, inr, arith, eq_iff,
  sym, refl,
}
use crabhelm.Store.{lookup, register}
use crabhelm.GovernanceRegistry.Stores.{Ambient, Stores, require_confirmation}
use crabhelm.GovernanceRegistry.Types.{ConfirmationRecord, pending, expired, ConfirmationStatus}
use crabhelm.Governance.Types.{passed, iso}
use crabhelm.GovernanceRegistry.Confirmations.{
  decide_confirmation, decide_pending, put_confirmation, deciding, is_pending,
}
use crabhelm.Effect.{err, M, roll_back}
use crabhelm.Errors.{other, Error}

module _ (env : Ambient) (id : String) (s : Stores) where
  -- What the registry writes of a late decision before it throws.
  abbrev pub marked : ConfirmationRecord → Stores
  marked c = record s {
    confirmations =
        register id (record c { status = expired; decided_at = some (iso env.written) })
          s.confirmations;
  }

  -- A method that fails and leaves the stores as they were.
  abbrev pub Refuses : M Stores ConfirmationRecord → Type 0
  Refuses m = (x : Error) × (m s ≡ (err x, s))

  -- A late decision, before it is serialized: the confirmation is marked as expired exactly where its
  -- own requester decides it while it is pending.
  abbrev pub IsLate : String → ConfirmationRecord → M Stores ConfirmationRecord → Type 0
  IsLate requester_id c m =
      (Refuses m × ((requester_id ≢ c.requester_id) ⊎ (c.status ≢ pending)))
      ⊎ ((requester_id ≡ c.requester_id)
          × (c.status ≡ pending)
          × (m s ≡ (err (other "confirmation expired"), marked c)))

  is_pending_lem : (status : ConfirmationStatus) → is_pending status ≡ true → status ≡ pending
  is_pending_lem ConfirmationStatus.pending h = refl
  is_pending_lem ConfirmationStatus.approved h = cc
  is_pending_lem ConfirmationStatus.denied h = cc
  is_pending_lem ConfirmationStatus.expired h = cc
  is_pending_lem ConfirmationStatus.used h = cc

  decide_pending_late :
      (requester_id : String) (approve : Bool) (c : ConfirmationRecord)
      → passed c.expires_at env.clock ≡ true
      → decide_pending env id requester_id approve c s
        ≡ (err (other "confirmation expired"), marked c)
  unfolding decide_pending put_confirmation
  decide_pending_late requester_id approve c late = rw late refl

  deciding-IsLate :
      (requester_id : String) (approve : Bool) (c : ConfirmationRecord)
      → lookup id s.confirmations ≡ some c
      → passed c.expires_at env.clock ≡ true
      → IsLate requester_id c (deciding env id requester_id approve)
  unfolding deciding require_confirmation
  deciding-IsLate requester_id approve c at late =
      elim (Bool-cases (str_eq c.requester_id requester_id)) [
        | inr other_ ↦ inl (
          (other "only the requester may decide confirmation", ground arith),
          inl (λ same. ground (arith, eq_iff c.requester_id requester_id)),
        )
        | inl own ↦
            let same = sym ((eq_iff c.requester_id requester_id).0 own) in
            elim (Bool-cases (is_pending c.status)) [
              | inr over ↦ inl (
                (other "confirmation is no longer pending", ground arith),
                inr (λ waits. ground arith),
              )
              | inl waits ↦
                  let made = decide_pending_late requester_id approve c late in
                  inr (same, is_pending_lem c.status waits, simp (at, own, waits, made))
            ]
      ]

  -- No decision on a confirmation that has expired succeeds, whoever makes it, whatever it is and
  -- whatever the confirmation's status. Under a transaction, which rolls the stores back when the
  -- method throws, it leaves all the stores as they were. Without one it marks the confirmation as
  -- expired if its own requester decides it and it is pending, and otherwise changes nothing.
  pub decide_confirmation_expired :
      (requester_id : String) (approve : Bool) (c : ConfirmationRecord)
      → lookup id s.confirmations ≡ some c
      → passed c.expires_at env.clock ≡ true
      → Refuses (decide_confirmation true env id requester_id approve)
        × IsLate requester_id c (decide_confirmation false env id requester_id approve)
  unfolding decide_confirmation
  decide_confirmation_expired requester_id approve c at late =
      let plain = deciding-IsLate requester_id approve c at late in (fails plain, plain)
    where
      fails :
          IsLate requester_id c (deciding env id requester_id approve)
          → Refuses (decide_confirmation true env id requester_id approve)
      fails (inl ((x, e), why)) = (x, ap (roll_back s) e)
      fails (inr (own, waits, e)) = (other "confirmation expired", ap (roll_back s) e)
