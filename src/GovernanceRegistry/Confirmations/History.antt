-- ===== src/GovernanceRegistry/Confirmations/History.antt =====
-- Confirmations over whole runs of the registry.
use crabhelm.Common.{
  arith, String, ◌≡◌, inl, if◌then◌else◌, some, none, ◌⊎◌, str_eq, inr, Bool-cases, eq_iff, subst,
}
use crabhelm.Store.{lookup, register}
use crabhelm.GovernanceRegistry.Types.{ConfirmationRecord, approved}
use crabhelm.GovernanceRegistry.Stores.{Stores}
use crabhelm.GovernanceRegistry.Confirmations.Lifecycle.{IsSuccessor, IsSuccessor-refl}
use crabhelm.GovernanceRegistry.Confirmations.OneUse.{Changes}
use crabhelm.Store.Laws.{lookup-register}

-- One confirmation across a step of the registry; `By` as in `Changes`.
abbrev pub Follows : (String → Type 0) → ConfirmationRecord → ConfirmationRecord → Type 0
Follows By c d = IsSuccessor c d × (d.status ≡ approved → (c.status ≡ approved) ⊎ By c.requester_id)

pub Follows-refl : (By : String → Type 0) (c : ConfirmationRecord) → Follows By c c
Follows-refl By c = (IsSuccessor-refl c, λ h. inl h)

module _ (By : String → String → Type 0) (s t : Stores) (j : String) where
  changed_at :
      (id : String) (c d : ConfirmationRecord)
      → lookup j (register id d s.confirmations)
        ≡ (if str_eq id j then some d else lookup j s.confirmations)
      → t.confirmations ≡ register id d s.confirmations
      → lookup j t.confirmations ≡ (if str_eq id j then some d else lookup j s.confirmations)
  changed_at id c d law after = rw (after, law)

  pub Changes-follow :
      (c : ConfirmationRecord)
      → Changes By s t
      → lookup j s.confirmations ≡ some c
      → (d : ConfirmationRecord) × (lookup j t.confirmations ≡ some d) × Follows (By j) c d
  Changes-follow c (inl same) e = (c, rw same e, Follows-refl (By j) c)
  Changes-follow c (inr (id, c', d, found, succ, approved_by, after)) e =
      let law = changed_at id c' d (lookup-register id j d s.confirmations) after in
      elim (Bool-cases (str_eq id j)) [
        | inl hit ↦
            (d, ground arith, hit_follows id c' d ((eq_iff id j).0 hit) found succ approved_by c e)
        | inr miss ↦ (c, ground arith, Follows-refl (By j) c)
      ]
    where
      hit_follows :
          (id : String) (c' d : ConfirmationRecord)
          → id ≡ j
          → lookup id s.confirmations ≡ some c'
          → IsSuccessor c' d
          → (d.status ≡ approved → By id c'.requester_id)
          → (c : ConfirmationRecord) → lookup j s.confirmations ≡ some c
          → Follows (By j) c d
      hit_follows id c' d hit found succ approved_by c e =
          let same : c' ≡ c = cc in
          subst (λ x. Follows (By j) x d) same
            (succ, λ h. inr (subst (λ i. By i c'.requester_id) hit (approved_by h)))

  -- No such step makes a confirmation.
  pub Changes-none :
      Changes By s t → lookup j s.confirmations ≡ none → lookup j t.confirmations ≡ none
  Changes-none (inl same) e = rw same e
  Changes-none (inr (id, c', d, found, succ, approved_by, after)) e =
      let law = changed_at id c' d (lookup-register id j d s.confirmations) after in
      elim (Bool-cases (str_eq id j)) [
        | inl hit ↦ absurd (clash ((eq_iff id j).0 hit) found)
        | inr miss ↦ ground arith
      ]
    where
      clash : id ≡ j → lookup id s.confirmations ≡ some c' → ⊥
      clash hit found = cc
