-- ===== src/GovernanceRegistry/Principals/Authority.antt =====
-- What a login may change of a principal.
use crabhelm.Governance.Types.{PrincipalRecord, Timestamp, oidc, iso}
use crabhelm.GovernanceRegistry.Principals.{
  merged_principal, ensure_external_principal, log_in, put_principal, principal_by_subject,
}
use crabhelm.Common.{◌≡◌, arith, ◌+◌, Bool, ◌≢◌, ◌⊎◌, refl, some, Bool-cases, inl, inr}
use crabhelm.GovernanceRegistry.Stores.{Ambient, Stores}
use crabhelm.Governance.Records.Principal.{PrincipalInput, create_principal_record}
use crabhelm.Effect.{ok}
use crabhelm.Store.{register}

-- The record that a login leaves for `p`, where `candidate` is what the login says of it.
pub record IsLogin (p candidate q : PrincipalRecord) : Type 0 where
  pub same_id : q.id ≡ p.id
  pub same_subject : q.subject ≡ p.subject
  pub same_kind : q.kind ≡ p.kind
  pub same_creation : q.created_at ≡ p.created_at
  pub next : q.revision ≡ p.revision + 1
  -- What the identity provider said of it stays, whatever another source says.
  pub preserved :
      p.source ≡ oidc
      → candidate.source ≢ oidc
      → (q.source ≡ oidc)
        × (q.roles ≡ p.roles)
        × (q.departments ≡ p.departments)
        × (q.label ≡ p.label)
  pub refreshed :
      (p.source ≢ oidc) ⊎ (candidate.source ≡ oidc)
      → (q.source ≡ candidate.source)
        × (q.roles ≡ candidate.roles)
        × (q.departments ≡ candidate.departments)

merged_principal-IsLogin :
    (p candidate : PrincipalRecord) (now : Timestamp)
    → IsLogin p candidate (merged_principal p candidate now)
unfolding merged_principal
merged_principal-IsLogin p candidate now = record {
  same_id = refl;
  same_subject = refl;
  same_kind = refl;
  same_creation = refl;
  next = refl;
  preserved = λ was other. ground arith;
  refreshed = λ h. ground arith;
}

-- A login for a subject that a principal has succeeds with that principal's next revision, and
-- stores it under the principal's id. Where an identity provider (OIDC) is the principal's source,
-- a login from any other source changes neither its roles, nor its departments, nor its label, nor
-- its source; else the login's own roles, departments and source replace them. Id, subject, kind
-- and time of creation stay.
pub ensure_external_principal_authority :
    (tx : Bool) (env : Ambient) (input : PrincipalInput) (s : Stores)
    (candidate p : PrincipalRecord)
    → create_principal_record input env.id (iso env.written) ≡ ok candidate
    → principal_by_subject candidate.subject s ≡ some p
    → (q : PrincipalRecord) × (ensure_external_principal tx env input s
        ≡ (ok q, record s { principals = register p.id q s.principals }))
      × IsLogin p candidate q
unfolding ensure_external_principal log_in put_principal
ensure_external_principal_authority tx env input s candidate p made found = (
  merged_principal p candidate (iso env.written),
  elim (Bool-cases tx) [ inl on ↦ simp (on, made, found) | inr off ↦ simp (off, made, found) ],
  merged_principal-IsLogin p candidate (iso env.written),
)
