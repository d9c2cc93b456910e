-- ===== src/GovernanceRegistry/Principals/Subjects.antt =====
-- No two principals share a subject.
use crabhelm.Store.{Store, lookup, register, values}
use crabhelm.Governance.Types.{PrincipalRecord, Timestamp, iso}
use crabhelm.GovernanceRegistry.Stores.{Ambient, Stores, audit}
use crabhelm.Store.Laws.{IsKeyed, register-IsKeyed, lookup-register, In-lookup, lookup-In}
use crabhelm.Common.{
  String, ◌≡◌, some, arith, eq_iff, none, find_sound, ◌≢◌, str_eq, Option-cases, Bool, false, inl,
  find-none, inr, subst, sym,
}
use crabhelm.Governance.Records.Principal.{PrincipalInput, create_principal_record}
use crabhelm.GovernanceRegistry.Principals.{
  creating_principal, principal_by_subject, merged_principal, put_principal, log_in,
  ensuring_external, create_principal, ensure_external_principal,
}
use crabhelm.Effect.{Result-cases}
use crabhelm.Effect.Outcome.{serialize_keeps}

-- One entry for each principal, under its own id, and one principal for each subject.
pub record AreDistinct (ps : Store PrincipalRecord) : Type 0 where
  pub keyed : IsKeyed ps
  pub identified : (k : String) (p : PrincipalRecord) → lookup k ps ≡ some p → p.id ≡ k
  pub distinct :
      (j k : String) (p q : PrincipalRecord)
      → lookup j ps ≡ some p
      → lookup k ps ≡ some q
      → p.subject ≡ q.subject
      → j ≡ k

-- A new entry under its own id, whose subject no principal under another key has.
register-AreDistinct :
    (n : PrincipalRecord) (ps : Store PrincipalRecord)
    → AreDistinct ps
    → ((k : String) (p : PrincipalRecord) → lookup k ps ≡ some p → p.subject ≡ n.subject → k ≡ n.id)
    → AreDistinct (register n.id n ps)
register-AreDistinct n ps h new = record {
  keyed = register-IsKeyed n.id n ps h.keyed;
  identified =
      λ k p e. ground (arith, lookup-register n.id k n ps, eq_iff n.id k, h.identified k p);
  distinct = λ j k p q ej ek same. ground (
    arith,
    lookup-register n.id j n ps,
    lookup-register n.id k n ps,
    eq_iff n.id j,
    eq_iff n.id k,
    h.distinct j k p q,
    new j p,
    new k q,
  );
}

principal_by_subject-none :
    (subject : String) (s : Stores) (k : String) (p : PrincipalRecord)
    → principal_by_subject subject s ≡ none
    → lookup k s.principals ≡ some p
    → p.subject ≢ subject
unfolding principal_by_subject
principal_by_subject-none subject s k p e at same =
    let miss : str_eq p.subject subject ≡ false =
      find-none (λ item. str_eq item.subject subject) (values s.principals)
        (lookup-In k s.principals at) e in
    let hit = (eq_iff p.subject subject).1 same in cc

-- The principal with a subject, and its key.
principal_by_subject-some :
    (subject : String) (s : Stores) (p : PrincipalRecord)
    → AreDistinct s.principals
    → principal_by_subject subject s ≡ some p
    → (lookup p.id s.principals ≡ some p) × (p.subject ≡ subject)
unfolding principal_by_subject
principal_by_subject-some subject s p h e =
    let (m, hit) =
      find_sound (λ item. str_eq item.subject subject) (values s.principals) {x = p} e in
    let (k, at) = In-lookup s.principals h.keyed m in
    (
      subst (λ i. lookup i s.principals ≡ some p) (sym (h.identified k p at)) at,
      (eq_iff p.subject subject).0 hit,
    )

merged_subject :
    (p q candidate : PrincipalRecord) (now : Timestamp)
    → q.subject ≡ (merged_principal p candidate now).subject
    → q.subject ≡ p.subject
unfolding merged_principal
merged_subject p q candidate now same = same

module _ (env : Ambient) (input : PrincipalInput) (s : Stores) (h : AreDistinct s.principals) where
  creating_principal-AreDistinct :
      (actor_id : String) → AreDistinct (creating_principal env input actor_id s).1.principals
  unfolding creating_principal put_principal audit
  creating_principal-AreDistinct actor_id =
      elim (Result-cases (create_principal_record input env.id (iso env.written))) [
        | inr (x, refused) ↦ rw refused h
        | inl (n, made) ↦ elim (Option-cases (principal_by_subject n.subject s)) [
          | inr (p, taken) ↦ rw (made, taken) h
          | inl free ↦
              rw (made, free)
                (register-AreDistinct n s.principals h
                  λ k p at same. absurd (principal_by_subject-none n.subject s k p free at same))
        ]
      ]

  log_in-AreDistinct :
      (candidate : PrincipalRecord)
      → AreDistinct (log_in (principal_by_subject candidate.subject s) candidate env s).1.principals
  unfolding log_in put_principal audit merged_principal
  log_in-AreDistinct candidate = elim (Option-cases (principal_by_subject candidate.subject s)) [
    | inl free ↦ rw free (
        register-AreDistinct candidate s.principals h
          λ k p at same. absurd (principal_by_subject-none candidate.subject s k p free at same))
    | inr (p, found) ↦
        let (at, _) = principal_by_subject-some candidate.subject s p h found in
        rw found (
          register-AreDistinct (merged_principal p candidate (iso env.written)) s.principals h
            λ k q at' same.
              h.distinct k p.id q p at' at (merged_subject p q candidate (iso env.written) same))
  ]

  ensuring_external-AreDistinct : AreDistinct (ensuring_external env input s).1.principals
  unfolding ensuring_external
  ensuring_external-AreDistinct =
      elim (Result-cases (create_principal_record input env.id (iso env.written))) [
        | inr (x, refused) ↦ rw refused h
        | inl (n, made) ↦ rw made (log_in-AreDistinct n)
      ]

-- Whether they succeed or fail, with or without a transaction, `createPrincipal` and
-- `ensureExternalPrincipal` keep the principals distinct: one entry for each, under its own id, and
-- no two with one subject.
pub principals_stay_distinct :
    (tx : Bool) (env : Ambient) (input : PrincipalInput) (actor_id : String) (s : Stores)
    → AreDistinct s.principals
    → AreDistinct (create_principal tx env input actor_id s).1.principals
      × AreDistinct (ensure_external_principal tx env input s).1.principals
unfolding create_principal ensure_external_principal
principals_stay_distinct tx env input actor_id s h = (
  serialize_keeps (λ (t : Stores). AreDistinct t.principals) tx
      (creating_principal env input actor_id) s h
      (creating_principal-AreDistinct env input s h actor_id),
  serialize_keeps (λ (t : Stores). AreDistinct t.principals) tx (ensuring_external env input) s h
      (ensuring_external-AreDistinct env input s h),
)
