-- ===== src/Controller/Execute/Once.antt =====
-- A grant is spent by the first execution.
use crabhelm.Effect.{◌>>◌, lift}
use crabhelm.Effect.{◌>>=◌, M, ok, ok-injective, throw_unless}
use crabhelm.Controller.Execute.{
  Executed, Warning, executed, request_failed, ExecuteSetting, SignedClaims, with_grant,
  ExecuteInput, execute_github, grant_refused, with_token, grant_of, grant_required, spend,
}
use crabhelm.Common.{
  ℕ, Option, String, List, ◌≤◌, some, ◌≡◌, true, ◌∷◌, arith, Bool-cases, ◌∙◌, inl, inr, [], refl,
  none, Bool, str_eq, false, subst, sym, ap, ◌==◌,
}
use crabhelm.Coordinator.Sql.{count_where, update_where}
use crabhelm.Coordinator.Grants.{GrantRegistration, is_granted, consume_grant}
use crabhelm.Controller.Prepare.{State}
use crabhelm.Errors.{Error, other}
use crabhelm.Coordinator.Tables.{Grant}
use crabhelm.Controller.Issue.{in_tables}
use crabhelm.Controller.Arguments.{Arguments, required_text, normalize_arguments}
use crabhelm.Effect.Outcome.{>>=-eq-ok, throw_unless-eq-ok}
use crabhelm.Controller.Execute.Grants.{with_grant-KeepsGrants}

-- GitHub was asked.
pub data IsRun : Executed → Type 0 where
  run : (result : String) (ws : List Warning) → IsRun (executed result ws)
  run_failed : (e : Error) (ws : List Warning) → IsRun (request_failed e ws)

still_open :
    (before now : ℕ) (g : GrantRegistration) (r : Grant)
    → before ≤ now
    → is_granted now g r ≡ true
    → is_granted before g r ≡ true
still_open before now g r later h = ground arith

consume : ℕ → Grant → Grant
consume now r = record r { consumed_at = some now }

none_left :
    (before now : ℕ) (g : GrantRegistration) (rows : List Grant)
    → before ≤ now
    → count_where
        (is_granted now g)
        (update_where (is_granted before g) (λ r. record r { consumed_at = some before }) rows)
      ≡ 0
unfolding count_where update_where
none_left before now g [] later = refl
none_left before now g (r ∷ rows) later = elim (Bool-cases (is_granted before g r)) [
  | inl open_ ↦ ground (arith, none_left before now g rows later)
  | inr closed ↦ elim (Bool-cases (is_granted now g r)) [
    | inl later_open ↦ ground (arith, still_open before now g r later later_open)
    | inr still ↦ ground (arith, none_left before now g rows later)
  ]
]

-- What an execution that asked GitHub has spent: the grant of its token and its invocation.
record IsSpent (w : ExecuteSetting) (body : ExecuteInput) (s t : State) : Type 0 where
  token : String
  c : SignedClaims
  id : String
  with_token_ : body.token ≡ some token
  verified : w.verify token ≡ ok c
  named : required_text body.invocation_id "invocationId" 200 ≡ ok id
  spent :
      consume_grant w.base.coordinator (grant_of w id c) s.tables
      ≡ (ok true, (consume_grant w.base.coordinator (grant_of w id c) s.tables).1)
  left : t.tables.grants ≡ (consume_grant w.base.coordinator (grant_of w id c) s.tables).1.grants

module _ (w : ExecuteSetting) (body : ExecuteInput) where
  with_grant_run :
      (id : String) (c : SignedClaims) (args : Arguments) (b : Bool) (s t : State) (x : Executed)
      → with_grant w id c args b s ≡ (ok x, t)
      → IsRun x
      → b ≡ true
  with_grant_run id c args true s t x e ran = refl
  with_grant_run id c args false s t x e ran =
      absurd (no_run (subst IsRun (sym (ok-injective (ap (λ r. r.0) e))) ran))
    where
      no_run : IsRun grant_refused → ⊥
      no_run ran = elim ran [ ]

  with_token_run :
      (token : Option String) (s t : State) (x : Executed)
      → body.token ≡ token
      → with_token w token body s ≡ (ok x, t)
      → IsRun x
      → IsSpent w body s t
  with_token_run none s t x has e ran =
      absurd (no_run (subst IsRun (sym (ok-injective (ap (λ r. r.0) e))) ran))
    where
      no_run : IsRun grant_required → ⊥
      no_run ran = elim ran [ ]
  with_token_run (some token) s t x has e ran =
      let (c, s1, e_verify, e1) = >>=-eq-ok (lift (w.verify token)) (after_verify) s e in
      let (id, s2, e_id, e2) =
        >>=-eq-ok (lift (required_text body.invocation_id "invocationId" 200)) (after_id c) s1 e1 in
      let (args, s3, e_args, e3) =
        >>=-eq-ok (lift (normalize_arguments body.arguments)) (after_arguments c id) s2 e2 in
      let (_, e4) =
        throw_unless-eq-ok (same_digest c args) other_digest (spend w id c args) s3 e3 in
      let (b, s4, e_spent, e5) =
        >>=-eq-ok (in_tables w.base (consume_grant w.base.coordinator (grant_of w id c)))
          (with_grant w id c args) s3 e4 in
      let b_true = with_grant_run id c args b s4 t x e5 ran in
      let s3_s : s3 ≡ s =
        sym (ap (λ r. r.1) e_args) ∙ sym (ap (λ r. r.1) e_id) ∙ sym (ap (λ r. r.1) e_verify) in
      let spent_at : IsSpent w body s3 t = record {
        token = token;
        c = c;
        id = id;
        with_token_ = has;
        verified = ap (λ r. r.0) e_verify;
        named = ap (λ r. r.0) e_id;
        spent =
            ap (λ r. (r.0, (consume_grant w.base.coordinator (grant_of w id c) s3.tables).1))
              e_spent
            ∙ ap (λ d. (ok d, (consume_grant w.base.coordinator (grant_of w id c) s3.tables).1))
                b_true;
        left =
            sym (ap (λ r. r.1.tables.grants) e5)
            ∙ with_grant-KeepsGrants w id c args b s4
            ∙ sym (ap (λ r. r.1.tables.grants) e_spent);
      } in
      subst (λ q. IsSpent w body q t) s3_s spent_at
    where
      same_digest : SignedClaims → Arguments → Bool
      same_digest c args =
          str_eq (w.base.digest c.claims.capability_id c.claims.target args)
            c.claims.arguments_digest

      other_digest : Error
      other_digest = other "tool arguments differ from the signed grant"

      after_arguments : SignedClaims → String → Arguments → M State Executed
      after_arguments c id args =
          throw_unless (same_digest c args) other_digest >> spend w id c args

      after_id : SignedClaims → String → M State Executed
      after_id c id = lift (normalize_arguments body.arguments) >>= after_arguments c id

      after_verify : SignedClaims → M State Executed
      after_verify c = lift (required_text body.invocation_id "invocationId" 200) >>= after_id c

-- The request to GitHub is made at most once for a grant: after an execution that asked GitHub, none
-- with the same token and invocation does, at no earlier a time and whatever its arguments, so long as
-- the coordinator keeps the grants as they are and tokens are verified alike.
pub execute_github_once :
    (w w' : ExecuteSetting) (body body' : ExecuteInput) (s t u v : State) (x y : Executed)
    → w.verify ≡ w'.verify
    → w.base.coordinator.now ≤ w'.base.coordinator.now
    → body'.token ≡ body.token
    → body'.invocation_id ≡ body.invocation_id
    → execute_github w body s ≡ (ok x, t)
    → IsRun x
    → u.tables.grants ≡ t.tables.grants
    → execute_github w' body' u ≡ (ok y, v)
    → ¬ IsRun y
unfolding execute_github consume_grant
execute_github_once w w' body body' s t u v x y verify later token id first ran same second ran' =
    let a = with_token_run w body body.token s t x refl first ran in
    let b = with_token_run w' body' body'.token u v y refl second ran' in
    let same_token : b.token ≡ a.token = ground arith in
    let same_id : b.id ≡ a.id =
      ok-injective (sym b.named ∙ ap (λ i. required_text i "invocationId" 200) id ∙ a.named) in
    let same_c : b.c ≡ a.c =
      ok-injective (
        sym b.verified ∙ ap w'.verify same_token ∙ ap (λ f. f a.token) (sym verify) ∙ a.verified) in
    let now' = w'.base.coordinator.now in
    let rows = same ∙ a.left in
    let zero_ : count_where (is_granted now' (grant_of w' b.id b.c)) u.tables.grants ≡ 0 =
      ap (λ i. count_where (is_granted now' (grant_of w' i b.c)) u.tables.grants) same_id
      ∙ ap (λ c. count_where (is_granted now' (grant_of w' a.id c)) u.tables.grants) same_c
      ∙ ap (count_where (is_granted now' (grant_of w' a.id a.c))) rows
      ∙ none_left w.base.coordinator.now now' (grant_of w a.id a.c) s.tables.grants later in
    let one : (count_where (is_granted now' (grant_of w' b.id b.c)) u.tables.grants == 1) ≡ true =
      ok-injective (ap (λ r. r.0) b.spent) in
    let zero_one : false ≡ true = ap (λ n. n == 1) (sym zero_) ∙ one in ground arith
