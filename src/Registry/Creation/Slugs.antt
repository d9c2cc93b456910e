-- ===== src/Registry/Creation/Slugs.antt =====
-- No two live claws share a slug.
use crabhelm.Common.{refl}
use crabhelm.Store.{Store, lookup, values, register}
use crabhelm.Claw.Types.{ClawRecord}
use crabhelm.Common.{
  String, Bool, any, ◌≡◌, List, some, In, false, ◌∷◌, arith, there, eq_iff, [], Bool-cases, here,
  str_eq, inl, sym, ◌∙◌, inr, ap,
}
use crabhelm.Registry.Creation.{
  create, creating, is_taken, Options, with_default_deployment, assert_deployment,
}
use crabhelm.Registry.{put_claw, audit, Call, Fleet}
use crabhelm.Claw.Fleet.{is_gone}
use crabhelm.Claw.Create.{Setting, CreateInput, create_claw_record}
use crabhelm.Store.Laws.{lookup-In, lookup-register}
use crabhelm.Effect.Outcome.{serialize_keeps, >>=-observes}
use crabhelm.Effect.{Result, lift}

-- Of the claws that are not deleted, each slug has one.
abbrev pub AreUnique : Store ClawRecord → Type 0
AreUnique cs =
    (j k : String) (c d : ClawRecord)
    → lookup j cs ≡ some c
    → lookup k cs ≡ some d
    → is_gone c.observed.phase ≡ false
    → is_gone d.observed.phase ≡ false
    → c.desired.slug ≡ d.desired.slug
    → j ≡ k

any-none :
    (p : ClawRecord → Bool) (xs : List ClawRecord) {x : ClawRecord}
    → In x xs
    → any p xs ≡ false
    → p x ≡ false
any-none p [] m e = elim m [ ]
any-none p (y ∷ ys) here e = ground arith
any-none p (y ∷ ys) (there m) e = any-none p ys m (ground arith)

register-AreUnique :
    (id : String) (n : ClawRecord) (cs : Store ClawRecord)
    → AreUnique cs
    → any (is_taken n.desired.slug) (values cs) ≡ false
    → AreUnique (register id n cs)
register-AreUnique id n cs h free j k c d ej ek lj lk same =
    let law_j = lookup-register id j n cs in
    let law_k = lookup-register id k n cs in
    elim (Bool-cases (str_eq id j)) [
      | inl at_j ↦ elim (Bool-cases (str_eq id k)) [
        | inl at_k ↦ sym ((eq_iff id j).0 at_j) ∙ (eq_iff id k).0 at_k
        | inr other_k ↦
            let old : lookup k cs ≡ some d = ground arith in
            let new : n ≡ c = ground arith in
            absurd (clash d k old lk (sym same ∙ sym (ap (λ (r : ClawRecord). r.desired.slug) new)))
      ]
      | inr other_j ↦
          let old : lookup j cs ≡ some c = ground arith in
          elim (Bool-cases (str_eq id k)) [
            | inl at_k ↦
                let new : n ≡ d = ground arith in
                absurd (clash c j old lj (same ∙ sym (ap (λ (r : ClawRecord). r.desired.slug) new)))
            | inr other_k ↦ h j k c d old (ground arith) lj lk same
          ]
    ]
  where
    clash :
        (x : ClawRecord) (i : String)
        → lookup i cs ≡ some x
        → is_gone x.observed.phase ≡ false
        → x.desired.slug ≡ n.desired.slug
        → ⊥
    clash x i at live named =
        let untaken : is_taken n.desired.slug x ≡ false =
          any-none (is_taken n.desired.slug) (values cs) (lookup-In i cs at) free in
        let hit = (eq_iff x.desired.slug n.desired.slug).1 named in ground arith

-- Where no two live claws share a slug, that holds after any creation, whether it succeeds or fails,
-- with or without a transaction.
pub create-AreUnique :
    (tx : Bool) (o : Options) (env : Setting) (call : Call) (input : CreateInput) (actor : String)
    (s : Fleet)
    → AreUnique s.claws
    → AreUnique (create tx o env call input actor s).1.claws
unfolding create creating put_claw audit
create-AreUnique tx o env call input actor s h =
    serialize_keeps (λ (t : Fleet). AreUnique t.claws) tx (creating o env call input actor) s h
      (>>=-observes (λ (r : Result ClawRecord × Fleet). AreUnique r.1.claws)
        (lift (create_claw_record env (with_default_deployment o input))) _ s refl
        (λ n _.
          >>=-observes (λ (r : Result ClawRecord × Fleet). AreUnique r.1.claws)
            (lift (assert_deployment o.targets n.desired.deployment)) _ s refl
            (λ _ _. elim (Bool-cases (any (is_taken n.desired.slug) (values s.claws))) [
              | inl taken ↦ rw taken h
              | inr free ↦ rw free (register-AreUnique n.id n s.claws h free)
            ])
            (λ _. h))
        (λ _. h))
