-- ===== src/Effect/Outcome.antt =====
-- Outcomes of methods, taken apart.
use crabhelm.Common.{Bool, true, false, ◌≡◌, arith, refl, ◌⊎◌, inr, inl, subst, sym, ap}
use crabhelm.Effect.{
  Result, ok, err, M, serialize, roll_back, continue_with, ◌>>=◌, throw_unless, ◌>>◌,
}
use crabhelm.Errors.{Error}

-- A successful method under `serialize` leaves the stores that it leaves by itself.
pub serialize-ok :
    {S A : Type 0} (tx : Bool) (m : M S A) (s : S) {a : A} {s' : S}
    → serialize tx m s ≡ (ok a, s')
    → m s ≡ (ok a, s')
serialize-ok true m s e = roll_back-ok (m s) s e
  where
    roll_back-ok :
        {S A : Type 0} (r : Result A × S) (s : S) {a : A} {s' : S}
        → roll_back s r ≡ (ok a, s')
        → r ≡ (ok a, s')
    roll_back-ok (ok a, s) before e = e
    roll_back-ok (err x, s) before e = ground arith
serialize-ok false m s e = e

module _ {S A B : Type 0} where
  continue_with-ok :
      (r : Result A × S) (f : A → M S B) {b : B} {s' : S}
      → continue_with r f ≡ (ok b, s')
      → (a : A) × (t : S) × (r ≡ (ok a, t)) × (f a t ≡ (ok b, s'))
  continue_with-ok (ok a, t) f e = (a, t, refl, e)
  continue_with-ok (err x, t) f e = ground arith

  -- A chain that succeeds succeeds at its first step, and goes on from there.
  pub >>=-eq-ok :
      (m : M S A) (f : A → M S B) (s : S) {b : B} {s' : S}
      → (m >>= f) s ≡ (ok b, s')
      → (a : A) × (t : S) × (m s ≡ (ok a, t)) × (f a t ≡ (ok b, s'))
  >>=-eq-ok m f s e = continue_with-ok (m s) f e

module _ {S B : Type 0} where
  -- A guard before a success has passed.
  pub throw_unless-eq-ok :
      (test : Bool) (x : Error) (k : M S B) (s : S) {b : B} {s' : S}
      → (throw_unless test x >> k) s ≡ (ok b, s')
      → (test ≡ true) × (k s ≡ (ok b, s'))
  throw_unless-eq-ok true x k s e = (refl, e)
  throw_unless-eq-ok false x k s e = ground arith

-- A method under `serialize` leaves the stores that it found, or those that it leaves by itself.
pub serialize-state :
    {S A : Type 0} (tx : Bool) (m : M S A) (s : S)
    → ((serialize tx m s).1 ≡ s) ⊎ ((serialize tx m s).1 ≡ (m s).1)
serialize-state false m s = inr refl
serialize-state {S} {A} true m s = kept (m s)
  where
    kept : (r : Result A × S) → ((roll_back s r).1 ≡ s) ⊎ ((roll_back s r).1 ≡ r.1)
    kept (ok a, t) = inr refl
    kept (err x, t) = inl refl

-- What holds of the stores before an operation and after it holds after it under `serialize`.
pub serialize_keeps :
    {S A : Type 0} (P : S → Type 0) (tx : Bool) (m : M S A) (s : S)
    → P s
    → P (m s).1
    → P (serialize tx m s).1
serialize_keeps P tx m s before after = elim (serialize-state tx m s) [
  | inl same ↦ subst P (sym same) before
  | inr plain ↦ subst P (sym plain) after
]

-- A chain whose first step leaves the stores as they are, in both cases of that step.
pub >>=-observes :
    {S A B : Type 0} (Q : Result B × S → Type 0) (m : M S A) (f : A → M S B) (s : S)
    → (m s).1 ≡ s
    → ((a : A) → m s ≡ (ok a, s) → Q (f a s))
    → ((e : Error) → Q (err e, s))
    → Q ((m >>= f) s)
>>=-observes {S} {A} {B} Q m f s same good bad = go (m s) same good
  where
    go :
        (r : Result A × S) → r.1 ≡ s → ((a : A) → r ≡ (ok a, s) → Q (f a s)) → Q (continue_with r f)
    go (ok a, t) same good =
        let e : (ok a, t) ≡ (ok a, s) = ap (λ (x : S). (ok a, x)) same in
        subst (λ x. Q (f a x)) (sym same) (good a e)
    go (err x, t) same good = subst (λ u. Q (err x, u)) (sym same) (bad x)

-- What the first step establishes of the stores holds after a chain whose rest keeps it.
pub >>=-keeps :
    {S A B : Type 0} (P : S → Type 0) (m : M S A) (f : A → M S B) (s : S)
    → P (m s).1
    → ((a : A) (t : S) → P t → P (f a t).1)
    → P ((m >>= f) s).1
>>=-keeps {S} {A} {B} P m f s first rest = go (m s) first
  where
    go : (r : Result A × S) → P r.1 → P (continue_with r f).1
    go (ok a, t) h = rest a t h
    go (err x, t) h = h
