-- ===== src/Effect.antt =====
-- Asynchronous methods that read and write stores and may throw. Each method of a registry runs
-- alone (`#serialize`), so a method is a function from the stores to its outcome and the stores
-- that it leaves. A throw keeps the writes made before it, unless the stores have a transaction.
pub mod Outcome
use crabhelm.Common.{Bool, true, false, ◌≡◌, refl, ◌⊎◌, inl, inr}
use crabhelm.Errors.{Error}

pub data Result {ℓ} (A : Type ℓ) : Type ℓ where
  ok : A → Result A
  err : Error → Result A

pub ok-injective {ℓ} : {A : Type ℓ} {a b : A} → ok a ≡ ok b → a ≡ b
ok-injective e = cc

pub Result-cases {ℓ} :
    {A : Type ℓ} (r : Result A) → ((a : A) × (r ≡ ok a)) ⊎ ((e : Error) × (r ≡ err e))
Result-cases (ok a) = inl (a, refl)
Result-cases (err e) = inr (e, refl)

abbrev pub bind_result : {A B : Type 0} → Result A → (A → Result B) → Result B
bind_result (ok a) f = f a
bind_result (err e) f = err e

pub bind_result-eq-ok :
    {A B : Type 0} (r : Result A) (f : A → Result B) {b : B}
    → bind_result r f ≡ ok b
    → (a : A) × (r ≡ ok a) × (f a ≡ ok b)
bind_result-eq-ok (ok a) f e = (a, refl, e)
bind_result-eq-ok (err x) f e = cc

-- `if (!test) throw error`.
abbrev pub require_true : Bool → Error → Result (Unit {0})
require_true true e = ok tt
require_true false e = err e

abbrev pub M : Type 0 → Type 0 → Type 0
M S A = S → Result A × S

abbrev pub continue_with : {S A B : Type 0} → Result A × S → (A → M S B) → Result B × S
continue_with (ok a, s) f = f a s
continue_with (err e, s) f = (err e, s)

infixl 5 ◌>>=◌ ◌>>◌
abbrev pub ◌>>=◌ : {S A B : Type 0} → M S A → (A → M S B) → M S B
◌>>=◌ m f s = continue_with (m s) f

abbrev pub ◌>>◌ : {S B : Type 0} → M S (Unit {0}) → M S B → M S B
m >> k = m >>= λ _. k

abbrev pub pure : {S A : Type 0} → A → M S A
pure a s = (ok a, s)

abbrev pub lift : {S A : Type 0} → Result A → M S A
lift r s = (r, s)

abbrev pub throw_unless : {S : Type 0} → Bool → Error → M S (Unit {0})
throw_unless b e s = (require_true b e, s)

abbrev pub throw : {S A : Type 0} → Error → M S A
throw e s = (err e, s)

abbrev pub read : {S A : Type 0} → (S → A) → M S A
read f s = (ok (f s), s)

abbrev pub write : {S : Type 0} → (S → S) → M S (Unit {0})
write f s = (ok tt, f s)

-- What a transaction makes of an outcome: a throw rolls the stores back.
abbrev pub roll_back : {S A : Type 0} → S → Result A × S → Result A × S
roll_back before (ok a, s) = (ok a, s)
roll_back before (err e, s) = (err e, before)

-- `#serialize`: the operation under the stores' transaction, if they have one.
abbrev pub serialize : {S A : Type 0} → Bool → M S A → M S A
serialize true operation s = roll_back s (operation s)
serialize false operation s = operation s
