-- ===== src/Common/Lists.antt =====
-- Lists measured by native numbers, searched by Boolean tests, and predicates on their items.
use Prim.Native.Nat.{ℕ, suc, ◌+◌}
use mathlib.Core.Path.{◌≡◌}
use mathlib.Core.Bool.{Bool, true, false, ◌&&◌, ◌||◌}
use mathlib.Core.Option.{Option, none, some}
use mathlib.Core.List.{List, [], ◌∷◌, ◌++◌}
use mathlib.Core.Logic.{inl, inr}
use native.Mathlib.Omega.{arith}
use crabhelm.Common.Tests.{if◌then◌else◌, Bool-cases}

module _ {ℓ} {A : Type ℓ} where
  abbrev pub length : List A → ℕ
  length [] = 0
  length (_ ∷ xs) = suc (length xs)

  pub length-append : (xs ys : List A) → length (xs ++ ys) ≡ length xs + length ys
  length-append [] ys = omega arith
  length-append (x ∷ xs) ys = omega (arith, length-append xs ys)

  -- `xs.find(p)`, `xs.some(p)`, `xs.every(p)` and `xs.filter(p)`.
  abbrev pub find : (A → Bool) → List A → Option A
  find p [] = none
  find p (x ∷ xs) = let rest = find p xs in if p x then some x else rest

  abbrev pub any : (A → Bool) → List A → Bool
  any p [] = false
  any p (x ∷ xs) = p x || any p xs

  abbrev pub all : (A → Bool) → List A → Bool
  all p [] = true
  all p (x ∷ xs) = p x && all p xs

  abbrev pub select : (A → Bool) → List A → List A
  select p [] = []
  select p (x ∷ xs) = let rest = select p xs in if p x then x ∷ rest else rest

module _ {ℓ κ} {A : Type ℓ} where
  abbrev pub All : (A → Type κ) → List A → Type κ
  All P [] = Unit
  All P (x ∷ xs) = P x × All P xs

-- Being an item of a list, with its place kept.
pub data In {ℓ} {A : Type ℓ} (x : A) : List A → Type ℓ where
  here : {xs : List A} → In x (x ∷ xs)
  there : {y : A} {xs : List A} → In x xs → In x (y ∷ xs)

module _ {ℓ} {A : Type ℓ} where
  find_head : (p : A → Bool) (y : A) (ys : List A) {x : A} → y ≡ x → p y ≡ true → In x (y ∷ ys)
  find_head p y ys e h = rw (← e) here

  -- What `find` returns is an item of the list, and passes the test.
  pub find_sound :
      (p : A → Bool) (xs : List A) {x : A} → find p xs ≡ some x → In x xs × (p x ≡ true)
  find_sound p [] e = cc
  find_sound p (y ∷ ys) {x} e = elim (Bool-cases (p y)) [
    | inl h ↦ let same : y ≡ x = ground arith in (find_head p y ys same h, rw (← same) h)
    | inr h ↦ let (m, q) = find_sound p ys {x = x} (ground arith) in (there m, q)
  ]

  -- Where `find` returns nothing, no item passes the test.
  pub find-none : (p : A → Bool) (xs : List A) {x : A} → In x xs → find p xs ≡ none → p x ≡ false
  find-none p [] m e = elim m [ ]
  find-none p (y ∷ ys) here e = ground arith
  find-none p (y ∷ ys) (there m) e = find-none p ys m (ground arith)
