-- ===== src/Store/Laws.antt =====
-- The stores as maps: what is read after a write, and one entry for each key.
use crabhelm.Common.{
  String, ◌≡◌, ◌≢◌, refl, none, some, [], ◌∷◌, str_eq, eq_iff, eq_refl, if◌then◌else◌, arith, In,
  Bool-cases, there, inl, here, subst, inr,
}
use crabhelm.Store.{Store, register, lookup, delete, values}

module _ {V : Type 0} where
  pub lookup-register :
      (k j : String) (v : V) (s : Store V)
      → lookup j (register k v s) ≡ (if str_eq k j then some v else lookup j s)
  unfolding lookup register
  lookup-register k j v [] = refl
  lookup-register k j v (e ∷ es) =
      ground (arith, eq_iff k j, eq_iff e.key k, eq_iff e.key j, lookup-register k j v es)

  pub lookup-register_self : (k : String) (v : V) (s : Store V) → lookup k (register k v s) ≡ some v
  lookup-register_self k v s = simp (lookup-register, eq_refl)

  pub lookup-register_ne :
      (k j : String) (v : V) (s : Store V) → k ≢ j → lookup j (register k v s) ≡ lookup j s
  lookup-register_ne k j v s ne = ground (arith, lookup-register k j v s, eq_iff k j)

  -- No key has two entries.
  abbrev pub IsKeyed : Store V → Type 0
  IsKeyed [] = Unit
  IsKeyed (e ∷ es) = (lookup e.key es ≡ none) × IsKeyed es

  pub register-IsKeyed : (k : String) (v : V) (s : Store V) → IsKeyed s → IsKeyed (register k v s)
  unfolding register lookup
  register-IsKeyed k v [] h = (refl, tt)
  register-IsKeyed k v (e ∷ es) h =
      ground (
        arith,
        eq_iff e.key k,
        eq_iff k e.key,
        lookup-register k e.key v es,
        register-IsKeyed k v es,
      )

  lookup-delete_ne : (k j : String) (s : Store V) → k ≢ j → lookup j (delete k s) ≡ lookup j s
  unfolding lookup delete
  lookup-delete_ne k j [] ne = refl
  lookup-delete_ne k j (e ∷ es) ne =
      ground (arith, eq_iff e.key k, eq_iff e.key j, lookup-delete_ne k j es ne)

  pub delete-IsKeyed : (k : String) (s : Store V) → IsKeyed s → IsKeyed (delete k s)
  unfolding delete lookup
  delete-IsKeyed k [] h = tt
  delete-IsKeyed k (e ∷ es) h =
      ground
        (arith, eq_iff e.key k, eq_iff k e.key, lookup-delete_ne k e.key es, delete-IsKeyed k es)

  pub lookup-delete :
      (k j : String) (s : Store V)
      → IsKeyed s
      → lookup j (delete k s) ≡ (if str_eq k j then none else lookup j s)
  unfolding lookup delete
  lookup-delete k j [] h = ground arith
  lookup-delete k j (e ∷ es) h =
      ground (arith, eq_iff k j, eq_iff e.key k, eq_iff e.key j, lookup-delete k j es)

  -- The values of a store are what its keys hold.
  pub lookup-In : (k : String) (s : Store V) {v : V} → lookup k s ≡ some v → In v (values s)
  unfolding lookup values
  lookup-In k [] e = cc
  lookup-In k (e ∷ es) {v} h = elim (Bool-cases (str_eq e.key k)) [
    | inl hit ↦
        let same : e.value ≡ v = ground arith in subst (λ x. In x (e.value ∷ values es)) same here
    | inr miss ↦ there (lookup-In k es (ground arith))
  ]

  pub In-lookup :
      (s : Store V) {v : V} → IsKeyed s → In v (values s) → (k : String) × (lookup k s ≡ some v)
  unfolding lookup values
  In-lookup [] h m = elim m [ ]
  In-lookup (e ∷ es) h here = (e.key, ground (arith, eq_refl e.key))
  In-lookup (e ∷ es) {v} h (there m) =
      let (k, at) = In-lookup es {v = v} h.1 m in (k, ground (arith, eq_iff e.key k))
