-- ===== src/Store/Sqlite/Contents.antt =====
-- The rows of a SQLite store that hold what a memory store does.
use mathlib.Core.List.{Perm}
use mathlib.Core.List.Perm
use crabhelm.Store.Sqlite.{
  Codec, Rows, insert_row, in_order, decode_each, found_value, Stamped, is_before,
}
use crabhelm.Store.{register, delete, lookup, Store, Entry}
use crabhelm.Common.{
  String, ℕ, length, ◌≡◌, ◌∷◌, ◌≤◌, some, suc, arith, [], is_some, Bool-cases, ap, refl, str_eq,
  subst, inl, sym, true, inr, false,
}
use crabhelm.Effect.{ok}

module _ {V : Type 0} where
  -- Entries without their times.
  unfoldable pub values_only : Store (Stamped V) → Store V
  values_only [] = []
  values_only (e ∷ es) = record { key = e.key; value = e.value.value } ∷ values_only es

module _ {V : Type 0} (codec : Codec V) where
  -- The rows have the keys of the store in its order, and their JSON reads as its values.
  unfoldable pub Shows : Rows → Store V → Type 0
  Shows [] [] = Unit {0}
  Shows [] (f ∷ fs) = ⊥
  Shows (e ∷ es) [] = ⊥
  Shows (e ∷ es) (f ∷ fs) =
      (e.key ≡ f.key) × (codec.decode e.value.value ≡ some f.value) × Shows es fs

  pub lookup-Shows :
      (key : String) (rows : Rows) (s : Store V)
      → Shows rows s
      → (found_value codec key (lookup key rows) ≡ ok (lookup key s))
        × (is_some (lookup key rows) ≡ is_some (lookup key s))
  unfolding Shows lookup
  lookup-Shows key [] [] h = (refl, refl)
  lookup-Shows key [] (f ∷ fs) h = absurd h
  lookup-Shows key (e ∷ es) [] h = absurd h
  lookup-Shows key (e ∷ es) (f ∷ fs) (same, reads, rest) = elim (Bool-cases (str_eq e.key key)) [
    | inl hit ↦ let hit' : str_eq f.key key ≡ true = rw (← same) hit in ground arith
    | inr miss ↦
        let miss' : str_eq f.key key ≡ false = rw (← same) miss in
        let ih = lookup-Shows key es fs rest in ground arith
  ]

  pub register-Shows :
      (key json : String) (now : ℕ) (v : V) (rows : Rows) (s : Store V)
      → codec.decode json ≡ some v
      → Shows rows s
      → Shows (register key (record { value = json; created_at = now }) rows) (register key v s)
  unfolding Shows register
  register-Shows key json now v [] [] reads h = (refl, reads, tt)
  register-Shows key json now v [] (f ∷ fs) reads h = absurd h
  register-Shows key json now v (e ∷ es) [] reads h = absurd h
  register-Shows key json now v (e ∷ es) (f ∷ fs) reads (same, old, rest) =
      elim (Bool-cases (str_eq e.key key)) [
        | inl hit ↦
            let hit' : str_eq f.key key ≡ true = rw (← same) hit in
            rw (hit, hit') (refl, reads, rest)
        | inr miss ↦
            let miss' : str_eq f.key key ≡ false = rw (← same) miss in
            rw (miss, miss') (same, old, register-Shows key json now v es fs reads rest)
      ]

  pub delete-Shows :
      (key : String) (rows : Rows) (s : Store V)
      → Shows rows s
      → Shows (delete key rows) (delete key s)
  unfolding Shows delete
  delete-Shows key [] [] h = tt
  delete-Shows key [] (f ∷ fs) h = absurd h
  delete-Shows key (e ∷ es) [] h = absurd h
  delete-Shows key (e ∷ es) (f ∷ fs) (same, old, rest) = elim (Bool-cases (str_eq e.key key)) [
    | inl hit ↦ let hit' : str_eq f.key key ≡ true = rw (← same) hit in rw (hit, hit') rest
    | inr miss ↦
        let miss' : str_eq f.key key ≡ false = rw (← same) miss in
        rw (miss, miss') (same, old, delete-Shows key es fs rest)
  ]

  insert_row-Shows :
      (e : Entry (Stamped String)) (v : V) (rows : Rows) (s : Store V)
      → codec.decode e.value.value ≡ some v
      → Shows rows s
      → (t : Store V) × Shows (insert_row e rows) t × Perm t (record { key = e.key; value = v } ∷ s)
  unfolding Shows insert_row
  insert_row-Shows e v [] [] reads h = (_, (refl, reads, tt), Perm.rfl)
  insert_row-Shows e v [] (f ∷ fs) reads h = absurd h
  insert_row-Shows e v (g ∷ gs) [] reads h = absurd h
  insert_row-Shows e v (g ∷ gs) (f ∷ fs) reads (same, old, rest) =
      elim (Bool-cases (is_before e g)) [
        | inl first ↦ (
          record { key = e.key; value = v } ∷ f ∷ fs,
          rw first (refl, reads, (same, old, rest)),
          Perm.rfl,
        )
        | inr later ↦
            let (t, shows, perm) = insert_row-Shows e v gs fs reads rest in
            (
              f ∷ t,
              rw later (same, old, shows),
              Perm.trans (Perm.cons f perm) (Perm.swap (record { key = e.key; value = v }) f fs),
            )
      ]

  in_order-Shows :
      (rows : Rows) (s : Store V)
      → Shows rows s
      → (t : Store V) × Shows (in_order rows) t × Perm t s
  unfolding Shows in_order
  in_order-Shows [] [] h = ([], tt, Perm.rfl)
  in_order-Shows [] (f ∷ fs) h = absurd h
  in_order-Shows (e ∷ es) [] h = absurd h
  in_order-Shows (e ∷ es) (f ∷ fs) (same, old, rest) =
      let (t, shows, perm) = in_order-Shows es fs rest in
      let (u, shown, perm') = insert_row-Shows e f.value (in_order es) t old shows in
      let head : record { key = e.key; value = f.value } ≡ f =
        ap (λ k. record { key = k; value = f.value }) same in
      (
        u,
        shown,
        Perm.trans perm' (subst (λ x. Perm (x ∷ t) (f ∷ fs)) (sym head) (Perm.cons f perm)),
      )

  decode_each-Shows :
      (rows : Rows) (s : Store V)
      → Shows rows s
      → (xs : Store (Stamped V)) × (decode_each codec rows ≡ ok xs) × (values_only xs ≡ s)
  unfolding Shows decode_each values_only
  decode_each-Shows [] [] h = ([], refl, refl)
  decode_each-Shows [] (f ∷ fs) h = absurd h
  decode_each-Shows (e ∷ es) [] h = absurd h
  decode_each-Shows (e ∷ es) (f ∷ fs) (same, old, rest) =
      let (xs, made, is) = decode_each-Shows es fs rest in
      (
        record { key = e.key; value = record { value = f.value; created_at = e.value.created_at } }
            ∷ xs,
        ground arith,
        ground arith,
      )

  -- The entries of such rows are the store's, in another order.
  pub entries-Shows :
      (rows : Rows) (s : Store V)
      → Shows rows s
      → (xs : Store (Stamped V)) × (decode_each codec (in_order rows) ≡ ok xs)
        × Perm (values_only xs) s
  entries-Shows rows s h =
      let (t, shows, perm) = in_order-Shows rows s h in
      let (xs, made, is) = decode_each-Shows (in_order rows) t shows in
      (xs, made, subst (λ x. Perm x s) (sym is) perm)

pub length-register :
    (key : String) (v : Stamped String) (rows : Rows)
    → length (register key v rows) ≤ suc (length rows)
unfolding register
length-register key v [] = omega arith
length-register key v (e ∷ es) =
    let rest = length-register key v es in
    elim (Bool-cases (str_eq e.key key)) [ inl hit ↦ ground arith | inr miss ↦ ground arith ]

pub length-delete : (key : String) (rows : Rows) → length (delete key rows) ≤ length rows
unfolding delete
length-delete key [] = omega arith
length-delete key (e ∷ es) =
    let rest = length-delete key es in
    elim (Bool-cases (str_eq e.key key)) [ inl hit ↦ ground arith | inr miss ↦ ground arith ]
