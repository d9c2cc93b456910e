-- ===== src/Coordinator/Sql/Laws.antt =====
-- What statements keep of the rows of a table.
use crabhelm.Coordinator.Sql.{update_where, delete_where}
use crabhelm.Common.{
  List, Bool, All, ◌≡◌, ◌∷◌, ◌++◌, In, true, [], there, false, Bool-cases, inl, subst, inr, refl,
  here,
}

module _ {A : Type 0} (P : A → Type 0) where
  pub update_where-All :
      (test : A → Bool) (set : A → A) (rs : List A)
      → ((r : A) → P r → test r ≡ true → P (set r))
      → All P rs
      → All P (update_where test set rs)
  unfolding update_where
  update_where-All test set [] keep h = tt
  update_where-All test set (r ∷ rs) keep (h, hs) =
      let rest = update_where-All test set rs keep hs in
      elim (Bool-cases (test r)) [
        | inl hit ↦ subst (All P) (updates hit) (keep r h hit, rest)
        | inr miss ↦ subst (All P) (skips miss) (h, rest)
      ]
    where
      updates : test r ≡ true → set r ∷ update_where test set rs ≡ update_where test set (r ∷ rs)
      updates hit = rw hit refl

      skips : test r ≡ false → r ∷ update_where test set rs ≡ update_where test set (r ∷ rs)
      skips miss = rw miss refl

  pub delete_where-All : (test : A → Bool) (rs : List A) → All P rs → All P (delete_where test rs)
  unfolding delete_where
  delete_where-All test [] h = tt
  delete_where-All test (r ∷ rs) (h, hs) =
      let rest = delete_where-All test rs hs in
      elim (Bool-cases (test r)) [
        | inl hit ↦ subst (All P) (deletes hit) rest
        | inr miss ↦ subst (All P) (skips miss) (h, rest)
      ]
    where
      deletes : test r ≡ true → delete_where test rs ≡ delete_where test (r ∷ rs)
      deletes hit = rw hit refl

      skips : test r ≡ false → r ∷ delete_where test rs ≡ delete_where test (r ∷ rs)
      skips miss = rw miss refl

  pub append-All : (rs : List A) (r : A) → All P rs → P r → All P (rs ++ (r ∷ []))
  append-All [] r h p = (p, tt)
  append-All (q ∷ rs) r (h, hs) p = (h, append-All rs r hs p)

  pub All-In : (rs : List A) {r : A} → All P rs → In r rs → P r
  All-In [] h i = elim i [ ]
  All-In (q ∷ rs) (h, hs) here = h
  All-In (q ∷ rs) (h, hs) (there i) = All-In rs hs i

module _ {A : Type 0} {P Q : A → Type 0} where
  pub All-map : (f : (r : A) → P r → Q r) (rs : List A) → All P rs → All Q rs
  All-map f [] h = tt
  All-map f (r ∷ rs) (h, hs) = (f r h, All-map f rs hs)
