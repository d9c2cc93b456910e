-- ===== src/Coordinator/Sql.antt =====
-- The statements that the coordinator (worker/claw-coordinator.ts) runs on a table, as functions on
-- the list of its rows, in the order of their insertion.
pub mod Laws
use crabhelm.Common.{Bool, ℕ, List, ◌∷◌, [], Option, if◌then◌else◌, suc, none, leb, some, zero}

module _ {A : Type 0} where
  -- UPDATE ... SET `set` WHERE `test`.
  unfoldable pub update_where : (A → Bool) → (A → A) → List A → List A
  update_where test set [] = []
  update_where test set (r ∷ rs) =
      let rest = update_where test set rs in if test r then set r ∷ rest else r ∷ rest

  -- SELECT COUNT(*) ... WHERE `test`, and the `rowsWritten` of an update.
  unfoldable pub count_where : (A → Bool) → List A → ℕ
  count_where test [] = 0
  count_where test (r ∷ rs) = let rest = count_where test rs in if test r then suc rest else rest

  -- DELETE ... WHERE `test`.
  unfoldable pub delete_where : (A → Bool) → List A → List A
  delete_where test [] = []
  delete_where test (r ∷ rs) = let rest = delete_where test rs in if test r then rest else r ∷ rest

  -- ORDER BY `key`, of rows in the order of their insertion.
  unfoldable pub insert_by : (A → ℕ) → A → List A → List A
  insert_by key r [] = r ∷ []
  insert_by key r (q ∷ qs) =
      let rest = insert_by key r qs in if leb (key r) (key q) then r ∷ q ∷ qs else q ∷ rest

  unfoldable pub order_by : (A → ℕ) → List A → List A
  unfolding insert_by
  order_by key [] = []
  order_by key (r ∷ rs) = insert_by key r (order_by key rs)

  -- LIMIT `n`.
  unfoldable pub limit : ℕ → List A → List A
  limit zero rs = []
  limit (suc n) [] = []
  limit (suc n) (r ∷ rs) = r ∷ limit n rs

  abbrev pub first : List A → Option A
  first [] = none
  first (r ∷ rs) = some r
