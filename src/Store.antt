-- ===== src/Store.antt =====
-- The key-value stores behind the registries: `createMemoryStateStore` (src/state.ts). A
-- JavaScript `Map` keeps its keys in the order of their first insertion. An entry's `createdAt`,
-- which no registry reads, is left out.
pub mod Laws
pub mod Sqlite
use crabhelm.Common.{String, Option, none, some, List, [], ◌∷◌, str_eq, if◌then◌else◌}

pub record Entry (V : Type 0) : Type 0 where
  pub key : String
  pub value : V

abbrev pub Store : Type 0 → Type 0
Store V = List (Entry V)

module _ {V : Type 0} where
  unfoldable pub register : String → V → Store V → Store V
  register key value [] = record { key = key; value = value } ∷ []
  register key value (e ∷ es) =
      if str_eq e.key key
      then record { key = key; value = value } ∷ es
      else e ∷ register key value es

  unfoldable pub lookup : String → Store V → Option V
  lookup key [] = none
  lookup key (e ∷ es) = if str_eq e.key key then some e.value else lookup key es

  -- `values.delete(key)` also says whether the key was there.
  unfoldable pub delete : String → Store V → Store V
  delete key [] = []
  delete key (e ∷ es) = if str_eq e.key key then es else e ∷ delete key es

  -- `(await store.entries()).map((entry) => entry.value)`.
  unfoldable pub values : Store V → List V
  values [] = []
  values (e ∷ es) = e.value ∷ values es
