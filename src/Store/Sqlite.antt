-- ===== src/Store/Sqlite.antt =====
-- The key-value stores that SQLite keeps, `store` of src/state.ts: a namespace's rows, each with the
-- time of its last registration, and at most so many of them. A row holds its value's JSON.
pub mod Contents
pub mod Equivalence
mod Tests
use crabhelm.Effect.{◌>>◌, ◌>>=◌, throw_unless, write, read, pure, Result, lift, bind_result}
use crabhelm.Common.{
  ℕ, String, List, Option, Bool, none, some, ◌∷◌, not, true, ltb, if◌then◌else◌, [], str_eq, false,
  ◌||◌, is_some, ◌&&◌, ◌==◌, length, leb, codes, show, ◌<>◌,
}
use crabhelm.Store.{Entry, Store, delete, lookup, register}
use crabhelm.Effect.{M, ok, err}
use crabhelm.Claw.Policies.{units}
use crabhelm.Errors.{other}

pub record Stamped (V : Type 0) : Type 0 where
  pub value : V
  pub created_at : ℕ

-- What a store makes of its values: `encode` is JSON.stringify, with nothing for `undefined`, `decode`
-- is JSON.parse, with nothing for a text that is no JSON, and `place` names the file and the namespace.
pub record Codec (V : Type 0) : Type 0 where
  pub encode : V → Option String
  pub decode : String → Option V
  pub place : String

abbrev pub Rows : Type 0
Rows = Store (Stamped String)

-- `encodeValue` and `decodeValue`.
abbrev pub json_of : Option String → Result String
json_of none = err (other "state value must be JSON-compatible")
json_of (some json) = ok json

abbrev pub value_at : {V : Type 0} → String → String → Option V → Result V
value_at place key none =
    err (other ("Crabhelm state row is invalid JSON (" <> place <> ":" <> key <> ")"))
value_at place key (some value) = ok value

-- `requireKey`.
unfoldable pub is_key : String → Bool
is_key key = not (str_eq key "") && leb (units key) 500

-- ORDER BY created_at, "key": texts are compared by their code points.
abbrev text_before : List ℕ → List ℕ → Bool
text_before [] ys = true
text_before (x ∷ xs) [] = false
text_before (x ∷ xs) (y ∷ ys) =
    let rest = text_before xs ys in if ltb x y then true else if x == y then rest else false

unfoldable pub is_before : Entry (Stamped String) → Entry (Stamped String) → Bool
is_before a b =
    ltb a.value.created_at b.value.created_at
    || (a.value.created_at == b.value.created_at && text_before (codes a.key) (codes b.key))

-- The first of the rows in that order.
unfoldable pub oldest : Rows → Option (Entry (Stamped String))
unfolding is_before
oldest [] = none
oldest (e ∷ es) = older (oldest es)
  where
    older : Option (Entry (Stamped String)) → Option (Entry (Stamped String))
    older none = some e
    older (some f) = if is_before e f then some e else some f

unfoldable pub remove_oldest : Rows → Rows
unfolding oldest delete
remove_oldest rows = removed (oldest rows)
  where
    removed : Option (Entry (Stamped String)) → Rows
    removed none = rows
    removed (some e) = delete e.key rows

-- A new key in a full store evicts the oldest row, if the store is one that evicts, or is refused.
unfoldable pub make_room : ℕ → Bool → String → M Rows (Unit {0})
unfolding lookup remove_oldest show
make_room max_entries evicts key rows =
    if is_some (lookup key rows) || ltb (length rows) max_entries
    then (ok tt, rows)
    else if evicts
    then (ok tt, remove_oldest rows)
    else (err (other ("state store entry limit exceeded (" <> show max_entries <> ")")), rows)

unfoldable pub insert_row : Entry (Stamped String) → Rows → Rows
unfolding is_before
insert_row e [] = e ∷ []
insert_row e (f ∷ es) = let rest = insert_row e es in if is_before e f then e ∷ f ∷ es else f ∷ rest

unfoldable pub in_order : Rows → Rows
unfolding insert_row
in_order [] = []
in_order (e ∷ es) = insert_row e (in_order es)

-- Whether a row was there.
unfoldable pub sqlite_delete : String → M Rows Bool
unfolding is_key lookup delete
sqlite_delete key = do
  throw_unless (is_key key) (other "state key is invalid")
  present ← read (λ rows. is_some (lookup key rows))
  write (delete key)
  pure present

module _ {V : Type 0} (codec : Codec V) where
  unfoldable pub sqlite_register : ℕ → Bool → ℕ → String → V → M Rows (Unit {0})
  unfolding is_key make_room register
  sqlite_register max_entries evicts now key value = do
    throw_unless (is_key key) (other "state key is invalid")
    json ← lift (json_of (codec.encode value))
    make_room max_entries evicts key
    write (register key (record { value = json; created_at = now }))

  abbrev pub found_value : String → Option (Stamped String) → Result (Option V)
  found_value key none = ok none
  found_value key (some row) =
      bind_result (value_at codec.place key (codec.decode row.value)) λ value. ok (some value)

  unfoldable pub sqlite_lookup : String → M Rows (Option V)
  unfolding is_key lookup
  sqlite_lookup key = do
    throw_unless (is_key key) (other "state key is invalid")
    row ← read (lookup key)
    lift (found_value key row)

  -- The entries of rows, with their times.
  unfoldable pub decode_each : Rows → Result (Store (Stamped V))
  decode_each [] = ok []
  decode_each (e ∷ es) =
      let rest = decode_each es in
      bind_result (value_at codec.place e.key (codec.decode e.value.value)) λ value.
        bind_result rest λ entries. ok (
          record { key = e.key; value = record { value = value; created_at = e.value.created_at } }
          ∷ entries)

  unfoldable pub sqlite_entries : M Rows (Store (Stamped V))
  unfolding in_order decode_each
  sqlite_entries rows = (decode_each (in_order rows), rows)
