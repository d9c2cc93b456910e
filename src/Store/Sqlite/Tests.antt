-- ===== src/Store/Sqlite/Tests.antt =====
-- Tests of the SQLite stores, and a concrete instance of their theorem.
use crabhelm.Common.{
  String, List, ℕ, false, ◌∷◌, [], ◌≡◌, refl, arith, true, Option, show, some, if◌then◌else◌,
  str_eq, none,
}
use crabhelm.Store.{Store, Entry, lookup, delete, register}
use crabhelm.Store.Sqlite.{
  is_key, sqlite_register, sqlite_entries, Stamped, make_room, insert_row, is_before, remove_oldest,
  oldest, Codec, Rows, in_order, sqlite_lookup, decode_each,
}
use crabhelm.Store.Sqlite.Equivalence.{
  StoreCall, sqlite_answers, registers, looks_up, deletes, memory_answers, sqlite_answers_as_memory,
  lists, AreSame,
}
use crabhelm.Effect.{err, ok}
use crabhelm.Errors.{other}
use crabhelm.Claw.Policies.{units}
use crabhelm.Store.Sqlite.Contents.{Shows}

-- Numbers below three, as JSON writes them.
abbrev read_digit : String → Option ℕ
read_digit json =
    if str_eq json "1"
    then some 1
    else if str_eq json "2"
    then some 2
    else if str_eq json "3"
    then some 3
    else none

abbrev digits : Codec ℕ
digits = record { encode = λ n. some (show n); decode = read_digit; place = "state.sqlite:claws" }

abbrev row : String → String → ℕ → Entry (Stamped String)
row key json created_at = record {
  key = key;
  value = record { value = json; created_at = created_at };
}

abbrev two_rows : Rows
two_rows = row "b" "1" 20 ∷ row "a" "2" 10 ∷ []

abbrev two_values : Store ℕ
two_values = record { key = "b"; value = 1 } ∷ record { key = "a"; value = 2 } ∷ []

abbrev some_calls : List (StoreCall ℕ)
some_calls = registers 30 "c" 3 ∷ looks_up "a" ∷ lists ∷ deletes "b" ∷ looks_up "c" ∷ []

sqlite_answers_as_memory_example :
    AreSame
      (sqlite_answers digits 3 false some_calls two_rows)
      (memory_answers some_calls two_values)
unfolding is_key units show Shows
sqlite_answers_as_memory_example =
    sqlite_answers_as_memory digits 3 false some_calls two_rows two_values
      ((refl, ("3", refl, refl)), (refl, (tt, (refl, (refl, tt))))) (refl, refl, (refl, refl, tt))
      (omega arith)

-- A full store that evicts gives up its oldest row, and one that does not refuses the key.
full_evicts :
    sqlite_register digits 2 true 30 "c" 3 two_rows ≡ (ok tt, row "b" "1" 20 ∷ row "c" "3" 30 ∷ [])
unfolding sqlite_register is_key units make_room lookup remove_oldest oldest is_before delete
    register show
full_evicts = refl

full_refuses :
    sqlite_register digits 2 false 30 "c" 3 two_rows
    ≡ (err (other "state store entry limit exceeded (2)"), two_rows)
unfolding sqlite_register is_key units make_room lookup show
full_refuses = refl

-- Rows are listed by their times, and a row that holds no JSON is reported.
entries_by_time : sqlite_entries digits two_rows ≡ (
  ok (
      record { key = "a"; value = record { value = 2; created_at = 10 } }
      ∷ record { key = "b"; value = record { value = 1; created_at = 20 } }
      ∷ []),
  two_rows,
)
unfolding sqlite_entries in_order insert_row is_before decode_each
entries_by_time = refl

bad_row :
    sqlite_lookup digits "b" (row "b" "{" 20 ∷ [])
    ≡ (err (other "Crabhelm state row is invalid JSON (state.sqlite:claws:b)"), row "b" "{" 20 ∷ [])
unfolding sqlite_lookup is_key units lookup
bad_row = refl
