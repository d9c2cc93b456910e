-- ===== src/Store/Sqlite/Equivalence.antt =====
-- A SQLite store that is not full answers as a memory store does.
use mathlib.Core.List.{Perm}
use crabhelm.Common.{
  ℕ, Option, List, String, Bool, suc, ◌≡◌, [], ◌∷◌, is_some, some, true, All, length, ◌<◌, ◌+◌, ltb,
  ap, ◌≤◌, arith,
}
use crabhelm.Store.{Store, register, lookup, delete}
use crabhelm.Effect.{Result, ok, err}
use crabhelm.Store.Sqlite.{
  Codec, Stamped, sqlite_register, is_key, sqlite_lookup, sqlite_delete, sqlite_entries, make_room,
  Rows,
}
use crabhelm.Errors.{Error}
use crabhelm.Store.Sqlite.Contents.{
  values_only, Shows, lookup-Shows, register-Shows, length-register, delete-Shows, length-delete,
  entries-Shows,
}

-- A call of a store. A registration in a SQLite store reads the clock.
pub data StoreCall (V : Type 0) : Type 0 where
  registers : ℕ → String → V → StoreCall V
  looks_up deletes : String → StoreCall V
  lists : StoreCall V

pub data Answer (V : Type 0) : Type 0 where
  done : Answer V
  found : Option V → Answer V
  deleted : Bool → Answer V
  listed : Store V → Answer V
  refused : Error → Answer V

-- Answers that are the same but for the order in which entries are listed.
pub data IsSame {V : Type 0} : Answer V → Answer V → Type 0 where
  exactly : (a : Answer V) → IsSame a a
  reordered : {xs ys : Store V} → Perm xs ys → IsSame (listed xs) (listed ys)

abbrev pub AreSame : {V : Type 0} → List (Answer V) → List (Answer V) → Type 0
AreSame [] [] = Unit {0}
AreSame [] (b ∷ bs) = ⊥
AreSame (a ∷ as_) [] = ⊥
AreSame (a ∷ as_) (b ∷ bs) = IsSame a b × AreSame as_ bs

module _ {V : Type 0} where
  abbrev done_of : Result (Unit {0}) → Answer V
  done_of (ok _) = done
  done_of (err e) = refused e

  abbrev found_of : Result (Option V) → Answer V
  found_of (ok v) = found v
  found_of (err e) = refused e

  abbrev deleted_of : Result Bool → Answer V
  deleted_of (ok b) = deleted b
  deleted_of (err e) = refused e

  -- The times of the entries are left out.
  abbrev listed_of : Result (Store (Stamped V)) → Answer V
  listed_of (ok xs) = listed (values_only xs)
  listed_of (err e) = refused e

  -- What a memory store answers to calls, one after the other.
  unfoldable pub memory_answers : List (StoreCall V) → Store V → List (Answer V)
  unfolding register lookup delete
  memory_answers [] s = []
  memory_answers (registers now key value ∷ calls) s =
      done ∷ memory_answers calls (register key value s)
  memory_answers (looks_up key ∷ calls) s = found (lookup key s) ∷ memory_answers calls s
  memory_answers (deletes key ∷ calls) s =
      deleted (is_some (lookup key s)) ∷ memory_answers calls (delete key s)
  memory_answers (lists ∷ calls) s = listed s ∷ memory_answers calls s

  abbrev pub registrations : List (StoreCall V) → ℕ
  registrations [] = 0
  registrations (registers now key value ∷ calls) = suc (registrations calls)
  registrations (_ ∷ calls) = registrations calls

module _ {V : Type 0} (codec : Codec V) where
  -- What a SQLite store answers.
  unfoldable pub sqlite_answers : ℕ → Bool → List (StoreCall V) → Rows → List (Answer V)
  unfolding sqlite_register sqlite_lookup sqlite_delete sqlite_entries
  sqlite_answers most evicts [] rows = []
  sqlite_answers most evicts (registers now key value ∷ calls) rows =
      let (r, next) = sqlite_register codec most evicts now key value rows in
      done_of r ∷ sqlite_answers most evicts calls next
  sqlite_answers most evicts (looks_up key ∷ calls) rows =
      let (r, next) = sqlite_lookup codec key rows in
      found_of r ∷ sqlite_answers most evicts calls next
  sqlite_answers most evicts (deletes key ∷ calls) rows =
      let (r, next) = sqlite_delete key rows in deleted_of r ∷ sqlite_answers most evicts calls next
  sqlite_answers most evicts (lists ∷ calls) rows =
      let (r, next) = sqlite_entries codec rows in
      listed_of r ∷ sqlite_answers most evicts calls next

  -- The value has a JSON that reads as the value.
  abbrev pub IsJson : V → Type 0
  IsJson v = (json : String) × (codec.encode v ≡ some json) × (codec.decode json ≡ some v)

  -- A call with a key that a SQLite store takes, and a value that JSON keeps.
  abbrev pub IsCall : StoreCall V → Type 0
  IsCall (registers now key value) = (is_key key ≡ true) × IsJson value
  IsCall (looks_up key) = is_key key ≡ true
  IsCall (deletes key) = is_key key ≡ true
  IsCall lists = Unit {0}

  register_fits :
      (most : ℕ) (evicts : Bool) (now : ℕ) (key json : String) (value : V) (rows : Rows)
      → is_key key ≡ true
      → codec.encode value ≡ some json
      → length rows < most
      → sqlite_register codec most evicts now key value rows
        ≡ (ok tt, register key (record { value = json; created_at = now }) rows)
  unfolding sqlite_register make_room
  register_fits most evicts now key json value rows key_ encodes room =
      let fits : ltb (length rows) most ≡ true = ground arith in ground arith

  lookup_shown :
      (key : String) (rows : Rows) (s : Store V)
      → is_key key ≡ true
      → Shows codec rows s
      → sqlite_lookup codec key rows ≡ (ok (lookup key s), rows)
  unfolding sqlite_lookup
  lookup_shown key rows s key_ shows =
      let (is, _) = lookup-Shows codec key rows s shows in rw key_ (ap (λ r. (r, rows)) is)

  delete_shown :
      (key : String) (rows : Rows) (s : Store V)
      → is_key key ≡ true
      → Shows codec rows s
      → sqlite_delete key rows ≡ (ok (is_some (lookup key s)), delete key rows)
  unfolding sqlite_delete
  delete_shown key rows s key_ shows =
      let (_, is) = lookup-Shows codec key rows s shows in
      rw key_ (ap (λ b. (ok b, delete key rows)) is)

  -- A SQLite store answers a list of calls as a memory store with the same keys and values does, but
  -- that it may list the same entries in another order, whatever its clock reads and whether it evicts
  -- or not; if every key of the calls is one that it takes, JSON keeps every value of the calls and of
  -- the rows, and its rows and the registrations among the calls are together no more than it may
  -- hold. The times of listed entries are left out.
  pub sqlite_answers_as_memory :
      (most : ℕ) (evicts : Bool) (calls : List (StoreCall V)) (rows : Rows) (s : Store V)
      → All IsCall calls
      → Shows codec rows s
      → length rows + registrations calls ≤ most
      → AreSame (sqlite_answers most evicts calls rows) (memory_answers calls s)
  unfolding sqlite_answers memory_answers
  sqlite_answers_as_memory most evicts [] rows s fit shows room = tt
  sqlite_answers_as_memory most evicts (registers now key value ∷ calls) rows s
        ((key_, (json, encodes, reads)), fit) shows room =
      let rest =
        sqlite_answers_as_memory most evicts calls
          (register key (record { value = json; created_at = now }) rows) (register key value s) fit
          (register-Shows codec key json now value rows s reads shows)
          (omega (arith, length-register key (record { value = json; created_at = now }) rows)) in
      rw (register_fits most evicts now key json value rows key_ encodes (omega arith))
        (exactly done, rest)
  sqlite_answers_as_memory most evicts (looks_up key ∷ calls) rows s (key_, fit) shows room =
      let rest = sqlite_answers_as_memory most evicts calls rows s fit shows room in
      rw (lookup_shown key rows s key_ shows) (exactly (found (lookup key s)), rest)
  sqlite_answers_as_memory most evicts (deletes key ∷ calls) rows s (key_, fit) shows room =
      let rest =
        sqlite_answers_as_memory most evicts calls (delete key rows) (delete key s) fit
          (delete-Shows codec key rows s shows) (omega (arith, length-delete key rows)) in
      rw (delete_shown key rows s key_ shows) (exactly (deleted (is_some (lookup key s))), rest)
  sqlite_answers_as_memory most evicts (lists ∷ calls) rows s (_, fit) shows room =
      let rest = sqlite_answers_as_memory most evicts calls rows s fit shows room in
      let (xs, lists_, perm) = entries-Shows codec rows s shows in rw lists_ (reordered perm, rest)
