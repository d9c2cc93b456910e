-- ===== src/Slug/Shape.antt =====
-- What `slugify` makes is a slug.
use crabhelm.Common.{
  ℕ, zero, suc, ◌≤◌, String, Bool, true, false, ◌≡◌, ◌⊎◌, inl, refl, is_empty, arith, trim,
}
use crabhelm.Slug.{
  to_lower_case, dash_runs, drop_dashes, drop_last_dashes, prefix, slugify, characters,
  all_slug_characters, starts_well, ends_well, is_slug,
}

all_slug-dash_runs : (b : Bool) (s : String) → all_slug_characters (dash_runs b s) ≡ true
unfolding dash_runs
all_slug-dash_runs b String.[] = refl
all_slug-dash_runs b (String.◌∷◌ c s) =
    ground (arith, all_slug-dash_runs false s, all_slug-dash_runs true s)

all_slug-drop_dashes :
    (s : String) → all_slug_characters s ≡ true → all_slug_characters (drop_dashes s) ≡ true
unfolding drop_dashes
all_slug-drop_dashes String.[] h = refl
all_slug-drop_dashes (String.◌∷◌ c s) h = ground (arith, all_slug-drop_dashes s)

all_slug-drop_last_dashes :
    (s : String) → all_slug_characters s ≡ true → all_slug_characters (drop_last_dashes s) ≡ true
unfolding drop_last_dashes
all_slug-drop_last_dashes String.[] h = refl
all_slug-drop_last_dashes (String.◌∷◌ c s) h = ground (arith, all_slug-drop_last_dashes s)

all_slug-prefix :
    (n : ℕ) (s : String) → all_slug_characters s ≡ true → all_slug_characters (prefix n s) ≡ true
unfolding prefix
all_slug-prefix zero s h = refl
all_slug-prefix (suc n) String.[] h = refl
all_slug-prefix (suc n) (String.◌∷◌ c s) h = ground (arith, all_slug-prefix n s)

-- A text that is empty or begins with a letter or a digit.
abbrev IsClean : String → Type 0
IsClean s = (is_empty s ≡ true) ⊎ (starts_well s ≡ true)

drop_dashes-IsClean : (s : String) → all_slug_characters s ≡ true → IsClean (drop_dashes s)
unfolding drop_dashes
drop_dashes-IsClean String.[] h = inl refl
drop_dashes-IsClean (String.◌∷◌ c s) h = ground (arith, drop_dashes-IsClean s)

drop_last_dashes-IsClean : (s : String) → IsClean s → IsClean (drop_last_dashes s)
unfolding drop_last_dashes
drop_last_dashes-IsClean String.[] h = h
drop_last_dashes-IsClean (String.◌∷◌ c s) h = ground arith

prefix-IsClean : (n : ℕ) (s : String) → IsClean s → IsClean (prefix n s)
unfolding prefix
prefix-IsClean zero s h = inl refl
prefix-IsClean (suc n) String.[] h = h
prefix-IsClean (suc n) (String.◌∷◌ c s) h = ground arith

drop_last_dashes-ends_well :
    (s : String)
    → all_slug_characters s ≡ true
    → (is_empty (drop_last_dashes s) ≡ true) ⊎ (ends_well (drop_last_dashes s) ≡ true)
unfolding drop_last_dashes
drop_last_dashes-ends_well String.[] h = inl refl
drop_last_dashes-ends_well (String.◌∷◌ c s) h = ground (arith, drop_last_dashes-ends_well s)

characters-prefix : (n : ℕ) (s : String) → characters (prefix n s) ≤ n
unfolding prefix
characters-prefix zero s = omega arith
characters-prefix (suc n) String.[] = omega arith
characters-prefix (suc n) (String.◌∷◌ c s) = omega (arith, characters-prefix n s)

characters-drop_last_dashes : (s : String) → characters (drop_last_dashes s) ≤ characters s
unfolding drop_last_dashes
characters-drop_last_dashes String.[] = omega arith
characters-drop_last_dashes (String.◌∷◌ c s) = ground (arith, characters-drop_last_dashes s)

is_empty_lem : (s : String) → is_empty s ≡ true → s ≡ ""
is_empty_lem String.[] h = refl
is_empty_lem (String.◌∷◌ c s) h = cc

-- The last two steps of `slugify`, on any clean text of slug characters.
finish_slug :
    (s : String)
    → all_slug_characters s ≡ true
    → IsClean s
    → let t = drop_last_dashes (prefix 63 s) in (t ≡ "") ⊎ (is_slug t ≡ true)
unfolding is_slug
finish_slug s h clean =
    let hp = all_slug-prefix 63 s h in
    let ht = all_slug-drop_last_dashes (prefix 63 s) hp in
    let ct = drop_last_dashes-IsClean (prefix 63 s) (prefix-IsClean 63 s clean) in
    let et = drop_last_dashes-ends_well (prefix 63 s) hp in
    let lp = characters-prefix 63 s in
    let lt = characters-drop_last_dashes (prefix 63 s) in
    ground (arith, is_empty_lem (drop_last_dashes (prefix 63 s)))

-- What `slugify` makes of any text is empty or a slug: 1 to 63 lower-case letters, digits and
-- dashes, with no dash at either end.
pub slugify-is_slug : (value : String) → (slugify value ≡ "") ⊎ (is_slug (slugify value) ≡ true)
unfolding slugify
slugify-is_slug value =
    let runs = dash_runs false (to_lower_case (trim value)) in
    let h = all_slug-dash_runs false (to_lower_case (trim value)) in
    let d = all_slug-drop_dashes runs h in
    finish_slug (drop_last_dashes (drop_dashes runs))
      (all_slug-drop_last_dashes (drop_dashes runs) d)
      (drop_last_dashes-IsClean (drop_dashes runs) (drop_dashes-IsClean runs h))
