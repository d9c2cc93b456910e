-- ===== src/Slug.antt =====
-- Slugs: `slugify` and `slugPattern` (src/domain.ts). Of `toLowerCase` only what `[a-z0-9]` can
-- tell is modelled: besides A to Z, the two other characters whose lower case holds such a letter
-- (U+0130 gives an "i" and a combining dot, which counts as a separator; U+212A gives a "k").
pub mod Shape
mod Tests
use Prim.Native.Char.{Char, code}
use crabhelm.Common.{
  ℕ, zero, suc, ◌-◌, String, Bool, true, false, ◌&&◌, ◌||◌, leb, ◌==◌, if◌then◌else◌, is_empty,
  trim,
}

abbrev char_at_or : ℕ → Char → String → Char
char_at_or n d String.[] = d
char_at_or zero d (String.◌∷◌ c s) = c
char_at_or (suc n) d (String.◌∷◌ c s) = char_at_or n d s

-- One character's part of `toLowerCase()`.
unfoldable lower : Char → String → String
lower c rest =
    if leb b'A' (code c) && leb (code c) b'Z'
    then String.◌∷◌ (char_at_or (code c - b'A') c "abcdefghijklmnopqrstuvwxyz") rest
    else if code c == 0x130
    then String.◌∷◌ "i" (String.◌∷◌ c rest)
    else if code c == 0x212a
    then String.◌∷◌ "k" rest
    else String.◌∷◌ c rest

unfoldable pub to_lower_case : String → String
unfolding lower
to_lower_case String.[] = ""
to_lower_case (String.◌∷◌ c s) = lower c (to_lower_case s)

abbrev pub is_alphanumeric : ℕ → Bool
is_alphanumeric c = (leb b'a' c && leb c b'z') || (leb b'0' c && leb c b'9')

abbrev pub is_dash : ℕ → Bool
is_dash c = c == b'-'

-- `replace(/[^a-z0-9]+/g, "-")`; `in_run` says that the character before was replaced too.
dash_runs : Bool → String → String
dash_runs in_run String.[] = ""
dash_runs in_run (String.◌∷◌ c s) =
    let kept = String.◌∷◌ c (dash_runs false s) in
    let run = dash_runs true s in
    if is_alphanumeric (code c) then kept else if in_run then run else String.◌∷◌ "-" run

-- `replace(/^-+/, "")` and `replace(/-+$/, "")`.
drop_dashes : String → String
drop_dashes String.[] = ""
drop_dashes (String.◌∷◌ c s) = if is_dash (code c) then drop_dashes s else String.◌∷◌ c s

drop_last_dashes : String → String
drop_last_dashes String.[] = ""
drop_last_dashes (String.◌∷◌ c s) =
    let rest = drop_last_dashes s in
    if is_empty rest && is_dash (code c) then "" else String.◌∷◌ c rest

-- `slice(0, n)`, on a text of ASCII characters.
prefix : ℕ → String → String
prefix zero s = ""
prefix (suc n) String.[] = ""
prefix (suc n) (String.◌∷◌ c s) = String.◌∷◌ c (prefix n s)

unfoldable pub slugify : String → String
unfolding to_lower_case dash_runs drop_dashes drop_last_dashes prefix trim
slugify value =
    drop_last_dashes
      (prefix 63 (drop_last_dashes (drop_dashes (dash_runs false (to_lower_case (trim value))))))

abbrev pub characters : String → ℕ
characters String.[] = 0
characters (String.◌∷◌ c s) = suc (characters s)

abbrev all_slug_characters : String → Bool
all_slug_characters String.[] = true
all_slug_characters (String.◌∷◌ c s) =
    (is_alphanumeric (code c) || is_dash (code c)) && all_slug_characters s

abbrev starts_well : String → Bool
starts_well String.[] = false
starts_well (String.◌∷◌ c s) = is_alphanumeric (code c)

abbrev ends_well : String → Bool
ends_well String.[] = false
ends_well (String.◌∷◌ c s) = if is_empty s then is_alphanumeric (code c) else ends_well s

-- `/^[a-z0-9](?:[a-z0-9-]{0,61}[a-z0-9])?$/`: 1 to 63 characters, letters, digits and dashes, with
-- no dash at either end.
unfoldable pub is_slug : String → Bool
is_slug s = starts_well s && all_slug_characters s && ends_well s && leb (characters s) 63
