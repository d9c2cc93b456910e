-- ===== src/Governance/Records/Fields.antt =====
-- The checks of a field: `text`, `optionalText`, `unique`, `departments` and the patterns
-- (src/governance.ts).
use Prim.Native.Char.{code}
use Prim.Native.String.{len}
use crabhelm.Common.{
  ℕ, String, Bool, false, not, ◌&&◌, ◌||◌, Option, none, some, List, [], ◌∷◌, leb, ◌==◌, is_empty,
  all_chars, trim, show, is_distinct, any, length, or_else, ◌<>◌,
}
use crabhelm.Errors.{other}
use crabhelm.Effect.{Result, ok, err, bind_result, require_true}
use crabhelm.Slug.{characters}

infixl 5 ◌>>=◌ ◌>>◌
abbrev pub ◌>>=◌ : {A B : Type 0} → Result A → (A → Result B) → Result B
r >>= f = bind_result r f

abbrev pub ◌>>◌ : {B : Type 0} → Result (Unit {0}) → Result B → Result B
r >> k = bind_result r λ _. k

abbrev is_letter : ℕ → Bool
is_letter c = (leb b'a' c && leb c b'z') || (leb b'A' c && leb c b'Z')

abbrev is_digit : ℕ → Bool
is_digit c = leb b'0' c && leb c b'9'

-- `^[first][rest]{0,n}$`.
abbrev matches : (ℕ → Bool) → (ℕ → Bool) → ℕ → String → Bool
matches first rest n String.[] = false
matches first rest n (String.◌∷◌ c s) = first (code c) && all_chars rest s && leb (characters s) n

unfoldable pub is_subject : String → Bool
is_subject =
    matches (λ c. is_letter c || is_digit c)
      (λ c.
        is_letter c
        || is_digit c
        || c == b'_'
        || c == b'.'
        || c == b':'
        || c == b'@'
        || c == b'/'
        || c == b'+'
        || c == b'-')
      199

unfoldable pub is_department : String → Bool
is_department =
    matches (λ c. is_letter c || is_digit c)
      (λ c. is_letter c || is_digit c || c == b' ' || c == b'_' || c == b'.' || c == b'-') 79

-- `text(value, label, max)`: the trimmed text, of 1 to `max` bytes of UTF-8.
unfoldable pub text : Option String → String → ℕ → Result String
text none label most = err (other (label <> " is required"))
text (some value) label most = do
  require_true (not (is_empty (trim value)) && leb (len (trim value)) most)
      (other (label <> " must be between 1 and " <> show most <> " bytes"))
  ok (trim value)

-- `optionalText(value, label, max)`; the request's type leaves no value that is not a text.
unfoldable pub optional_text : Option String → String → ℕ → Result String
optional_text none label most = ok ""
optional_text (some value) label most = do
  require_true (is_empty value || leb (len value) most)
      (other (label <> " must be at most " <> show most <> " bytes"))
  ok value

-- `values.map((value) => text(value, label, 240))`.
unfoldable pub text_each : String → List String → Result (List String)
text_each label [] = ok []
text_each label (v ∷ vs) = do
  head ← text (some v) label 240
  rest ← text_each label vs
  ok (head ∷ rest)

unfoldable pub unique : List String → String → ℕ → Result (List String)
unique values label most = do
  require_true (leb (length values) most) (other (label <> " exceed " <> show most <> " entries"))
  clean ← text_each label values
  require_true (is_distinct clean) (other (label <> " must be unique"))
  ok clean

unfoldable pub departments : Option (List String) → Result (List String)
departments values = do
  items ← unique (or_else values []) "departments" 50
  require_true (not (any (λ value. not (is_department value)) items))
      (other "department name is invalid")
  ok items
