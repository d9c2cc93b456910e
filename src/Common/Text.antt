-- ===== src/Common/Text.antt =====
-- Texts as the source walks them: code points, membership, `trim`.
use Prim.Native.Nat.{ℕ, zero, suc, ◌/◌, ◌%◌}
use Prim.Native.Char.{Char, code}
use Prim.Native.String
use Prim.Native.String.{String}
use mathlib.Core.Path.{◌≡◌, refl}
use mathlib.Core.Bool.{Bool, true, false, not, ◌&&◌, ◌||◌}
use mathlib.Core.List.{List, [], ◌∷◌}
use text.Mathlib.Text.{◌==◌ as str_eq}
use mathlib.Core.Logic.{inl, inr}
use text.Mathlib.TextEquality.{eq_iff}
use crabhelm.Common.Tests.{Bool-cases, leb, ◌==◌, if◌then◌else◌}

abbrev pub codes : String → List ℕ
codes String.[] = []
codes (String.◌∷◌ c s) = code c ∷ codes s

-- `xs.includes(s)`.
abbrev pub str_in : String → List String → Bool
str_in s [] = false
str_in s (x ∷ xs) = str_eq x s || str_in s xs

pub str_in-cons :
    (s x : String) (xs : List String) → str_in s (x ∷ xs) ≡ (str_eq x s || str_in s xs)
str_in-cons s x xs = refl

abbrev pub all_chars : (ℕ → Bool) → String → Bool
all_chars p String.[] = true
all_chars p (String.◌∷◌ c s) = p (code c) && all_chars p s

abbrev pub is_empty : String → Bool
is_empty String.[] = true
is_empty (String.◌∷◌ _ _) = false

-- What `trim` removes: the white space and line terminators of ECMAScript.
unfoldable pub is_space : ℕ → Bool
is_space c =
    (leb 9 c && leb c 13)
    || c == 32
    || c == 0xa0
    || c == 0x1680
    || (leb 0x2000 c && leb c 0x200a)
    || c == 0x2028
    || c == 0x2029
    || c == 0x202f
    || c == 0x205f
    || c == 0x3000
    || c == 0xfeff

unfoldable pub trim_start : String → String
unfolding is_space
trim_start String.[] = ""
trim_start (String.◌∷◌ c s) = if is_space (code c) then trim_start s else String.◌∷◌ c s

unfoldable pub trim_end : String → String
unfolding is_space
trim_end String.[] = ""
trim_end (String.◌∷◌ c s) =
    let rest = trim_end s in if is_empty rest && is_space (code c) then "" else String.◌∷◌ c rest

unfoldable pub trim : String → String
unfolding trim_start trim_end
trim s = trim_end (trim_start s)

abbrev char_at_or : ℕ → Char → String → Char
char_at_or n d String.[] = d
char_at_or zero d (String.◌∷◌ c s) = c
char_at_or (suc n) d (String.◌∷◌ c s) = char_at_or n d s

-- The decimal text of a number in front of a text; the fuel bounds the digits.
decimal : ℕ → ℕ → String → String
decimal zero n rest = rest
decimal (suc fuel) n rest =
    let digit = String.◌∷◌ (char_at_or (n % 10) "0" "0123456789") rest in
    let more = decimal fuel (n / 10) digit in if n == n % 10 then digit else more

-- `${n}` in a template.
unfoldable pub show : ℕ → String
unfolding decimal
show n = decimal (suc n) n ""

-- `new Set(xs).size === xs.length`.
unfoldable pub is_distinct : List String → Bool
is_distinct [] = true
is_distinct (x ∷ xs) = not (str_in x xs) && is_distinct xs

-- Texts are told apart.
pub String-discrete : Discrete String
String-discrete s t = elim (Bool-cases (str_eq s t)) [
  | inl same ↦ yes ((eq_iff s t).0 same)
  | inr other ↦ no (λ e. cc (other, (eq_iff s t).1 e))
]

-- `${s}${t}`.
infixr 65 ◌<>◌
abbrev pub ◌<>◌ : String → String → String
s <> t = String.◌++◌ s t

-- `s.slice(0, n)`, of a text without surrogate pairs.
unfoldable pub clip : ℕ → String → String
clip zero s = ""
clip (suc n) String.[] = ""
clip (suc n) (String.◌∷◌ c s) = let rest = clip n s in String.◌∷◌ c rest
