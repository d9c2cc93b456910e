-- ===== src/Controller/Arguments.antt =====
-- The target and the arguments of an invocation: normalizeGithubTarget and
-- normalizeInvocationArguments (src/governance.ts), and `text` (worker/governance-controller.ts).
use Prim.Native.Char.{code}
use crabhelm.Common.{
  String, List, trim, ℕ, Option, Bool, none, leb, not, some, false, if◌then◌else◌, [], ◌∷◌, ◌<>◌,
  ◌&&◌, ltb, ◌||◌, all_chars, length, ◌==◌,
}
use crabhelm.Governance.Records.Fields
use crabhelm.Slug.{characters}
use crabhelm.Effect.{Result, bind_result, err, ok}
use crabhelm.Coordinator.Tables.{byte_length, is_blank}
use crabhelm.Errors.{other}

-- A value of the arguments' JSON. A number is kept as it is written, and is finite.
pub data Value : Type 0 where
  null composite : Value
  text number : String → Value
  boolean : Bool → Value

abbrev pub Arguments : Type 0
Arguments = List (String × Value)

-- `text`, of a field that may be missing or no text.
unfoldable pub required_text : Option String → String → ℕ → Result String
unfolding trim byte_length
required_text none label max = err (other (label <> " is invalid"))
required_text (some value) label max =
    if is_blank (trim value) || ltb max (byte_length (trim value))
    then err (other (label <> " is invalid"))
    else ok (trim value)

abbrev is_name_char : ℕ → Bool
is_name_char c =
    (leb b'A' c && leb c b'Z')
    || (leb b'a' c && leb c b'z')
    || (leb b'0' c && leb c b'9')
    || c == b'_'
    || c == b'.'
    || c == b'-'

abbrev is_name : String → Bool
is_name s = not (is_blank s) && all_chars is_name_char s && leb (characters s) 100

abbrev prefixed : String → Option (String × String) → Option (String × String)
prefixed c none = none
prefixed c (some (a, b)) = some (c <> a, b)

-- A text up to its first slash and after it.
unfoldable pub at_slash : String → Option (String × String)
at_slash String.[] = none
at_slash (String.◌∷◌ c s) =
    let rest = at_slash s in
    if code c == b'/' then some ("", s) else prefixed (String.◌∷◌ c "") rest

abbrev is_pair : Option (String × String) → Bool
is_pair none = false
is_pair (some (a, b)) = is_name a && is_name b

-- Of the form owner/repository.
unfoldable pub is_target : String → Bool
unfolding at_slash
is_target s = is_pair (at_slash s)

unfoldable pub normalize_github_target : Option String → Result String
unfolding Fields.text is_target
normalize_github_target value = bind_result (Fields.text value "GitHub target" 220) λ target.
    if is_target target
    then ok target
    else err (other "GitHub target must use owner/repository form")

abbrev is_letter : ℕ → Bool
is_letter c = (leb b'A' c && leb c b'Z') || (leb b'a' c && leb c b'z')

abbrev pub is_argument_name : String → Bool
is_argument_name String.[] = false
is_argument_name (String.◌∷◌ c s) =
    is_letter (code c)
    && all_chars (λ d. is_letter d || (leb b'0' d && leb d b'9') || d == b'_') s
    && leb (characters s) 79

abbrev pub check_value : String → Value → Result (Unit {0})
check_value key composite = err (other ("tool argument must be scalar: " <> key))
check_value key (text s) =
    if ltb 16384 (byte_length s)
    then err (other ("tool argument exceeds 16 KiB: " <> key))
    else ok tt
check_value key _ = ok tt

abbrev pub check_entries : Arguments → Result (Unit {0})
check_entries [] = ok tt
check_entries ((key, value) ∷ entries) =
    let rest = check_entries entries in
    if is_argument_name key
    then bind_result (check_value key value) (λ _. rest)
    else err (other ("tool argument name is invalid: " <> key))

-- `none` is a value that is no object.
unfoldable pub normalize_arguments : Option Arguments → Result Arguments
unfolding byte_length
normalize_arguments none = err (other "tool arguments must be an object")
normalize_arguments (some entries) =
    if ltb 20 (length entries)
    then err (other "tool arguments exceed 20 fields")
    else bind_result (check_entries entries) λ _. ok entries
