-- ===== src/Domain/Parse.antt =====
-- src/domain/parse.ts: the readers of untrusted values. The array `errors` that a reader pushes to is
-- passed in and handed back. The names in an object are distinct, as they are in JavaScript.
pub mod Laws
use autonomous_agent.Common.{
  ℕ, String, Bool, true, false, Option, none, some, List, [], ◌∷◌, ◌++◌, ◌===◌, ◌<>◌, not,
  if◌then◌else◌, ◌≡◌, refl,
}
use autonomous_agent.Domain.Value.{
  Value, num, str, bool, undefined, null, obj, arr, Members, no_members, member, Elements,
  no_elements, element,
}

-- `isRecord(value)`, with the members
unfoldable pub as_record : Value → Option Members
as_record (obj fs) = some fs
as_record _ = none

-- `source[key]` for a name that no object inherits
unfoldable pub field : Members → String → Value
field no_members key = undefined
field (member k v fs) key = let rest = field fs key in if k === key then v else rest

abbrev pub text_or_error : Value → String → List String → String × List String
text_or_error (str s) key errors =
    if s === "" then ("", errors ++ (key <> " must be a non-empty string") ∷ []) else (s, errors)
text_or_error _ key errors = ("", errors ++ (key <> " must be a non-empty string") ∷ [])

unfoldable pub read_string : Members → String → List String → String × List String
unfolding field
read_string source key errors = text_or_error (field source key) key errors

abbrev pub optional_text : Value → String → List String → Option String × List String
optional_text undefined key errors = (none, errors)
optional_text (str s) key errors = (some s, errors)
optional_text _ key errors = (none, errors ++ (key <> " must be a string when present") ∷ [])

unfoldable pub read_optional_string : Members → String → List String → Option String × List String
unfolding field
read_optional_string source key errors = optional_text (field source key) key errors

abbrev pub with_text : Value → Option (List String) → Option (List String)
with_text (str s) (some rest) = some (s ∷ rest)
with_text _ _ = none

-- the elements of an array, if each of them is a string
unfoldable pub text_elements : Elements → Option (List String)
text_elements no_elements = some []
text_elements (element v xs) = with_text v (text_elements xs)

abbrev pub texts_or_error : Option (List String) → String → List String → List String × List String
texts_or_error (some texts) key errors = (texts, errors)
texts_or_error none key errors = ([], errors ++ (key <> " must be an array of strings") ∷ [])

-- the answer to a value, and whether the field may be left out
abbrev pub text_array : Value → Bool → String → List String → List String × List String
text_array undefined true key errors = ([], errors)
text_array (arr xs) _ key errors = texts_or_error (text_elements xs) key errors
text_array _ _ key errors = texts_or_error none key errors

unfoldable pub read_string_array : Members → String → Bool → List String → List String × List String
unfolding field text_elements
read_string_array source key optional errors = text_array (field source key) optional key errors

abbrev pub truth_or_error : Value → Option Bool → String → List String → Bool × List String
truth_or_error (bool b) fallback key errors = (b, errors)
truth_or_error undefined (some b) key errors = (b, errors)
truth_or_error _ _ key errors = (false, errors ++ (key <> " must be a boolean") ∷ [])

unfoldable pub read_boolean : Members → String → Option Bool → List String → Bool × List String
unfolding field
read_boolean source key fallback errors = truth_or_error (field source key) fallback key errors

abbrev pub optional_number : Value → String → List String → Option ℕ × List String
optional_number undefined key errors = (none, errors)
optional_number (num n) key errors = (some n, errors)
optional_number _ key errors =
    (none, errors ++ (key <> " must be a finite number when present") ∷ [])

unfoldable pub read_optional_number : Members → String → List String → Option ℕ × List String
unfolding field
read_optional_number source key errors = optional_number (field source key) key errors

read_string_test :
    read_string (member "a" (num 1) no_members) "a" [] ≡ ("", "a must be a non-empty string" ∷ [])
unfolding read_string
read_string_test = refl
