-- ===== src/Common/Scan.antt =====
-- The methods of texts that the parsers of the source call: `trim`, `startsWith` with `slice`,
-- `indexOf` with `slice`, `split`, `includes`.
use Prim.Native.Nat.{ℕ}
use Prim.Native.Char.{code}
use Prim.Native.String
use Prim.Native.String.{String}
use mathlib.Core.Path.{◌≡◌, refl}
use mathlib.Core.Bool.{Bool, true, false, ◌||◌}
use mathlib.Core.Option.{Option, none, some}
use mathlib.Core.List.{List, [], ◌∷◌}
use autonomous_agent.Common.Tests.{◌==◌, leb, if◌then◌else◌}
use autonomous_agent.Common.Text.{◌===◌}

-- white space and line ends, as `trim` takes them
abbrev pub is_space : ℕ → Bool
is_space c =
    (c == 32)
    || (c == 9)
    || (c == 10)
    || (c == 11)
    || (c == 12)
    || (c == 13)
    || (c == 160)
    || (c == 5760)
    || in_range
    || (c == 8232)
    || (c == 8233)
    || (c == 8239)
    || (c == 8287)
    || (c == 12288)
    || (c == 65279)
  where
    in_range : Bool
    in_range = if leb 8192 c then leb c 8202 else false

abbrev trim_start : String → String
trim_start String.[] = ""
trim_start (String.◌∷◌ c s) =
    let rest = trim_start s in if is_space (code c) then rest else String.◌∷◌ c s

abbrev trim_end : String → String
trim_end String.[] = ""
trim_end (String.◌∷◌ c s) =
    let rest = trim_end s in
    if is_space (code c) then (if rest === "" then "" else String.◌∷◌ c rest) else String.◌∷◌ c rest

-- `s.trim()`
unfoldable pub trim : String → String
trim s = trim_end (trim_start s)

-- `s.slice(p.length)` if `s.startsWith(p)`
unfoldable pub after_prefix : String → String → Option String
after_prefix String.[] s = some s
after_prefix (String.◌∷◌ c p) String.[] = none
after_prefix (String.◌∷◌ c p) (String.◌∷◌ d s) =
    let rest = after_prefix p s in if code c == code d then rest else none

-- `[s.slice(0, i), s.slice(i + 1)]` for the index `i` of the first character `c`
unfoldable pub cut_at : ℕ → String → Option (String × String)
cut_at c String.[] = none
cut_at c (String.◌∷◌ d s) =
    let rest = cut_at c s in
    if code d == c
    then some ("", s)
    else elim rest [ none ↦ none | some (a, b) ↦ some (String.◌∷◌ d a, b) ]

abbrev pub before_first : String → List String → List String
before_first c [] = c ∷ []
before_first c (p ∷ ps) = String.◌++◌ c p ∷ ps

-- `s.split(c)` for one character
unfoldable pub split_on : ℕ → String → List String
split_on c String.[] = "" ∷ []
split_on c (String.◌∷◌ d s) =
    let rest = split_on c s in
    if code d == c then "" ∷ rest else before_first (String.◌∷◌ d String.[]) rest

abbrev starts : Option String → Bool
starts none = false
starts (some rest) = true

-- `s.startsWith(p)`
abbrev pub starts_with : String → String → Bool
starts_with s p = starts (after_prefix p s)

-- `s.includes(t)`
unfoldable pub contains_text : String → String → Bool
contains_text String.[] t = t === ""
contains_text (String.◌∷◌ c s) t = starts_with (String.◌∷◌ c s) t || contains_text s t

trim_test : trim " a b  " ≡ "a b"
unfolding trim
trim_test = refl

split_on_test : split_on 44 "a,,b" ≡ "a" ∷ "" ∷ "b" ∷ []
unfolding split_on
split_on_test = refl

contains_text_test : contains_text "abcd" "bc" ≡ true
unfolding contains_text after_prefix
contains_text_test = refl
