-- ===== src/Common/Text.antt =====
-- Texts: the native `String` as a sequence of code points. `.length` and `.slice` of the source
-- count UTF-16 units, which agree with code points on texts of the basic plane.
use Prim.Native.Nat.{ℕ, zero, suc, ◌/◌, ◌%◌, compare, Ordering}
use Prim.Native.Char.{code}
use Prim.Native.String
use Prim.Native.String.{String}
use mathlib.Core.Path.{◌≡◌, refl}
use mathlib.Core.Bool.{Bool, true, false, ◌||◌}
use mathlib.Core.Option.{Option, none, some}
use mathlib.Core.List.{List, [], ◌∷◌}
use text.Mathlib.Text.{◌==◌ as str_eq}

-- `a === b` on texts
infix 50 ◌===◌
abbrev pub ◌===◌ : String → String → Bool
s === t = str_eq s t

infixr 65 ◌<>◌
-- `a + b` on texts
abbrev pub ◌<>◌ : String → String → String
s <> t = String.◌++◌ s t

abbrev pub text_length : String → ℕ
text_length String.[] = 0
text_length (String.◌∷◌ c s) = suc (text_length s)

-- `s.slice(0, n)`
abbrev pub text_take : ℕ → String → String
text_take zero s = ""
text_take (suc n) String.[] = ""
text_take (suc n) (String.◌∷◌ c s) = String.◌∷◌ c (text_take n s)

-- `s.endsWith(c)` for one character
abbrev pub ends_with : ℕ → String → Bool
ends_with c String.[] = false
ends_with c (String.◌∷◌ d String.[]) = elim (compare (code d) c) [ Ordering.eq ↦ true | _ ↦ false ]
ends_with c (String.◌∷◌ d (String.◌∷◌ e s)) = ends_with c (String.◌∷◌ e s)

-- `xs.includes(x)` on texts
abbrev pub includes : List String → String → Bool
includes [] s = false
includes (t ∷ ts) s = str_eq t s || includes ts s

-- `xs.join(sep)`
abbrev pub join : String → List String → String
join sep [] = ""
join sep (s ∷ []) = s
join sep (s ∷ t ∷ ts) = s <> sep <> join sep (t ∷ ts)

-- `x ? {x} : {}` for an optional text: the empty text counts as absent
abbrev pub truthy : Option String → Option String
truthy none = none
truthy (some s) = if_empty (str_eq s "")
  where
    if_empty : Bool → Option String
    if_empty true = none
    if_empty false = some s

abbrev digit : ℕ → String
digit zero = "0"
digit (suc zero) = "1"
digit (suc (suc zero)) = "2"
digit (suc (suc (suc zero))) = "3"
digit (suc (suc (suc (suc zero)))) = "4"
digit (suc (suc (suc (suc (suc zero))))) = "5"
digit (suc (suc (suc (suc (suc (suc zero)))))) = "6"
digit (suc (suc (suc (suc (suc (suc (suc zero))))))) = "7"
digit (suc (suc (suc (suc (suc (suc (suc (suc zero)))))))) = "8"
digit _ = "9"

-- the digits of a number below 10 ^ fuel, before those of `rest`
decimal_from : ℕ → ℕ → String → String
decimal_from zero n rest = rest
decimal_from (suc fuel) n rest =
    let more = decimal_from fuel (n / 10) (digit (n % 10) <> rest) in
    elim (compare n 10) [ Ordering.lt ↦ digit n <> rest | _ ↦ more ]

-- `${n}` for a number; a number has at most n + 1 digits
unfoldable pub decimal : ℕ → String
unfolding decimal_from
decimal n = decimal_from (suc n) n ""

decimal_test : decimal 1204 ≡ "1204"
unfolding decimal
decimal_test = refl
