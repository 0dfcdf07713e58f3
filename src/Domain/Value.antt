-- ===== src/Domain/Value.antt =====
-- Values of type `unknown` in the source, as trees, with what `JSON.stringify` makes of them.
-- Numbers are natural numbers; `unserializable` is a BigInt, which is no object and on which
-- `JSON.stringify` throws. An object that contains itself is no tree and has no counterpart here.
use Prim.Native.Char.{code}
use autonomous_agent.Common.{
  ℕ, String, Bool, true, false, ◌≡◌, refl, ◌<>◌, ◌==◌, ltb, decimal, ◌/◌, ◌%◌, if◌then◌else◌,
}

mutual
  pub data Value : Type 0 where
    num : ℕ → Value
    str : String → Value
    bool : Bool → Value
    undefined null unserializable : Value
    obj : Members → Value
    arr : Elements → Value

  -- the members of an object, in their order
  pub data Members : Type 0 where
    no_members : Members
    member : String → Value → Members → Members

  -- the elements of an array
  pub data Elements : Type 0 where
    no_elements : Elements
    element : Value → Elements → Elements

-- what `JSON.stringify` does: a text, `undefined`, or an exception
pub data Json : Type 0 where
  text : String → Json
  absent throws : Json

hex_digit : ℕ → String
hex_digit n =
    if ltb n 10
    then decimal n
    else if n == 10
    then "a"
    else if n == 11
    then "b"
    else if n == 12
    then "c"
    else if n == 13
    then "d"
    else if n == 14
    then "e"
    else "f"

escape_code : ℕ → String → String
unfolding hex_digit
escape_code c plain =
    if c == 34
    then "\\\""
    else if c == 92
    then "\\\\"
    else if c == 8
    then "\\b"
    else if c == 9
    then "\\t"
    else if c == 10
    then "\\n"
    else if c == 12
    then "\\f"
    else if c == 13
    then "\\r"
    else if ltb c 32
    then "\\u00" <> hex_digit (c / 16) <> hex_digit (c % 16)
    else plain

escape : String → String
unfolding escape_code
escape String.[] = ""
escape (String.◌∷◌ c s) = escape_code (code c) (String.◌∷◌ c "") <> escape s

quote : String → String
unfolding escape
quote s = "\"" <> escape s <> "\""

-- one more element in front; `undefined` is written `null` in an array
abbrev item_before : Json → Json → String → Json
item_before throws rest sep = throws
item_before _ throws sep = throws
item_before (text t) (text r) sep = text (t <> sep <> r)
item_before absent (text r) sep = text ("null" <> sep <> r)
item_before (text t) absent sep = text t
item_before absent absent sep = text "null"

-- one more member in front; `undefined` is left out of an object
abbrev member_before : String → Json → Json → Json
member_before key throws rest = throws
member_before key (text t) throws = throws
member_before key (text t) (text r) = text (key <> ":" <> t <> "," <> r)
member_before key (text t) absent = text (key <> ":" <> t)
member_before key absent rest = rest

abbrev wrap : String → String → Json → Json
wrap before after (text t) = text (before <> t <> after)
wrap before after absent = text (before <> after)
wrap before after throws = throws

unfoldable mutual
  unfolding quote

  -- `JSON.stringify(v)`
  pub stringify : Value → Json
  stringify undefined = absent
  stringify null = text "null"
  stringify unserializable = throws
  stringify (bool true) = text "true"
  stringify (bool false) = text "false"
  stringify (num n) = text (decimal n)
  stringify (str s) = text (quote s)
  stringify (arr xs) = wrap "[" "]" (stringify_elements xs)
  stringify (obj fs) = wrap "{" "}" (stringify_members fs)

  -- the elements between the brackets; `absent` when there is none
  pub stringify_elements : Elements → Json
  stringify_elements no_elements = absent
  stringify_elements (element v no_elements) = item_before (stringify v) absent ""
  stringify_elements (element v (element w xs)) =
      item_before (stringify v) (stringify_elements (element w xs)) ","

  pub stringify_members : Members → Json
  stringify_members no_members = absent
  stringify_members (member k v fs) = member_before (quote k) (stringify v) (stringify_members fs)

stringify_test :
    stringify (
      obj (
        member "a"
          (arr (element (num 1) (element undefined no_elements)))
          (member "b" undefined no_members)))
    ≡ text "{\"a\":[1,null]}"
unfolding stringify decimal
stringify_test = refl
