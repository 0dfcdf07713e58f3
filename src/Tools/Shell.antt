-- ===== src/Tools/Shell.antt =====
-- src/tools/support/shell.ts and `capText` of src/tools/support/output.ts
pub mod Reading
use Prim.Native.Char.{Char, code}
use Prim.Native.String
use autonomous_agent.Common.{
  ℕ, ◌-◌, String, Bool, true, false, ◌&&◌, ◌||◌, List, [], ◌∷◌, map, join, leb, ◌==◌, ◌===◌, ◌<>◌,
  decimal, text_length, text_take, if◌then◌else◌, ◌≡◌, refl,
}

abbrev in_range : ℕ → ℕ → ℕ → Bool
in_range lo hi c = leb lo c && leb c hi

-- the class [A-Za-z0-9_./:=@%+,-]
unfoldable pub is_safe : ℕ → Bool
is_safe c =
    in_range b'A' b'Z' c
    || in_range b'a' b'z' c
    || in_range b'0' b'9' c
    || (c == b'_')
    || (c == b'.')
    || (c == b'/')
    || (c == b':')
    || (c == b'=')
    || (c == b'@')
    || (c == b'%')
    || (c == b'+')
    || (c == b',')
    || (c == b'-')

unfoldable pub all_safe : String → Bool
unfolding is_safe
all_safe String.[] = true
all_safe (String.◌∷◌ c s) = is_safe (code c) && all_safe s

-- `argument.replaceAll("'", "'\\''")`
unfoldable pub splice_quotes : String → String
splice_quotes String.[] = ""
splice_quotes (String.◌∷◌ c s) =
    (if code c == 39 then "'\\''" else String.◌∷◌ c "") <> splice_quotes s

unfoldable pub shell_quote : String → String
unfolding all_safe splice_quotes
shell_quote argument =
    if argument === ""
    then "''"
    else if all_safe argument
    then argument
    else "'" <> splice_quotes argument <> "'"

unfoldable pub shell_join : List String → String
unfolding shell_quote
shell_join argv = join " " (map shell_quote argv)

pub record CappedText : Type 0 where
  pub text : String
  pub truncated : Bool
  pub original_length : ℕ

unfoldable pub cap_text : String → ℕ → CappedText
unfolding decimal
cap_text text max_chars =
    if leb (text_length text) max_chars
    then record { text = text; truncated = false; original_length = text_length text }
    else record {
      text =
          text_take max_chars text
          <> "…[truncated "
          <> decimal (text_length text - max_chars)
          <> " chars]";
      truncated = true;
      original_length = text_length text;
    }
