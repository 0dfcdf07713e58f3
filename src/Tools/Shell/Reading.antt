-- ===== src/Tools/Shell/Reading.antt =====
-- A POSIX shell reads back the arguments that were quoted. `read_words` is the shell's rule for words:
-- blanks separate them, single quotes keep everything up to the next one, a backslash keeps the
-- character after it, and any other character that is not in the safe class is refused.
use Prim.Native.Char.{Char, code}
use autonomous_agent.Common.{
  ℕ, ◌≡◌, ◌⊎◌, refl, sym, ap, ◌∙◌, String, Bool, true, false, ◌&&◌, Option, none, some, List, [],
  ◌∷◌, ◌==◌, ◌===◌, ◌<>◌, if◌then◌else◌, arith, Bool-cases, inl, inr, eq_iff,
}
use text.Mathlib.TextEquality.{Char-path}
use autonomous_agent.Common.Append.{nil-append, cons-append, append-nil, append_assoc}
use autonomous_agent.Tools.Shell.{is_safe, all_safe, splice_quotes, shell_quote, shell_join}

pub data Mode : Type 0 where
  between bare escaped quoted : Mode

abbrev word_before : String → Option (List String) → Option (List String)
word_before word none = none
word_before word (some words) = some (word ∷ words)

-- one more character at the end of a word
abbrev snoc : String → Char → String
snoc word c = word <> String.◌∷◌ c ""

-- what is read of a text, by the mode and the word that has been started
unfoldable pub read : Mode → String → String → Option (List String)
read between word String.[] = some []
read bare word String.[] = some (word ∷ [])
read escaped word String.[] = none
read quoted word String.[] = none
read between word (String.◌∷◌ c s) =
    let blank = read between "" s in
    let open_quote = read quoted "" s in
    let backslash = read escaped "" s in
    let plain = read bare (snoc "" c) s in
    if code c == 32
    then blank
    else if code c == 39
    then open_quote
    else if code c == 92
    then backslash
    else if is_safe (code c)
    then plain
    else none
read bare word (String.◌∷◌ c s) =
    let blank = read between "" s in
    let open_quote = read quoted word s in
    let backslash = read escaped word s in
    let plain = read bare (snoc word c) s in
    if code c == 32
    then word_before word blank
    else if code c == 39
    then open_quote
    else if code c == 92
    then backslash
    else if is_safe (code c)
    then plain
    else none
read escaped word (String.◌∷◌ c s) = read bare (snoc word c) s
read quoted word (String.◌∷◌ c s) =
    let close_quote = read bare word s in
    let kept = read quoted (snoc word c) s in if code c == 39 then close_quote else kept

unfoldable pub read_words : String → Option (List String)
unfolding read is_safe
read_words text = read between "" text

read_words_test : read_words "echo 'it'\\''s' ''" ≡ some ("echo" ∷ "it's" ∷ "" ∷ [])
unfolding read_words
read_words_test = refl

quote_char : Char
quote_char = "'"

blank_unsafe : is_safe 32 ≡ false
unfolding is_safe
blank_unsafe = refl

quote_unsafe : is_safe 39 ≡ false
unfolding is_safe
quote_unsafe = refl

backslash_unsafe : is_safe 92 ≡ false
unfolding is_safe
backslash_unsafe = refl

safe_apart : (c k : ℕ) → is_safe k ≡ false → is_safe c ≡ true → (c == k) ≡ false
safe_apart c k hk hc = elim (Bool-cases (c == k)) [
  | inl e ↦
      let same : c ≡ k = ground (arith, e) in absurd_bool (sym hk ∙ ap is_safe (sym same) ∙ hc)
  | inr e ↦ e
]
  where
    absurd_bool : false ≡ true → (c == k) ≡ false
    absurd_bool h = cc

snoc-append : (word : String) (c : Char) (s : String) → snoc word c <> s ≡ word <> String.◌∷◌ c s
snoc-append word c s =
    append_assoc word (String.◌∷◌ c "") s
    ∙ ap (λ t. word <> t) (cons-append c "" s ∙ ap (λ t. String.◌∷◌ c t) (nil-append s))

read-bare_safe :
    (c : Char) (s word : String)
    → is_safe (code c) ≡ true
    → read bare word (String.◌∷◌ c s) ≡ read bare (snoc word c) s
unfolding read
read-bare_safe c s word h =
    rw
      (
        read,
        safe_apart (code c) 32 blank_unsafe h,
        safe_apart (code c) 39 quote_unsafe h,
        safe_apart (code c) 92 backslash_unsafe h,
        h,
      )
      refl

both_true : (a b : Bool) → a && b ≡ true → (a ≡ true) × (b ≡ true)
both_true a b h = ground (arith, h)

read-safe :
    (s word rest : String)
    → all_safe s ≡ true
    → read bare word (s <> rest) ≡ read bare (word <> s) rest
unfolding all_safe
read-safe String.[] word rest h = rw (nil-append, append-nil) refl
read-safe (String.◌∷◌ c s) word rest h =
    let (first, others) = both_true (is_safe (code c)) (all_safe s) h in
    ap (read bare word) (cons-append c s rest)
    ∙ read-bare_safe c (s <> rest) word first
    ∙ read-safe s (snoc word c) rest others
    ∙ ap (λ w. read bare w rest) (snoc-append word c s)

quote-append : (t : String) → "'" <> t ≡ String.◌∷◌ quote_char t
unfolding quote_char
quote-append t = cons-append "'" "" t ∙ ap (λ r. String.◌∷◌ "'" r) (nil-append t)

read-closing : (word t : String) → read quoted word ("'" <> t) ≡ read bare word t
unfolding read quote_char
read-closing word t = ap (read quoted word) (quote-append t)

-- the sequence that stands for a quote
read-quote :
    (word t : String) → read quoted word ("'\\''" <> t) ≡ read quoted (snoc word quote_char) t
unfolding read quote_char
read-quote word t = ap (read quoted word) (
    cons-append "'" "\\''" t
    ∙ ap (λ r. String.◌∷◌ "'" r)
        (cons-append "\\" "''" t
          ∙ ap (λ r. String.◌∷◌ "\\" r)
              (cons-append "'" "'" t ∙ ap (λ r. String.◌∷◌ "'" r) (quote-append t))))

read-kept :
    (c : Char) (word t : String)
    → (code c == 39) ≡ false
    → read quoted word (String.◌∷◌ c "" <> t) ≡ read quoted (snoc word c) t
unfolding read
read-kept c word t h =
    ap (read quoted word) (cons-append c "" t ∙ ap (λ r. String.◌∷◌ c r) (nil-append t))
    ∙ rw (read, h) refl

is_quote : (c : Char) → (code c == 39) ≡ true → c ≡ quote_char
unfolding quote_char
is_quote c h = Char-path c "'" (ground (arith, h))

read-spliced :
    (s word rest : String)
    → read quoted word (splice_quotes s <> "'" <> rest) ≡ read bare (word <> s) rest
unfolding splice_quotes
read-spliced String.[] word rest =
    ap (read quoted word) (nil-append ("'" <> rest))
    ∙ read-closing word rest
    ∙ ap (λ w. read bare w rest) (sym (append-nil word))
read-spliced (String.◌∷◌ c s) word rest =
    first (Bool-cases (code c == 39))
    ∙ read-spliced s (snoc word c) rest
    ∙ ap (λ w. read bare w rest) (snoc-append word c s)
  where
    first :
        ((code c == 39 ≡ true) ⊎ (code c == 39 ≡ false))
        → read quoted word (
            ((if code c == 39 then "'\\''" else String.◌∷◌ c "") <> splice_quotes s) <> "'" <> rest)
          ≡ read quoted (snoc word c) (splice_quotes s <> "'" <> rest)
    first (inl e) = rw e (
        ap (read quoted word) (append_assoc "'\\''" (splice_quotes s) ("'" <> rest))
        ∙ read-quote word (splice_quotes s <> "'" <> rest)
        ∙ ap (λ k. read quoted (snoc word k) (splice_quotes s <> "'" <> rest)) (sym (is_quote c e)))
    first (inr e) = rw e (
        ap (read quoted word) (append_assoc (String.◌∷◌ c "") (splice_quotes s) ("'" <> rest))
        ∙ read-kept c word (splice_quotes s <> "'" <> rest) e)

read-opening : (t : String) → read between "" ("'" <> t) ≡ read quoted "" t
unfolding read quote_char
read-opening t = ap (read between "") (quote-append t)

read-between_safe :
    (c : Char) (s : String)
    → is_safe (code c) ≡ true
    → read between "" (String.◌∷◌ c s) ≡ read bare (snoc "" c) s
unfolding read
read-between_safe c s h =
    rw
      (
        read,
        safe_apart (code c) 32 blank_unsafe h,
        safe_apart (code c) 39 quote_unsafe h,
        safe_apart (code c) 92 backslash_unsafe h,
        h,
      )
      refl

-- a word without quotes that is read from its start
read-plain :
    (a rest : String)
    → (a === "") ≡ false
    → all_safe a ≡ true
    → read between "" (a <> rest) ≡ read bare a rest
unfolding all_safe
read-plain String.[] rest ne h = cc
read-plain (String.◌∷◌ c s) rest ne h =
    let (first, others) = both_true (is_safe (code c)) (all_safe s) h in
    ap (read between "") (cons-append c s rest)
    ∙ read-between_safe c (s <> rest) first
    ∙ read-safe s (snoc "" c) rest others
    ∙ ap (λ w. read bare w rest) (snoc-append "" c s ∙ nil-append (String.◌∷◌ c s))

read-empty : (rest : String) → read between "" ("''" <> rest) ≡ read bare "" rest
read-empty rest =
    ap (read between "") (append_assoc "'" "'" rest)
    ∙ read-opening ("'" <> rest)
    ∙ read-closing "" rest

-- One quoted argument is read as one word, whatever it holds and whatever follows.
pub read-shell_quote :
    (a rest : String) → read between "" (shell_quote a <> rest) ≡ read bare a rest
unfolding shell_quote
read-shell_quote a rest = elim (Bool-cases (a === "")) [
  | inl e ↦
      rw (shell_quote, e) (read-empty rest ∙ ap (λ w. read bare w rest) (sym ((eq_iff a "").0 e)))
  | inr ne ↦ elim (Bool-cases (all_safe a)) [
    | inl safe ↦ rw (shell_quote, ne, safe) (read-plain a rest ne safe)
    | inr unsafe ↦
        rw (shell_quote, ne, unsafe)
          (ap (read between "") (
              append_assoc "'" (splice_quotes a <> "'") rest
              ∙ ap (λ t. "'" <> t) (append_assoc (splice_quotes a) "'" rest))
            ∙ read-opening (splice_quotes a <> "'" <> rest)
            ∙ read-spliced a "" rest
            ∙ ap (λ w. read bare w rest) (nil-append a))
  ]
]

read-blank : (word t : String) → read bare word (" " <> t) ≡ word_before word (read between "" t)
unfolding read
read-blank word t =
    ap (read bare word) (cons-append " " "" t ∙ ap (λ r. String.◌∷◌ " " r) (nil-append t))

read-end : (word : String) → read bare word "" ≡ some (word ∷ [])
unfolding read
read-end word = refl

-- A POSIX shell splits the command that `shellJoin` builds into exactly the arguments that went in,
-- whatever characters they hold.
pub read_words-shell_join : (argv : List String) → read_words (shell_join argv) ≡ some argv
unfolding read_words shell_join read
read_words-shell_join [] = refl
read_words-shell_join (a ∷ []) =
    ap (read between "") (sym (append-nil (shell_quote a))) ∙ read-shell_quote a "" ∙ read-end a
read_words-shell_join (a ∷ b ∷ argv) =
    read-shell_quote a (" " <> shell_join (b ∷ argv))
    ∙ read-blank a (shell_join (b ∷ argv))
    ∙ ap (word_before a) (read_words-shell_join (b ∷ argv))
