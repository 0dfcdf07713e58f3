-- ===== src/Tools/Paths/Laws.antt =====
-- An accepted path stays in the workspace, and has no segment that leads out of it.
use Prim.Native.Char.{Char, code}
use Prim.Native.String
use autonomous_agent.Common.{
  ◌≡◌, refl, sym, ap, ◌∙◌, subst, String, Bool, true, false, ◌||◌, ◌===◌, ◌==◌, ◌<>◌, List, [], ◌∷◌,
  All, All-append, Bool-cases, inl, inr, ◌⊎◌, eq_iff, arith, if◌then◌else◌,
}
use autonomous_agent.Common.Append.{cons-append, nil-append}
use autonomous_agent.Common.Scan.{split_on, before_first, starts_with}
use autonomous_agent.Models.Contracts.{parse_ok, parse_fail}
use autonomous_agent.Tools.Paths.{
  pop, step, collapse, path_of, normalise_posix, has_nul, admit, candidate_of,
  resolve_workspace_path,
}

-- a segment that names an entry: it is not empty, neither `.` nor `..`, and has no slash
pub record IsProper (s : String) : Type 0 where
  pub some_name : (s === "") ≡ false
  pub not_here : (s === ".") ≡ false
  pub not_above : (s === "..") ≡ false
  pub one_segment : split_on 47 s ≡ s ∷ []

pop-All : (P : String → Type 0) (xs : List String) → All P xs → All P (pop xs)
pop-All P [] h = tt
pop-All P (x ∷ []) h = tt
pop-All P (x ∷ y ∷ ys) (p, h) = (p, pop-All P (y ∷ ys) h)

-- a segment between two slashes has none itself
abbrev pub IsSegment : String → Type 0
IsSegment s = split_on 47 s ≡ s ∷ []

one-append : (d : Char) (p : String) → String.◌++◌ (String.◌∷◌ d "") p ≡ String.◌∷◌ d p
one-append d p = cons-append d "" p ∙ ap (λ t. String.◌∷◌ d t) (nil-append p)

cons-IsSegment :
    (d : Char) (p : String) → (code d == 47) ≡ false → IsSegment p → IsSegment (String.◌∷◌ d p)
unfolding split_on
cons-IsSegment d p e h = rw (e, h) (ap (λ t. t ∷ []) (one-append d p))

before_first-All :
    (d : Char) (parts : List String)
    → (code d == 47) ≡ false
    → All IsSegment parts
    → All IsSegment (before_first (String.◌∷◌ d "") parts)
unfolding split_on
before_first-All d [] e h = (cons-IsSegment d "" e refl, tt)
before_first-All d (p ∷ ps) e (hp, h) =
    (subst IsSegment (sym (one-append d p)) (cons-IsSegment d p e hp), h)

split_on-All : (path : String) → All IsSegment (split_on 47 path)
unfolding split_on
split_on-All String.[] = (refl, tt)
split_on-All (String.◌∷◌ d path) = elim (Bool-cases (code d == 47)) [
  | inl e ↦ rw (split_on, e) (refl, split_on-All path)
  | inr e ↦ rw (split_on, e) (before_first-All d (split_on 47 path) e (split_on-All path))
]

step-All :
    (xs : List String) (s : String) → IsSegment s → All IsProper xs → All IsProper (step xs s)
step-All xs s one h = elim (Bool-cases (s === "")) [
  | inl a ↦ rw (step, a) h
  | inr a ↦ elim (Bool-cases (s === ".")) [
    | inl b ↦ rw (step, a, b) h
    | inr b ↦ elim (Bool-cases (s === "..")) [
      | inl c ↦ rw (step, a, b, c) (pop-All IsProper xs h)
      | inr c ↦
          rw (step, a, b, c)
            (All-append IsProper xs (s ∷ []) h
              (record { some_name = a; not_here = b; not_above = c; one_segment = one }, tt))
    ]
  ]
]

collapse-All :
    (xs segments : List String)
    → All IsSegment xs
    → All IsProper segments
    → All IsProper (collapse segments xs)
unfolding collapse
collapse-All [] segments k h = h
collapse-All (s ∷ xs) segments (one, k) h =
    collapse-All xs (step segments s) k (step-All segments s one h)

-- a path from the root whose segments all name entries
pub record IsNormal (path : String) : Type 0 where
  pub segments : List String
  pub spells : path ≡ path_of segments
  pub proper : All IsProper segments

pub normalise_posix-IsNormal : (path : String) → IsNormal (normalise_posix path)
unfolding normalise_posix
normalise_posix-IsNormal path = record {
  segments = collapse [] (split_on 47 path);
  spells = refl;
  proper = collapse-All (split_on 47 path) [] (split_on-All path) tt;
}

candidate_of-IsNormal : (root input : String) → IsNormal (candidate_of root input)
candidate_of-IsNormal root input = elim (Bool-cases (starts_with input "/")) [
  | inl a ↦ rw (candidate_of, a) (normalise_posix-IsNormal input)
  | inr a ↦ rw (candidate_of, a) (normalise_posix-IsNormal (root <> "/" <> input))
]

-- `p` is in the workspace below the normalised root
pub record Confined (root input p : String) : Type 0 where
  pub asked : (input === "") ≡ false
  pub no_nul : has_nul input ≡ false
  pub candidate : p ≡ candidate_of root input
  pub inside : (p ≡ root) ⊎ (starts_with p (root <> "/") ≡ true)
  pub normal : IsNormal p

inside_of :
    (p root : String)
    → ((p === root) || starts_with p (root <> "/")) ≡ true
    → (p ≡ root) ⊎ (starts_with p (root <> "/") ≡ true)
inside_of p root h = elim (Bool-cases (p === root)) [
  | inl e ↦ inl ((eq_iff p root).0 e)
  | inr e ↦ inr (or_right (p === root) (starts_with p (root <> "/")) e h)
]
  where
    or_right : (a b : Bool) → a ≡ false → (a || b) ≡ true → b ≡ true
    or_right a b e k = ground (arith, e, k)

same_value : (p q : String) → parse_ok p ≡ parse_ok q → q ≡ p
same_value p q h = cc

-- A path that is accepted is the workspace root or lies below it, and every segment of it names an
-- entry: it has no slash and is neither empty nor `.` or `..`, whatever the model wrote.
pub resolve_workspace_path-Confined :
    (workspace_root input p : String)
    → resolve_workspace_path workspace_root input ≡ parse_ok p
    → Confined (normalise_posix workspace_root) input p
unfolding resolve_workspace_path admit
resolve_workspace_path-Confined workspace_root input p h =
    at (input === "") refl (has_nul input) refl (inside_test candidate) refl h
  where
    root : String
    root = normalise_posix workspace_root

    candidate : String
    candidate = candidate_of root input

    inside_test : String → Bool
    inside_test c = (c === root) || starts_with c (root <> "/")

    at :
        (a : Bool)
        → (input === "") ≡ a
        → (b : Bool) → has_nul input ≡ b
        → (t : Bool) → inside_test candidate ≡ t
        → (if a
            then parse_fail ("path must be a non-empty string" ∷ [])
            else if b
            then parse_fail ("path must not contain NUL" ∷ [])
            else if t
            then parse_ok candidate
            else parse_fail
                (("path must stay inside the workspace " <> root <> ": " <> input) ∷ []))
          ≡ parse_ok p
        → Confined root input p
    at true ea b eb t et k = cc
    at false ea true eb t et k = cc
    at false ea false eb false et k = cc
    at false ea false eb true et k =
        subst (Confined root input) (sym (same_value candidate p k)) (record {
          asked = ea;
          no_nul = eb;
          candidate = refl;
          inside = inside_of candidate root et;
          normal = candidate_of-IsNormal root input;
        })
