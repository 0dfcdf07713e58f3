-- ===== src/Evaluation/Criteria.antt =====
-- src/domain/criteria.ts. `to_number` is JavaScript's `Number` on a text, if that is a natural number.
use autonomous_agent.Common.{
  ℕ, String, Bool, Option, none, some, List, [], ◌∷◌, ◌++◌, map, any, keep, ◌===◌, ◌||◌, not, ltb,
  if◌then◌else◌, or_else,
}
use autonomous_agent.Common.Scan.{trim, after_prefix, cut_at, split_on, starts_with}
use autonomous_agent.Domain.Goal.{
  VerifiableCriterion, file_exists, file_contains, json_file, command_exits_zero, http_status,
  tool_succeeded,
}

-- `x === '' ? undefined : f(x)`
abbrev pub unless_empty : (String → VerifiableCriterion) → String → Option VerifiableCriterion
unless_empty f s = if s === "" then none else some (f s)

abbrev contains_criterion : Option (String × String) → Option VerifiableCriterion
contains_criterion none = none
contains_criterion (some (before, marker)) =
    if before === ""
    then none
    else if trim before === "" || marker === ""
    then none
    else some (file_contains (trim before) marker)

abbrev keys_of : String → List String
keys_of text = keep (λ key. not (key === "")) (map trim (split_on 44 text))

abbrev when_any_key : List String → Option (List String)
when_any_key [] = none
when_any_key (k ∷ ks) = some (k ∷ ks)

abbrev json_criterion : String → Option (String × String) → Option VerifiableCriterion
json_criterion rest none = unless_empty (λ path. json_file path none) (trim rest)
json_criterion rest (some (before, keys)) =
    unless_empty (λ path. json_file path (when_any_key (keys_of keys))) (trim before)

abbrev status_criterion : Option ℕ → Option VerifiableCriterion
status_criterion none = none
status_criterion (some status) =
    if ltb status 100 || ltb 599 status then none else some (http_status status)

abbrev first_prefix :
    List (String × (String → Option VerifiableCriterion)) → String → Option VerifiableCriterion
first_prefix [] raw = none
first_prefix ((prefix, parse) ∷ rules) raw = elim (after_prefix prefix raw) [
  | some rest ↦ parse rest
  | none ↦ first_prefix rules raw
]

module _ (to_number : String → Option ℕ) where
  -- the tests by prefix, in their order, each with the parser of what follows the prefix
  abbrev rules : List (String × (String → Option VerifiableCriterion))
  rules =
      ("tool_succeeded:", λ rest. unless_empty (λ name. tool_succeeded (some name)) (trim rest))
      ∷ ("file_exists:", λ rest. unless_empty file_exists (trim rest))
      ∷ ("file_contains:", λ rest. contains_criterion (cut_at 124 rest))
      ∷ ("json_file:", λ rest. json_criterion rest (cut_at 124 rest))
      ∷ ("command_exits_zero:", λ rest. unless_empty command_exits_zero (trim rest))
      ∷ ("http_status:", λ rest. status_criterion (to_number (trim rest)))
      ∷ []

  unfoldable pub parse_verifiable_criterion : String → Option VerifiableCriterion
  parse_verifiable_criterion text =
      if trim text === "tool_succeeded"
      then some (tool_succeeded none)
      else first_prefix rules (trim text)

abbrev prefixes : List String
prefixes =
    "file_exists:" ∷ "file_contains:" ∷ "json_file:" ∷ "command_exits_zero:" ∷ "http_status:"
    ∷ "tool_succeeded" ∷ []

unfoldable pub looks_like_criterion_prefix : String → Bool
looks_like_criterion_prefix text =
    any (λ prefix. trim text === prefix || starts_with (trim text) prefix) prefixes

pub record Criteria : Type 0 where
  pub criteria : List VerifiableCriterion
  pub unchecked_prose : List String

abbrev pub collect_line : Option VerifiableCriterion → String → Criteria → Criteria
collect_line (some parsed) line c = record c { criteria = c.criteria ++ parsed ∷ [] }
collect_line none line c =
    if line === "" then c else record c { unchecked_prose = c.unchecked_prose ++ line ∷ [] }

module _ (to_number : String → Option ℕ) where
  -- the loop of `collectCriteria`
  unfoldable pub collect_lines : Criteria → List String → Criteria
  collect_lines c [] = c
  collect_lines c (line ∷ lines) =
      collect_lines (collect_line (parse_verifiable_criterion to_number line) (trim line) c) lines

  unfoldable pub collect_criteria : Option (List VerifiableCriterion) → List String → Criteria
  collect_criteria structured prose =
      collect_lines (record { criteria = or_else structured []; unchecked_prose = [] }) prose
