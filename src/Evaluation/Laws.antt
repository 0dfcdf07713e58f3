-- ===== src/Evaluation/Laws.antt =====
-- What the deterministic evaluator answers.
use autonomous_agent.Common.{
  ℕ, ◌+◌, ◌<◌, ◌≡◌, ◌↔◌, refl, ◌∙◌, String, true, Option, none, some, List, [], ◌∷◌, length,
  keep-not_iff, or_else, keep, drop, All, arith, not, all,
}
use autonomous_agent.Common.Scan.{trim}
use autonomous_agent.Async.Returns.{Returns}
use autonomous_agent.Domain.Value.{Value, Members, obj}
use autonomous_agent.Domain.Goal.{VerifiableCriterion}
use autonomous_agent.Domain.Outcome.{OutcomeVerdict}
use autonomous_agent.Agent.Contracts.{EvaluationResult, EvaluationScope}
use autonomous_agent.Evaluation.Criteria.{
  Criteria, collect_line, collect_criteria, collect_lines, parse_verifiable_criterion,
}
use autonomous_agent.Evaluation.Checks.{json_check, keys_check, has_key}
use autonomous_agent.Evaluation.Checked.{World, Checks, holds_in}

-- the result of `evaluate`, by the checks of the criteria
module _ {S : Type 0} (json_parse : String → Option Value) (world : World)
    (scope : EvaluationScope S) where
  pub record Judged (cs : List VerifiableCriterion) (r : EvaluationResult) : Type 0 where
    pub counted : length r.checks ≡ length cs + 1
    pub checked : Checks json_parse world scope cs (drop 1 r.checks)
    pub success_iff :
        (r.verdict ≡ OutcomeVerdict.success)
        ↔ ((0 < length cs) × All (λ c. holds_in json_parse world scope c ≡ true) cs)
    pub inconclusive_iff : (r.verdict ≡ OutcomeVerdict.inconclusive) ↔ (length cs ≡ 0)

keys_check-passed_iff :
    (path : String) (required missing : List String)
    → ((keys_check path required missing).passed ≡ true) ↔ (missing ≡ [])
keys_check-passed_iff path required missing = ground arith

-- The check of a JSON file on an object, for keys that are asked for, passes exactly when the object
-- has each of them itself or inherits it from `Object.prototype`.
pub json_check-passed_iff :
    (path : String) (k : String) (ks : List String) (fs : Members)
    → ((json_check path (some (k ∷ ks)) (some (obj fs))).passed ≡ true)
      ↔ (all (has_key fs) (k ∷ ks) ≡ true)
unfolding json_check
json_check-passed_iff path k ks fs =
    let a = keys_check-passed_iff path (k ∷ ks) (keep (λ key. not (has_key fs key)) (k ∷ ks)) in
    let b = keep-not_iff (has_key fs) (k ∷ ks) in (λ h. b.0 (a.0 h), λ h. a.1 (b.1 h))

-- lines of prose that are no criteria
abbrev NoCriterion : (String → Option ℕ) → String → Type 0
NoCriterion to_number line = parse_verifiable_criterion to_number line ≡ none

prose_kept : (l : String) (c : Criteria) → (collect_line none l c).criteria ≡ c.criteria
prose_kept l c = ground arith

collect_lines-prose :
    (to_number : String → Option ℕ) (c : Criteria) (lines : List String)
    → All (NoCriterion to_number) lines
    → (collect_lines to_number c lines).criteria ≡ c.criteria
unfolding collect_lines
collect_lines-prose to_number c [] h = refl
collect_lines-prose to_number c (line ∷ lines) (e, h) =
    collect_lines-prose to_number next lines h ∙ kept
  where
    next : Criteria
    next = collect_line (parse_verifiable_criterion to_number line) (trim line) c

    kept : next.criteria ≡ c.criteria
    kept = rw (collect_line, e) (prose_kept (trim line) c)

-- Success criteria in prose add nothing to the structured criteria.
pub collect_criteria-prose :
    (to_number : String → Option ℕ) (structured : Option (List VerifiableCriterion))
    (lines : List String)
    → All (NoCriterion to_number) lines
    → (collect_criteria to_number structured lines).criteria ≡ or_else structured []
unfolding collect_criteria
collect_criteria-prose to_number structured lines h = collect_lines-prose to_number _ lines h
