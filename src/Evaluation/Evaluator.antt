-- ===== src/Evaluation/Evaluator.antt =====
-- `DeterministicEvaluator` of src/evaluation/deterministic-evaluator.ts. JavaScript's `JSON.parse`
-- (`none` when it throws) and `Number` are arguments.
use autonomous_agent.Common.{
  ℕ, zero, suc, String, Option, none, some, List, [], ◌∷◌, ◌++◌, map, keep, not, ◌&&◌, ◌<>◌,
  decimal, length, last?, if◌then◌else◌,
}
use autonomous_agent.Async.{Async, pure, ◌>>=◌}
use autonomous_agent.Domain.Value.{Value}
use autonomous_agent.Domain.Provenance.{empty_provenance}
use autonomous_agent.Domain.Goal.{
  VerifiableCriterion, file_exists, file_contains, json_file, command_exits_zero, http_status,
  tool_succeeded,
}
use autonomous_agent.Domain.Outcome.{verdict_from_decisive}
use autonomous_agent.Domain.Tool.{Observation, ok, error}
use autonomous_agent.Events.{ToolStatusName}
use autonomous_agent.Session.Core.{Host, Shared, next_id, clock_now}
use autonomous_agent.Agent.Environment.{ExecutionEnvironment}
use autonomous_agent.Agent.Contracts.{EvaluationCheck, EvaluationResult, EvaluationScope}
use autonomous_agent.Evaluation.Criteria.{collect_criteria}
use autonomous_agent.Evaluation.Checks.{
  is_decisive, tool_status_of, missing_environment, file_exists_check, absent_check,
  file_contains_check, json_check, command_result_check, http_status_check, tool_succeeded_check,
}

module _ {S : Type 0} where
  -- a check that inspects the environment, by the scope's environment
  abbrev pub in_environment :
      String
      → String
      → Option (ExecutionEnvironment S)
      → (ExecutionEnvironment S → Async S EvaluationCheck)
      → Async S EvaluationCheck
  in_environment name subject none inspect = pure (missing_environment name subject)
  in_environment name subject (some e) inspect = inspect e

  -- reads the file if it exists
  abbrev pub with_content :
      String
      → String
      → ExecutionEnvironment S
      → (String → EvaluationCheck)
      → Async S EvaluationCheck
  with_content name path e check = do
    exists ← e.file_exists path
    (if exists
        then (do content ← e.read_file path; pure (check content))
        else pure (absent_check name path))

  unfoldable pub run_criterion :
      (String → Option Value) → VerifiableCriterion → EvaluationScope S → Async S EvaluationCheck
  run_criterion json_parse (file_exists path) scope =
      in_environment "file exists" path scope.environment
        λ e. do exists ← e.file_exists path; pure (file_exists_check path exists)
  run_criterion json_parse (file_contains path marker) scope =
      in_environment "file contains" path scope.environment
        λ e. with_content "file contains" path e (file_contains_check path marker)
  run_criterion json_parse (json_file path required) scope =
      in_environment "json file" path scope.environment λ e.
        with_content "json file" path e (λ content. json_check path required (json_parse content))
  run_criterion json_parse (command_exits_zero command) scope =
      in_environment "command exits 0" command scope.environment
        λ e. do result ← e.run_command command; pure (command_result_check result)
  run_criterion json_parse (http_status status) scope =
      pure (http_status_check status scope.observations)
  run_criterion json_parse (tool_succeeded wanted) scope =
      pure (tool_succeeded_check wanted scope.observations)

  -- the loop of `evaluate`
  unfoldable pub run_criteria :
      (String → Option Value)
      → List VerifiableCriterion
      → EvaluationScope S
      → Async S (List EvaluationCheck)
  run_criteria json_parse [] scope = pure []
  run_criteria json_parse (c ∷ cs) scope = do
    check ← run_criterion json_parse c scope
    checks ← run_criteria json_parse cs scope
    pure (check ∷ checks)

unfoldable pub tool_status_check : {S : Type 0} → EvaluationScope S → EvaluationCheck
tool_status_check scope = tool_status_of (last? scope.observations)

abbrev pub decisive_checks : List EvaluationCheck → List EvaluationCheck
decisive_checks checks = keep is_decisive checks

abbrev pub passed_count : List EvaluationCheck → ℕ
passed_count checks = length (keep (λ check. check.passed) (decisive_checks checks))

abbrev unshift_if_none : ℕ → List String → List String
unshift_if_none zero gaps = "no mechanically verifiable success criterion was configured" ∷ gaps
unshift_if_none (suc n) gaps = gaps

abbrev status_name : Option Observation → ToolStatusName
status_name none = ToolStatusName.no_tool
status_name (some last) = elim last.tool_result.status [
  | ok _ _ ↦ ToolStatusName.ok
  | error _ ↦ ToolStatusName.error
]

-- the object that `evaluate` returns
unfoldable pub evaluation_of :
    {S : Type 0}
    → EvaluationScope S
    → List EvaluationCheck
    → List String
    → String
    → String
    → EvaluationResult
evaluation_of scope checks unchecked id time =
    let total = length (decisive_checks checks) in
    record {
      evaluation_id = id;
      correlation = scope.correlation;
      verdict = verdict_from_decisive (passed_count checks) total;
      evaluator_name = some "deterministic";
      checks = checks;
      gaps = unshift_if_none total (
          map (λ c. c.evidence) (keep (λ c. is_decisive c && not c.passed) checks)
          ++ map (λ line. "not mechanically verifiable: " <> line) unchecked);
      summary = decimal (passed_count checks) <> "/" <> decimal total <> " decisive checks passed";
      tool_status = status_name (last? scope.observations);
      derived_from = record empty_provenance {
        observation_ids = some (map (λ o. o.observation_id) scope.observations);
        action_ids = elim scope.action [ none ↦ none | some a ↦ some (a.action_id ∷ []) ];
      };
      evaluated_at = time;
    }

module _ {X : Type 0} (host : Host X) where
  unfoldable pub evaluate :
      (String → Option Value)
      → (String → Option ℕ)
      → EvaluationScope (Shared X)
      → Async (Shared X) EvaluationResult
  evaluate json_parse to_number scope = do
    let collected =
        collect_criteria to_number scope.goal.verifiable_criteria scope.goal.success_criteria
    checks ← run_criteria json_parse collected.criteria scope
    id ← next_id host "eval"
    time ← clock_now host
    pure (evaluation_of scope (tool_status_check scope ∷ checks) collected.unchecked_prose id time)
