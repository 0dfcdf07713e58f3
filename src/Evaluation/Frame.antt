-- ===== src/Evaluation/Frame.antt =====
-- The deterministic evaluator keeps to the runtime's contract for an evaluator.
use autonomous_agent.Common.{ℕ, String, Option, some, List, [], ◌∷◌, ◌≡◌}
use autonomous_agent.Async.{Async}
use autonomous_agent.Async.Moves.{Moves, moves_rules, Moves-bind, Moves-pure}
use autonomous_agent.Domain.Value.{Value}
use autonomous_agent.Domain.Goal.{
  VerifiableCriterion, file_exists, file_contains, json_file, command_exits_zero, http_status,
  tool_succeeded,
}
use autonomous_agent.Session.Core.{Host, Shared}
use autonomous_agent.Agent.Environment.{ExecutionEnvironment}
use autonomous_agent.Agent.Contracts.{EvaluationCheck, EvaluationScope}
use autonomous_agent.Evaluation.Evaluator.{
  in_environment, with_content, run_criterion, run_criteria, evaluate,
}
use autonomous_agent.Runtime.Frame.Quiet.{Quiet, Quiet-order, IsCalm}
use autonomous_agent.Runtime.Frame.Methods.{next_id-Quiet, clock_now-Quiet}

module _ {X : Type 0} (e : ExecutionEnvironment (Shared X)) (calm : IsCalm e) where
  in_environment-Quiet :
      (name subject : String) (o : Option (ExecutionEnvironment (Shared X)))
      (inspect : ExecutionEnvironment (Shared X) → Async (Shared X) EvaluationCheck)
      → o ≡ some e
      → Moves Quiet (inspect e)
      → Moves Quiet (in_environment name subject o inspect)
  in_environment-Quiet name subject o inspect h q = rw h q

  with_content-Quiet :
      (name path : String) (check : String → EvaluationCheck)
      → Moves Quiet (with_content name path e check)
  with_content-Quiet name path check =
      search (moves_rules, Quiet-order, calm.file_exists, calm.read_file) depth 12

  module _ (json_parse : String → Option Value) (scope : EvaluationScope (Shared X))
      (here : scope.environment ≡ some e) where
    run_criterion-Quiet : (c : VerifiableCriterion) → Moves Quiet (run_criterion json_parse c scope)
    unfolding run_criterion
    run_criterion-Quiet (file_exists path) =
        in_environment-Quiet _ path _ _ here (search (moves_rules, Quiet-order, calm.file_exists))
    run_criterion-Quiet (file_contains path marker) =
        in_environment-Quiet _ path _ _ here (with_content-Quiet _ path _)
    run_criterion-Quiet (json_file path required) =
        in_environment-Quiet _ path _ _ here (with_content-Quiet _ path _)
    run_criterion-Quiet (command_exits_zero command) =
        in_environment-Quiet _ command _ _ here
          (search (moves_rules, Quiet-order, calm.run_command))
    run_criterion-Quiet (http_status status) = Moves-pure Quiet-order _
    run_criterion-Quiet (tool_succeeded wanted) = Moves-pure Quiet-order _

    run_criteria-Quiet :
        (cs : List VerifiableCriterion) → Moves Quiet (run_criteria json_parse cs scope)
    unfolding run_criteria
    run_criteria-Quiet [] = Moves-pure Quiet-order _
    run_criteria-Quiet (c ∷ cs) = Moves-bind Quiet-order _ _ (run_criterion-Quiet c) λ check.
        Moves-bind Quiet-order _ _ (run_criteria-Quiet cs) λ checks. Moves-pure Quiet-order _

    -- In an environment that keeps to its contract, an evaluation neither ends the run nor touches its
    -- limits, its iterations and its counters of memory, whatever it answers or throws.
    pub evaluate-Quiet :
        (host : Host X) (to_number : String → Option ℕ)
        → Moves Quiet (evaluate host json_parse to_number scope)
    unfolding evaluate
    evaluate-Quiet host to_number =
        search (moves_rules, Quiet-order, run_criteria-Quiet, next_id-Quiet, clock_now-Quiet)
