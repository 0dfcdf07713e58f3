-- ===== src/Runtime/Planning.antt =====
-- `createInitialPlan` and `handleFailure` of src/agent/runtime/agent-runtime.ts.
use autonomous_agent.Common.{
  String, some, [], ◌∷◌, length, or_else, join, not, ◌===◌, if◌then◌else◌,
}
use autonomous_agent.Async.{Async, gets, when_true, ◌>>=◌, ◌>>◌}
use autonomous_agent.Domain.Plan.{Plan}
use autonomous_agent.Events.{
  EventCorrelation, no_correlation, plan_created, plan_updated, failure_detected, strategy_changed,
  FailureSource, ToolStatusName,
}
use autonomous_agent.Session.Usage.{strategy_changes}
use autonomous_agent.Session.Working.{snapshot}
use autonomous_agent.Session.Core.{Host}
use autonomous_agent.Agent.Contracts.{RuntimeComponents, PlanningInput, EvaluationResult}
use autonomous_agent.Runtime.State.{AgentState, on_shared, count, put_plan, require_plan, announce}

abbrev failure_source : ToolStatusName → FailureSource
failure_source ToolStatusName.error = FailureSource.tool
failure_source _ = FailureSource.evaluation

-- `evaluation.gaps.join('; ') || evaluation.summary`
abbrev failure_summary : EvaluationResult → String
failure_summary evaluation =
    let gaps = join "; " evaluation.gaps in if gaps === "" then evaluation.summary else gaps

module _ {X : Type 0} (c : RuntimeComponents X) where
  abbrev pub planning_input : AgentState X → PlanningInput
  planning_input s = record {
    goal = s.session.goal;
    working = snapshot s.session.working;
    retrievals = s.retrievals;
    available_tools = c.describe_all;
  }

module _ {X : Type 0} (host : Host X) (c : RuntimeComponents X) where
  unfoldable pub create_initial_plan : Async (AgentState X) (Unit {0})
  create_initial_plan = do
    input ← gets (planning_input c)
    plan ← on_shared (c.create_plan input)
    put_plan plan
    announce host
        (plan_created (record {
          plan_id = plan.plan_id;
          version = plan.version;
          strategy_id = plan.strategy.strategy_id;
          strategy_summary = plan.strategy.summary;
          task_count = length plan.tasks;
          informed_by_retrieval_ids = or_else plan.informed_by.retrieval_ids [];
          informed_by_memory_record_ids = or_else plan.informed_by.memory_record_ids [];
        }))
        (record no_correlation {
          plan_id = some plan.plan_id;
          strategy_id = some plan.strategy.strategy_id;
          memory_record_ids = plan.informed_by.memory_record_ids;
        })

  -- the branch of `handleFailure` for a revision with another strategy
  unfoldable pub change_strategy : Plan → Plan → String → Async (AgentState X) (Unit {0})
  change_strategy previous revised evaluation_id = do
    count strategy_changes
    announce host
        (strategy_changed previous.strategy.strategy_id revised.strategy.strategy_id
          (or_else revised.strategy.change_reason (or_else revised.revision_reason ""))
          revised.strategy.summary)
        (record no_correlation {
          plan_id = some revised.plan_id;
          strategy_id = some revised.strategy.strategy_id;
          evaluation_id = some evaluation_id;
        })

  unfoldable pub handle_failure :
      EvaluationResult → EventCorrelation → Async (AgentState X) (Unit {0})
  handle_failure evaluation correlation = do
    previous ← require_plan
    announce host
        (failure_detected (failure_summary evaluation) (failure_source evaluation.tool_status))
        (record correlation { evaluation_id = some evaluation.evaluation_id })
    input ← gets (planning_input c)
    revised ← on_shared (
        c.revise_plan (record {
          planning = input;
          previous_plan = previous;
          triggering_evaluations = evaluation ∷ [];
        }))
    when_true (not (revised.strategy.strategy_id === previous.strategy.strategy_id))
        (change_strategy previous revised evaluation.evaluation_id)
    announce host
        (plan_updated (record {
          plan_id = revised.plan_id;
          previous_plan_id = previous.plan_id;
          version = revised.version;
          reason = or_else revised.revision_reason "revised after failure";
          task_count = length revised.tasks;
          informed_by_memory_record_ids = or_else revised.informed_by.memory_record_ids [];
        }))
        (record no_correlation {
          plan_id = some revised.plan_id;
          strategy_id = some revised.strategy.strategy_id;
          evaluation_id = some evaluation.evaluation_id;
        })
    put_plan revised
