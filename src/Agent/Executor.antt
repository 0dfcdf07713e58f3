-- ===== src/Agent/Executor.antt =====
-- `ToolExecutor` of src/agent/executor.ts
pub mod Laws
use autonomous_agent.Common.{String, Option, none, some, List, [], or_else, ◌<>◌, decimal, truthy}
use autonomous_agent.Async.{Async, pure, ◌>>=◌, ◌>>◌}
use autonomous_agent.Domain.Tool.{
  AgentAction, Observation, ToolResult, ToolStatus, ok, error, ToolErrorCode, ToolError,
  unknown_tool, invalid_input, execution_failed, not_found, permission_denied, timeout, unavailable,
}
use autonomous_agent.Domain.Goal.{ArtifactRef}
use autonomous_agent.Events.{
  EventCorrelation, no_correlation, Payload, tool_started, tool_completed, tool_failed,
}
use autonomous_agent.Session.Usage.{tool_calls}
use autonomous_agent.Session.Core.{Host, Shared, emit, count_one, next_id, clock_now}
use autonomous_agent.Agent.Environment.{ExecutionEnvironment}
use autonomous_agent.Tools.Registry.{Registry, ToolContext, invoke_tool}

abbrev pub action_correlation : AgentAction → EventCorrelation
action_correlation action = record no_correlation {
  plan_id = some action.plan_id;
  action_id = some action.action_id;
  task_id = truthy action.correlation.task_id;
  decision_id = truthy action.decision_id;
}

abbrev code_word : ToolErrorCode → String
code_word unknown_tool = "unknown_tool"
code_word invalid_input = "invalid_input"
code_word execution_failed = "execution_failed"
code_word not_found = "not_found"
code_word permission_denied = "permission_denied"
code_word timeout = "timeout"
code_word unavailable = "unavailable"

-- `summarise`
abbrev summarise : ToolResult → String
summarise result = elim result.status [
  | ok _ _ ↦ result.tool_name <> " returned ok in " <> decimal result.duration_ms <> "ms"
  | error e ↦ result.tool_name <> " failed (" <> code_word e.code <> "): " <> e.message
]

abbrev pub produced : ToolStatus → List ArtifactRef
produced (ok _ artifacts) = or_else artifacts []
produced (error _) = []

-- the event that tells how the call ended
abbrev pub call_ended : AgentAction → ToolResult → String → Payload
call_ended action result summary = elim result.status [
  | ok _ _ ↦ tool_completed action.tool_name result.duration_ms summary
  | error e ↦ tool_failed action.tool_name result.duration_ms e.code e.message e.retryable
]

module _ {X : Type 0} (host : Host X) where
  -- what follows the call of the tool
  unfoldable pub observe : AgentAction → ToolResult → Async (Shared X) Observation
  observe action result = do
    id ← next_id host "obs"
    time ← clock_now host
    emit host (call_ended action result (summarise result))
        (record (action_correlation action) { observation_id = some id })
    pure (record {
      observation_id = id;
      action_id = action.action_id;
      correlation = action.correlation;
      tool_result = result;
      artifacts = produced result.status;
      summary = summarise result;
      observed_at = time;
    })

  unfoldable pub execute :
      Registry (Shared X)
      → ExecutionEnvironment (Shared X)
      → AgentAction
      → Async (Shared X) Observation
  execute registry environment action = do
    emit host (tool_started action.tool_name) (action_correlation action)
    count_one tool_calls
    result ← invoke_tool host registry action.tool_name action.input (record {
      correlation = action.correlation;
      action_id = action.action_id;
      environment = environment;
    })
    observe action result
