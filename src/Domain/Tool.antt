-- ===== src/Domain/Tool.antt =====
-- src/domain/action.ts, src/domain/observation.ts and the results of src/tools/contracts.ts.
use autonomous_agent.Common.{ℕ, String, Bool, Option, List}
use autonomous_agent.Domain.Value.{Value}
use autonomous_agent.Domain.Thrown.{Thrown}
use autonomous_agent.Domain.Provenance.{Provenance, RunCorrelation}
use autonomous_agent.Domain.Goal.{ArtifactRef}

pub record AgentAction : Type 0 where
  pub action_id : String
  pub correlation : RunCorrelation
  pub plan_id : String
  pub decision_id : Option String
  pub tool_name : String
  pub input : Value
  pub attempt : ℕ
  pub retry_of : Option String
  pub intent : String
  pub derived_from : Provenance
  pub requested_at : String

pub data ToolErrorCode : Type 0 where
  unknown_tool invalid_input execution_failed not_found : ToolErrorCode
  permission_denied timeout unavailable : ToolErrorCode

-- `details`: the problems of a rejected input, or the exception that was caught
pub data ErrorDetails : Type 0 where
  no_details : ErrorDetails
  problems : List String → ErrorDetails
  cause : Thrown → ErrorDetails

pub record ToolError : Type 0 where
  pub code : ToolErrorCode
  pub message : String
  pub retryable : Bool
  pub details : ErrorDetails

-- the two members of the union `ToolResult`, by `status`
pub data ToolStatus : Type 0 where
  ok : Value → Option (List ArtifactRef) → ToolStatus
  error : ToolError → ToolStatus

pub record ToolResult : Type 0 where
  pub tool_name : String
  pub action_id : String
  pub started_at : String
  pub finished_at : String
  pub duration_ms : ℕ
  pub status : ToolStatus

pub record Observation : Type 0 where
  pub observation_id : String
  pub action_id : String
  pub correlation : RunCorrelation
  pub tool_result : ToolResult
  pub artifacts : List ArtifactRef
  pub summary : String
  pub observed_at : String
