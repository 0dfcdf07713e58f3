-- ===== src/Events.antt =====
-- src/events/contracts.ts: the envelope and the payloads of the events that the run emits.
use autonomous_agent.Common.{ℕ, String, Bool, Option, none, List}
use autonomous_agent.Common.Int.{ℤ}
use autonomous_agent.Domain.Thrown.{ModelErrorKind}
use autonomous_agent.Domain.Outcome.{OutcomeVerdict}
use autonomous_agent.Domain.Tool.{ToolErrorCode}
use autonomous_agent.Memory.Records.{MemoryKind}
use autonomous_agent.Memory.Retrieval.{RetrievalSignal, RetrievalDegradation, DropReason}

pub record EventCorrelation : Type 0 where
  pub task_id : Option String
  pub plan_id : Option String
  pub strategy_id : Option String
  pub decision_id : Option String
  pub action_id : Option String
  pub observation_id : Option String
  pub evaluation_id : Option String
  pub retrieval_id : Option String
  pub lesson_id : Option String
  pub model_call_id : Option String
  pub memory_record_ids : Option (List String)

abbrev pub no_correlation : EventCorrelation
no_correlation = record {
  task_id = none;
  plan_id = none;
  strategy_id = none;
  decision_id = none;
  action_id = none;
  observation_id = none;
  evaluation_id = none;
  retrieval_id = none;
  lesson_id = none;
  model_call_id = none;
  memory_record_ids = none;
}

pub record HitTelemetry : Type 0 where
  pub record_id : String
  pub score : ℤ
  pub lexical : Option ℤ
  pub semantic : Option ℤ
  pub semantic_admitted : Bool
  pub rank_before_selection : Option ℕ
  pub kept_by_diversity : Bool
  pub final_rank : Option ℕ

pub record DropTelemetry : Type 0 where
  pub record_id : String
  pub reason : DropReason
  pub rank_before_selection : ℕ
  pub score : ℤ

pub record RetrievedPayload : Type 0 where
  pub retrieval_id : String
  pub hit_count : ℕ
  pub record_ids : List String
  pub kinds : List MemoryKind
  pub duration_ms : ℕ
  pub signals_used : List RetrievalSignal
  pub degraded : List RetrievalDegradation
  pub suppressed : Bool
  pub hits : List HitTelemetry
  pub dropped : List DropTelemetry

pub record PlanCreatedPayload : Type 0 where
  pub plan_id : String
  pub version : ℕ
  pub strategy_id : String
  pub strategy_summary : String
  pub task_count : ℕ
  pub informed_by_retrieval_ids : List String
  pub informed_by_memory_record_ids : List String

pub record PlanUpdatedPayload : Type 0 where
  pub plan_id : String
  pub previous_plan_id : String
  pub version : ℕ
  pub reason : String
  pub task_count : ℕ
  pub informed_by_memory_record_ids : List String

pub record IngestedPayload : Type 0 where
  pub record_id : String
  pub tool_name : String
  pub source : String
  pub title : String
  pub kept_chars : ℕ
  pub truncated : Bool
  pub confidence : ℕ

pub data ToolStatusName : Type 0 where
  ok error no_tool : ToolStatusName

pub record EvaluationPayload : Type 0 where
  pub evaluation_id : String
  pub verdict : OutcomeVerdict
  pub checks_passed : ℕ
  pub checks_total : ℕ
  pub gap_count : ℕ
  pub summary : String
  pub tool_status : ToolStatusName
  pub evaluator_name : Option String

pub data ModelCallPurpose : Type 0 where
  understand_goal create_plan revise_plan select_action evaluate : ModelCallPurpose
  diagnose_failure extract_lesson summarize embed_memory embed_query other : ModelCallPurpose

pub data FinishReason : Type 0 where
  stop length tool_call content_filter error : FinishReason

-- the fields that the three model-call events share
pub record ModelCallId : Type 0 where
  pub model_call_id : String
  pub purpose : ModelCallPurpose
  pub provider : String
  pub model : String
  pub attempt : ℕ

pub data FailureSource : Type 0 where
  tool evaluation runtime : FailureSource

pub data FailureCause : Type 0 where
  gave_up unrecoverable : FailureCause

pub data LimitName : Type 0 where
  max_iterations max_tool_calls max_model_calls max_total_tokens max_duration_ms : LimitName

pub data Payload : Type 0 where
  goal_received : String → Payload
  plan_created : PlanCreatedPayload → Payload
  plan_updated : PlanUpdatedPayload → Payload
  -- the retrieval's id, the query's text and kinds
  memory_search_started : String → String → List MemoryKind → Payload
  memory_retrieved : RetrievedPayload → Payload
  -- the retrieval's id, the records shown, those with a violated precondition
  memory_presented : String → List String → List String → Payload
  knowledge_ingested : IngestedPayload → Payload
  -- the record's id, kind and summary
  memory_written : String → MemoryKind → String → Payload
  -- the decision's id, summary, number of options and confidence
  decision_created : String → String → ℕ → Option ℕ → Payload
  model_call_started : ModelCallId → Payload
  -- input tokens, output tokens, whether they were reported, latency, finish reason
  model_call_completed : ModelCallId → ℕ → ℕ → Bool → ℕ → FinishReason → Payload
  -- latency, kind of error, message, retryable
  model_call_failed : ModelCallId → ℕ → ModelErrorKind → String → Bool → Payload
  -- the tool, the intent, the attempt, the summary of the input
  tool_selected : String → String → ℕ → String → Payload
  tool_started : String → Payload
  -- the tool, the duration, the observation's summary
  tool_completed : String → ℕ → String → Payload
  -- the tool, the duration, the error's code and message, retryable
  tool_failed : String → ℕ → ToolErrorCode → String → Bool → Payload
  -- COMMAND_*, FILE_*, BROWSER_NAVIGATION and ARTIFACT_STORED, by type: emitted by tools and by the
  -- composition root
  tool_event : String → Payload
  failure_detected : String → FailureSource → Payload
  -- the action retried, the attempt, whether the approach changed
  retry_started : String → ℕ → Bool → Payload
  -- the previous strategy, the new one, the reason, the summary
  strategy_changed : String → String → String → String → Payload
  -- the lesson's id, statement and confidence, the evaluations that it comes from
  lesson_created : String → String → ℕ → List String → Payload
  evaluation_completed : EvaluationPayload → Payload
  -- the summary and the iterations
  goal_completed : String → ℕ → Payload
  -- the reason, the iterations, the cause
  goal_failed : String → ℕ → FailureCause → Payload
  -- the limit, its value and its bound
  run_limit_reached : LimitName → ℕ → ℕ → Payload

pub record AgentEvent : Type 0 where
  pub schema_version : ℕ
  pub event_id : String
  pub sequence : ℕ
  pub timestamp : String
  pub run_id : String
  pub goal_id : Option String
  pub correlation : EventCorrelation
  pub payload : Payload
