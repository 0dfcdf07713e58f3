-- ===== src/Agent/Contracts.antt =====
-- src/agent/contracts.ts and src/evaluation/contracts.ts: what the runtime gives to each component and
-- gets back, and `RuntimeComponents` of src/agent/runtime/agent-runtime.ts. A component shares the
-- session and the outside world with the runtime, and never the runtime's own fields.
use autonomous_agent.Common.{String, Bool, Option, List}
use autonomous_agent.Async.{Async}
use autonomous_agent.Domain.Value.{Value}
use autonomous_agent.Domain.Provenance.{Provenance, RunCorrelation}
use autonomous_agent.Domain.Goal.{Goal}
use autonomous_agent.Domain.Plan.{Plan, PlanTask}
use autonomous_agent.Domain.Outcome.{OutcomeVerdict}
use autonomous_agent.Domain.Tool.{AgentAction, Observation}
use autonomous_agent.Events.{ToolStatusName}
use autonomous_agent.Memory.Records.{
  RecordBase, DecisionBody, ExperienceBody, LessonBody, KnowledgeBody, MemoryRecord,
}
use autonomous_agent.Memory.Retrieval.{RetrievalQuery, RetrievalResult}
use autonomous_agent.Session.Working.{WorkingSnapshot}
use autonomous_agent.Session.Core.{Shared}
use autonomous_agent.Agent.Environment.{ExecutionEnvironment}

pub data EvidenceMethod : Type 0 where
  tool_result artifact_inspection command_check rule model_judgement : EvidenceMethod

-- `decisive` is false or absent
pub record EvaluationCheck : Type 0 where
  pub name : String
  pub passed : Bool
  pub method : EvidenceMethod
  pub decisive : Option Bool
  pub evidence : String

pub record EvaluationResult : Type 0 where
  pub evaluation_id : String
  pub correlation : RunCorrelation
  pub verdict : OutcomeVerdict
  pub evaluator_name : Option String
  pub checks : List EvaluationCheck
  pub gaps : List String
  pub summary : String
  pub tool_status : ToolStatusName
  pub derived_from : Provenance
  pub evaluated_at : String

pub record EvaluationScope (S : Type 0) : Type 0 where
  pub goal : Goal
  pub task : Option PlanTask
  pub action : Option AgentAction
  pub observations : List Observation
  pub correlation : RunCorrelation
  pub environment : Option (ExecutionEnvironment S)

pub data ToolFamily : Type 0 where
  web http browser filesystem terminal code git github memory introspection : ToolFamily

pub record ToolDescriptor : Type 0 where
  pub name : String
  pub family : ToolFamily
  pub description : String
  pub input_schema : Value

pub record DecisionRecord : Type 0 where
  pub base : RecordBase
  pub body : DecisionBody

pub record ExperienceRecord : Type 0 where
  pub base : RecordBase
  pub body : ExperienceBody

pub record LessonRecord : Type 0 where
  pub base : RecordBase
  pub body : LessonBody

pub record KnowledgeRecord : Type 0 where
  pub base : RecordBase
  pub body : KnowledgeBody

pub record PlanningInput : Type 0 where
  pub goal : Goal
  pub working : WorkingSnapshot
  pub retrievals : List RetrievalResult
  pub available_tools : List ToolDescriptor

pub record RevisionInput : Type 0 where
  pub planning : PlanningInput
  pub open planning use *
  pub previous_plan : Plan
  pub triggering_evaluations : List EvaluationResult

pub record TaskAttempt : Type 0 where
  pub action : AgentAction
  pub observation : Observation
  pub evaluation : EvaluationResult
  pub decision : Option DecisionRecord

pub record ActionSelectionInput : Type 0 where
  pub goal : Goal
  pub plan : Plan
  pub task : PlanTask
  pub previous_attempts : List TaskAttempt
  pub working : WorkingSnapshot
  pub retrievals : List RetrievalResult
  pub available_tools : List ToolDescriptor

pub data ActionSelection : Type 0 where
  act : AgentAction → Option DecisionRecord → ActionSelection
  finish : String → ActionSelection
  give_up : String → ActionSelection

pub record LearningInput : Type 0 where
  pub correlation : RunCorrelation
  pub task : PlanTask
  pub attempt : TaskAttempt
  pub previous_attempts : List TaskAttempt

pub record LearningOutput : Type 0 where
  pub experience : ExperienceRecord
  pub lessons : List LessonRecord

pub record IngestionInput : Type 0 where
  pub correlation : RunCorrelation
  pub goal : Goal
  pub task : PlanTask
  pub action : AgentAction
  pub observation : Observation

pub record IngestionOutput : Type 0 where
  pub knowledge : List KnowledgeRecord
  pub skipped : Option String

-- The methods that the runtime calls. The tools' descriptions do not change during a run.
pub record RuntimeComponents (X : Type 0) : Type 0 where
  pub create_plan : PlanningInput → Async (Shared X) Plan
  pub revise_plan : RevisionInput → Async (Shared X) Plan
  pub select_next : ActionSelectionInput → Async (Shared X) ActionSelection
  pub execute : AgentAction → Async (Shared X) Observation
  pub evaluate : EvaluationScope (Shared X) → Async (Shared X) EvaluationResult
  pub learn : LearningInput → Async (Shared X) LearningOutput
  pub ingest : Option (IngestionInput → Async (Shared X) IngestionOutput)
  pub put : MemoryRecord → Async (Shared X) (Unit {0})
  pub retrieve : RetrievalQuery → Async (Shared X) RetrievalResult
  pub describe_all : List ToolDescriptor
  pub environment : ExecutionEnvironment (Shared X)
