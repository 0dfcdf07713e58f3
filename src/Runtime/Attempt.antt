-- ===== src/Runtime/Attempt.antt =====
-- `attempt` and `ingestKnowledge` of src/agent/runtime/agent-runtime.ts, in the parts between the
-- calls of the components.
use autonomous_agent.Common.{
  String, Option, none, some, List, [], ◌∷◌, ◌++◌, map, length, or_else, last?, first?, ends_with,
  text_length, truthy, if◌then◌else◌,
}
use autonomous_agent.Async.{Async, pure, gets, settle, for_each, when_some, ◌>>=◌, ◌>>◌}
use autonomous_agent.Domain.Outcome.{DecisionOutcome, is_success, verdict_as_outcome}
use autonomous_agent.Domain.Plan.{PlanTask, PlanTaskStatus}
use autonomous_agent.Domain.Tool.{AgentAction, Observation}
use autonomous_agent.Memory.Records.{MemoryRecord, SourceReference}
use autonomous_agent.Events.{
  EventCorrelation, no_correlation, decision_created, retry_started, tool_selected,
  knowledge_ingested, lesson_created,
}
use autonomous_agent.Session.Usage.{retries}
use autonomous_agent.Session.Working.{add_observation}
use autonomous_agent.Session.Core.{Host, Shared, on_working}
use autonomous_agent.Agent.Contracts.{
  RuntimeComponents, TaskAttempt, DecisionRecord, LessonRecord, KnowledgeRecord, LearningOutput,
  EvaluationResult, IngestionInput, IngestionOutput,
}
use autonomous_agent.Runtime.PlanTasks.{with_task_status}
use autonomous_agent.Runtime.State.{
  AgentState, on_shared, count, put_plan, require_plan, announce, emit_evaluation, write_record,
  push_lesson, store_attempts, changed_approach, summarize_input,
}
use autonomous_agent.Runtime.Planning.{handle_failure}

abbrev pub attempt_correlation : PlanTask → AgentAction → Option DecisionRecord → EventCorrelation
attempt_correlation task action decision = record no_correlation {
  task_id = some task.task_id;
  plan_id = some action.plan_id;
  action_id = some action.action_id;
  decision_id = elim decision [ none ↦ none | some d ↦ some d.body.decision_id ];
}

abbrev decision_record : DecisionRecord → EvaluationResult → LearningOutput → MemoryRecord
decision_record d evaluation learning = MemoryRecord.decision d.base (record d.body {
  outcome = DecisionOutcome.evaluated (verdict_as_outcome evaluation.verdict);
  lesson_ids = map (λ l. l.body.lesson_id) learning.lessons;
})

-- `source?.url ?? source?.title ?? record.title`
abbrev source_name : KnowledgeRecord → Option SourceReference → String
source_name item none = item.body.title
source_name item (some source) = or_else source.url (or_else source.title item.body.title)

abbrev source_tool : AgentAction → Option SourceReference → String
source_tool action none = action.tool_name
source_tool action (some source) = or_else source.tool_name action.tool_name

module _ {X : Type 0} (host : Host X) (c : RuntimeComponents X) where
  -- `if (action.retryOf && lastAttempt)`
  unfoldable pub announce_retry :
      List TaskAttempt → AgentAction → EventCorrelation → Async (AgentState X) (Unit {0})
  announce_retry previous action correlation = when_some (truthy action.retry_of) λ retry_of.
      when_some (last? previous) λ before. do
        count retries
        changed ← settle (changed_approach before.action action)
        announce host (retry_started retry_of action.attempt changed) correlation

  -- the events before the tool runs
  unfoldable pub begin_attempt :
      PlanTask
      → List TaskAttempt
      → AgentAction
      → Option DecisionRecord
      → Async (AgentState X) (Unit {0})
  begin_attempt task previous action decision = do
    when_some decision λ d.
        announce host
          (decision_created d.body.decision_id d.base.summary (length d.body.options_considered)
            d.body.confidence)
          (attempt_correlation task action decision)
    announce_retry previous action (attempt_correlation task action decision)
    announce host
        (tool_selected action.tool_name action.intent action.attempt (summarize_input action.input))
        (attempt_correlation task action decision)

  -- the body of the loop of `ingestKnowledge`
  unfoldable pub keep_knowledge :
      AgentAction → EventCorrelation → KnowledgeRecord → Async (AgentState X) (Unit {0})
  keep_knowledge action correlation item = do
    announce host
        (knowledge_ingested (record {
          record_id = item.base.record_id;
          tool_name = source_tool action (first? item.body.sources);
          source = source_name item (first? item.body.sources);
          title = item.body.title;
          kept_chars = text_length item.body.content;
          truncated = ends_with 8230 item.body.content;
          confidence = item.body.confidence;
        }))
        (record correlation { memory_record_ids = some (item.base.record_id ∷ []) })
    write_record host c (MemoryRecord.knowledge item.base item.body) correlation

  unfoldable pub ingest_with :
      Option (IngestionInput → Async (Shared X) IngestionOutput)
      → PlanTask
      → AgentAction
      → Observation
      → EventCorrelation
      → Async (AgentState X) (Unit {0})
  ingest_with none task action observation correlation = pure tt
  ingest_with (some ingest) task action observation correlation = do
    goal ← gets (λ s. s.session.goal)
    ingestion ← on_shared (
        ingest (record {
          correlation = action.correlation;
          goal = goal;
          task = task;
          action = action;
          observation = observation;
        }))
    for_each ingestion.knowledge (keep_knowledge action correlation)

  unfoldable pub ingest_knowledge :
      PlanTask → AgentAction → Observation → EventCorrelation → Async (AgentState X) (Unit {0})
  ingest_knowledge = ingest_with c.ingest

  -- the body of the loop over the lessons
  unfoldable pub keep_lesson : EventCorrelation → LessonRecord → Async (AgentState X) (Unit {0})
  keep_lesson correlation item = do
    push_lesson item.body.lesson_id
    announce host
        (lesson_created item.body.lesson_id item.body.statement item.body.confidence
          (or_else item.base.provenance.evaluation_ids []))
        (record correlation { lesson_id = some item.body.lesson_id })
    write_record host c (MemoryRecord.lesson item.base item.body)
        (record correlation { lesson_id = some item.body.lesson_id })

  -- the records that an evaluated attempt writes
  unfoldable pub write_learning :
      PlanTask → TaskAttempt → LearningOutput → EventCorrelation → Async (AgentState X) (Unit {0})
  write_learning task attempt learning correlation = do
    when_some attempt.decision
        λ d. write_record host c (decision_record d attempt.evaluation learning) correlation
    write_record host c (MemoryRecord.experience learning.experience.base learning.experience.body)
        correlation
    ingest_knowledge task attempt.action attempt.observation correlation
    for_each learning.lessons (keep_lesson correlation)

  -- `executor.execute`, `evaluator.evaluate`, and the attempt that they make
  unfoldable pub perform :
      PlanTask
      → List TaskAttempt
      → AgentAction
      → Option DecisionRecord
      → Async (AgentState X) TaskAttempt
  perform task previous action decision = do
    observation ← on_shared (c.execute action)
    on_shared (on_working (add_observation observation))
    goal ← gets (λ s. s.session.goal)
    evaluation ← on_shared (
        c.evaluate (record {
          goal = goal;
          task = some task;
          action = some action;
          observations = map (λ a. a.observation) previous ++ observation ∷ [];
          correlation = action.correlation;
          environment = some c.environment;
        }))
    emit_evaluation host evaluation (record (attempt_correlation task action decision) {
      observation_id = some observation.observation_id;
    })
    pure (record {
      action = action;
      observation = observation;
      evaluation = evaluation;
      decision = decision;
    })

  -- what follows from the verdict
  unfoldable pub conclude :
      PlanTask → EvaluationResult → EventCorrelation → Async (AgentState X) (Unit {0})
  conclude task evaluation correlation =
      if is_success evaluation.verdict
      then (do
        plan ← require_plan
        put_plan (with_task_status plan task.task_id PlanTaskStatus.completed))
      else handle_failure host c evaluation correlation

  unfoldable pub attempt :
      PlanTask
      → List TaskAttempt
      → AgentAction
      → Option DecisionRecord
      → Async (AgentState X) (Unit {0})
  attempt task previous action decision = do
    begin_attempt task previous action decision
    tried ← perform task previous action decision
    store_attempts task.task_id (previous ++ tried ∷ [])
    learning ← on_shared (
        c.learn (record {
          correlation = action.correlation;
          task = task;
          attempt = tried;
          previous_attempts = previous;
        }))
    write_learning task tried learning (record (attempt_correlation task action decision) {
      evaluation_id = some tried.evaluation.evaluation_id;
    })
    conclude task tried.evaluation (attempt_correlation task action decision)
