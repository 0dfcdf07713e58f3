-- ===== src/Runtime/Frame/Steps.antt =====
-- The phases of a run that do not end it are steady.
use autonomous_agent.Common.{◌≡◌, refl, String, ℕ, Option, none, some, List, [], ◌∷◌}
use autonomous_agent.Async.{Async}
use autonomous_agent.Async.Moves.{
  Moves, moves_rules, Moves-bind, Moves-pure, Moves-gets, Moves-settle, Moves-when_some,
  Moves-for_each, Moves-if,
}
use autonomous_agent.Events.{EventCorrelation}
use autonomous_agent.Session.Core.{Host, Shared}
use autonomous_agent.Session.Usage.{strategy_changes, retries}
use autonomous_agent.Memory.Records.{
  Precondition, file_exists, tool_available, environment_provider, base_of,
}
use autonomous_agent.Memory.Retrieval.{RetrievalHit, RetrievalResult}
use autonomous_agent.Memory.Applicability.{check_one, check_each, assess_preconditions}
use autonomous_agent.Agent.Contracts.{
  RuntimeComponents, EvaluationResult, TaskAttempt, DecisionRecord, LearningOutput, KnowledgeRecord,
  LessonRecord, IngestionInput, IngestionOutput,
}
use autonomous_agent.Domain.Plan.{Plan, PlanTask}
use autonomous_agent.Domain.Tool.{AgentAction, Observation}
use autonomous_agent.Runtime.State.{emit_evaluation}
use autonomous_agent.Runtime.Retrieve.{
  annotate_with, annotate_hit, annotate_hits, annotate_applicability, retrieve_memory, probe_of,
}
use autonomous_agent.Runtime.Planning.{create_initial_plan, change_strategy, handle_failure}
use autonomous_agent.Runtime.Attempt.{
  announce_retry, begin_attempt, keep_knowledge, ingest_with, ingest_knowledge, keep_lesson,
  write_learning, perform, conclude, attempt,
}
use autonomous_agent.Runtime.Frame.Quiet.{Quiet, Quiet-order, Steady, Steady-order, IsQuiet}
use autonomous_agent.Runtime.Frame.Methods.{
  on_shared-Steady, announce-Steady, next_id-Steady, on_working-Steady, put_plan-Steady,
  require_plan-Steady, count-Steady, push_lesson-Steady, store_attempts-Steady,
}
use autonomous_agent.Runtime.Frame.Records.{report_retrieval-Steady, write_record-Steady}

pub ruleset steady_rules = (
  moves_rules, Quiet-order, Steady-order, on_shared-Steady, next_id-Steady, on_working-Steady,
  put_plan-Steady, require_plan-Steady, report_retrieval-Steady, push_lesson-Steady,
  store_attempts-Steady,
)

module _ {X : Type 0} (c : RuntimeComponents X) (q : IsQuiet c) where
  check_one-Quiet : (p : Precondition) → Moves Quiet (check_one (probe_of c) p)
  unfolding check_one
  check_one-Quiet (file_exists path) =
      Moves-bind Quiet-order _ _ (q.surroundings.file_exists path) (λ _. Moves-pure Quiet-order _)
  check_one-Quiet (tool_available name) = Moves-pure Quiet-order _
  check_one-Quiet (environment_provider wanted) = Moves-pure Quiet-order _

  check_each-Quiet : (ps : List Precondition) → Moves Quiet (check_each (probe_of c) ps)
  unfolding check_each
  check_each-Quiet [] = search (moves_rules, Quiet-order)
  check_each-Quiet (p ∷ ps) =
      search (moves_rules, Quiet-order, check_one-Quiet p, check_each-Quiet ps)

  assess_preconditions-Quiet :
      (o : Option (List Precondition)) → Moves Quiet (assess_preconditions (probe_of c) o)
  unfolding assess_preconditions
  assess_preconditions-Quiet none = search (moves_rules, Quiet-order)
  assess_preconditions-Quiet (some []) = search (moves_rules, Quiet-order)
  assess_preconditions-Quiet (some (p ∷ ps)) =
      search (moves_rules, Quiet-order, check_each-Quiet (p ∷ ps))

  annotate_with-Quiet :
      (hit : RetrievalHit) (o : Option (List Precondition))
      → Moves Quiet (annotate_with (probe_of c) hit o)
  unfolding annotate_with
  annotate_with-Quiet hit none = search (moves_rules, Quiet-order)
  annotate_with-Quiet hit (some []) = search (moves_rules, Quiet-order)
  annotate_with-Quiet hit (some (p ∷ ps)) =
      search (moves_rules, Quiet-order, assess_preconditions-Quiet (some (p ∷ ps)))

  annotate_hits-Quiet : (hits : List RetrievalHit) → Moves Quiet (annotate_hits (probe_of c) hits)
  unfolding annotate_hits annotate_hit
  annotate_hits-Quiet [] = search (moves_rules, Quiet-order)
  annotate_hits-Quiet (hit ∷ hits) = search (
    moves_rules,
    Quiet-order,
    annotate_with-Quiet hit (base_of hit.item).preconditions,
    annotate_hits-Quiet hits,
  )

  annotate_applicability-Quiet : (r : RetrievalResult) → Moves Quiet (annotate_applicability c r)
  unfolding annotate_applicability
  annotate_applicability-Quiet r = search (moves_rules, Quiet-order, annotate_hits-Quiet r.hits)

module _ {X : Type 0} (host : Host X) (c : RuntimeComponents X) (q : IsQuiet c) where
  pub retrieve_memory-Steady :
      (n : ℕ) (text : String) → Moves Steady (retrieve_memory host c n text)
  unfolding retrieve_memory
  retrieve_memory-Steady n text =
      search (steady_rules, q.retrieve, annotate_applicability-Quiet c q, announce-Steady host)
        depth 16

  pub create_initial_plan-Steady : Moves Steady (create_initial_plan host c)
  unfolding create_initial_plan
  create_initial_plan-Steady = search (steady_rules, q.create_plan, announce-Steady host) depth 16

  change_strategy-Steady :
      (old new : Plan) (id : String) → Moves Steady (change_strategy host c old new id)
  unfolding change_strategy
  change_strategy-Steady old new id =
      search (steady_rules, count-Steady strategy_changes tt, announce-Steady host) depth 16

  pub handle_failure-Steady :
      (e : EvaluationResult) (k : EventCorrelation) → Moves Steady (handle_failure host c e k)
  unfolding handle_failure
  handle_failure-Steady e k =
      search (steady_rules, q.revise_plan, change_strategy-Steady, announce-Steady host) depth 16

module _ {X : Type 0} (host : Host X) (c : RuntimeComponents X) (q : IsQuiet c) where
  announce_retry-Steady :
      (previous : List TaskAttempt) (a : AgentAction) (k : EventCorrelation)
      → Moves Steady (announce_retry host c previous a k)
  unfolding announce_retry
  announce_retry-Steady previous a k =
      search (steady_rules, count-Steady retries tt, announce-Steady host) depth 16

  begin_attempt-Steady :
      (task : PlanTask) (previous : List TaskAttempt) (a : AgentAction) (d : Option DecisionRecord)
      → Moves Steady (begin_attempt host c task previous a d)
  unfolding begin_attempt
  begin_attempt-Steady task previous a d =
      search (steady_rules, announce_retry-Steady, announce-Steady host) depth 16

  keep_knowledge-Steady :
      (a : AgentAction) (k : EventCorrelation) (item : KnowledgeRecord)
      → Moves Steady (keep_knowledge host c a k item)
  unfolding keep_knowledge
  keep_knowledge-Steady a k item =
      search (steady_rules, write_record-Steady host c q, announce-Steady host) depth 16

  keep_lesson-Steady :
      (k : EventCorrelation) (item : LessonRecord) → Moves Steady (keep_lesson host c k item)
  unfolding keep_lesson
  keep_lesson-Steady k item =
      search (steady_rules, write_record-Steady host c q, announce-Steady host) depth 16

  pub emit_evaluation-Steady :
      (e : EvaluationResult) (k : EventCorrelation) → Moves Steady (emit_evaluation host e k)
  unfolding emit_evaluation
  emit_evaluation-Steady e k = announce-Steady host _ _ refl

  ingest_with-Steady :
      (o : Option (IngestionInput → Async (Shared X) IngestionOutput))
      → c.ingest ≡ o
      → (task : PlanTask) (a : AgentAction) (b : Observation) (k : EventCorrelation)
      → Moves Steady (ingest_with host c o task a b k)
  unfolding ingest_with
  ingest_with-Steady none e task a b k = search (moves_rules, Steady-order)
  ingest_with-Steady (some f) e task a b k =
      search (steady_rules, q.ingest f e, keep_knowledge-Steady) depth 16

  ingest_knowledge-Steady :
      (task : PlanTask) (a : AgentAction) (b : Observation) (k : EventCorrelation)
      → Moves Steady (ingest_knowledge host c task a b k)
  unfolding ingest_knowledge
  ingest_knowledge-Steady = ingest_with-Steady c.ingest refl

  write_learning-Steady :
      (task : PlanTask) (t : TaskAttempt) (l : LearningOutput) (k : EventCorrelation)
      → Moves Steady (write_learning host c task t l k)
  unfolding write_learning
  write_learning-Steady task t l k =
      search
        (steady_rules, write_record-Steady host c q, ingest_knowledge-Steady, keep_lesson-Steady)
        depth 16

  perform-Steady :
      (task : PlanTask) (previous : List TaskAttempt) (a : AgentAction) (d : Option DecisionRecord)
      → Moves Steady (perform host c task previous a d)
  unfolding perform
  perform-Steady task previous a d =
      search (steady_rules, q.execute, q.evaluate, emit_evaluation-Steady) depth 16

  conclude-Steady :
      (task : PlanTask) (e : EvaluationResult) (k : EventCorrelation)
      → Moves Steady (conclude host c task e k)
  unfolding conclude
  conclude-Steady task e k = search (steady_rules, handle_failure-Steady host c q) depth 16

  pub attempt-Steady :
      (task : PlanTask) (previous : List TaskAttempt) (a : AgentAction) (d : Option DecisionRecord)
      → Moves Steady (attempt host c task previous a d)
  unfolding attempt
  attempt-Steady task previous a d =
      search
        (
          steady_rules, begin_attempt-Steady, perform-Steady, q.learn, write_learning-Steady,
          conclude-Steady,
        )
        depth 16
