-- ===== src/Runtime/State.antt =====
-- The fields of `AgentRuntime` (src/agent/runtime/agent-runtime.ts), and its small helpers.
use autonomous_agent.Common.{
  String, Bool, true, false, Option, none, some, List, [], ◌∷◌, ◌++◌, ◌<>◌, ◌===◌, text_take,
  text_length, ltb, not, if◌then◌else◌, join, keep, length, truthy,
}
use autonomous_agent.Async.{
  Settled, fulfilled, rejected, Async, gets, modify, error_of, ◌>>=◌, ◌>>◌,
}
use autonomous_agent.Domain.Value.{Value, str, Json, text, absent, throws, stringify}
use autonomous_agent.Domain.Thrown.{is_nothing, Thrown}
use autonomous_agent.Domain.Plan.{Plan}
use autonomous_agent.Domain.Tool.{AgentAction}
use autonomous_agent.Memory.Records.{MemoryRecord, base_of, kind_of}
use autonomous_agent.Memory.Retrieval.{RetrievalResult}
use autonomous_agent.Events.{
  Payload, EventCorrelation, evaluation_completed, memory_written, goal_completed, no_correlation,
}
use autonomous_agent.Session.Usage.{Counter, memory_writes}
use autonomous_agent.Session.Working.{set_plan, set_current_task_id}
use autonomous_agent.Session.Core.{Host, Shared, emit, finish, count_one, on_working}
use autonomous_agent.Domain.Run.{RunStatus}
use autonomous_agent.Agent.Contracts.{TaskAttempt, EvaluationResult, RuntimeComponents}

pub record AgentState (X : Type 0) : Type 0 where
  pub shared : Shared X
  pub open shared use *
  pub plan : Option Plan
  pub retrievals : List RetrievalResult
  pub attempts : List (String × List TaskAttempt)
  pub written : List String
  pub lessons : List String

-- `this.attempts.get(taskId) ?? []`
unfoldable pub attempts_of : List (String × List TaskAttempt) → String → List TaskAttempt
attempts_of [] id = []
attempts_of ((key, tried) ∷ rest) id = if key === id then tried else attempts_of rest id

-- `this.attempts.set(taskId, attempts)`
unfoldable pub set_attempts :
    String → List TaskAttempt → List (String × List TaskAttempt) → List (String × List TaskAttempt)
set_attempts id tried [] = (id, tried) ∷ []
set_attempts id tried ((key, old) ∷ rest) =
    if key === id then (key, tried) ∷ rest else (key, old) ∷ set_attempts id tried rest

-- `JSON.stringify` throws a TypeError on what it cannot write.
abbrev unserializable_input : Thrown
unserializable_input = error_of "the value cannot be serialized"

same_json : Json → Json → Settled Bool
same_json throws _ = rejected unserializable_input
same_json _ throws = rejected unserializable_input
same_json (text a) (text b) = fulfilled (a === b)
same_json absent absent = fulfilled true
same_json _ _ = fulfilled false

abbrev negated : Settled Bool → Settled Bool
negated (fulfilled b) = fulfilled (not b)
negated (rejected e) = rejected e

-- `last.action.toolName !== action.toolName || JSON.stringify(…) !== JSON.stringify(…)`
unfoldable pub changed_approach : AgentAction → AgentAction → Settled Bool
unfolding same_json
changed_approach previous action =
    if not (previous.tool_name === action.tool_name)
    then fulfilled true
    else negated (same_json (stringify previous.input) (stringify action.input))

abbrev cap_summary : String → String
cap_summary s = if ltb 500 (text_length s) then text_take 500 s <> "…" else s

unfoldable pub summarize_input : Value → String
summarize_input (str s) = cap_summary s
summarize_input v = elim (stringify v) [
  | text s ↦ cap_summary s
  | absent ↦ ""
  | throws ↦ cap_summary "[unserializable input]"
]

abbrev as_text : Value → Option String
as_text (str s) = some s
as_text _ = none

-- the errors as texts, if they are all texts
unfoldable pub all_texts : List Value → Option (List String)
all_texts [] = some []
all_texts (str s ∷ vs) = elim (all_texts vs) [ none ↦ none | some ts ↦ some (s ∷ ts) ]
all_texts (_ ∷ vs) = none

-- the message with the details, of a value that has fields
unfoldable pub describe_details : Thrown → String
unfolding all_texts
describe_details e = elim e.errors [
  | none ↦ e.message
  | some details ↦ elim (all_texts details) [
    | none ↦ e.message
    | some [] ↦ e.message
    | some (t ∷ ts) ↦ e.message <> ": " <> join "; " (t ∷ ts)
  ]
]

-- reading `errors` of `null` or `undefined` throws
unfoldable pub describe_unrecoverable : Thrown → Settled String
unfolding describe_details
describe_unrecoverable e =
    if is_nothing e.class
    then rejected (error_of ("Cannot read properties of " <> e.message <> " (reading 'errors')"))
    else fulfilled (describe_details e)

module _ {X A : Type 0} where
  -- a call that touches what the components share
  unfoldable pub on_shared : Async (Shared X) A → Async (AgentState X) A
  on_shared m s = let (r, t) = m s.shared in (r, record s { shared = t })

abbrev pub plan_or_error : Option Plan → Settled Plan
plan_or_error none = rejected (error_of "Runtime has no plan; createInitialPlan must run first")
plan_or_error (some plan) = fulfilled plan

module _ {X : Type 0} where
  unfoldable pub count : Counter → Async (AgentState X) (Unit {0})
  count counter = on_shared (count_one counter)

  -- `this.plan = plan; working.setPlan(plan)`
  unfoldable pub put_plan : Plan → Async (AgentState X) (Unit {0})
  put_plan plan = do
    modify (λ s. record s { plan = some plan })
    on_shared (on_working (set_plan plan))

  unfoldable pub require_plan : Async (AgentState X) Plan
  require_plan s = (plan_or_error s.plan, s)

  -- `this.lessons.push(id)`, `this.written.push(id)`, `this.retrievals.push(result)`
  unfoldable pub push_lesson : String → Async (AgentState X) (Unit {0})
  push_lesson id = modify (λ s. record s { lessons = s.lessons ++ id ∷ [] })

  unfoldable pub push_written : String → Async (AgentState X) (Unit {0})
  push_written id = modify (λ s. record s { written = s.written ++ id ∷ [] })

  unfoldable pub push_retrieval : RetrievalResult → Async (AgentState X) (Unit {0})
  push_retrieval result = modify (λ s. record s { retrievals = s.retrievals ++ result ∷ [] })

  unfoldable pub store_attempts : String → List TaskAttempt → Async (AgentState X) (Unit {0})
  store_attempts id tried = modify (λ s. record s { attempts = set_attempts id tried s.attempts })

module _ {X : Type 0} (host : Host X) where
  unfoldable pub announce : Payload → EventCorrelation → Async (AgentState X) (Unit {0})
  announce payload correlation = on_shared (emit host payload correlation)

  unfoldable pub emit_evaluation :
      EvaluationResult → EventCorrelation → Async (AgentState X) (Unit {0})
  emit_evaluation evaluation correlation =
      announce
        (evaluation_completed (record {
          evaluation_id = evaluation.evaluation_id;
          verdict = evaluation.verdict;
          checks_passed = length (keep (λ check. check.passed) evaluation.checks);
          checks_total = length evaluation.checks;
          gap_count = length evaluation.gaps;
          summary = evaluation.summary;
          tool_status = evaluation.tool_status;
          evaluator_name = truthy evaluation.evaluator_name;
        }))
        (record correlation { evaluation_id = some evaluation.evaluation_id })

  unfoldable pub complete_goal : String → Async (AgentState X) (Unit {0})
  complete_goal summary = do
    on_shared (on_working (set_current_task_id none))
    iterations ← gets (λ s. s.session.usage.iterations)
    announce (goal_completed summary iterations) no_correlation
    on_shared (finish host RunStatus.completed (some summary))

module _ {X : Type 0} (host : Host X) (c : RuntimeComponents X) where
  unfoldable pub write_record : MemoryRecord → EventCorrelation → Async (AgentState X) (Unit {0})
  write_record item correlation = do
    on_shared (c.put item)
    count memory_writes
    push_written (base_of item).record_id
    announce host (memory_written (base_of item).record_id (kind_of item) (base_of item).summary)
        (record correlation { memory_record_ids = some ((base_of item).record_id ∷ []) })
