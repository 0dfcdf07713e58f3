-- ===== src/Runtime/Loop.antt =====
-- `iterate`, `verifyFinishClaim`, `loop` and `run` of src/agent/runtime/agent-runtime.ts. The `while`
-- of `loop` takes fuel; the limit on the iterations bounds its rounds.
use autonomous_agent.Common.{
  ℕ, zero, suc, ◌+◌, String, true, false, Option, none, some, List, [], ◌<>◌, decimal,
  if◌then◌else◌, or_else,
}
use autonomous_agent.Async.{Settled, settle, fulfilled, Async, gets, catch, when_true, ◌>>=◌, ◌>>◌}
use autonomous_agent.Domain.Thrown.{Thrown}
use autonomous_agent.Domain.Outcome.{is_success}
use autonomous_agent.Domain.Plan.{Plan, PlanTask, PlanTaskStatus}
use autonomous_agent.Domain.Run.{RunStatus, RunState}
use autonomous_agent.Events.{
  LimitName, no_correlation, goal_received, goal_failed, run_limit_reached, FailureCause,
}
use autonomous_agent.Session.Usage.{LimitBreach, iterations}
use autonomous_agent.Session.Working.{snapshot, set_current_task_id}
use autonomous_agent.Session.Core.{
  Host, Shared, is_terminal, finish, usage_breach, on_working, mark_running, run_state,
}
use autonomous_agent.Agent.Contracts.{
  RuntimeComponents, ActionSelection, act, give_up, TaskAttempt, EvaluationResult,
}
use autonomous_agent.Runtime.PlanTasks.{
  next_task, is_pending, with_task_status, with_remaining_tasks_skipped,
}
use autonomous_agent.Runtime.State.{
  AgentState, on_shared, count, put_plan, require_plan, announce, emit_evaluation, complete_goal,
  attempts_of, describe_unrecoverable,
}
use autonomous_agent.Runtime.Retrieve.{retrieve_memory}
use autonomous_agent.Runtime.Planning.{create_initial_plan, handle_failure}
use autonomous_agent.Runtime.Attempt.{attempt}

abbrev limit_name : LimitName → String
limit_name LimitName.max_iterations = "maxIterations"
limit_name LimitName.max_tool_calls = "maxToolCalls"
limit_name LimitName.max_model_calls = "maxModelCalls"
limit_name LimitName.max_total_tokens = "maxTotalTokens"
limit_name LimitName.max_duration_ms = "maxDurationMs"

abbrev limit_reason : LimitBreach → String
limit_reason b =
    "Run limit "
    <> limit_name b.limit
    <> " reached ("
    <> decimal b.value
    <> "/"
    <> decimal b.bound
    <> ")"

pub record RunOutcome : Type 0 where
  pub state : RunState
  pub final_plan : Option Plan
  pub written_record_ids : List String
  pub lesson_ids : List String

module _ {X : Type 0} (host : Host X) (c : RuntimeComponents X) where
  -- what follows from the verdict on the claim
  unfoldable pub after_claim : Plan → String → EvaluationResult → Async (AgentState X) (Unit {0})
  after_claim plan summary evaluation =
      if is_success evaluation.verdict
      then (do put_plan (with_remaining_tasks_skipped plan); complete_goal host summary)
      else handle_failure host c evaluation (record no_correlation { plan_id = some plan.plan_id })

  -- The model claimed the goal is done.
  unfoldable pub verify_finish_claim : String → Async (AgentState X) (Unit {0})
  verify_finish_claim summary = do
    plan ← require_plan
    run ← gets (λ s. s.session)
    evaluation ← on_shared (
        c.evaluate (record {
          goal = run.goal;
          task = none;
          action = none;
          observations = (snapshot run.working).observations;
          correlation = record { run_id = run.run_id; goal_id = run.goal.goal_id; task_id = none };
          environment = some c.environment;
        }))
    emit_evaluation host evaluation (record no_correlation { plan_id = some plan.plan_id })
    after_claim plan summary evaluation

  -- the case `give_up` of `iterate`
  unfoldable pub abandon : String → Async (AgentState X) (Unit {0})
  abandon reason = do
    used ← gets (λ s. s.session.usage.iterations)
    announce host (goal_failed reason used FailureCause.gave_up) no_correlation
    on_shared (finish host RunStatus.gave_up (some reason))

  -- the switch of `iterate`
  unfoldable pub follow :
      PlanTask → List TaskAttempt → ActionSelection → Async (AgentState X) (Unit {0})
  follow task previous (give_up reason) = abandon reason
  follow task previous (ActionSelection.finish summary) = verify_finish_claim summary
  follow task previous (act action decision) = attempt host c task previous action decision

  unfoldable pub iterate : PlanTask → Async (AgentState X) (Unit {0})
  iterate task = do
    previous ← gets (λ s. attempts_of s.attempts task.task_id)
    plan ← require_plan
    s ← gets (λ s. s)
    selection ← on_shared (
        c.select_next (record {
          goal = s.session.goal;
          plan = plan;
          task = task;
          previous_attempts = previous;
          working = snapshot s.session.working;
          retrievals = s.retrievals;
          available_tools = c.describe_all;
        }))
    follow task previous selection

  -- the branch of `loop` for a limit that is reached
  unfoldable pub stop_at_limit : LimitBreach → Async (AgentState X) (Unit {0})
  stop_at_limit b = do
    announce host (run_limit_reached b.limit b.value b.bound) no_correlation
    on_shared (finish host RunStatus.limit_reached (some (limit_reason b)))

  -- the rest of a round of `loop`, with the next task
  unfoldable pub pick_up : Plan → PlanTask → Async (AgentState X) (Unit {0})
  pick_up plan task = do
    on_shared (on_working (set_current_task_id (some task.task_id)))
    when_true (is_pending task.status)
        (put_plan (with_task_status plan task.task_id PlanTaskStatus.in_progress))
    iterate (record task { status = PlanTaskStatus.in_progress })

  unfoldable pub work_on : Plan → PlanTask → Async (AgentState X) (Unit {0})
  work_on plan task = do count iterations; pick_up plan task

  unfoldable pub take_task : Plan → Option PlanTask → Async (AgentState X) (Unit {0})
  take_task plan none =
      complete_goal host "All planned tasks were completed and confirmed by evaluation"
  take_task plan (some task) = work_on plan task

  -- the round of `loop` in which no limit is reached
  unfoldable pub advance : Async (AgentState X) (Unit {0})
  advance = do plan ← require_plan; take_task plan (next_task plan)

  unfoldable pub stop_or_advance : Option LimitBreach → Async (AgentState X) (Unit {0})
  stop_or_advance (some b) = stop_at_limit b
  stop_or_advance none = advance

  -- one round of `loop`
  unfoldable pub round : Async (AgentState X) (Unit {0})
  round = do reached ← on_shared (usage_breach host); stop_or_advance reached

  unfoldable pub loop : ℕ → Async (AgentState X) (Unit {0})
  loop zero s = (fulfilled tt, s)
  loop (suc fuel) s = elim (is_terminal s.session.status) [
    | true ↦ (fulfilled tt, s)
    | false ↦ (round >> loop fuel) s
  ]

  -- the handler of `run`
  unfoldable pub fail_run : Thrown → Async (AgentState X) (Unit {0})
  fail_run e s = elim (is_terminal s.session.status) [
    | true ↦ (fulfilled tt, s)
    | false ↦
        (do
          reason ← settle (describe_unrecoverable e)
          used ← gets (λ t. t.session.usage.iterations)
          announce host (goal_failed reason used FailureCause.unrecoverable) no_correlation
          on_shared (finish host RunStatus.failed (some reason)))
          s
  ]

  -- the body of the `try` of `run`
  unfoldable pub pursue : ℕ → ℕ → String → Async (AgentState X) (Unit {0})
  pursue fuel limit statement = do
    retrieve_memory host c limit statement
    create_initial_plan host c
    loop fuel

  unfoldable pub run_with : ℕ → ℕ → Async (AgentState X) (Unit {0})
  run_with fuel limit = do
    on_shared mark_running
    statement ← gets (λ s. s.session.goal.statement)
    announce host (goal_received statement) no_correlation
    catch (pursue fuel limit statement) fail_run

abbrev pub new_agent : {X : Type 0} → Shared X → AgentState X
new_agent shared = record {
  shared = shared;
  plan = none;
  retrievals = [];
  attempts = [];
  written = [];
  lessons = [];
}

abbrev pub outcome_of : {X : Type 0} → AgentState X → RunOutcome
outcome_of s = record {
  state = run_state s.session;
  final_plan = s.plan;
  written_record_ids = s.written;
  lesson_ids = s.lessons;
}

-- `new AgentRuntime(components, options).run()` on a session, with the fuel that the limit on the
-- iterations asks for: what the session and the runtime have come to
unfoldable pub run :
    {X : Type 0} (host : Host X) (c : RuntimeComponents X) → Option ℕ → Shared X → AgentState X
run host c limit shared =
    (run_with host c (shared.session.limits.max_iterations + 1) (or_else limit 5)
      (new_agent shared)).1

-- and what the promise of `run` settles to
unfoldable pub run_answer :
    {X : Type 0} (host : Host X) (c : RuntimeComponents X)
    → Option ℕ
    → Shared X
    → Settled RunOutcome
run_answer host c limit shared =
    ((do
      run_with host c (shared.session.limits.max_iterations + 1) (or_else limit 5)
      gets outcome_of)
      (new_agent shared)).0
