-- ===== src/Session/Core.antt =====
-- `RunSession` of src/agent/runtime/run-session.ts, with `RunEventFactory` of src/events/factory.ts.
use autonomous_agent.Common.{
  ℕ, ◌+◌, ◌-◌, String, Bool, true, false, Option, none, some, List, [], ◌∷◌, truthy, or_else,
}
use autonomous_agent.Async.{Async, fulfilled, ◌>>◌}
use autonomous_agent.Domain.Provenance.{RunCorrelation}
use autonomous_agent.Domain.Goal.{Goal, VerifiableCriterion}
use autonomous_agent.Domain.Run.{RunLimits, RunStatus, RunUsage, RunState, zero_usage}
use autonomous_agent.Domain.Thrown.{ModelErrorKind}
use autonomous_agent.Events.{
  AgentEvent, Payload, EventCorrelation, no_correlation, ModelCallId, FinishReason,
  model_call_started, model_call_completed, model_call_failed,
}
use autonomous_agent.Session.Usage.{
  Counter, increment, add_tokens, LimitBreach, breach, model_calls,
}
use autonomous_agent.Session.Working.{Working, new_working}

-- `IdGenerator` and `Clock`: both always answer
pub record Host (X : Type 0) : Type 0 where
  pub next : String → X → String × X
  pub now : X → String × X
  pub monotonic_ms : X → ℕ × X

-- The fields of `RunSession`, of its `RunUsageTracker` (`limits`, `usage`, `started_ms`) and of its
-- `RunEventFactory` (`sequence`), and the events that its sink has received, the newest first.
pub record Session : Type 0 where
  pub run_id : String
  pub goal : Goal
  pub started_at : String
  pub status : RunStatus
  pub termination_reason : Option String
  pub finished_at : Option String
  pub limits : RunLimits
  pub usage : RunUsage
  pub started_ms : ℕ
  pub sequence : ℕ
  pub emitted : List AgentEvent
  pub working : Working

pub record Shared (X : Type 0) : Type 0 where
  pub session : Session
  pub outside : X

pub record SessionOptions : Type 0 where
  pub goal_statement : String
  pub constraints : Option (List String)
  pub success_criteria : Option (List String)
  pub verifiable_criteria : Option (List VerifiableCriterion)
  pub limits : RunLimits

abbrev pub is_terminal : RunStatus → Bool
is_terminal RunStatus.created = false
is_terminal RunStatus.running = false
is_terminal _ = true

module _ {X : Type 0} (host : Host X) where
  -- `new RunSession(options)`
  unfoldable pub start_session : SessionOptions → X → Shared X
  start_session options x0 =
      let (run_id, x1) = host.next "run" x0 in
      let (goal_id, x2) = host.next "goal" x1 in
      let (started_at, x3) = host.now x2 in
      let (started_ms, x4) = host.monotonic_ms x3 in
      let goal : Goal = record {
        goal_id = goal_id;
        run_id = run_id;
        statement = options.goal_statement;
        constraints = or_else options.constraints [];
        success_criteria = or_else options.success_criteria [];
        verifiable_criteria = options.verifiable_criteria;
        received_at = started_at;
      } in
      record {
        session = record {
          run_id = run_id;
          goal = goal;
          started_at = started_at;
          status = RunStatus.created;
          termination_reason = none;
          finished_at = none;
          limits = options.limits;
          usage = zero_usage;
          started_ms = started_ms;
          sequence = 0;
          emitted = [];
          working = new_working goal;
        };
        outside = x4;
      }

  -- `this.ids.next(prefix)`, `this.clock.now()`
  unfoldable pub next_id : String → Async (Shared X) String
  next_id prefix s =
      let (id, x) = host.next prefix s.outside in (fulfilled id, record s { outside = x })

  unfoldable pub clock_now : Async (Shared X) String
  clock_now s = let (t, x) = host.now s.outside in (fulfilled t, record s { outside = x })

  unfoldable pub clock_ms : Async (Shared X) ℕ
  clock_ms s = let (t, x) = host.monotonic_ms s.outside in (fulfilled t, record s { outside = x })

  -- `RunEventFactory.create`, then `events.emit`
  unfoldable pub emit : Payload → EventCorrelation → Async (Shared X) (Unit {0})
  emit payload correlation s =
      let (event_id, x1) = host.next "evt" s.outside in
      let (timestamp, x2) = host.now x1 in
      let event : AgentEvent = record {
        schema_version = 1;
        event_id = event_id;
        sequence = s.session.sequence + 1;
        timestamp = timestamp;
        run_id = s.session.run_id;
        goal_id = some s.session.goal.goal_id;
        correlation = correlation;
        payload = payload;
      } in
      (
        fulfilled tt,
        record {
          session = record s.session {
            sequence = s.session.sequence + 1;
            emitted = event ∷ s.session.emitted;
          };
          outside = x2;
        },
      )

  -- `usage.breach()`, which reads the clock
  unfoldable pub usage_breach : Async (Shared X) (Option LimitBreach)
  usage_breach s =
      let (t, x) = host.monotonic_ms s.outside in
      (
        fulfilled (breach s.session.limits s.session.usage (t - s.session.started_ms)),
        record s { outside = x },
      )

  unfoldable pub finish : RunStatus → Option String → Async (Shared X) (Unit {0})
  finish status reason s =
      let (t, x) = host.now s.outside in
      (
        fulfilled tt,
        record {
          session = record s.session {
            status = status;
            finished_at = some t;
            termination_reason = reason;
          };
          outside = x;
        },
      )

module _ {X : Type 0} where
  unfoldable pub on_session : (Session → Session) → Async (Shared X) (Unit {0})
  on_session f s = (fulfilled tt, record s { session = f s.session })

  -- `usage.increment(counter)`
  unfoldable pub count_one : Counter → Async (Shared X) (Unit {0})
  count_one counter = on_session (λ r. record r { usage = increment counter r.usage })

  -- a call of a method of `working`
  unfoldable pub on_working : (Working → Working) → Async (Shared X) (Unit {0})
  on_working f = on_session (λ r. record r { working = f r.working })

  unfoldable pub mark_running : Async (Shared X) (Unit {0})
  mark_running = on_session (λ r. record r { status = RunStatus.running })

  abbrev pub is_finished : Shared X → Bool
  is_finished s = is_terminal s.session.status

unfoldable pub correlation : Session → RunCorrelation
correlation r = record {
  run_id = r.run_id;
  goal_id = r.goal.goal_id;
  task_id = truthy r.working.current_task_id;
}

-- an empty time or reason is left out
unfoldable pub run_state : Session → RunState
run_state r = record {
  run_id = r.run_id;
  goal_id = r.goal.goal_id;
  status = r.status;
  limits = r.limits;
  usage = r.usage;
  started_at = r.started_at;
  finished_at = truthy r.finished_at;
  termination_reason = truthy r.termination_reason;
}

abbrev call_correlation : ModelCallId → EventCorrelation
call_correlation call = record no_correlation { model_call_id = some call.model_call_id }

module _ {X : Type 0} (host : Host X) where
  unfoldable pub record_model_call_started : ModelCallId → Async (Shared X) (Unit {0})
  record_model_call_started call = do
    count_one model_calls
    emit host (model_call_started call) (call_correlation call)

  -- the input and output tokens, whether they were reported, the latency, the finish reason
  unfoldable pub record_model_call :
      ModelCallId → ℕ → ℕ → Option Bool → ℕ → FinishReason → Async (Shared X) (Unit {0})
  record_model_call call input output reported latency reason = do
    on_session (λ r. record r { usage = add_tokens input output r.usage })
    emit host (model_call_completed call input output (or_else reported true) latency reason)
        (call_correlation call)

  -- the latency, the kind of error, its message, whether it is retryable
  unfoldable pub record_model_call_failed :
      ModelCallId → ℕ → ModelErrorKind → String → Bool → Async (Shared X) (Unit {0})
  record_model_call_failed call latency kind message retryable =
      emit host (model_call_failed call latency kind message retryable) (call_correlation call)
