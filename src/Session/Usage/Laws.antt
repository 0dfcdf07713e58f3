-- ===== src/Session/Usage/Laws.antt =====
-- When a limit of a run is reached.
use autonomous_agent.Common.{ℕ, ◌+◌, ◌≤◌, ◌<◌, ◌≡◌, ◌↔◌, none, some, arith}
use autonomous_agent.Domain.Run.{RunLimits, RunUsage}
use autonomous_agent.Session.Usage.{LimitBreach, breach}

pub record IsWithin (limits : RunLimits) (usage : RunUsage) (elapsed : ℕ) : Type 0 where
  pub iterations : usage.iterations < limits.max_iterations
  pub tool_calls : usage.tool_calls < limits.max_tool_calls
  pub model_calls : usage.model_calls < limits.max_model_calls
  pub tokens : usage.input_tokens + usage.output_tokens < limits.max_total_tokens
  pub duration : elapsed < limits.max_duration_ms

-- `breach` reports nothing exactly when every counter is below its limit.
pub breach-none_iff :
    (limits : RunLimits) (usage : RunUsage) (elapsed : ℕ)
    → (breach limits usage elapsed ≡ none) ↔ IsWithin limits usage elapsed
unfolding breach
breach-none_iff limits usage elapsed = (λ e. ground arith, λ w. ground arith)

-- What `breach` reports has reached its bound.
pub breach-reached :
    (limits : RunLimits) (usage : RunUsage) (elapsed : ℕ) {b : LimitBreach}
    → breach limits usage elapsed ≡ some b
    → b.bound ≤ b.value
unfolding breach
breach-reached limits usage elapsed e = ground arith
