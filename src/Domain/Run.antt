-- ===== src/Domain/Run.antt =====
-- src/domain/run.ts. Limits and counters are natural numbers.
use autonomous_agent.Common.{ℕ, String, Option}

pub record RunLimits : Type 0 where
  pub max_iterations : ℕ
  pub max_tool_calls : ℕ
  pub max_model_calls : ℕ
  pub max_total_tokens : ℕ
  pub max_duration_ms : ℕ

pub data RunStatus : Type 0 where
  created running completed gave_up failed limit_reached stopped : RunStatus

pub record RunUsage : Type 0 where
  pub iterations : ℕ
  pub tool_calls : ℕ
  pub model_calls : ℕ
  pub input_tokens : ℕ
  pub output_tokens : ℕ
  pub memory_reads : ℕ
  pub memory_writes : ℕ
  pub retries : ℕ
  pub strategy_changes : ℕ

pub record RunState : Type 0 where
  pub run_id : String
  pub goal_id : String
  pub status : RunStatus
  pub limits : RunLimits
  pub usage : RunUsage
  pub started_at : String
  pub finished_at : Option String
  pub termination_reason : Option String

abbrev pub zero_usage : RunUsage
zero_usage = record {
  iterations = 0;
  tool_calls = 0;
  model_calls = 0;
  input_tokens = 0;
  output_tokens = 0;
  memory_reads = 0;
  memory_writes = 0;
  retries = 0;
  strategy_changes = 0;
}
