-- ===== src/Session/Usage.antt =====
-- src/agent/runtime/run-usage.ts: the counters of a run, and the first limit that they reach.
pub mod Laws
use autonomous_agent.Common.{ℕ, ◌+◌, ◌-◌, Bool, Option, none, some, List, [], ◌∷◌, leb, find}
use autonomous_agent.Domain.Run.{RunLimits, RunUsage}
use autonomous_agent.Events.{
  LimitName, max_iterations, max_tool_calls, max_model_calls, max_total_tokens, max_duration_ms,
}

pub record LimitBreach : Type 0 where
  pub limit : LimitName
  pub value : ℕ
  pub bound : ℕ

-- the counters that `increment` may be given
pub data Counter : Type 0 where
  iterations tool_calls model_calls memory_reads memory_writes retries strategy_changes : Counter

unfoldable pub increment : Counter → RunUsage → RunUsage
increment iterations u = record u { iterations = u.iterations + 1 }
increment tool_calls u = record u { tool_calls = u.tool_calls + 1 }
increment model_calls u = record u { model_calls = u.model_calls + 1 }
increment memory_reads u = record u { memory_reads = u.memory_reads + 1 }
increment memory_writes u = record u { memory_writes = u.memory_writes + 1 }
increment retries u = record u { retries = u.retries + 1 }
increment strategy_changes u = record u { strategy_changes = u.strategy_changes + 1 }

unfoldable pub add_tokens : ℕ → ℕ → RunUsage → RunUsage
add_tokens input output u = record u {
  input_tokens = u.input_tokens + input;
  output_tokens = u.output_tokens + output;
}

-- the array of `breach()`, at an elapsed time
abbrev pub limit_checks : RunLimits → RunUsage → ℕ → List LimitBreach
limit_checks limits usage elapsed =
    record { limit = max_iterations; value = usage.iterations; bound = limits.max_iterations }
    ∷ record { limit = max_tool_calls; value = usage.tool_calls; bound = limits.max_tool_calls }
    ∷ record { limit = max_model_calls; value = usage.model_calls; bound = limits.max_model_calls }
    ∷ record {
      limit = max_total_tokens;
      value = usage.input_tokens + usage.output_tokens;
      bound = limits.max_total_tokens;
    }
    ∷ record { limit = max_duration_ms; value = elapsed; bound = limits.max_duration_ms }
    ∷ []

unfoldable pub breach : RunLimits → RunUsage → ℕ → Option LimitBreach
breach limits usage elapsed =
    find (λ check. leb check.bound check.value) (limit_checks limits usage elapsed)
