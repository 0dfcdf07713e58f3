-- ===== src/Agent/Environment.antt =====
-- src/sandbox/execution-environment.ts: the boundary to the place where actions run, as an interface
-- over the state `S` in which its calls run.
use autonomous_agent.Common.{ℕ, String, Bool, Option}
use autonomous_agent.Async.{Async}

-- `exit_code` is `none` (null) when the process was terminated before it could exit
pub record CommandResult : Type 0 where
  pub command : String
  pub exit_code : Option ℕ
  pub stdout : String
  pub stderr : String
  pub duration_ms : ℕ
  pub timed_out : Bool

pub record EnvironmentDescriptor : Type 0 where
  pub provider : String
  pub environment_id : String

-- the calls that the runtime, the evaluator and the archive make
pub record ExecutionEnvironment (S : Type 0) : Type 0 where
  pub descriptor : EnvironmentDescriptor
  pub run_command : String → Async S CommandResult
  pub read_file : String → Async S String
  pub file_exists : String → Async S Bool
