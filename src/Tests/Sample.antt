-- ===== src/Tests/Sample.antt =====
-- A small agent: a plan of one task, a selector that claims to be finished, and an evaluator that
-- agrees.
use autonomous_agent.Common.{ℕ, ◌+◌, String, true, false, none, some, List, [], ◌∷◌, ◌<>◌}
use autonomous_agent.Async.{pure, throw, error_of}
use autonomous_agent.Async.Moves.{Moves-pure, Moves-throw}
use autonomous_agent.Domain.Provenance.{empty_provenance, RunCorrelation}
use autonomous_agent.Domain.Plan.{Plan, PlanTask, PlanTaskStatus, pending}
use autonomous_agent.Domain.Run.{RunLimits}
use autonomous_agent.Domain.Outcome.{OutcomeVerdict}
use autonomous_agent.Domain.Tool.{AgentAction, Observation, ok}
use autonomous_agent.Domain.Value.{null}
use autonomous_agent.Domain.Goal.{Goal}
use autonomous_agent.Session.Working.{WorkingSnapshot}
use autonomous_agent.Events.{ToolStatusName}
use autonomous_agent.Memory.Retrieval.{RetrievalResult, RetrievalQuery}
use autonomous_agent.Session.Core.{Host, Shared, SessionOptions}
use autonomous_agent.Agent.Environment.{ExecutionEnvironment}
use autonomous_agent.Agent.Contracts.{RuntimeComponents, ActionSelection, EvaluationResult}
use autonomous_agent.Runtime.Frame.Quiet.{IsQuiet, Quiet-order}

-- identifiers count up, and the clock stands still
abbrev pub host : Host ℕ
host = record {
  next = λ prefix n. (prefix <> "-1", n + 1);
  now = λ n. ("2026-01-01", n);
  monotonic_ms = λ n. (0, n);
}

abbrev pub limits : RunLimits
limits = record {
  max_iterations = 2;
  max_tool_calls = 10;
  max_model_calls = 10;
  max_total_tokens = 100;
  max_duration_ms = 1000;
}

abbrev pub options : SessionOptions
options = record {
  goal_statement = "write a file";
  constraints = none;
  success_criteria = none;
  verifiable_criteria = none;
  limits = limits;
}

abbrev pub nowhere : RunCorrelation
nowhere = record { run_id = "run-1"; goal_id = "goal-1"; task_id = none }

abbrev pub task_named : String → PlanTaskStatus → List String → PlanTask
task_named id status depends = record {
  task_id = id;
  description = "write it";
  status = status;
  depends_on = depends;
  expected_evidence = [];
}

abbrev pub plan_of : List PlanTask → Plan
plan_of tasks = record {
  plan_id = "plan-1";
  run_id = "run-1";
  goal_id = "goal-1";
  version = 1;
  strategy = record {
    strategy_id = "strat-1";
    summary = "write";
    version = 1;
    supersedes = none;
    change_reason = none;
  };
  tasks = tasks;
  informed_by = empty_provenance;
  created_at = "2026-01-01";
  revision_reason = none;
}

abbrev pub plan : Plan
plan = plan_of (task_named "task-1" pending [] ∷ [])

abbrev pub action : AgentAction
action = record {
  action_id = "act-1";
  correlation = nowhere;
  plan_id = "plan-1";
  decision_id = none;
  tool_name = "fs.write";
  input = null;
  attempt = 1;
  retry_of = none;
  intent = "write";
  derived_from = empty_provenance;
  requested_at = "2026-01-01";
}

abbrev pub observation : Observation
observation = record {
  observation_id = "obs-1";
  action_id = "act-1";
  correlation = nowhere;
  tool_result = record {
    tool_name = "fs.write";
    action_id = "act-1";
    started_at = "2026-01-01";
    finished_at = "2026-01-01";
    duration_ms = 1;
    status = ok null none;
  };
  artifacts = [];
  summary = "written";
  observed_at = "2026-01-01";
}

abbrev pub agreement : EvaluationResult
agreement = record {
  evaluation_id = "eval-1";
  correlation = nowhere;
  verdict = OutcomeVerdict.success;
  evaluator_name = none;
  checks = [];
  gaps = [];
  summary = "done";
  tool_status = ToolStatusName.no_tool;
  derived_from = empty_provenance;
  evaluated_at = "2026-01-01";
}

abbrev pub nothing_found : RetrievalQuery → RetrievalResult
nothing_found query = record {
  retrieval_id = query.retrieval_id;
  query = query;
  hits = [];
  signals_used = [];
  degraded = none;
  dropped = none;
  candidate_count = none;
  unmatched_count = none;
  suppressed = false;
  started_at = "2026-01-01";
  finished_at = "2026-01-01";
  duration_ms = 0;
}

abbrev pub environment : ExecutionEnvironment (Shared ℕ)
environment = record {
  descriptor = record { provider = "local"; environment_id = "env-1" };
  run_command = λ command. pure (record {
    command = command;
    exit_code = some 0;
    stdout = "";
    stderr = "";
    duration_ms = 1;
    timed_out = false;
  });
  read_file = λ path. pure "{}";
  file_exists = λ path. pure true;
}

abbrev pub goal : Goal
goal = record {
  goal_id = "goal-1";
  run_id = "run-1";
  statement = "write a report";
  constraints = [];
  success_criteria = [];
  verifiable_criteria = none;
  received_at = "2026-01-01";
}

abbrev pub no_snapshot : WorkingSnapshot
no_snapshot = record {
  run_id = "run-1";
  goal = goal;
  plan = none;
  current_task_id = none;
  observations = [];
  retrievals = [];
  notes = [];
}

abbrev pub components : RuntimeComponents ℕ
components = record {
  create_plan = λ i. pure plan;
  revise_plan = λ i. pure plan;
  select_next = λ i. pure (ActionSelection.finish "all done");
  execute = λ a. pure observation;
  evaluate = λ i. pure agreement;
  learn = λ i. throw (error_of "nothing learned");
  ingest = none;
  put = λ r. pure tt;
  retrieve = λ q. pure (nothing_found q);
  describe_all = [];
  environment = environment;
}

pub components-IsQuiet : IsQuiet components
components-IsQuiet = record {
  create_plan = λ i. Moves-pure Quiet-order _;
  revise_plan = λ i. Moves-pure Quiet-order _;
  select_next = λ i. Moves-pure Quiet-order _;
  execute = λ a. Moves-pure Quiet-order _;
  evaluate = λ i h. Moves-pure Quiet-order _;
  learn = λ i. Moves-throw Quiet-order _;
  ingest = λ f h i. cc;
  put = λ r. Moves-pure Quiet-order _;
  retrieve = λ q. Moves-pure Quiet-order _;
  surroundings = record {
    file_exists = λ path. Moves-pure Quiet-order _;
    read_file = λ path. Moves-pure Quiet-order _;
    run_command = λ command. Moves-pure Quiet-order _;
  };
}
