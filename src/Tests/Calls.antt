-- ===== src/Tests/Calls.antt =====
-- The theorems on evaluation and on the calls of the model, applied to concrete values.
use autonomous_agent.Common.{
  false, arith, ℕ, ◌+◌, ◌*◌, ◌≡◌, ◌↔◌, refl, String, true, Option, none, some, List, [], ◌∷◌, all,
}
use autonomous_agent.Async.{Settled, fulfilled, rejected, ◌>>=◌, catch}
use autonomous_agent.Async.Returns.{Returns}
use autonomous_agent.Domain.Value.{Value, null, no_members, obj}
use autonomous_agent.Domain.Thrown.{Thrown, model_error, timeout}
use autonomous_agent.Domain.Goal.{Goal, VerifiableCriterion, file_exists}
use autonomous_agent.Session.Core.{Shared}
use autonomous_agent.Agent.Contracts.{EvaluationScope}
use autonomous_agent.Evaluation.Checks.{json_check, has_key}
use autonomous_agent.Evaluation.Checked.{World}
use autonomous_agent.Evaluation.Laws.{json_check-passed_iff}
use autonomous_agent.Events.{FinishReason, ModelCallPurpose}
use autonomous_agent.Models.Contracts.{
  ModelResponseBase, ModelProvider, ModelRequest, StructuredModelRequest, parse_fail,
  is_retryable_model_error,
}
use autonomous_agent.Models.Resilient.{
  structured_generate, ask_loop, retry_loop, call_next, accept_or_ask_again, retry_after_sleep,
  render_raw, with_correction, ResilienceOptions, with_retries,
}
use autonomous_agent.Models.Resilient.Attempts.{Costs, structured_generate-Costs}
use autonomous_agent.Models.Resilient.Recovery.{
  scripted, answered, retried, after, with_retries-Course,
}
use autonomous_agent.Tests.Sample.{nowhere, observation, environment}

abbrev criterion : VerifiableCriterion
criterion = file_exists "report.md"

abbrev goal : Goal
goal = record {
  goal_id = "goal-1";
  run_id = "run-1";
  statement = "write a report";
  constraints = [];
  success_criteria = "it reads well" ∷ [];
  verifiable_criteria = some (criterion ∷ []);
  received_at = "2026-01-01";
}

abbrev scope : EvaluationScope (Shared ℕ)
scope = record {
  goal = goal;
  task = none;
  action = none;
  observations = observation ∷ [];
  correlation = nowhere;
  environment = some environment;
}

abbrev no_json : String → Option Value
no_json text = none

abbrev no_number : String → Option ℕ
no_number text = none

-- what the environment of the sample says
abbrev world : World
world = record {
  exists = λ path. true;
  content = λ path. "{}";
  result = λ command. record {
    command = command;
    exit_code = some 0;
    stdout = "";
    stderr = "";
    duration_ms = 1;
    timed_out = false;
  };
}

json_check-passed_iff_example :
    ((json_check "a.json" (some ("toString" ∷ [])) (some (obj no_members))).passed ≡ true)
    ↔ (all (has_key no_members) ("toString" ∷ []) ≡ true)
json_check-passed_iff_example = json_check-passed_iff "a.json" "toString" [] no_members

-- An empty object passes the check for a key that it only inherits.
inherited_key_test :
    (json_check "a.json" (some ("toString" ∷ [])) (some (obj no_members))).passed ≡ true
unfolding json_check
inherited_key_test = refl

-- a provider that times out once and then answers
abbrev timed_out : Thrown
timed_out = record { class = model_error timeout none; message = "timed out"; errors = none }

abbrev patience : {S : Type 0} → ResilienceOptions S
patience = record {
  max_retries = 2;
  max_reasks = 1;
  base_delay_ms = 500;
  max_delay_ms = 8000;
  sleep = λ ms s. (fulfilled tt, s);
}

abbrev outcomes : List (Settled ℕ)
outcomes = rejected timed_out ∷ fulfilled 7 ∷ []

timed_out_test : is_retryable_model_error timed_out ≡ true
unfolding is_retryable_model_error
timed_out_test = refl

with_retries-Course_example :
    with_retries patience scripted
      (record { current = 0; inner = record { ahead = outcomes; attempts = [] } })
    ≡ (fulfilled 7, after patience 0 outcomes [] [])
with_retries-Course_example =
    with_retries-Course patience 0 outcomes [] (fulfilled 7) [] (λ ms s. refl)
      (retried timed_out timed_out_test (answered 7))

abbrev base : ModelResponseBase
base = record {
  model_call_id = "call-1";
  descriptor = record { provider = "p"; model = "m" };
  usage = record { input_tokens = 1; output_tokens = 1; reported = none };
  latency_ms = 1;
  finish_reason = FinishReason.stop;
}

-- a provider whose structured answers are always invalid
abbrev stubborn : ModelProvider ℕ ℕ
stubborn = record {
  descriptor = base.descriptor;
  generate = λ r n. (fulfilled (record { base = base; text = "" }), n + 1);
  structured_generate = λ r n.
      (fulfilled (record { base = base; parsed = parse_fail ("no" ∷ []); raw = null }), n + 1);
  request_tool_action = λ r n. (rejected timed_out, n + 1);
}

abbrev request : ModelRequest
request = record {
  purpose = ModelCallPurpose.create_plan;
  messages = [];
  temperature = none;
  max_output_tokens = none;
  attempt = none;
}

abbrev structured : StructuredModelRequest ℕ
structured = record { request = request; schema = null; parse = λ v. parse_fail ("no" ∷ []) }

-- the state of `stubborn` counts its calls
stubborn_once : (r : StructuredModelRequest ℕ) → Costs (λ n. n) 1 (stubborn.structured_generate r)
stubborn_once r = record { upper = λ n. omega arith }

patience_sleeps : (ms : ℕ) → Costs (λ n. n) 0 ((patience {S = ℕ}).sleep ms)
patience_sleeps ms = record { upper = λ n. omega arith }

structured_generate-Costs_example :
    Costs (λ n. n) ((1 + 1) * (2 + 1)) (structured_generate patience stubborn structured)
structured_generate-Costs_example =
    structured_generate-Costs (λ n. n) patience stubborn patience_sleeps stubborn_once structured

-- Two attempts, the first a re-asked answer, are two calls of the provider.
stubborn_test : (structured_generate patience stubborn structured 0).1 ≡ 2
unfolding structured_generate ask_loop with_retries retry_loop call_next accept_or_ask_again ◌>>=◌
    catch retry_after_sleep render_raw with_correction
stubborn_test = refl
