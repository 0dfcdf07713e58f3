-- ===== src/Tests/Planning.antt =====
-- The theorems on the planner, its parsers and the creation of a run, applied to a concrete model.
use autonomous_agent.Common.{ℕ, String, true, false, ◌≡◌, refl, Option, none, some, [], ◌∷◌}
use autonomous_agent.Async.{pure, throw, error_of}
use autonomous_agent.Async.Moves.{Moves-pure, Moves-throw}
use autonomous_agent.Domain.Value.{
  Value, bool, str, arr, obj, element, no_elements, member, no_members,
}
use autonomous_agent.Events.{FinishReason}
use autonomous_agent.Session.Core.{Shared, start_session}
use autonomous_agent.Models.Contracts.{ModelProvider, ModelResponseBase, parse_ok}
use autonomous_agent.Agent.Contracts.{PlanningInput, RevisionInput}
use autonomous_agent.Agent.Proposal.{PlanProposal, RevisionProposal, parse_plan_proposal}
use autonomous_agent.Agent.Proposal.Laws.{IsPlan, encode_plan, parse_plan_proposal-encode}
use autonomous_agent.Agent.Proposal.Accepted.{parse_plan_proposal-IsPlan}
use autonomous_agent.Agent.Planner.Plans.{Plans}
use autonomous_agent.Models.Resilient.{resilience_of}
use autonomous_agent.Runtime.Frame.Quiet.{IsQuiet, Quiet-order}
use autonomous_agent.Runtime.Creation.{RunConfig, components_of, autonomous_run}
use autonomous_agent.Runtime.Creation.Laws.{
  IsQuietConfig, IsOrderly, components_of-IsQuiet, autonomous_run-IsOrderly,
}
use autonomous_agent.Tests.Sample.{
  host, options, plan, goal, no_snapshot, components-IsQuiet, environment, agreement, nothing_found,
}
use autonomous_agent.Tests.Acts.{registry, get_any-IsHarmless}

abbrev proposal : PlanProposal
proposal = record {
  strategy_summary = "write, then check";
  tasks =
      record { task_id = some "task-1"; description = "write"; expected_evidence = "a file" ∷ [] }
      ∷ record { task_id = none; description = "check"; expected_evidence = [] }
      ∷ [];
  cited_memory_record_ids = "mem-1" ∷ [];
}

proposal-IsPlan : IsPlan proposal
proposal-IsPlan = record {
  summarised = λ h. cc;
  nonempty = λ h. cc;
  writable = ((λ h. cc, refl), ((λ h. cc, refl), tt));
}

parse_plan_proposal-encode_example : parse_plan_proposal (encode_plan proposal) ≡ parse_ok proposal
parse_plan_proposal-encode_example = parse_plan_proposal-encode proposal proposal-IsPlan

parse_plan_proposal-IsPlan_example : IsPlan proposal
parse_plan_proposal-IsPlan_example =
    parse_plan_proposal-IsPlan (encode_plan proposal) proposal parse_plan_proposal-encode_example

abbrev answer_base : ModelResponseBase
answer_base = record {
  model_call_id = "mc-1";
  descriptor = record { provider = "test"; model = "m" };
  usage = record { input_tokens = 1; output_tokens = 1; reported = none };
  latency_ms = 1;
  finish_reason = FinishReason.stop;
}

-- a model that always writes the plan
abbrev planner_model : ModelProvider (Shared ℕ) PlanProposal
planner_model = record {
  descriptor = record { provider = "test"; model = "m" };
  generate = λ r. throw (error_of "no text");
  structured_generate = λ r. pure (record {
    base = answer_base;
    parsed = r.parse (encode_plan proposal);
    raw = encode_plan proposal;
  });
  request_tool_action = λ r. throw (error_of "no action");
}

abbrev written_revision : Value
written_revision = obj (
    member "strategySummary" (str "check again") (
      member "tasks"
        (arr (
          element
            (obj (
              member "description" (str "check")
                (member "expectedEvidence" (arr no_elements) no_members)))
            no_elements))
        (member "strategyChanged" (bool true) (
          member "changeReason" (str "writing alone failed")
            (member "revisionReason" (str "the check failed") no_members)))))

abbrev reviser_model : ModelProvider (Shared ℕ) RevisionProposal
reviser_model = record {
  descriptor = record { provider = "test"; model = "m" };
  generate = λ r. throw (error_of "no text");
  structured_generate = λ r.
      pure (record {
        base = answer_base;
        parsed = r.parse (written_revision);
        raw = written_revision;
      });
  request_tool_action = λ r. throw (error_of "no action");
}

abbrev started : Shared ℕ
started = start_session host options 0

abbrev planning : PlanningInput
planning = record { goal = goal; working = no_snapshot; retrievals = []; available_tools = [] }

abbrev revision : RevisionInput
revision = record { planning = planning; previous_plan = plan; triggering_evaluations = [] }

abbrev config : RunConfig ℕ
config = record {
  session = options;
  retrieval_limit = none;
  memory_off = false;
  plan_model = planner_model;
  revision_model = reviser_model;
  tools = registry;
  environment = environment;
  evaluate = λ i. pure agreement;
  put = λ r. pure tt;
  retrieve = λ q. pure (nothing_found q);
  ingestor = none;
  resilience = record {
    max_retries = some 1;
    max_reasks = none;
    base_delay_ms = none;
    max_delay_ms = none;
    sleep = none;
  };
  timer = λ ms. pure tt;
}

abbrev no_host : String → Option String
no_host url = none

config-IsQuietConfig : IsQuietConfig config
unfolding resilience_of
config-IsQuietConfig = record {
  plan_model = λ r. Moves-pure Quiet-order _;
  revision_model = λ r. Moves-pure Quiet-order _;
  actions = λ r. Moves-throw Quiet-order _;
  sleep = λ ms. Moves-pure Quiet-order _;
  tools = get_any-IsHarmless;
  evaluate = λ i h. Moves-pure Quiet-order _;
  put = λ r. Moves-pure Quiet-order _;
  retrieve = λ q. Moves-pure Quiet-order _;
  ingestor = λ f h i. cc;
  surroundings = components-IsQuiet.surroundings;
}

components_of-IsQuiet_example : IsQuiet (components_of host no_host config)
components_of-IsQuiet_example = components_of-IsQuiet host no_host config config-IsQuietConfig

autonomous_run-IsOrderly_example :
    IsOrderly host no_host config 0 (autonomous_run host no_host config 0)
autonomous_run-IsOrderly_example =
    autonomous_run-IsOrderly host no_host config config-IsQuietConfig 0
