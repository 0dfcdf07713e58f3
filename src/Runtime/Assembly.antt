-- ===== src/Runtime/Assembly.antt =====
-- The part of `createAutonomousRun` (src/agent/runtime/create-run.ts) that gives the runtime its
-- executor and its tools, with the evaluator that src/composition/local-docker-run.ts chooses.
use autonomous_agent.Common.{ℕ, ◌≡◌, String, Option, some}
use autonomous_agent.Domain.Value.{Value}
use autonomous_agent.Session.Core.{Host, Shared}
use autonomous_agent.Agent.Contracts.{RuntimeComponents}
use autonomous_agent.Agent.Executor.{execute}
use autonomous_agent.Agent.Executor.Laws.{IsHarmless, execute-Quiet}
use autonomous_agent.Evaluation.Evaluator.{evaluate}
use autonomous_agent.Evaluation.Frame.{evaluate-Quiet}
use autonomous_agent.Tools.Registry.{Tool, Registry, get, describe_all}
use autonomous_agent.Runtime.Frame.Quiet.{IsQuiet}

module _ {X : Type 0} (host : Host X) where
  -- the components `c`, with the tool executor, the deterministic evaluator and a registry of tools
  unfoldable pub assembled :
      RuntimeComponents X
      → Registry (Shared X)
      → (String → Option Value)
      → (String → Option ℕ)
      → RuntimeComponents X
  assembled c registry json_parse to_number = record c {
    execute = execute host registry c.environment;
    evaluate = evaluate host json_parse to_number;
    describe_all = describe_all registry;
  }

  -- The tool executor and the deterministic evaluator may take their places among components that keep
  -- to the runtime's contract, if every registered tool is harmless: what is proved of `run` then
  -- holds of the run with them.
  pub assembled-IsQuiet :
      (c : RuntimeComponents X) (registry : Registry (Shared X))
      (json_parse : String → Option Value) (to_number : String → Option ℕ)
      → IsQuiet c
      → ((name : String) (tool : Tool (Shared X)) → get registry name ≡ some tool → IsHarmless tool)
      → IsQuiet (assembled c registry json_parse to_number)
  unfolding assembled
  assembled-IsQuiet c registry json_parse to_number q harmless = record {
    create_plan = q.create_plan;
    revise_plan = q.revise_plan;
    select_next = q.select_next;
    execute = λ a. execute-Quiet host registry c.environment a (harmless a.tool_name);
    evaluate =
        λ i here. evaluate-Quiet c.environment q.surroundings json_parse i here host to_number;
    learn = q.learn;
    ingest = q.ingest;
    put = q.put;
    retrieve = q.retrieve;
    surroundings = q.surroundings;
  }
