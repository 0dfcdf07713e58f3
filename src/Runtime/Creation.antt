-- ===== src/Runtime/Creation.antt =====
-- `createAutonomousRun` of src/agent/runtime/create-run.ts: the components around a model, tools, an
-- environment, an evaluator and a memory that the caller supplies. The one generic
-- `structuredGenerate` of the model is there at its two results. A session is started by
-- `start_session`, and `run` is the runtime.
pub mod Laws
use autonomous_agent.Common.{
  ℕ, String, Bool, true, false, Option, none, some, or_else, if◌then◌else◌,
}
use autonomous_agent.Async.{Async}
use autonomous_agent.Memory.Records.{MemoryRecord}
use autonomous_agent.Memory.Retrieval.{RetrievalQuery, RetrievalResult}
use autonomous_agent.Memory.Suppressed.{retrieve_nothing}
use autonomous_agent.Session.Core.{Host, Shared, SessionOptions, start_session}
use autonomous_agent.Models.Contracts.{ModelProvider}
use autonomous_agent.Models.Resilient.{
  ResilienceOptions, PartialResilienceOptions, resilience_of, generate, structured_generate,
  request_tool_action,
}
use autonomous_agent.Models.Instrumented.{instrumented}
use autonomous_agent.Agent.Environment.{ExecutionEnvironment}
use autonomous_agent.Agent.Contracts.{
  RuntimeComponents, EvaluationScope, EvaluationResult, IngestionInput, IngestionOutput,
}
use autonomous_agent.Agent.Proposal.{PlanProposal, RevisionProposal}
use autonomous_agent.Agent.Planner.{create_plan, revise_plan}
use autonomous_agent.Agent.Selector.{select_next}
use autonomous_agent.Agent.Learner.{learn}
use autonomous_agent.Agent.Ingestor.{IngestorOptions, ingest}
use autonomous_agent.Agent.Executor.{execute}
use autonomous_agent.Tools.Registry.{Registry, describe_all}
use autonomous_agent.Runtime.State.{AgentState}
use autonomous_agent.Runtime.Loop.{run}

-- the `MemoryStore` and `MemoryRetriever` of a run, as far as the runtime calls them; `timer` is the
-- `setTimeout` of the platform
pub record RunConfig (X : Type 0) : Type 0 where
  pub session : SessionOptions
  pub retrieval_limit : Option ℕ
  pub memory_off : Bool
  pub plan_model : ModelProvider (Shared X) PlanProposal
  pub revision_model : ModelProvider (Shared X) RevisionProposal
  pub tools : Registry (Shared X)
  pub environment : ExecutionEnvironment (Shared X)
  pub evaluate : EvaluationScope (Shared X) → Async (Shared X) EvaluationResult
  pub put : MemoryRecord → Async (Shared X) (Unit {0})
  pub retrieve : RetrievalQuery → Async (Shared X) RetrievalResult
  pub ingestor : Option (IngestionInput → Async (Shared X) IngestionOutput)
  pub resilience : PartialResilienceOptions (Shared X)
  pub timer : ℕ → Async (Shared X) (Unit {0})

abbrev pub default_ingestor_options : IngestorOptions
default_ingestor_options = record { max_content_chars = none; min_content_chars = none }

module _ {S T : Type 0} where
  -- the methods of a `ResilientModelProvider` with the options it keeps
  unfoldable pub resilient_with : ResilienceOptions S → ModelProvider S T → ModelProvider S T
  resilient_with options inner = record {
    descriptor = inner.descriptor;
    generate = generate options inner;
    structured_generate = structured_generate options inner;
    request_tool_action = request_tool_action options inner;
  }

  -- `new ResilientModelProvider(inner, options)`
  unfoldable pub resilient :
      (ℕ → Async S (Unit {0})) → PartialResilienceOptions S → ModelProvider S T → ModelProvider S T
  unfolding resilient_with
  resilient timer options inner = resilient_with (resilience_of timer options) inner

module _ {X : Type 0} (host : Host X) (url_host : String → Option String) where
  -- the model of a run: every attempt of the recovery is observed
  unfoldable pub model_of :
      {T : Type 0} → RunConfig X → ModelProvider (Shared X) T → ModelProvider (Shared X) T
  unfolding resilient
  model_of config model = resilient config.timer config.resilience (instrumented host model)

  unfoldable pub components_of : RunConfig X → RuntimeComponents X
  unfolding model_of
  components_of config = record {
    create_plan = create_plan host (model_of config config.plan_model);
    revise_plan = revise_plan host (model_of config config.revision_model);
    select_next = select_next host (model_of config config.plan_model);
    execute = execute host config.tools config.environment;
    evaluate = config.evaluate;
    learn = learn host;
    ingest = some (or_else config.ingestor (ingest host url_host default_ingestor_options));
    put = config.put;
    retrieve = if config.memory_off then retrieve_nothing host else config.retrieve;
    describe_all = describe_all config.tools;
    environment = config.environment;
  }

  -- `createAutonomousRun(config).runtime.run()`
  unfoldable pub autonomous_run : RunConfig X → X → AgentState X
  autonomous_run config x =
      run host (components_of config) config.retrieval_limit (start_session host config.session x)
