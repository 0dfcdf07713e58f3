-- ===== src/Runtime/Creation/Laws.antt =====
-- What the caller has to promise, so that the run that is created keeps its own promises.
use autonomous_agent.Common.{
  ◌⊎◌, ◌≡◌, refl, subst, String, Bool, true, false, Option, none, some, [], ◌∷◌, or_else,
  if◌then◌else◌, ℕ,
}
use autonomous_agent.Async.{Async, fulfilled}
use autonomous_agent.Async.Moves.{Moves}
use autonomous_agent.Memory.Records.{MemoryRecord}
use autonomous_agent.Memory.Retrieval.{RetrievalQuery, RetrievalResult}
use autonomous_agent.Memory.Suppressed.{retrieve_nothing, retrieve_nothing-Quiet}
use autonomous_agent.Session.Core.{Host, Shared, start_session, is_terminal}
use autonomous_agent.Session.Log.{IsNumbered, endings}
use autonomous_agent.Models.Contracts.{ModelProvider, ToolActionRequest}
use autonomous_agent.Models.Resilient.{resilience_of}
use autonomous_agent.Models.Resilient.Frame.{structured_generate-Moves, request_tool_action-Moves}
use autonomous_agent.Models.Instrumented.{instrumented}
use autonomous_agent.Models.Instrumented.Laws.{observe-Quiet}
use autonomous_agent.Agent.Contracts.{EvaluationScope, IngestionInput, IngestionOutput}
use autonomous_agent.Agent.Planner.Frame.{IsQuietModel, create_plan-Quiet, revise_plan-Quiet}
use autonomous_agent.Agent.Selector.Laws.{select_next-Quiet}
use autonomous_agent.Agent.Learner.Laws.{learn-Quiet}
use autonomous_agent.Agent.Ingestor.{ingest}
use autonomous_agent.Agent.Ingestor.Laws.{ingest-Quiet}
use autonomous_agent.Agent.Executor.Laws.{IsHarmless, execute-Quiet}
use autonomous_agent.Tools.Registry.{Tool, get}
use autonomous_agent.Runtime.State.{AgentState}
use autonomous_agent.Runtime.Frame.Quiet.{Quiet, Quiet-order, IsQuiet, IsCalm, IsTallied}
use autonomous_agent.Runtime.Ending.Whole.{ThrowsNothing}
use autonomous_agent.Runtime.Loop.{run_answer, outcome_of}
use autonomous_agent.Runtime.Ending.Outcome.{
  tried, run-is_terminal, run-endings, run-IsNumbered, run-IsTallied,
}
use autonomous_agent.Runtime.Creation.{
  RunConfig, default_ingestor_options, resilient, resilient_with, model_of, components_of,
  autonomous_run,
}

module _ {X : Type 0} where
  -- what is promised of the parts that the caller supplies
  pub record IsQuietConfig (config : RunConfig X) : Type 0 where
    pub plan_model : IsQuietModel config.plan_model
    pub revision_model : IsQuietModel config.revision_model
    pub actions : (r : ToolActionRequest) → Moves Quiet (config.plan_model.request_tool_action r)
    pub sleep : (ms : ℕ) → Moves Quiet ((resilience_of config.timer config.resilience).sleep ms)
    pub tools :
        (name : String) (tool : Tool (Shared X))
        → get config.tools name ≡ some tool
        → IsHarmless tool
    pub evaluate :
        (i : EvaluationScope (Shared X))
        → i.environment ≡ some config.environment
        → Moves Quiet (config.evaluate i)
    pub put : (r : MemoryRecord) → Moves Quiet (config.put r)
    pub retrieve : (q : RetrievalQuery) → Moves Quiet (config.retrieve q)
    pub ingestor :
        (f : IngestionInput → Async (Shared X) IngestionOutput)
        → config.ingestor ≡ some f
        → (i : IngestionInput) → Moves Quiet (f i)
    pub surroundings : IsCalm config.environment

module _ {X : Type 0} (host : Host X) (url_host : String → Option String)
    (config : RunConfig X) where
  model_of-Quiet :
      {T : Type 0} (model : ModelProvider (Shared X) T)
      → IsQuietModel model
      → ((ms : ℕ) → Moves Quiet ((resilience_of config.timer config.resilience).sleep ms))
      → IsQuietModel (model_of host url_host config model)
  unfolding model_of resilient resilient_with instrumented
  model_of-Quiet model q sleep =
      structured_generate-Moves Quiet-order (resilience_of config.timer config.resilience) sleep
        (instrumented host model) (λ r. observe-Quiet host _ _ _ _ (q r))

  model_of-actions :
      {T : Type 0} (model : ModelProvider (Shared X) T)
      → ((r : ToolActionRequest) → Moves Quiet (model.request_tool_action r))
      → ((ms : ℕ) → Moves Quiet ((resilience_of config.timer config.resilience).sleep ms))
      → (r : ToolActionRequest)
      → Moves Quiet ((model_of host url_host config model).request_tool_action r)
  unfolding model_of resilient resilient_with instrumented
  model_of-actions model q sleep =
      request_tool_action-Moves Quiet-order (resilience_of config.timer config.resilience) sleep
        (instrumented host model) (λ r. observe-Quiet host _ _ _ _ (q r))

  chosen_ingestor :
      (o : Option (IngestionInput → Async (Shared X) IngestionOutput))
      → ((f : IngestionInput → Async (Shared X) IngestionOutput)
          → o ≡ some f
          → (i : IngestionInput) → Moves Quiet (f i))
      → (i : IngestionInput)
      → Moves Quiet (or_else o (ingest host url_host default_ingestor_options) i)
  chosen_ingestor none h i = ingest-Quiet host url_host default_ingestor_options i
  chosen_ingestor (some f) h i = h f refl i

  chosen_retriever :
      (off : Bool) (given : RetrievalQuery → Async (Shared X) RetrievalResult)
      → ((q : RetrievalQuery) → Moves Quiet (given q))
      → (q : RetrievalQuery) → Moves Quiet ((if off then retrieve_nothing host else given) q)
  chosen_retriever true given h q = retrieve_nothing-Quiet host q
  chosen_retriever false given h q = h q

  -- The components that `createAutonomousRun` puts together keep to the runtime's contract, if what the
  -- caller supplies does: the model, the sleeps, the tools, the evaluator, the store, the retriever,
  -- the ingestor if there is one, and the environment.
  pub components_of-IsQuiet : IsQuietConfig config → IsQuiet (components_of host url_host config)
  unfolding components_of
  components_of-IsQuiet q = record {
    create_plan = λ i.
        create_plan-Quiet host (model_of host url_host config config.plan_model) i
          (model_of-Quiet config.plan_model q.plan_model q.sleep);
    revise_plan = λ i.
        revise_plan-Quiet host (model_of host url_host config config.revision_model) i
          (model_of-Quiet config.revision_model q.revision_model q.sleep);
    select_next = λ i.
        select_next-Quiet host (model_of host url_host config config.plan_model) i
          (model_of-actions config.plan_model q.actions q.sleep);
    execute = λ a. execute-Quiet host config.tools config.environment a (q.tools a.tool_name);
    evaluate = q.evaluate;
    learn = learn-Quiet host;
    ingest = λ f e i.
        subst (λ g. Moves Quiet (g i)) (same f e) (chosen_ingestor config.ingestor q.ingestor i);
    put = q.put;
    retrieve = chosen_retriever config.memory_off config.retrieve q.retrieve;
    surroundings = q.surroundings;
  }
    where
      same :
          (f : IngestionInput → Async (Shared X) IngestionOutput)
          → some (or_else config.ingestor (ingest host url_host default_ingestor_options)) ≡ some f
          → or_else config.ingestor (ingest host url_host default_ingestor_options) ≡ f
      same f e = cc

  -- what every run promises
  pub record IsOrderly (x : X) (s : AgentState X) : Type 0 where
    pub over :
        ((run_answer host
              (components_of host url_host config)
              config.retrieval_limit
              (start_session host config.session x)
            ≡ fulfilled (outcome_of s))
          × (is_terminal s.session.status ≡ true))
        ⊎ (ThrowsNothing (
              tried host config.session x
                (components_of host url_host config)
                config.retrieval_limit)
            × (is_terminal s.session.status ≡ false))
    pub told :
        (endings s.session.emitted ≡ s.session.status ∷ [])
        ⊎ (ThrowsNothing (
              tried host config.session x
                (components_of host url_host config)
                config.retrieval_limit)
            × (endings s.session.emitted ≡ []))
    pub numbered : IsNumbered s.session
    pub tallied : IsTallied s

  -- A run that is created of such parts has its events numbered without a gap and its memory counted,
  -- whatever the model proposes and the tools throw; and it answers, with a terminal status and exactly
  -- one end announced, the one that the status tells, unless the body of `run`'s `try` threw `null` or
  -- `undefined`.
  pub autonomous_run-IsOrderly :
      IsQuietConfig config → (x : X) → IsOrderly x (autonomous_run host url_host config x)
  unfolding autonomous_run
  autonomous_run-IsOrderly q x =
      let c = components_of host url_host config in
      let quiet = components_of-IsQuiet q in
      record {
        over = run-is_terminal host config.session x c quiet config.retrieval_limit;
        told = run-endings host config.session x c quiet config.retrieval_limit;
        numbered = run-IsNumbered host config.session x c quiet config.retrieval_limit;
        tallied = run-IsTallied host config.session x c quiet config.retrieval_limit;
      }
