-- ===== src/Tests/Recall.antt =====
-- The theorems on memory, on the selector, the learner, the ingestor, the observed model and the
-- shell's words, applied to concrete values.
use autonomous_agent.Common.{
  ℕ, ◌+◌, ◌≤◌, ◌≡◌, refl, String, true, false, Option, none, some, List, [], ◌∷◌, any, map, arith,
}
use autonomous_agent.Common.Int.{pos}
use autonomous_agent.Async.{Async, rejected, pure, throw, error_of}
use autonomous_agent.Async.Always.{Always, Sure, Always-pure}
use autonomous_agent.Async.Returns.{Returns}
use autonomous_agent.Events.{FinishReason, ModelCallPurpose}
use autonomous_agent.Domain.Value.{null, stringify}
use autonomous_agent.Domain.Plan.{pending}
use autonomous_agent.Domain.Outcome.{failure}
use autonomous_agent.Domain.Provenance.{empty_provenance}
use autonomous_agent.Domain.Provenance.Merge.{IsDistinct}
use autonomous_agent.Memory.Records.{MemoryRecord, MemoryKind, lesson}
use autonomous_agent.Memory.Retrieval.{RetrievalQuery, RetrievalResult, RetrievalHit}
use autonomous_agent.Memory.Store.{MemoryStore, MemoryQuery, SemanticIndex}
use autonomous_agent.Memory.Indexed.{IndexFailure, backfill}
use autonomous_agent.Memory.Indexed.Laws.{backfill-Counts}
use autonomous_agent.Memory.Ranking.{id_of, rank_hits, select_with_kind_diversity}
use autonomous_agent.Memory.Ranking.Counts.{Ranked, rank_hits-Ranked}
use autonomous_agent.Memory.Ranking.Diversity.{is_kind, select_with_kind_diversity-kinds}
use autonomous_agent.Memory.Hybrid.{Arithmetic, HybridOptions, retrieve_hybrid}
use autonomous_agent.Memory.Hybrid.Degraded.{BothAgree, retrieve_hybrid-Agrees}
use autonomous_agent.Session.Core.{Shared, start_session}
use autonomous_agent.Models.Contracts.{
  ModelDescriptor, ModelProvider, ModelRequest, ModelResponse, call_tool,
}
use autonomous_agent.Models.Instrumented.{plain_like, observe}
use autonomous_agent.Models.Instrumented.Laws.{Observed, observe-Observed}
use autonomous_agent.Agent.Contracts.{
  ActionSelectionInput, LearningInput, IngestionInput, TaskAttempt,
}
use autonomous_agent.Agent.Prompting.{presented_memory}
use autonomous_agent.Agent.Prompting.Laws.{Presents, presented_memory-Presents}
use autonomous_agent.Agent.Selector.{select_next}
use autonomous_agent.Agent.Selector.Laws.{Selects, select_next-Selects}
use autonomous_agent.Agent.Learner.{learn, approach_differs}
use autonomous_agent.Agent.Learner.Laws.{Learns, learn-Learns}
use autonomous_agent.Agent.Ingestor.{ingest}
use autonomous_agent.Agent.Ingestor.Laws.{Ingests, ingest-Ingests}
use autonomous_agent.Runtime.State.{changed_approach}
use autonomous_agent.Runtime.Creation.{default_ingestor_options}
use autonomous_agent.Tools.Shell.{shell_join, shell_quote, all_safe, splice_quotes, is_safe}
use autonomous_agent.Tools.Shell.Reading.{read_words, read_words-shell_join}
use autonomous_agent.Tests.Sample.{
  host, options, nowhere, goal, plan, task_named, no_snapshot, action, observation, agreement,
}

shell_join_test : shell_join ("echo" ∷ "it's" ∷ "" ∷ []) ≡ "echo 'it'\\''s' ''"
unfolding shell_join shell_quote all_safe splice_quotes is_safe
shell_join_test = refl

read_words-shell_join_example :
    read_words (shell_join ("it's" ∷ "" ∷ "a b" ∷ [])) ≡ some ("it's" ∷ "" ∷ "a b" ∷ [])
read_words-shell_join_example = read_words-shell_join ("it's" ∷ "" ∷ "a b" ∷ [])

abbrev lesson_named : String → MemoryRecord
lesson_named id =
    lesson
      (record {
        record_id = id;
        run_id = "run-0";
        goal_id = none;
        task_id = none;
        created_at = "2025-12-31";
        summary = "write it";
        tags = [];
        provenance = empty_provenance;
        preconditions = none;
      })
      (record {
        lesson_id = "lesson-1";
        statement = "write a report first";
        applicability = [];
        confidence = 50;
        validation = record {
          times_retrieved = 0;
          times_applied = 0;
          times_confirmed = 0;
          times_contradicted = 0;
        };
      })

abbrev hit_of : String → RetrievalHit
hit_of id = record {
  item = lesson_named id;
  score = pos 3;
  matched_by = [];
  breakdown = none;
  rank_before_selection = none;
  kept_by_diversity = none;
  final_rank = none;
  applicability = none;
}

abbrev hits : List RetrievalHit
hits = hit_of "mem-1" ∷ hit_of "mem-2" ∷ []

hits_test : IsDistinct (map id_of hits)
hits_test = (refl, (refl, tt))

rank_hits-Ranked_example : Ranked hits 1 true (rank_hits hits 1 true)
rank_hits-Ranked_example = rank_hits-Ranked hits 1 true hits_test

select_with_kind_diversity-kinds_example :
    any (is_kind MemoryKind.lesson) (select_with_kind_diversity hits 5)
    ≡ any (is_kind MemoryKind.lesson) hits
select_with_kind_diversity-kinds_example =
    select_with_kind_diversity-kinds hits 5 MemoryKind.lesson (omega arith)

abbrev query : RetrievalQuery
query = record {
  retrieval_id = "ret-1";
  text = "report";
  kinds = MemoryKind.lesson ∷ [];
  tags = none;
  limit = 1;
  correlation = nowhere;
}

abbrev result : RetrievalResult
result = record {
  retrieval_id = "ret-1";
  query = query;
  hits = hits;
  signals_used = [];
  degraded = none;
  dropped = none;
  candidate_count = none;
  unmatched_count = none;
  suppressed = false;
  started_at = "2026-01-01";
  finished_at = "2026-01-01";
  duration_ms = 0;
}

presented_memory-Presents_example :
    Presents (result ∷ result ∷ []) (presented_memory (result ∷ result ∷ []))
presented_memory-Presents_example = presented_memory-Presents (result ∷ result ∷ [])

-- a store of two lessons
abbrev store : MemoryStore (Shared ℕ)
store = record {
  put = λ r. pure tt;
  get = λ id. pure none;
  query = λ q. pure (lesson_named "mem-1" ∷ lesson_named "mem-2" ∷ []);
  count = λ q. pure 2;
}

abbrev one_word : String → List String
one_word text = text ∷ []

abbrev stored : List MemoryRecord
stored = lesson_named "mem-1" ∷ lesson_named "mem-2" ∷ []

abbrev math : Arithmetic
math = record { ratio = λ n m. pos n; times = λ a b. a; plus = λ a b. a }

abbrev hybrid_options : HybridOptions
hybrid_options = record {
  min_term_length = 3;
  max_candidates = 200;
  semantic_threshold = pos 1;
  keyword_weight = pos 1;
  semantic_weight = pos 1;
  kind_diversity = true;
}

abbrev failing_index : SemanticIndex (Shared ℕ)
failing_index = record {
  index = λ id text. throw (error_of "down");
  search = λ t n ids. throw (error_of "down");
  contains = λ id. pure false;
}

store-Always : (q : MemoryQuery) → Always (λ _. Unit) (store.query q)
store-Always q = Always-pure (λ _. Unit) _ tt

failing_index_test :
    (text : String) (limit : ℕ) (within : List String) (s : Shared ℕ)
    → (failing_index.search text limit within s).0 ≡ rejected (error_of "down")
unfolding throw
failing_index_test text limit within s = refl

retrieve_hybrid-Agrees_example :
    BothAgree
      (error_of "down")
      (retrieve_hybrid host math one_word store
        (some failing_index)
        hybrid_options
        query
        (start_session host options 0)).0
      (retrieve_hybrid host math one_word store none hybrid_options query
        (start_session host options 0)).0
retrieve_hybrid-Agrees_example =
    retrieve_hybrid-Agrees host math one_word store hybrid_options failing_index (error_of "down")
      failing_index_test store-Always query (start_session host options 0)

abbrev call : ModelDescriptor
call = record { provider = "test"; model = "m" }

abbrev request : ModelRequest
request = record {
  purpose = ModelCallPurpose.select_action;
  messages = [];
  temperature = none;
  max_output_tokens = none;
  attempt = none;
}

abbrev answer : Async (Shared ℕ) ModelResponse
answer = pure (record {
  base = record {
    model_call_id = "mc-9";
    descriptor = call;
    usage = record { input_tokens = 1; output_tokens = 1; reported = none };
    latency_ms = 1;
    finish_reason = FinishReason.stop;
  };
  text = "hello";
})

answer_test : (s : Shared ℕ) → (answer s).1.session ≡ s.session
unfolding pure
answer_test s = refl

observe-Observed_example :
    Observed host plain_like request call answer
      (start_session host options 0)
      (observe host plain_like call request answer (start_session host options 0))
observe-Observed_example =
    observe-Observed host plain_like request call answer answer_test (start_session host options 0)

abbrev tried : TaskAttempt
tried = record {
  action = action;
  observation = observation;
  evaluation = agreement;
  decision = none;
}

abbrev failed_attempt : TaskAttempt
failed_attempt = record tried { evaluation = record agreement { verdict = failure } }

-- a model that calls a tool
abbrev acting_model : ModelProvider (Shared ℕ) ℕ
acting_model = record {
  descriptor = call;
  generate = λ r. answer;
  structured_generate = λ r. throw (error_of "no plan");
  request_tool_action = λ r. pure (record {
    base = record {
      model_call_id = "mc-9";
      descriptor = call;
      usage = record { input_tokens = 1; output_tokens = 1; reported = none };
      latency_ms = 1;
      finish_reason = FinishReason.tool_call;
    };
    proposal = call_tool "fs.write" null "write it" none none;
  });
}

abbrev selection : ActionSelectionInput
selection = record {
  goal = goal;
  plan = plan;
  task = task_named "task-1" pending [];
  previous_attempts = tried ∷ [];
  working = no_snapshot;
  retrievals = result ∷ [];
  available_tools = [];
}

select_next-Selects_example : Returns (Selects selection) (select_next host acting_model selection)
select_next-Selects_example = select_next-Selects host acting_model selection

abbrev learning : LearningInput
learning = record {
  correlation = nowhere;
  task = task_named "task-1" pending [];
  attempt = tried;
  previous_attempts = failed_attempt ∷ [];
}

learning_test : Sure (λ _. Unit) (approach_differs (some failed_attempt) tried)
unfolding changed_approach stringify
learning_test = tt

learn-Learns_example : Always (Learns learning) (learn host learning)
learn-Learns_example = learn-Learns host learning learning_test

abbrev ingestion : IngestionInput
ingestion = record {
  correlation = nowhere;
  goal = goal;
  task = task_named "task-1" pending [];
  action = action;
  observation = observation;
}

abbrev no_host : String → Option String
no_host url = none

ingest-Ingests_example :
    Always
      (Ingests default_ingestor_options ingestion)
      (ingest host no_host default_ingestor_options ingestion)
ingest-Ingests_example = ingest-Ingests host no_host default_ingestor_options ingestion

abbrev callback : IndexFailure → Async (Shared ℕ) (Unit {0})
callback f = pure tt

callback-Always : (f : IndexFailure) → Always (λ _. Unit) (callback f)
callback-Always f = Always-pure (λ _. Unit) _ tt

contains-Always : (id : String) → Always (λ _. Unit) (failing_index.contains id)
contains-Always id = Always-pure (λ _. Unit) _ tt

abbrev everything : MemoryQuery
everything = record {
  kinds = none;
  run_id = none;
  goal_id = none;
  tags = none;
  created_after = none;
  limit = none;
}

backfill-Counts_example :
    Always
      (λ r. r.indexed + r.failed ≤ r.examined)
      (backfill store failing_index callback everything)
backfill-Counts_example =
    backfill-Counts store failing_index callback callback-Always contains-Always everything
      (store-Always everything)
