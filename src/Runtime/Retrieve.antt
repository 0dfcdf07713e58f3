-- ===== src/Runtime/Retrieve.antt =====
-- `retrieveMemory` and `annotateApplicability` of src/agent/runtime/agent-runtime.ts. The probes that
-- `Promise.all` starts together run one after the other here.
use autonomous_agent.Common.{
  ℕ, String, Bool, false, Option, none, some, List, [], ◌∷◌, ◌++◌, map, keep, length, take, any,
  or_else, if◌then◌else◌,
}
use autonomous_agent.Async.{Async, pure, gets, ◌>>=◌, ◌>>◌}
use autonomous_agent.Memory.Records.{
  Precondition, MemoryKind, base_of, kind_of, persistent_memory_kinds, same_kind,
}
use autonomous_agent.Memory.Retrieval.{RetrievalQuery, RetrievalResult, RetrievalHit, RetrievalDrop}
use autonomous_agent.Memory.Applicability.{ApplicabilityProbe, assess_preconditions, is_violated}
use autonomous_agent.Events.{
  HitTelemetry, DropTelemetry, no_correlation, memory_search_started, memory_retrieved,
  memory_presented,
}
use autonomous_agent.Session.Usage.{memory_reads}
use autonomous_agent.Session.Working.{add_retrieval}
use autonomous_agent.Session.Core.{Host, Shared, next_id, on_working, correlation}
use autonomous_agent.Agent.Contracts.{RuntimeComponents}
use autonomous_agent.Runtime.State.{AgentState, on_shared, count, announce, push_retrieval}

-- the kinds of the hits, each once, in order of appearance
unfoldable pub distinct_kinds : List MemoryKind → List RetrievalHit → List MemoryKind
distinct_kinds seen [] = seen
distinct_kinds seen (hit ∷ hits) =
    let kind = kind_of hit.item in
    distinct_kinds (if any (same_kind kind) seen then seen else seen ++ kind ∷ []) hits

abbrev pub has_violation : RetrievalHit → Bool
has_violation hit = elim hit.applicability [
  | none ↦ false
  | some report ↦ is_violated report.status
]

unfoldable pub hit_telemetry : RetrievalHit → HitTelemetry
hit_telemetry hit = record {
  record_id = (base_of hit.item).record_id;
  score = hit.score;
  lexical = elim hit.breakdown [ none ↦ none | some b ↦ some b.lexical ];
  semantic = elim hit.breakdown [ none ↦ none | some b ↦ b.semantic ];
  semantic_admitted = elim hit.breakdown [ none ↦ false | some b ↦ b.semantic_admitted ];
  rank_before_selection = hit.rank_before_selection;
  kept_by_diversity = or_else hit.kept_by_diversity false;
  final_rank = hit.final_rank;
}

abbrev drop_telemetry : RetrievalDrop → DropTelemetry
drop_telemetry d = record {
  record_id = d.record_id;
  reason = d.reason;
  rank_before_selection = d.rank_before_selection;
  score = d.score;
}

abbrev pub record_ids : List RetrievalHit → List String
record_ids hits = map (λ hit. (base_of hit.item).record_id) hits

module _ {S : Type 0} (probe : ApplicabilityProbe S) where
  unfoldable pub annotate_with : RetrievalHit → Option (List Precondition) → Async S RetrievalHit
  annotate_with hit none = pure hit
  annotate_with hit (some []) = pure hit
  annotate_with hit (some (p ∷ ps)) = do
    report ← assess_preconditions probe (some (p ∷ ps))
    pure (record hit { applicability = some report })

  unfoldable pub annotate_hit : RetrievalHit → Async S RetrievalHit
  annotate_hit hit = annotate_with hit (base_of hit.item).preconditions

  unfoldable pub annotate_hits : List RetrievalHit → Async S (List RetrievalHit)
  annotate_hits [] = pure []
  annotate_hits (hit ∷ hits) = do
    first ← annotate_hit hit
    rest ← annotate_hits hits
    pure (first ∷ rest)

module _ {X : Type 0} (c : RuntimeComponents X) where
  abbrev pub probe_of : ApplicabilityProbe (Shared X)
  probe_of = record {
    file_exists = c.environment.file_exists;
    tool_names = some (map (λ tool. tool.name) c.describe_all);
    environment_provider = some c.environment.descriptor.provider;
  }

  unfoldable pub annotate_applicability : RetrievalResult → Async (Shared X) RetrievalResult
  annotate_applicability result = do
    hits ← annotate_hits probe_of result.hits
    pure (record result { hits = hits })

module _ {X : Type 0} (host : Host X) where
  -- the events and updates that follow a retrieval
  unfoldable pub report_retrieval : String → RetrievalResult → Async (AgentState X) (Unit {0})
  report_retrieval retrieval_id result = do
    count memory_reads
    announce host
        (memory_retrieved (record {
          retrieval_id = retrieval_id;
          hit_count = length result.hits;
          record_ids = record_ids result.hits;
          kinds = distinct_kinds [] result.hits;
          duration_ms = result.duration_ms;
          signals_used = result.signals_used;
          degraded = or_else result.degraded [];
          suppressed = result.suppressed;
          hits = map hit_telemetry result.hits;
          dropped = map drop_telemetry (take 50 (or_else result.dropped []));
        }))
        (record no_correlation {
          retrieval_id = some retrieval_id;
          memory_record_ids = some (record_ids result.hits);
        })
    announce host
        (memory_presented retrieval_id (record_ids result.hits)
          (record_ids (keep has_violation result.hits)))
        (record no_correlation {
          retrieval_id = some retrieval_id;
          memory_record_ids = some (record_ids result.hits);
        })
    push_retrieval result
    on_shared (on_working (add_retrieval result))

module _ {X : Type 0} (host : Host X) (c : RuntimeComponents X) where
  unfoldable pub retrieve_memory : ℕ → String → Async (AgentState X) (Unit {0})
  retrieve_memory limit text = do
    retrieval_id ← on_shared (next_id host "ret")
    place ← gets (λ s. correlation s.session)
    let query : RetrievalQuery = record {
      retrieval_id = retrieval_id;
      text = text;
      kinds = persistent_memory_kinds;
      tags = none;
      limit = limit;
      correlation = place;
    }
    announce host (memory_search_started retrieval_id text persistent_memory_kinds)
        (record no_correlation { retrieval_id = some retrieval_id })
    retrieved ← on_shared (c.retrieve query)
    result ← on_shared (annotate_applicability c retrieved)
    report_retrieval host retrieval_id result
