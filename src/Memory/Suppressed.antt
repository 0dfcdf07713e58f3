-- ===== src/Memory/Suppressed.antt =====
-- `SuppressedRetriever` of src/memory/suppressed-retriever.ts
use autonomous_agent.Common.{◌-◌, none, some, [], true}
use autonomous_agent.Async.{Async, pure, ◌>>=◌}
use autonomous_agent.Async.Moves.{Moves, moves_rules}
use autonomous_agent.Memory.Retrieval.{RetrievalQuery, RetrievalResult}
use autonomous_agent.Session.Core.{Host, Shared, clock_now, clock_ms}
use autonomous_agent.Runtime.Frame.Quiet.{Quiet, Quiet-order}
use autonomous_agent.Runtime.Frame.Methods.{clock_now-Quiet, clock_ms-Quiet}

module _ {X : Type 0} (host : Host X) where
  unfoldable pub retrieve_nothing : RetrievalQuery → Async (Shared X) RetrievalResult
  retrieve_nothing query = do
    started_at ← clock_now host
    started_ms ← clock_ms host
    finished_at ← clock_now host
    finished_ms ← clock_ms host
    pure (record {
      retrieval_id = query.retrieval_id;
      query = query;
      hits = [];
      signals_used = [];
      degraded = none;
      dropped = none;
      candidate_count = some 0;
      unmatched_count = some 0;
      suppressed = true;
      started_at = started_at;
      finished_at = finished_at;
      duration_ms = finished_ms - started_ms;
    })

  pub retrieve_nothing-Quiet : (query : RetrievalQuery) → Moves Quiet (retrieve_nothing query)
  unfolding retrieve_nothing
  retrieve_nothing-Quiet query =
      search (moves_rules, Quiet-order, clock_now-Quiet, clock_ms-Quiet) depth 14
