-- ===== src/Memory/Hybrid/Degraded.antt =====
-- A hybrid retrieval whose semantic index fails, beside one that has no index
-- (src/memory/hybrid-retriever.ts).
use autonomous_agent.Common.{
  ℕ, ◌-◌, ◌≡◌, ◌⊎◌, refl, ap, String, Option, none, some, List, [], ◌∷◌, map, length, inl, inr,
}
use autonomous_agent.Async.{Async, Settled, fulfilled, rejected, pure, catch, proceed, ◌>>=◌}
use autonomous_agent.Async.Always.{Always, Sure}
use autonomous_agent.Domain.Thrown.{Thrown}
use autonomous_agent.Memory.Records.{MemoryRecord, base_of}
use autonomous_agent.Memory.Retrieval.{
  RetrievalQuery, RetrievalResult, RetrievalHit, metadata, keyword, semantic,
}
use autonomous_agent.Memory.Store.{MemoryStore, MemoryQuery, SemanticIndex}
use autonomous_agent.Memory.Lexical.{lexical_terms, omitted_if_empty}
use autonomous_agent.Memory.Ranking.{sort_hits, rank_hits}
use autonomous_agent.Memory.Hybrid.{
  Arithmetic, HybridOptions, not_run, degrade, match_hybrid, search_index, semantic_scores,
  hybrid_result, retrieve_hybrid,
}
use autonomous_agent.Memory.Hybrid.Laws.{match_degraded, candidates_for-Always}
use autonomous_agent.Session.Core.{Host, Shared, clock_now, clock_ms}

-- the result `r` of a retrieval whose index threw `e`, and the result `r0` without an index
pub record Agrees (e : Thrown) (r r0 : RetrievalResult) : Type 0 where
  pub hits : r.hits ≡ r0.hits
  pub dropped : r.dropped ≡ r0.dropped
  pub candidate_count : r.candidate_count ≡ r0.candidate_count
  pub unmatched_count : r.unmatched_count ≡ r0.unmatched_count
  pub signals : r.signals_used ≡ metadata ∷ keyword ∷ []
  pub whole : r0.degraded ≡ none
  pub told :
      (r.candidate_count ≡ some 0)
      ⊎ (r.degraded ≡ some (record { signal = semantic; reason = e.message } ∷ []))

abbrev pub BothAgree : Thrown → Settled RetrievalResult → Settled RetrievalResult → Type 0
BothAgree e (fulfilled r) (fulfilled r0) = Agrees e r r0
BothAgree e _ _ = ⊥

module _ {X : Type 0} (host : Host X) (math : Arithmetic) (words_of : String → List String)
    (store : MemoryStore (Shared X)) (options : HybridOptions) where
  -- what follows the candidates, with the index or without
  abbrev after_candidates :
      Option (SemanticIndex (Shared X))
      → RetrievalQuery
      → String
      → ℕ
      → List MemoryRecord
      → Async (Shared X) RetrievalResult
  after_candidates index query a b items = semantic_scores index query.text items >>= λ found.
      clock_now host >>= λ c. clock_ms host >>= λ d.
      pure (hybrid_result host math words_of store index options query items found a c (d - b))

  module _ (index : SemanticIndex (Shared X)) (e : Thrown)
      (fails : (text : String) (limit : ℕ) (within : List String) (s : Shared X)
        → (index.search text limit within s).0 ≡ rejected e) where
    search_index-fails :
        (text : String) (items : List MemoryRecord) (s : Shared X)
        → (search_index index text items s).0 ≡ fulfilled (degrade e)
    unfolding search_index catch ◌>>=◌ pure
    search_index-fails text items s =
        rw (fails text (length items) (map (λ c. (base_of c).record_id) items) s) refl

    result-Agrees :
        (query : RetrievalQuery) (items : List MemoryRecord) (a c : String) (d : ℕ) (c0 : String)
        (d0 : ℕ)
        → Agrees e
            (hybrid_result host math words_of store
              (some index)
              options
              query
              items
              (degrade e)
              a
              c
              d)
            (hybrid_result host math words_of store none options query items (not_run none) a c0 d0)
    result-Agrees query items a c d c0 d0 =
        let terms = lexical_terms words_of options.min_term_length query.text in
        let same : match_hybrid math words_of options terms (degrade e) items
            ≡ match_hybrid math words_of options terms (not_run none) items =
          match_degraded math words_of options terms e items in
        record {
          hits =
              ap
                (λ (m : List RetrievalHit × ℕ).
                  (rank_hits (sort_hits m.0) query.limit options.kind_diversity).hits)
                same;
          dropped =
              ap
                (λ (m : List RetrievalHit × ℕ).
                  omitted_if_empty
                    (rank_hits (sort_hits m.0) query.limit options.kind_diversity).dropped)
                same;
          candidate_count = refl;
          unmatched_count = ap (λ (m : List RetrievalHit × ℕ). some m.1) same;
          signals = refl;
          whole = refl;
          told = inr refl;
        }

    after_candidates-Agrees :
        (query : RetrievalQuery) (a : String) (b : ℕ) (items : List MemoryRecord) (s : Shared X)
        → BothAgree e
            (after_candidates (some index) query a b items s).0
            (after_candidates none query a b items s).0
    unfolding semantic_scores ◌>>=◌ clock_now clock_ms pure
    after_candidates-Agrees query a b [] s = record {
      hits = refl;
      dropped = refl;
      candidate_count = refl;
      unmatched_count = refl;
      signals = refl;
      whole = refl;
      told = inl refl;
    }
    after_candidates-Agrees query a b (i ∷ items) s =
        rw (search_index-fails query.text (i ∷ items) s) (result-Agrees query (i ∷ items) a _ _ _ _)

    found-Agrees :
        (query : RetrievalQuery) (a : String) (b : ℕ) (o : Settled (List MemoryRecord))
        (s : Shared X)
        → Sure (λ _. Unit) o
        → BothAgree e
            (proceed o (after_candidates (some index) query a b) s).0
            (proceed o (after_candidates none query a b) s).0
    found-Agrees query a b (fulfilled items) s h = after_candidates-Agrees query a b items s
    found-Agrees query a b (rejected t) s h = elim h [ ]

    -- If the store answers and every search of the index fails with the same error, a hybrid retrieval
    -- still answers, with the hits, the dropped hits and the counts that it has without an index; it
    -- claims no semantic signal, and tells the error, unless there was no candidate to search for.
    pub retrieve_hybrid-Agrees :
        ((q : MemoryQuery) → Always (λ _. Unit) (store.query q))
        → (query : RetrievalQuery) (s : Shared X)
        → BothAgree e
            (retrieve_hybrid host math words_of store (some index) options query s).0
            (retrieve_hybrid host math words_of store none options query s).0
    unfolding retrieve_hybrid ◌>>=◌ clock_now clock_ms pure
    retrieve_hybrid-Agrees answered query s =
        found-Agrees query _ _ _ _
          ((candidates_for-Always store options.max_candidates query answered).at _)
