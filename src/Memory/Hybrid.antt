-- ===== src/Memory/Hybrid.antt =====
-- `HybridRetriever` of src/memory/hybrid-retriever.ts. Scores are numbers in fixed point; the
-- arithmetic of the platform's numbers is the parameter `Arithmetic`.
pub mod Laws
pub mod Degraded
use autonomous_agent.Common.{
  ℕ, ◌+◌, ◌-◌, String, Bool, true, false, not, ◌&&◌, ◌||◌, Option, none, some, List, [], ◌∷◌, ◌++◌,
  map, length, or_else, ◌===◌, if◌then◌else◌,
}
use autonomous_agent.Common.Int.{ℤ, pos, ltb_ℤ}
use autonomous_agent.Common.Scan.{trim}
use autonomous_agent.Async.{Async, pure, catch, ◌>>=◌}
use autonomous_agent.Domain.Thrown.{Thrown}
use autonomous_agent.Memory.Records.{MemoryRecord, base_of}
use autonomous_agent.Memory.Retrieval.{
  RetrievalQuery, RetrievalResult, RetrievalHit, RetrievalSignal, RetrievalDegradation, metadata,
  keyword, semantic,
}
use autonomous_agent.Memory.Store.{MemoryStore, SemanticIndex, SemanticMatch, searchable_text}
use autonomous_agent.Memory.Lexical.{lexical_terms, matching, candidates_of, omitted_if_empty}
use autonomous_agent.Memory.Ranking.{sort_hits, rank_hits}
use autonomous_agent.Session.Core.{Host, Shared, clock_now, clock_ms}

-- `n / m`, and the weighted sum of two scores
pub record Arithmetic : Type 0 where
  pub ratio : ℕ → ℕ → ℤ
  pub times : ℤ → ℤ → ℤ
  pub plus : ℤ → ℤ → ℤ

pub record HybridOptions : Type 0 where
  pub min_term_length : ℕ
  pub max_candidates : ℕ
  pub semantic_threshold : ℤ
  pub keyword_weight : ℤ
  pub semantic_weight : ℤ
  pub kind_diversity : Bool

-- what `semanticScores` answers
pub record SemanticScores : Type 0 where
  pub ran : Bool
  pub scores : List SemanticMatch
  pub degradation : Option RetrievalDegradation

abbrev pub not_run : Option RetrievalDegradation → SemanticScores
not_run degradation = record { ran = false; scores = []; degradation = degradation }

-- `scores.get(id)`: the last match of the record
unfoldable pub score_of : List SemanticMatch → String → Option ℤ
score_of [] id = none
score_of (m ∷ ms) id = elim (score_of ms id) [
  | some later ↦ some later
  | none ↦ if m.record_id === id then some m.score else none
]

-- the handler of `semanticScores`: a failing index is told, and the retrieval goes on
abbrev pub degrade : Thrown → SemanticScores
degrade e = not_run (some (record { signal = semantic; reason = e.message }))

abbrev pub reaches : ℤ → Option ℤ → Bool
reaches threshold none = false
reaches threshold (some cosine) = not (ltb_ℤ cosine threshold)

abbrev when_run : Bool → ℤ → Option ℤ
when_run true threshold = some threshold
when_run false threshold = none

abbrev signals_when : Bool → Bool → List RetrievalSignal
signals_when k s =
    metadata ∷ ((if k then keyword ∷ [] else []) ++ (if s then semantic ∷ [] else []))

module _ (math : Arithmetic) (words_of : String → List String) (options : HybridOptions) where
  abbrev coverage : List String → List String → ℤ
  coverage words [] = pos 0
  coverage words (t ∷ terms) = math.ratio (matching words (t ∷ terms)) (length (t ∷ terms))

  unfoldable pub keyword_coverage : List String → MemoryRecord → ℤ
  unfolding searchable_text
  keyword_coverage terms item =
      coverage (lexical_terms words_of options.min_term_length (searchable_text item)) terms

  abbrev weigh : ℤ → Bool → Option ℤ → ℤ
  weigh lexical true (some cosine) =
      math.plus (math.times options.keyword_weight lexical)
        (math.times options.semantic_weight cosine)
  weigh lexical _ _ = math.plus (math.times options.keyword_weight lexical) (pos 0)

  abbrev pub hybrid_hit : MemoryRecord → ℤ → Option ℤ → Bool → RetrievalHit
  hybrid_hit item lexical cosine ran =
      let admitted = reaches options.semantic_threshold cosine in
      let combined = weigh lexical admitted cosine in
      record {
        item = item;
        score = combined;
        matched_by = signals_when (ltb_ℤ (pos 0) lexical) admitted;
        breakdown = some (record {
          lexical = lexical;
          semantic = cosine;
          semantic_admitted = admitted;
          semantic_threshold = when_run ran options.semantic_threshold;
          lexical_weight = options.keyword_weight;
          semantic_weight = options.semantic_weight;
          combined = combined;
        });
        rank_before_selection = none;
        kept_by_diversity = none;
        final_rank = none;
        applicability = none;
      }

  -- a record needs a positive signal
  abbrev pub has_signal : ℤ → Option ℤ → Bool
  has_signal lexical cosine = ltb_ℤ (pos 0) lexical || reaches options.semantic_threshold cosine

  abbrev pub hit_or_unmatched : Bool → RetrievalHit → List RetrievalHit × ℕ → List RetrievalHit × ℕ
  hit_or_unmatched true hit (hits, unmatched) = (hit ∷ hits, unmatched)
  hit_or_unmatched false hit (hits, unmatched) = (hits, unmatched + 1)

  -- the loop over the candidates
  unfoldable pub match_hybrid :
      List String → SemanticScores → List MemoryRecord → List RetrievalHit × ℕ
  unfolding keyword_coverage score_of
  match_hybrid terms found [] = ([], 0)
  match_hybrid terms found (item ∷ items) =
      let lexical = keyword_coverage terms item in
      let cosine = score_of found.scores (base_of item).record_id in
      hit_or_unmatched (has_signal lexical cosine) (hybrid_hit item lexical cosine found.ran)
        (match_hybrid terms found items)

module _ {S : Type 0} where
  -- the search, when there is an index and a candidate
  unfoldable pub search_index :
      SemanticIndex S → String → List MemoryRecord → Async S SemanticScores
  search_index index text candidates =
      catch
        (do
          matches ←
              index.search text (length candidates) (map (λ c. (base_of c).record_id) candidates)
          pure (record { ran = true; scores = matches; degradation = none }))
        (λ e. pure (degrade e))

  unfoldable pub semantic_scores :
      Option (SemanticIndex S) → String → List MemoryRecord → Async S SemanticScores
  semantic_scores none text candidates = pure (not_run none)
  semantic_scores (some index) text [] = pure (not_run none)
  semantic_scores (some index) text (c ∷ candidates) = search_index index text (c ∷ candidates)

  -- the candidates, unless the text is blank
  unfoldable pub candidates_for : MemoryStore S → ℕ → RetrievalQuery → Async S (List MemoryRecord)
  unfolding trim
  candidates_for store limit query =
      if trim query.text === "" then pure [] else store.query (candidates_of query limit)

module _ {X : Type 0} (host : Host X) (math : Arithmetic) (words_of : String → List String)
    (store : MemoryStore (Shared X)) (index : Option (SemanticIndex (Shared X)))
    (options : HybridOptions) where
  -- the result, by the candidates, the semantic scores and the times
  abbrev pub hybrid_result :
      RetrievalQuery → List MemoryRecord → SemanticScores → String → String → ℕ → RetrievalResult
  hybrid_result query candidates found started_at finished_at duration =
      let terms = lexical_terms words_of options.min_term_length query.text in
      let matched = match_hybrid math words_of options terms found candidates in
      let selected = rank_hits (sort_hits matched.0) query.limit options.kind_diversity in
      record {
        retrieval_id = query.retrieval_id;
        query = query;
        hits = selected.hits;
        signals_used = metadata ∷ keyword ∷ (if found.ran then semantic ∷ [] else []);
        degraded = elim found.degradation [ none ↦ none | some d ↦ some (d ∷ []) ];
        dropped = omitted_if_empty selected.dropped;
        candidate_count = some (length candidates);
        unmatched_count = some matched.1;
        suppressed = false;
        started_at = started_at;
        finished_at = finished_at;
        duration_ms = duration;
      }

  unfoldable pub retrieve_hybrid : RetrievalQuery → Async (Shared X) RetrievalResult
  retrieve_hybrid query = do
    started_at ← clock_now host
    started_ms ← clock_ms host
    candidates ← candidates_for store options.max_candidates query
    found ← semantic_scores index query.text candidates
    finished_at ← clock_now host
    finished_ms ← clock_ms host
    pure (hybrid_result query candidates found started_at finished_at (finished_ms - started_ms))
