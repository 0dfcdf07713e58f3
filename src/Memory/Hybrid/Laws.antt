-- ===== src/Memory/Hybrid/Laws.antt =====
-- A hybrid retrieval accounts for every candidate and survives a failing index.
use autonomous_agent.Common.{
  ℕ, ◌+◌, ◌-◌, ◌≡◌, ◌⊎◌, refl, ap, ◌∙◌, String, true, false, Option, none, some, List, [], ◌∷◌, map,
  length, or_else, arith, inl, inr, Bool-cases, if◌then◌else◌, ◌===◌,
}
use autonomous_agent.Common.Scan.{trim}
use autonomous_agent.Async.{pure, catch, Settled, fulfilled, rejected, recover, proceed, ◌>>=◌}
use autonomous_agent.Async.Always.{Always, Always-pure, Always-bind, Sure}
use autonomous_agent.Async.Moves.{Moves, Moves-bind, Moves-pure, Moves-catch, Moves-if}
use autonomous_agent.Domain.Thrown.{Thrown}
use autonomous_agent.Memory.Records.{MemoryRecord, base_of}
use autonomous_agent.Memory.Retrieval.{
  RetrievalQuery, RetrievalResult, RetrievalHit, metadata, keyword, semantic,
}
use autonomous_agent.Memory.Store.{MemoryStore, MemoryQuery, SemanticIndex, SemanticMatch}
use autonomous_agent.Memory.Lexical.{lexical_terms, omitted_if_empty}
use autonomous_agent.Memory.Lexical.Laws.{length-omitted_if_empty}
use autonomous_agent.Memory.Ranking.{sort_hits, rank_hits}
use autonomous_agent.Memory.Ranking.Sorting.{length-sort}
use autonomous_agent.Memory.Ranking.Counts.{rank_hits-partition}
use autonomous_agent.Memory.Hybrid.{
  Arithmetic, HybridOptions, SemanticScores, not_run, degrade, match_hybrid, has_signal,
  keyword_coverage, hybrid_hit, hit_or_unmatched, score_of, search_index, semantic_scores,
  candidates_for, hybrid_result, retrieve_hybrid,
}
use autonomous_agent.Session.Core.{Host, Shared}
use autonomous_agent.Session.Answers.{clock_now-Always, clock_ms-Always}
use autonomous_agent.Runtime.Frame.Quiet.{Quiet, Quiet-order}
use autonomous_agent.Runtime.Frame.Methods.{clock_now-Quiet, clock_ms-Quiet}

module _ (math : Arithmetic) (words_of : String → List String) (options : HybridOptions)
    (terms : List String) (found : SemanticScores) where
  matched_count :
      (items : List MemoryRecord)
      → length (match_hybrid math words_of options terms found items).0
          + (match_hybrid math words_of options terms found items).1
        ≡ length items
  unfolding match_hybrid
  matched_count [] = omega arith
  matched_count (i ∷ items) =
      elim (Bool-cases (
        has_signal math words_of options (keyword_coverage math words_of options terms i)
          (score_of found.scores (base_of i).record_id))) [
            | inl e ↦ rw (match_hybrid, e) (omega (arith, matched_count items))
            | inr e ↦ rw (match_hybrid, e) (omega (arith, matched_count items))
          ]

-- no search, whatever the reason
module _ (math : Arithmetic) (words_of : String → List String) (options : HybridOptions)
    (terms : List String) (e : Thrown) where
  pub match_degraded :
      (items : List MemoryRecord)
      → match_hybrid math words_of options terms (degrade e) items
        ≡ match_hybrid math words_of options terms (not_run none) items
  unfolding match_hybrid
  match_degraded [] = refl
  match_degraded (i ∷ items) =
      ap
        (hit_or_unmatched math words_of options
          (has_signal math words_of options (keyword_coverage math words_of options terms i) none)
          (hybrid_hit math words_of options i (keyword_coverage math words_of options terms i) none
            false))
        (match_degraded items)

-- the scores of a search that did not fail, or those of no search, with the reason
abbrev IsWhole : SemanticScores → Type 0
IsWhole found = (found.degradation ≡ none) ⊎ ((e : Thrown) × (found ≡ degrade e))

module _ {S : Type 0} where
  search_index-Always :
      (index : SemanticIndex S) (text : String) (items : List MemoryRecord)
      → Always IsWhole (search_index index text items)
  unfolding search_index catch ◌>>=◌ pure
  search_index-Always index text items = record {
    at = λ s.
        let (r, t) = index.search text (length items) (map (λ c. (base_of c).record_id) items) s in
        by_outcome r t;
  }
    where
      by_outcome :
          (r : Settled (List SemanticMatch)) (t : S)
          → Sure IsWhole
              (let (r', u) =
                  proceed r
                    (λ matches.
                      pure {A = SemanticScores}
                        (record { ran = true; scores = matches; degradation = none }))
                    t in
                recover r' (λ e. pure (degrade e)) u).0
      by_outcome (fulfilled matches) t = inl refl
      by_outcome (rejected e) t = inr (e, refl)

  semantic_scores-Always :
      (index : Option (SemanticIndex S)) (text : String) (items : List MemoryRecord)
      → Always IsWhole (semantic_scores index text items)
  unfolding semantic_scores
  semantic_scores-Always none text items = Always-pure _ _ (inl refl)
  semantic_scores-Always (some index) text [] = Always-pure _ _ (inl refl)
  semantic_scores-Always (some index) text (c ∷ items) = search_index-Always index text (c ∷ items)

  pub candidates_for-Always :
      (store : MemoryStore S) (limit : ℕ) (query : RetrievalQuery)
      → ((q : MemoryQuery) → Always (λ _. Unit) (store.query q))
      → Always (λ _. Unit) (candidates_for store limit query)
  unfolding candidates_for
  candidates_for-Always store limit query h = elim (Bool-cases (trim query.text === "")) [
    | inl e ↦ rw (candidates_for, e) (Always-pure _ _ tt)
    | inr e ↦ rw (candidates_for, e) (h _)
  ]

module _ {X : Type 0} (host : Host X) (math : Arithmetic) (words_of : String → List String)
    (store : MemoryStore (Shared X)) (index : Option (SemanticIndex (Shared X)))
    (options : HybridOptions) where
  -- the result for these candidates without any semantic search
  abbrev lexical_only : RetrievalQuery → List MemoryRecord → RetrievalResult
  lexical_only query items =
      hybrid_result host math words_of store index options query items (not_run none) "" "" 0

  -- what is answered for some candidates
  pub record Survives (query : RetrievalQuery) (r : RetrievalResult) : Type 0 where
    pub candidates : List MemoryRecord
    pub unmatched : ℕ
    pub candidate_count : r.candidate_count ≡ some (length candidates)
    pub unmatched_count : r.unmatched_count ≡ some unmatched
    pub adds_up : length r.hits + length (or_else r.dropped []) + unmatched ≡ length candidates
    pub whole :
        (r.degraded ≡ none)
        ⊎ ((r.hits ≡ (lexical_only query candidates).hits)
            × (r.dropped ≡ (lexical_only query candidates).dropped)
            × (r.signals_used ≡ metadata ∷ keyword ∷ []))

  result-Survives :
      (query : RetrievalQuery) (items : List MemoryRecord) (found : SemanticScores) (a b : String)
      (d : ℕ)
      → IsWhole found
      → Survives query
          (hybrid_result host math words_of store index options query items found a b d)
  result-Survives query items found a b d w =
      let terms = lexical_terms words_of options.min_term_length query.text in
      let matched = match_hybrid math words_of options terms found items in
      let ranked = sort_hits matched.0 in
      record {
        candidates = items;
        unmatched = matched.1;
        candidate_count = refl;
        unmatched_count = refl;
        adds_up = omega (
          arith,
          length-omitted_if_empty (rank_hits ranked query.limit options.kind_diversity).dropped,
          rank_hits-partition ranked query.limit options.kind_diversity,
          length-sort matched.0,
          matched_count math words_of options terms found items,
        );
        whole = by_search w;
      }
    where
      by_search :
          IsWhole found
          → let r = hybrid_result host math words_of store index options query items found a b d in
            (r.degraded ≡ none)
            ⊎ ((r.hits ≡ (lexical_only query items).hits)
                × (r.dropped ≡ (lexical_only query items).dropped)
                × (r.signals_used ≡ metadata ∷ keyword ∷ []))
      by_search (inl e) = inl (rw e refl)
      by_search (inr (e, same)) =
          let terms = lexical_terms words_of options.min_term_length query.text in
          let matched : match_hybrid math words_of options terms found items
              ≡ match_hybrid math words_of options terms (not_run none) items =
            ap (λ f. match_hybrid math words_of options terms f items) same
            ∙ match_degraded math words_of options terms e items in
          inr (
            ap
                (λ (m : List RetrievalHit × ℕ).
                  (rank_hits (sort_hits m.0) query.limit options.kind_diversity).hits)
                matched,
            ap
                (λ (m : List RetrievalHit × ℕ).
                  omitted_if_empty
                    (rank_hits (sort_hits m.0) query.limit options.kind_diversity).dropped)
                matched,
            ap (λ (f : SemanticScores). metadata ∷ keyword ∷ (if f.ran then semantic ∷ [] else []))
                same,
          )

  -- If the store answers, a hybrid retrieval never throws, whatever the semantic index does. Every
  -- candidate is a hit, dropped or unmatched, and the three numbers add up; and a retrieval that is
  -- degraded has the hits and the dropped hits of one without an index, and claims no semantic signal.
  pub retrieve_hybrid-Survives :
      (query : RetrievalQuery)
      → ((q : MemoryQuery) → Always (λ _. Unit) (store.query q))
      → Always (Survives query) (retrieve_hybrid host math words_of store index options query)
  unfolding retrieve_hybrid
  retrieve_hybrid-Survives query h =
      Always-bind (λ _. Unit) _ _ _ (clock_now-Always host)
        λ a _.
          Always-bind (λ _. Unit) _ _ _ (clock_ms-Always host)
            λ b _.
              Always-bind (λ _. Unit) _ _ _
                (candidates_for-Always store options.max_candidates query h)
                λ items _.
                  Always-bind IsWhole _ _ _ (semantic_scores-Always index query.text items)
                    λ found w.
                      Always-bind (λ _. Unit) _ _ _ (clock_now-Always host)
                        λ c _.
                          Always-bind (λ _. Unit) _ _ _ (clock_ms-Always host)
                            λ d _. Always-pure _ _ (result-Survives query items found a c (d - b) w)

  semantic_scores-Quiet :
      (o : Option (SemanticIndex (Shared X))) (text : String) (items : List MemoryRecord)
      → ((i : SemanticIndex (Shared X))
          → o ≡ some i
          → (t : String) (n : ℕ) (ids : List String) → Moves Quiet (i.search t n ids))
      → Moves Quiet (semantic_scores o text items)
  unfolding semantic_scores search_index
  semantic_scores-Quiet none text items q = Moves-pure Quiet-order _
  semantic_scores-Quiet (some i) text [] q = Moves-pure Quiet-order _
  semantic_scores-Quiet (some i) text (c ∷ cs) q =
      Moves-catch Quiet-order _ _
        (Moves-bind Quiet-order _ _ (q i refl text _ _) λ m. Moves-pure Quiet-order _)
        (λ e. Moves-pure Quiet-order _)

  candidates_for-Quiet :
      (query : RetrievalQuery)
      → ((q : MemoryQuery) → Moves Quiet (store.query q))
      → Moves Quiet (candidates_for store options.max_candidates query)
  unfolding candidates_for
  candidates_for-Quiet query q =
      Moves-if Quiet-order (trim query.text === "") _ _ (λ _. Moves-pure Quiet-order _) (λ _. q _)

  -- The hybrid retriever keeps to the contract that the runtime puts on a retriever.
  pub retrieve_hybrid-Quiet :
      (query : RetrievalQuery)
      → ((q : MemoryQuery) → Moves Quiet (store.query q))
      → ((i : SemanticIndex (Shared X))
          → index ≡ some i
          → (t : String) (n : ℕ) (ids : List String) → Moves Quiet (i.search t n ids))
      → Moves Quiet (retrieve_hybrid host math words_of store index options query)
  unfolding retrieve_hybrid
  retrieve_hybrid-Quiet query q qi = Moves-bind Quiet-order _ _ (clock_now-Quiet host) λ a.
      Moves-bind Quiet-order _ _ (clock_ms-Quiet host) λ b.
        Moves-bind Quiet-order _ _ (candidates_for-Quiet query q) λ items.
          Moves-bind Quiet-order _ _ (semantic_scores-Quiet index query.text items qi) λ found.
            Moves-bind Quiet-order _ _ (clock_now-Quiet host)
              λ c. Moves-bind Quiet-order _ _ (clock_ms-Quiet host) λ d. Moves-pure Quiet-order _
