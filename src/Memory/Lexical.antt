-- ===== src/Memory/Lexical.antt =====
-- `LexicalRetriever` of src/memory/lexical-retriever.ts. `words_of` is the platform's
-- `text.toLowerCase().split(/[^\p{L}\p{N}]+/u)`.
pub mod Laws
use autonomous_agent.Common.{
  ℕ, ◌+◌, ◌-◌, String, Bool, true, false, not, ◌&&◌, Option, none, some, List, [], ◌∷◌, map, keep,
  includes, length, take, drop, leb, ◌==◌, text_length, if◌then◌else◌,
}
use autonomous_agent.Common.Int.{ℤ, pos}
use autonomous_agent.Async.{Async, pure, ◌>>=◌}
use autonomous_agent.Memory.Records.{MemoryRecord, kind_of}
use autonomous_agent.Memory.Retrieval.{
  RetrievalQuery, RetrievalResult, RetrievalHit, RetrievalDrop, ScoreBreakdown, below_limit,
  metadata, keyword,
}
use autonomous_agent.Memory.Store.{MemoryStore, MemoryQuery, searchable_text}
use autonomous_agent.Memory.Ranking.{id_of, sort_hits, add_id}
use autonomous_agent.Session.Core.{Host, Shared, clock_now, clock_ms}

abbrev pub stopwords : List String
stopwords =
    "the" ∷ "and" ∷ "for" ∷ "with" ∷ "that" ∷ "this" ∷ "are" ∷ "was" ∷ "were" ∷ "from" ∷ "into"
    ∷ "then" ∷ "than" ∷ "not" ∷ "does" ∷ "did" ∷ "will" ∷ "should" ∷ "can" ∷ "must" ∷ "have" ∷ "has"
    ∷ "had" ∷ "its" ∷ "their" ∷ "there" ∷ "which" ∷ "what" ∷ "who" ∷ "when" ∷ "where" ∷ "how"
    ∷ "all" ∷ "any" ∷ "each" ∷ "some" ∷ "such" ∷ "only" ∷ "also" ∷ "our" ∷ "your" ∷ "you" ∷ "they"
    ∷ "them" ∷ "but" ∷ "about" ∷ "after" ∷ "before" ∷ "while" ∷ "been" ∷ "being" ∷ "would" ∷ "could"
    ∷ "may" ∷ "might" ∷ "shall" ∷ "per" ∷ "via" ∷ []

abbrev is_term : ℕ → String → Bool
is_term min_length word = leb min_length (text_length word) && not (includes stopwords word)

-- the loop that fills the set `out`
unfoldable pub collect_terms : ℕ → List String → List String → List String
collect_terms min_length out [] = out
collect_terms min_length out (raw ∷ raws) =
    collect_terms min_length (if is_term min_length raw then add_id out raw else out) raws

-- how many of the terms stand among the words
abbrev pub matching : List String → List String → ℕ
matching words terms = length (keep (includes words) terms)

-- the query for the metadata stage
abbrev pub candidates_of : RetrievalQuery → ℕ → MemoryQuery
candidates_of query limit = record {
  kinds = some query.kinds;
  run_id = none;
  goal_id = none;
  tags = query.tags;
  created_after = none;
  limit = some limit;
}

abbrev pub ranked_at : ℕ → List RetrievalHit → List RetrievalHit
ranked_at rank [] = []
ranked_at rank (hit ∷ hits) =
    record hit {
      rank_before_selection = some rank;
      kept_by_diversity = some false;
      final_rank = some rank;
    }
    ∷ ranked_at (rank + 1) hits

abbrev pub dropped_at : ℕ → List RetrievalHit → List RetrievalDrop
dropped_at rank [] = []
dropped_at rank (hit ∷ hits) =
    record {
      record_id = id_of hit;
      kind = kind_of hit.item;
      score = hit.score;
      breakdown = hit.breakdown;
      rank_before_selection = rank;
      reason = below_limit;
    }
    ∷ dropped_at (rank + 1) hits

-- a list that is left out if it is empty
abbrev pub omitted_if_empty : {A : Type 0} → List A → Option (List A)
omitted_if_empty [] = none
omitted_if_empty (x ∷ xs) = some (x ∷ xs)

module _ (words_of : String → List String) (min_length : ℕ) where
  unfoldable pub lexical_terms : String → List String
  unfolding collect_terms
  lexical_terms text = collect_terms min_length [] (words_of text)

  unfoldable pub score : List String → MemoryRecord → ℕ
  unfolding lexical_terms searchable_text
  score terms item = matching (lexical_terms (searchable_text item)) terms

  abbrev pub lexical_hit : MemoryRecord → ℕ → RetrievalHit
  lexical_hit item n = record {
    item = item;
    score = pos n;
    matched_by = metadata ∷ keyword ∷ [];
    breakdown = some (record {
      lexical = pos n;
      semantic = none;
      semantic_admitted = false;
      semantic_threshold = none;
      lexical_weight = pos 1;
      semantic_weight = pos 0;
      combined = pos n;
    });
    rank_before_selection = none;
    kept_by_diversity = none;
    final_rank = none;
    applicability = none;
  }

  abbrev pub hit_unless_zero : ℕ → RetrievalHit → List RetrievalHit × ℕ → List RetrievalHit × ℕ
  hit_unless_zero n hit (hits, unmatched) =
      if n == 0 then (hits, unmatched + 1) else (hit ∷ hits, unmatched)

  -- the loop over the candidates: the hits in their order, and how many records match nothing
  unfoldable pub match_each : List String → List MemoryRecord → List RetrievalHit × ℕ
  unfolding score
  match_each terms [] = ([], 0)
  match_each terms (item ∷ items) =
      hit_unless_zero (score terms item) (lexical_hit item (score terms item))
        (match_each terms items)

module _ {X : Type 0} (host : Host X) (words_of : String → List String)
    (store : MemoryStore (Shared X)) (min_length max_candidates : ℕ) where
  -- the candidates, if there is a term to look for
  unfoldable pub find_candidates :
      RetrievalQuery → List String → Async (Shared X) (List MemoryRecord)
  find_candidates query [] = pure []
  find_candidates query (t ∷ terms) = store.query (candidates_of query max_candidates)

  unfoldable pub retrieve_lexically : RetrievalQuery → Async (Shared X) RetrievalResult
  retrieve_lexically query = do
    started_at ← clock_now host
    started_ms ← clock_ms host
    let terms = lexical_terms words_of min_length query.text
    candidates ← find_candidates query terms
    let matched = match_each words_of min_length terms candidates
    let hits = sort_hits matched.0
    finished_at ← clock_now host
    finished_ms ← clock_ms host
    pure (record {
      retrieval_id = query.retrieval_id;
      query = query;
      hits = ranked_at 1 (take query.limit hits);
      signals_used = metadata ∷ keyword ∷ [];
      degraded = none;
      dropped = omitted_if_empty (dropped_at (query.limit + 1) (drop query.limit hits));
      candidate_count = some (length candidates);
      unmatched_count = some matched.1;
      suppressed = false;
      started_at = started_at;
      finished_at = finished_at;
      duration_ms = finished_ms - started_ms;
    })
