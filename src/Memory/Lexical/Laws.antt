-- ===== src/Memory/Lexical/Laws.antt =====
-- What a lexical retrieval answers.
use autonomous_agent.Common.{
  sym, not, includes, keep, ℕ, ◌+◌, ◌≤◌, ◌≡◌, refl, ◌∙◌, String, Bool, false, some, List, [], ◌∷◌,
  any, length, or_else, ◌==◌, arith, Bool-cases, inl, inr,
}
use autonomous_agent.Async.Moves.{Moves, Moves-bind, Moves-pure}
use autonomous_agent.Async.Always.{Always}
use autonomous_agent.Memory.Records.{MemoryRecord}
use autonomous_agent.Memory.Retrieval.{RetrievalQuery, RetrievalResult, RetrievalHit}
use autonomous_agent.Memory.Store.{MemoryStore, MemoryQuery, searchable_text}
use autonomous_agent.Memory.Lexical.{
  matching, score, match_each, omitted_if_empty, find_candidates, retrieve_lexically, lexical_terms,
}
use autonomous_agent.Session.Core.{Host, Shared}
use autonomous_agent.Runtime.Frame.Quiet.{Quiet, Quiet-order}
use autonomous_agent.Runtime.Frame.Methods.{clock_now-Quiet, clock_ms-Quiet}

pub length-omitted_if_empty :
    {A : Type 0} (xs : List A) → length (or_else (omitted_if_empty xs) []) ≡ length xs
length-omitted_if_empty [] = refl
length-omitted_if_empty (x ∷ xs) = refl

-- the item shares a term with the query
abbrev pub shares :
    (words_of : String → List String) (min_length : ℕ) → List String → MemoryRecord → Bool
shares words_of min_length terms item =
    any (includes (lexical_terms words_of min_length (searchable_text item))) terms

matching_zero :
    (words terms : List String) → (matching words terms == 0) ≡ not (any (includes words) terms)
matching_zero words [] = refl
matching_zero words (t ∷ terms) = ground (arith, matching_zero words terms)

module _ (words_of : String → List String) (min_length : ℕ) (terms : List String) where
  abbrev unrelated : RetrievalHit → Bool
  unrelated hit = not (shares words_of min_length terms hit.item)

  score_zero :
      (item : MemoryRecord)
      → (score words_of min_length terms item == 0) ≡ not (shares words_of min_length terms item)
  unfolding score
  score_zero item = matching_zero (lexical_terms words_of min_length (searchable_text item)) terms

  unmatched_count :
      (items : List MemoryRecord)
      → (match_each words_of min_length terms items).1
        ≡ length (keep (λ i. not (shares words_of min_length terms i)) items)
  unfolding match_each
  unmatched_count [] = omega arith
  unmatched_count (i ∷ items) = elim (Bool-cases (score words_of min_length terms i == 0)) [
    | inl e ↦
        rw (match_each, e)
          (rw (keep, sym (score_zero i) ∙ e) (omega (arith, unmatched_count items)))
    | inr e ↦ rw (match_each, e) (rw (keep, sym (score_zero i) ∙ e) (unmatched_count items))
  ]

-- without a term no record is looked at
abbrev pub looked_at : List String → List MemoryRecord → List MemoryRecord
looked_at [] items = []
looked_at (t ∷ terms) items = items

-- what is answered on a store that holds `items`: every candidate is accounted for, the hits stay within
-- the limit, and what a hit is is said by its terms
pub record Accounted (words_of : String → List String) (min_length : ℕ) (query : RetrievalQuery)
    (items : List MemoryRecord) (r : RetrievalResult) : Type 0 where
  pub unmatched : ℕ
  pub candidate_count :
      r.candidate_count
      ≡ some (length (looked_at (lexical_terms words_of min_length query.text) items))
  pub unmatched_count : r.unmatched_count ≡ some unmatched
  pub unrelated_count :
      unmatched
      ≡ length (
          keep
            (λ i. not (shares words_of min_length (lexical_terms words_of min_length query.text) i))
            (looked_at (lexical_terms words_of min_length query.text) items))
  pub adds_up :
      length r.hits + length (or_else r.dropped []) + unmatched
      ≡ length (looked_at (lexical_terms words_of min_length query.text) items)
  pub within : length r.hits ≤ query.limit
  pub related :
      any (unrelated words_of min_length (lexical_terms words_of min_length query.text)) r.hits
      ≡ false

module _ {X : Type 0} (host : Host X) (words_of : String → List String)
    (store : MemoryStore (Shared X)) (min_length max_candidates : ℕ) where
  find_candidates-Quiet :
      (query : RetrievalQuery) (terms : List String)
      → ((q : MemoryQuery) → Moves Quiet (store.query q))
      → Moves Quiet (find_candidates host words_of store min_length max_candidates query terms)
  unfolding find_candidates
  find_candidates-Quiet query [] q = Moves-pure Quiet-order _
  find_candidates-Quiet query (t ∷ terms) q = q _

  pub retrieve_lexically-Quiet :
      (query : RetrievalQuery)
      → ((q : MemoryQuery) → Moves Quiet (store.query q))
      → Moves Quiet (retrieve_lexically host words_of store min_length max_candidates query)
  unfolding retrieve_lexically
  retrieve_lexically-Quiet query q = Moves-bind Quiet-order _ _ (clock_now-Quiet host) λ a.
      Moves-bind Quiet-order _ _ (clock_ms-Quiet host) λ b.
        Moves-bind Quiet-order _ _ (find_candidates-Quiet query _ q) λ items.
          Moves-bind Quiet-order _ _ (clock_now-Quiet host)
            λ c. Moves-bind Quiet-order _ _ (clock_ms-Quiet host) λ d. Moves-pure Quiet-order _
