-- ===== src/Memory/Ranking/Sorting.antt =====
-- Sorting keeps the hits.
use autonomous_agent.Common.{
  ℕ, suc, ◌+◌, ◌≡◌, refl, ap, Bool, ◌||◌, List, [], ◌∷◌, any, length, arith,
}
use autonomous_agent.Memory.Retrieval.{RetrievalHit}
use autonomous_agent.Memory.Ranking.{insert_hit, sort_into, sort_hits, annotate_from}

length-insert :
    (h : RetrievalHit) (hs : List RetrievalHit) → length (insert_hit h hs) ≡ suc (length hs)
unfolding insert_hit
length-insert h [] = refl
length-insert h (x ∷ xs) = ground (arith, length-insert h xs)

length-sort_into :
    (hs sorted : List RetrievalHit) → length (sort_into sorted hs) ≡ length hs + length sorted
unfolding sort_into
length-sort_into [] sorted = omega arith
length-sort_into (h ∷ hs) sorted =
    omega (arith, length-sort_into hs (insert_hit h sorted), length-insert h sorted)

pub length-sort : (hs : List RetrievalHit) → length (sort_hits hs) ≡ length hs
unfolding sort_hits
length-sort hs = omega (arith, length-sort_into hs [])

module _ (p : RetrievalHit → Bool) where
  any-insert :
      (h : RetrievalHit) (hs : List RetrievalHit) → any p (insert_hit h hs) ≡ p h || any p hs
  unfolding insert_hit
  any-insert h [] = refl
  any-insert h (x ∷ xs) = ground (arith, any-insert h xs)

  any-sort_into :
      (hs sorted : List RetrievalHit) → any p (sort_into sorted hs) ≡ any p hs || any p sorted
  unfolding sort_into
  any-sort_into [] sorted = refl
  any-sort_into (h ∷ hs) sorted =
      ground (arith, any-sort_into hs (insert_hit h sorted), any-insert h sorted)

  pub any-sort : (hs : List RetrievalHit) → any p (sort_hits hs) ≡ any p hs
  unfolding sort_hits
  any-sort hs = ground (arith, any-sort_into hs [])

pub length-annotate :
    (capped : ℕ) (diversity : Bool) (ranked : List RetrievalHit) (hs : List RetrievalHit) (rank : ℕ)
    → length (annotate_from capped diversity ranked rank hs) ≡ length hs
unfolding annotate_from
length-annotate capped diversity ranked [] rank = refl
length-annotate capped diversity ranked (h ∷ hs) rank =
    ap suc (length-annotate capped diversity ranked hs (rank + 1))
