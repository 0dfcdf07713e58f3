-- ===== src/Memory/Ranking.antt =====
-- The order of hits and the choice among them: `compareHits` of src/memory/lexical-retriever.ts,
-- `rankHits` and `selectWithKindDiversity` of src/memory/hybrid-retriever.ts. A limit is a natural
-- number. `Array.prototype.sort` is the stable sort by the comparison.
pub mod Sorting
pub mod Counts
pub mod Diversity
use Prim.Native.Char.{code}
use Prim.Native.String
use autonomous_agent.Common.{
  ℕ, zero, suc, ◌+◌, String, Bool, true, false, not, ◌&&◌, ◌||◌, Option, none, some, List, [], ◌∷◌,
  ◌++◌, map, keep, any, includes, length, take, drop, or_else, ltb, leb, ◌==◌, ◌===◌, if◌then◌else◌,
}
use autonomous_agent.Common.Int.{ℤ, ltb_ℤ}
use autonomous_agent.Memory.Records.{MemoryKind, MemoryRecord, base_of, kind_of, same_kind}
use autonomous_agent.Memory.Retrieval.{
  RetrievalHit, RetrievalDrop, DropReason, below_limit, displaced_by_diversity,
}

-- `a < b` on texts
unfoldable pub text_before : String → String → Bool
text_before s String.[] = false
text_before String.[] (String.◌∷◌ d t) = true
text_before (String.◌∷◌ c s) (String.◌∷◌ d t) =
    let rest = text_before s t in
    if ltb (code c) (code d) then true else if code c == code d then rest else false

abbrev pub id_of : RetrievalHit → String
id_of hit = (base_of hit.item).record_id

abbrev created : RetrievalHit → String
created hit = (base_of hit.item).created_at

-- `compareHits(a, b) < 0`
unfoldable pub hit_before : RetrievalHit → RetrievalHit → Bool
unfolding text_before
hit_before a b =
    if ltb_ℤ b.score a.score
    then true
    else if ltb_ℤ a.score b.score
    then false
    else if not (created a === created b)
    then not (text_before (created a) (created b))
    else text_before (id_of a) (id_of b)

-- a hit goes in front of the first one that it comes before
unfoldable pub insert_hit : RetrievalHit → List RetrievalHit → List RetrievalHit
insert_hit hit [] = hit ∷ []
insert_hit hit (h ∷ hits) =
    let rest = insert_hit hit hits in if hit_before hit h then hit ∷ h ∷ hits else h ∷ rest

-- the hits of a list, one after the other, into a sorted one
unfoldable pub sort_into : List RetrievalHit → List RetrievalHit → List RetrievalHit
unfolding insert_hit
sort_into sorted [] = sorted
sort_into sorted (h ∷ hits) = sort_into (insert_hit h sorted) hits

-- `hits.sort(compareHits)`
unfoldable pub sort_hits : List RetrievalHit → List RetrievalHit
unfolding sort_into
sort_hits hits = sort_into [] hits

-- `rankOf.get(id)` from a rank on: the last hit of that identifier
unfoldable pub rank_of : ℕ → List RetrievalHit → String → Option ℕ
rank_of rank [] id = none
rank_of rank (hit ∷ hits) id = elim (rank_of (rank + 1) hits id) [
  | some later ↦ some later
  | none ↦ if id_of hit === id then some rank else none
]

-- `chosen.add(id)`
abbrev pub add_id : List String → String → List String
add_id chosen id = if includes chosen id then chosen else chosen ++ id ∷ []

-- the first pass: the best hit of each kind
unfoldable pub first_of_kinds : ℕ → List MemoryKind → List String → List RetrievalHit → List String
first_of_kinds capped seen chosen [] = chosen
first_of_kinds capped seen chosen (hit ∷ hits) =
    let skipped = first_of_kinds capped seen chosen hits in
    let taken = first_of_kinds capped (kind_of hit.item ∷ seen) (add_id chosen (id_of hit)) hits in
    if leb capped (length chosen)
    then chosen
    else if any (same_kind (kind_of hit.item)) seen
    then skipped
    else taken

-- the second pass: the rest, in ranked order
unfoldable pub fill : ℕ → List String → List RetrievalHit → List String
fill capped chosen [] = chosen
fill capped chosen (hit ∷ hits) =
    let rest = fill capped (add_id chosen (id_of hit)) hits in
    if leb capped (length chosen) then chosen else rest

abbrev pub add_ids : List String → List RetrievalHit → List String
add_ids chosen [] = chosen
add_ids chosen (hit ∷ hits) = add_ids (add_id chosen (id_of hit)) hits

-- the set `chosen`
unfoldable pub choose : ℕ → Bool → List RetrievalHit → List String
unfolding first_of_kinds fill
choose capped diversity ranked =
    if not diversity || leb (length ranked) capped
    then add_ids [] (take capped ranked)
    else fill capped (first_of_kinds capped [] [] ranked) ranked

-- `keptByDiversity.has(id)` for a chosen identifier
unfoldable pub kept_by_diversity : ℕ → Bool → List RetrievalHit → String → Bool
unfolding rank_of
kept_by_diversity capped diversity ranked id =
    diversity && ltb capped (length ranked) && ltb capped (or_else (rank_of 1 ranked id) 0)

module _ (capped : ℕ) (diversity : Bool) (ranked : List RetrievalHit) where
  -- the hits with their ranks, from a final rank on
  unfoldable pub annotate_from : ℕ → List RetrievalHit → List RetrievalHit
  unfolding kept_by_diversity rank_of
  annotate_from rank [] = []
  annotate_from rank (hit ∷ hits) =
      record hit {
        rank_before_selection = some (or_else (rank_of 1 ranked (id_of hit)) rank);
        kept_by_diversity = some (kept_by_diversity capped diversity ranked (id_of hit));
        final_rank = some rank;
      }
      ∷ annotate_from (rank + 1) hits

  abbrev drop_reason : ℕ → DropReason
  drop_reason rank = if diversity && leb rank capped then displaced_by_diversity else below_limit

  abbrev pub drop_of : RetrievalHit → RetrievalDrop
  drop_of hit = record {
    record_id = id_of hit;
    kind = kind_of hit.item;
    score = hit.score;
    breakdown = hit.breakdown;
    rank_before_selection = or_else (rank_of 1 ranked (id_of hit)) 0;
    reason = drop_reason (or_else (rank_of 1 ranked (id_of hit)) 0);
  }

pub record Selected : Type 0 where
  pub hits : List RetrievalHit
  pub dropped : List RetrievalDrop

unfoldable pub rank_hits : List RetrievalHit → ℕ → Bool → Selected
unfolding choose sort_hits annotate_from
rank_hits ranked limit diversity =
    let chosen = choose limit diversity ranked in
    record {
      hits =
          annotate_from limit diversity ranked 1
            (sort_hits (keep (λ hit. includes chosen (id_of hit)) ranked));
      dropped =
          map (drop_of limit diversity ranked)
            (keep (λ hit. not (includes chosen (id_of hit))) ranked);
    }

unfoldable pub select_with_kind_diversity : List RetrievalHit → ℕ → List RetrievalHit
select_with_kind_diversity ranked limit = (rank_hits ranked limit true).hits
