-- ===== src/Agent/Prompting/Laws.antt =====
-- Which memory a model is shown.
use autonomous_agent.Common.{
  ◌≡◌, refl, sym, ap, subst, ◌∙◌, String, Bool, true, false, ◌||◌, some, List, [], ◌∷◌, ◌++◌, map,
  any, includes, keep, not, if◌then◌else◌, Bool-cases, inl, inr, arith,
}
use autonomous_agent.Domain.Provenance.{add_new, merge_values}
use autonomous_agent.Domain.Provenance.Merge.{
  IsDistinct, includes-merge_values, merge_values-IsDistinct, has_value,
}
use autonomous_agent.Memory.Records.{MemoryRecord}
use autonomous_agent.Memory.Retrieval.{RetrievalResult, RetrievalHit}
use autonomous_agent.Agent.Prompting.{
  PresentedMemory, presented_memory, present_from, present_retrieval, present_hits, present_hit,
  record_id_of,
}

abbrev hit_id : RetrievalHit → String
hit_id hit = record_id_of hit.item

abbrev pub hit_ids : RetrievalResult → List String
hit_ids r = map hit_id r.hits

abbrev pub shown_ids : PresentedMemory → List String
shown_ids m = map record_id_of m.records

map-append_one :
    (rs : List MemoryRecord) (r : MemoryRecord)
    → map record_id_of (rs ++ r ∷ []) ≡ map record_id_of rs ++ record_id_of r ∷ []
map-append_one [] r = refl
map-append_one (x ∷ rs) r = ap (λ l. record_id_of x ∷ l) (map-append_one rs r)

shown-present_hit :
    (m : PresentedMemory) (hit : RetrievalHit)
    → shown_ids (present_hit m hit) ≡ (
        if includes (shown_ids m) (hit_id hit) then shown_ids m else shown_ids m ++ hit_id hit ∷ [])
shown-present_hit m hit = elim (Bool-cases (includes (shown_ids m) (hit_id hit))) [
  | inl e ↦ rw e refl
  | inr e ↦ rw e (map-append_one m.records hit.item)
]

shown-present_hits :
    (hits : List RetrievalHit) (m : PresentedMemory)
    → shown_ids (present_hits m hits) ≡ add_new (shown_ids m) (map hit_id hits)
unfolding present_hits add_new
shown-present_hits [] m = refl
shown-present_hits (hit ∷ hits) m =
    shown-present_hits hits (present_hit m hit)
    ∙ ap (λ l. add_new l (map hit_id hits)) (shown-present_hit m hit)

shown-present_retrieval :
    (hits : List RetrievalHit) (m : PresentedMemory) (id : String)
    → shown_ids (present_retrieval m id hits) ≡ add_new (shown_ids m) (map hit_id hits)
unfolding add_new
shown-present_retrieval [] m id = refl
shown-present_retrieval (hit ∷ hits) m id =
    shown-present_hits (hit ∷ hits) (record m { retrieval_ids = m.retrieval_ids ++ id ∷ [] })

shown-present_from :
    (rs : List RetrievalResult) (m : PresentedMemory)
    → shown_ids (present_from m rs) ≡ merge_values (shown_ids m) (map (λ r. some (hit_ids r)) rs)
unfolding present_from merge_values
shown-present_from [] m = refl
shown-present_from (r ∷ rs) m =
    shown-present_from rs (present_retrieval m r.retrieval_id r.hits)
    ∙ ap (λ l. merge_values l (map (λ r. some (hit_ids r)) rs))
        (shown-present_retrieval r.hits m r.retrieval_id)

any-has_value :
    (v : String) (rs : List RetrievalResult)
    → any (has_value v) (map (λ r. some (hit_ids r)) rs) ≡ any (λ r. includes (hit_ids r) v) rs
any-has_value v [] = refl
any-has_value v (r ∷ rs) = ap (λ b. includes (hit_ids r) v || b) (any-has_value v rs)

abbrev is_empty {ℓ} : {A : Type ℓ} → List A → Bool
is_empty [] = true
is_empty (x ∷ xs) = false

cited-present_hits :
    (hits : List RetrievalHit) (m : PresentedMemory)
    → (present_hits m hits).retrieval_ids ≡ m.retrieval_ids
unfolding present_hits
cited-present_hits [] m = refl
cited-present_hits (hit ∷ hits) m = cited-present_hits hits (present_hit m hit)

abbrev pub has_hits : RetrievalResult → Bool
has_hits r = not (is_empty r.hits)

append_assoc_one :
    (xs : List String) (x : String) (ys : List String) → (xs ++ x ∷ []) ++ ys ≡ xs ++ x ∷ ys
append_assoc_one [] x ys = refl
append_assoc_one (z ∷ xs) x ys = ap (λ l. z ∷ l) (append_assoc_one xs x ys)

append_nil : (xs : List String) → xs ++ [] ≡ xs
append_nil [] = refl
append_nil (x ∷ xs) = ap (λ l. x ∷ l) (append_nil xs)

cited_step :
    (hits : List RetrievalHit) (m : PresentedMemory) (id : String) (rest : List String)
    → (present_retrieval m id hits).retrieval_ids ++ rest
      ≡ m.retrieval_ids ++ (if not (is_empty hits) then id ∷ rest else rest)
cited_step [] m id rest = refl
cited_step (hit ∷ hits) m id rest =
    ap (λ l. l ++ rest)
      (cited-present_hits (hit ∷ hits) (record m { retrieval_ids = m.retrieval_ids ++ id ∷ [] }))
    ∙ append_assoc_one m.retrieval_ids id rest

cited-present_from :
    (rs : List RetrievalResult) (m : PresentedMemory)
    → (present_from m rs).retrieval_ids
      ≡ m.retrieval_ids ++ map (λ r. r.retrieval_id) (keep has_hits rs)
unfolding present_from
cited-present_from [] m = sym (append_nil m.retrieval_ids)
cited-present_from (r ∷ rs) m =
    cited-present_from rs (present_retrieval m r.retrieval_id r.hits)
    ∙ cited_step r.hits m r.retrieval_id (map (λ r. r.retrieval_id) (keep has_hits rs))
    ∙ ap (λ l. m.retrieval_ids ++ l) (ground arith)

-- what a model is shown of these retrievals
pub record Presents (rs : List RetrievalResult) (m : PresentedMemory) : Type 0 where
  pub shown : (v : String) → includes (shown_ids m) v ≡ any (λ r. includes (hit_ids r) v) rs
  pub once : IsDistinct (shown_ids m)
  pub cited : m.retrieval_ids ≡ map (λ r. r.retrieval_id) (keep has_hits rs)

-- A model is shown each record that a retrieval hit, and no other, each once; and the retrievals that
-- are said to have informed it are those with hits, in their order.
pub presented_memory-Presents : (rs : List RetrievalResult) → Presents rs (presented_memory rs)
unfolding presented_memory
presented_memory-Presents rs = record {
  shown = λ v.
      ap (λ l. includes l v) (shown-present_from rs _)
      ∙ includes-merge_values (map (λ r. some (hit_ids r)) rs) [] v
      ∙ any-has_value v rs;
  once = subst IsDistinct (sym (shown-present_from rs _)) (merge_values-IsDistinct _ [] tt);
  cited = cited-present_from rs _;
}
