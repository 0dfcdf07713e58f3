-- ===== src/Memory/Ranking/Counts.antt =====
-- How many hits are selected: all hits are either selected or dropped, and no more than the limit.
use autonomous_agent.Common.{
  any, ap, ◌&&◌, ℕ, ◌+◌, ◌≤◌, ◌≡◌, refl, sym, subst, ◌∙◌, String, Bool, false, not, ◌||◌, List, [],
  ◌∷◌, map, keep, includes, length, take, ◌===◌, arith, eq_iff, Bool-cases, inl, inr, length-append,
  length-map, length-take,
}
use autonomous_agent.Domain.Provenance.Merge.{IsDistinct}
use autonomous_agent.Memory.Retrieval.{RetrievalHit, RetrievalDrop}
use autonomous_agent.Memory.Ranking.{
  Selected, annotate_from, id_of, add_id, add_ids, first_of_kinds, fill, choose, sort_hits, drop_of,
  rank_hits,
}
use autonomous_agent.Memory.Ranking.Sorting.{length-sort, any-sort, length-annotate}
use autonomous_agent.Memory.Records.{MemoryKind, kind_of}

module _ {A : Type 0} (p : A → Bool) where
  pub length-keep_split :
      (xs : List A) → length (keep p xs) + length (keep (λ x. not (p x)) xs) ≡ length xs
  length-keep_split [] = omega arith
  length-keep_split (x ∷ xs) = ground (arith, length-keep_split xs)

  length-keep_or :
      (q : A → Bool) (xs : List A)
      → length (keep (λ x. p x || q x) xs) ≤ length (keep p xs) + length (keep q xs)
  length-keep_or q [] = omega arith
  length-keep_or q (x ∷ xs) = ground (arith, length-keep_or q xs)

-- the hits of one identifier, of those with different ones
none_of_id :
    (id : String) (hs : List RetrievalHit)
    → includes (map id_of hs) id ≡ false
    → length (keep (λ h. id === id_of h) hs) ≡ 0
none_of_id id [] h = refl
none_of_id id (x ∷ xs) h =
    ground (arith, h, eq_iff id (id_of x), eq_iff (id_of x) id, none_of_id id xs)

one_of_id :
    (id : String) (hs : List RetrievalHit)
    → IsDistinct (map id_of hs)
    → length (keep (λ h. id === id_of h) hs) ≤ 1
one_of_id id [] d = omega arith
one_of_id id (x ∷ xs) (fresh, d) = elim (Bool-cases (id === id_of x)) [
  | inl e ↦
      subst (λ i. length (keep (λ h. i === id_of h) (x ∷ xs)) ≤ 1) (sym ((eq_iff id (id_of x)).0 e))
        (rw (keep, (eq_iff (id_of x) (id_of x)).1 refl)
          (omega (arith, none_of_id (id_of x) xs fresh)))
  | inr e ↦ rw (keep, e) (one_of_id id xs d)
]

keep-nothing : (hs : List RetrievalHit) → length (keep (λ h. false) hs) ≡ 0
keep-nothing [] = refl
keep-nothing (h ∷ hs) = keep-nothing hs

keep-chosen_le :
    (chosen : List String) (hs : List RetrievalHit)
    → IsDistinct (map id_of hs)
    → length (keep (λ h. includes chosen (id_of h)) hs) ≤ length chosen
keep-chosen_le [] hs d = omega (arith, keep-nothing hs)
keep-chosen_le (c ∷ chosen) hs d = omega (
  arith,
  length-keep_or (λ h. c === id_of h) (λ h. includes chosen (id_of h)) hs,
  one_of_id c hs d,
  keep-chosen_le chosen hs d,
)

pub length-add_id_le :
    (chosen : List String) (id : String) → length (add_id chosen id) ≤ length chosen + 1
length-add_id_le chosen id = ground (arith, length-append chosen (id ∷ []))

length-add_ids_le :
    (chosen : List String) (hs : List RetrievalHit)
    → length (add_ids chosen hs) ≤ length chosen + length hs
length-add_ids_le chosen [] = omega arith
length-add_ids_le chosen (h ∷ hs) =
    omega (arith, length-add_ids_le (add_id chosen (id_of h)) hs, length-add_id_le chosen (id_of h))

module _ (capped : ℕ) where
  length-first_le :
      (hs : List RetrievalHit) (seen : List MemoryKind) (chosen : List String)
      → length chosen ≤ capped
      → length (first_of_kinds capped seen chosen hs) ≤ capped
  unfolding first_of_kinds
  length-first_le [] seen chosen h = h
  length-first_le (x ∷ xs) seen chosen h = ground (
    arith,
    length-add_id_le chosen (id_of x),
    length-first_le xs seen chosen h,
    length-first_le xs (kind_of x.item ∷ seen) (add_id chosen (id_of x)),
  )

  length-fill_le :
      (hs : List RetrievalHit) (chosen : List String)
      → length chosen ≤ capped
      → length (fill capped chosen hs) ≤ capped
  unfolding fill
  length-fill_le [] chosen h = h
  length-fill_le (x ∷ xs) chosen h =
      ground (arith, length-add_id_le chosen (id_of x), length-fill_le xs (add_id chosen (id_of x)))

  length-take_le : (hs : List RetrievalHit) → length (take capped hs) ≤ capped
  length-take_le hs = omega (arith, length-take capped hs)

  length-choose_le :
      (diversity : Bool) (ranked : List RetrievalHit)
      → length (choose capped diversity ranked) ≤ capped
  unfolding choose
  length-choose_le diversity ranked = ground (
    arith,
    length-add_ids_le [] (take capped ranked),
    length-take_le ranked,
    length-first_le ranked [] [],
    length-fill_le ranked (first_of_kinds capped [] [] ranked),
  )

abbrev pub is_named : String → RetrievalHit → Bool
is_named v hit = id_of hit === v

abbrev pub is_dropped_as : String → RetrievalDrop → Bool
is_dropped_as v d = d.record_id === v

module _ (v : String) where
  any-annotate :
      (capped : ℕ) (diversity : Bool) (ranked hs : List RetrievalHit) (rank : ℕ)
      → any (is_named v) (annotate_from capped diversity ranked rank hs) ≡ any (is_named v) hs
  unfolding annotate_from
  any-annotate capped diversity ranked [] rank = refl
  any-annotate capped diversity ranked (h ∷ hs) rank =
      ap (λ b. is_named v h || b) (any-annotate capped diversity ranked hs (rank + 1))

  any-drops :
      (capped : ℕ) (diversity : Bool) (ranked hs : List RetrievalHit)
      → any (is_dropped_as v) (map (drop_of capped diversity ranked) hs) ≡ any (is_named v) hs
  any-drops capped diversity ranked [] = refl
  any-drops capped diversity ranked (h ∷ hs) =
      ap (λ b. is_named v h || b) (any-drops capped diversity ranked hs)

  -- a test of the identifier
  any-keep_named :
      (p : String → Bool) (hs : List RetrievalHit)
      → any (is_named v) (keep (λ hit. p (id_of hit)) hs) ≡ any (is_named v) hs && p v
  any-keep_named p [] = refl
  any-keep_named p (h ∷ hs) = elim (Bool-cases (id_of h === v)) [
    | inl e ↦
        let same : p (id_of h) ≡ p v = ap p ((eq_iff (id_of h) v).0 e) in
        ground (arith, e, same, any-keep_named p hs)
    | inr e ↦ ground (arith, e, any-keep_named p hs)
  ]

split_by : (a c : Bool) → a ≡ (a && c) || (a && not c)
split_by a c = ground arith

never_both : (a c : Bool) → (a && c) && (a && not c) ≡ false
never_both a c = ground arith

module _ (ranked : List RetrievalHit) (limit : ℕ) (diversity : Bool) where
  selected_count :
      length (rank_hits ranked limit diversity).hits
      ≡ length (keep (λ hit. includes (choose limit diversity ranked) (id_of hit)) ranked)
  unfolding rank_hits
  selected_count =
      length-annotate limit diversity ranked
        (sort_hits (keep (λ hit. includes (choose limit diversity ranked) (id_of hit)) ranked)) 1
      ∙ length-sort (keep (λ hit. includes (choose limit diversity ranked) (id_of hit)) ranked)

  pub rank_hits-partition :
      length (rank_hits ranked limit diversity).hits
        + length (rank_hits ranked limit diversity).dropped
      ≡ length ranked
  unfolding rank_hits
  rank_hits-partition =
      let chosen = choose limit diversity ranked in
      omega (
        arith,
        selected_count,
        length-map (drop_of limit diversity ranked)
            (keep (λ (hit : RetrievalHit). not (includes chosen (id_of hit))) ranked),
        length-keep_split (λ (hit : RetrievalHit). includes chosen (id_of hit)) ranked,
      )

  -- what is selected and what is dropped, by the records' identifiers
  pub record Ranked (out : Selected) : Type 0 where
    pub counted : length out.hits + length out.dropped ≡ length ranked
    pub within : length out.hits ≤ limit
    pub each :
        (v : String)
        → any (is_named v) ranked ≡ any (is_named v) out.hits || any (is_dropped_as v) out.dropped
    pub apart :
        (v : String) → any (is_named v) out.hits && any (is_dropped_as v) out.dropped ≡ false

  selected_named :
      (v : String)
      → any (is_named v) (rank_hits ranked limit diversity).hits
        ≡ any (is_named v) ranked && includes (choose limit diversity ranked) v
  unfolding rank_hits
  selected_named v =
      any-annotate v limit diversity ranked
        (sort_hits (keep (λ hit. includes (choose limit diversity ranked) (id_of hit)) ranked)) 1
      ∙ any-sort (is_named v)
          (keep (λ hit. includes (choose limit diversity ranked) (id_of hit)) ranked)
      ∙ any-keep_named v (includes (choose limit diversity ranked)) ranked

  dropped_named :
      (v : String)
      → any (is_dropped_as v) (rank_hits ranked limit diversity).dropped
        ≡ any (is_named v) ranked && not (includes (choose limit diversity ranked) v)
  unfolding rank_hits
  dropped_named v =
      any-drops v limit diversity ranked
        (keep (λ hit. not (includes (choose limit diversity ranked) (id_of hit))) ranked)
      ∙ any-keep_named v (λ id. not (includes (choose limit diversity ranked) id)) ranked

  -- If no record is hit twice, each record that is hit is either selected or dropped, never both, and no
  -- other record is; the numbers add up; and no more hits are selected than the limit allows.
  pub rank_hits-Ranked : IsDistinct (map id_of ranked) → Ranked (rank_hits ranked limit diversity)
  rank_hits-Ranked d = record {
    counted = rank_hits-partition;
    within = omega (
      arith,
      selected_count,
      keep-chosen_le (choose limit diversity ranked) ranked d,
      length-choose_le limit diversity ranked,
    );
    each = λ v.
        split_by (any (is_named v) ranked) (includes (choose limit diversity ranked) v)
        ∙ sym (
            ap (λ b. b || any (is_dropped_as v) (rank_hits ranked limit diversity).dropped)
              (selected_named v)
            ∙ ap (λ b. (any (is_named v) ranked && includes (choose limit diversity ranked) v) || b)
                (dropped_named v));
    apart = λ v.
        ap (λ b. b && any (is_dropped_as v) (rank_hits ranked limit diversity).dropped)
          (selected_named v)
        ∙ ap (λ b. (any (is_named v) ranked && includes (choose limit diversity ranked) v) && b)
            (dropped_named v)
        ∙ never_both (any (is_named v) ranked) (includes (choose limit diversity ranked) v);
  }
