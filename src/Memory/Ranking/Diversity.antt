-- ===== src/Memory/Ranking/Diversity.antt =====
-- With room for every kind, the best hit of each kind is selected.
use autonomous_agent.Common.{
  ℕ, zero, suc, ◌+◌, ◌≤◌, ◌≡◌, refl, sym, subst, leb→le, ap, ◌∙◌, String, Bool, true, false, ◌&&◌,
  ◌||◌, List, [], ◌∷◌, keep, any, includes, length, leb, take, ◌⊎◌, arith, eq_iff, Bool-cases, inl,
  inr, All,
}
use autonomous_agent.Domain.Provenance.Merge.{includes-pushed}
use autonomous_agent.Memory.Records.{
  MemoryKind, MemoryRecord, same_kind, kind_of, knowledge, experience, decision, lesson,
}
use autonomous_agent.Memory.Retrieval.{RetrievalHit}
use autonomous_agent.Memory.Ranking.{
  id_of, add_id, add_ids, first_of_kinds, fill, choose, annotate_from, rank_hits,
  select_with_kind_diversity,
}
use autonomous_agent.Memory.Ranking.Sorting.{any-sort}
use autonomous_agent.Memory.Ranking.Counts.{length-add_id_le}

abbrev one_if : Bool → ℕ
one_if true = 1
one_if false = 0

abbrev has_of_kind : MemoryKind → List MemoryKind → Bool
has_of_kind k seen = any (same_kind k) seen

-- how many of the four kinds stand in a list
abbrev kinds_in : List MemoryKind → ℕ
kinds_in seen =
    one_if (has_of_kind knowledge seen)
    + one_if (has_of_kind experience seen)
    + one_if (has_of_kind decision seen)
    + one_if (has_of_kind lesson seen)

kinds-new :
    (k : MemoryKind) (seen : List MemoryKind)
    → has_of_kind k seen ≡ false
    → kinds_in (k ∷ seen) ≡ kinds_in seen + 1
kinds-new knowledge seen h = ground (arith, h)
kinds-new experience seen h = ground (arith, h)
kinds-new decision seen h = ground (arith, h)
kinds-new lesson seen h = ground (arith, h)

kinds-all :
    (k : MemoryKind) (seen : List MemoryKind) → 4 ≤ kinds_in seen → has_of_kind k seen ≡ true
kinds-all knowledge seen h = ground arith
kinds-all experience seen h = ground arith
kinds-all decision seen h = ground arith
kinds-all lesson seen h = ground arith

same_kind-eq : (j k : MemoryKind) → same_kind j k ≡ true → j ≡ k
same_kind-eq knowledge knowledge h = refl
same_kind-eq experience experience h = refl
same_kind-eq decision decision h = refl
same_kind-eq lesson lesson h = refl
same_kind-eq knowledge experience h = cc
same_kind-eq knowledge decision h = cc
same_kind-eq knowledge lesson h = cc
same_kind-eq experience knowledge h = cc
same_kind-eq experience decision h = cc
same_kind-eq experience lesson h = cc
same_kind-eq decision knowledge h = cc
same_kind-eq decision experience h = cc
same_kind-eq decision lesson h = cc
same_kind-eq lesson knowledge h = cc
same_kind-eq lesson experience h = cc
same_kind-eq lesson decision h = cc

abbrev pub is_kind : MemoryKind → RetrievalHit → Bool
is_kind k hit = same_kind k (kind_of hit.item)

module _ {A : Type 0} where
  any-weaken :
      (p q : A → Bool) (xs : List A)
      → ((x : A) → p x ≡ true → q x ≡ true)
      → any p xs ≡ true
      → any q xs ≡ true
  any-weaken p q [] f h = cc
  any-weaken p q (x ∷ xs) f h = elim (Bool-cases (p x)) [
    | inl e ↦ ground (arith, f x e)
    | inr e ↦ ground (arith, e, h, any-weaken p q xs f)
  ]

  any-keep : (p q : A → Bool) (xs : List A) → any p (keep q xs) ≡ any (λ x. p x && q x) xs
  any-keep p q [] = refl
  any-keep p q (x ∷ xs) = ground (arith, any-keep p q xs)

-- the identifiers that are there stay
Grows : List String → List String → Type 0
Grows chosen more = (v : String) → includes chosen v ≡ true → includes more v ≡ true

add_id-Grows : (chosen : List String) (id : String) → Grows chosen (add_id chosen id)
unfolding Grows
add_id-Grows chosen id v h = includes-pushed chosen id v ∙ ground (arith, h)

includes-add_id : (chosen : List String) (id : String) → includes (add_id chosen id) id ≡ true
includes-add_id chosen id = includes-pushed chosen id id ∙ ground (arith, (eq_iff id id).1 refl)

fill-Grows :
    (capped : ℕ) (hs : List RetrievalHit) (chosen : List String)
    → Grows chosen (fill capped chosen hs)
unfolding fill Grows
fill-Grows capped [] chosen v h = h
fill-Grows capped (x ∷ xs) chosen v h = elim (Bool-cases (leb capped (length chosen))) [
  | inl e ↦ rw (fill, e) h
  | inr e ↦
      rw (fill, e)
        (fill-Grows capped xs (add_id chosen (id_of x)) v (add_id-Grows chosen (id_of x) v h))
]

add_ids-Grows : (hs : List RetrievalHit) (chosen : List String) → Grows chosen (add_ids chosen hs)
unfolding Grows
add_ids-Grows [] chosen v h = h
add_ids-Grows (x ∷ xs) chosen v h =
    add_ids-Grows xs (add_id chosen (id_of x)) v (add_id-Grows chosen (id_of x) v h)

abbrev chosen_kind : MemoryKind → List String → RetrievalHit → Bool
chosen_kind k chosen hit = is_kind k hit && includes chosen (id_of hit)

and_left : (a b : Bool) → a && b ≡ true → a ≡ true
and_left a b h = ground (arith, h)

and_right : (a b : Bool) → a && b ≡ true → b ≡ true
and_right a b h = ground (arith, h)

module _ (ranked : List RetrievalHit) where
  -- a hit of the kind is chosen
  Represented : MemoryKind → List String → Type 0
  Represented k chosen = any (chosen_kind k chosen) ranked ≡ true

  Represented-weaken :
      (k : MemoryKind) (chosen more : List String)
      → Grows chosen more
      → Represented k chosen
      → Represented k more
  unfolding Represented Grows
  Represented-weaken k chosen more g h =
      any-weaken (chosen_kind k chosen) (chosen_kind k more) ranked
        (λ x e.
          let a : is_kind k x ≡ true = and_left (is_kind k x) (includes chosen (id_of x)) e in
          let b : includes more (id_of x) ≡ true =
            g (id_of x) (and_right (is_kind k x) (includes chosen (id_of x)) e) in
          ground (arith, a, b))
        h

  -- a hit stands among the ranked ones
  Stands : RetrievalHit → Type 0
  Stands x = (p : RetrievalHit → Bool) → p x ≡ true → any p ranked ≡ true

  module _ (capped : ℕ) (room : 4 ≤ capped) (k : MemoryKind) where
    known_step :
        (x : RetrievalHit) (xs : List RetrievalHit) (seen : List MemoryKind)
        → has_of_kind (kind_of x.item) seen ≡ true
        → has_of_kind k seen || any (is_kind k) (x ∷ xs) ≡ true
        → has_of_kind k seen || any (is_kind k) xs ≡ true
    known_step x xs seen known h = elim (Bool-cases (is_kind k x)) [
      | inl e ↦
          let q : has_of_kind k seen ≡ true =
            subst (λ j. has_of_kind j seen ≡ true) (sym (same_kind-eq k (kind_of x.item) e))
              known in
          ground (arith, q)
      | inr e ↦ ground (arith, e, h)
    ]

    first-Represented :
        (hs : List RetrievalHit) (seen : List MemoryKind) (chosen : List String)
        → All Stands hs
        → ((j : MemoryKind) → has_of_kind j seen ≡ true → Represented j chosen)
        → length chosen ≤ kinds_in seen
        → has_of_kind k seen || any (is_kind k) hs ≡ true
        → Represented k (first_of_kinds capped seen chosen hs)
    unfolding first_of_kinds Represented Stands
    first-Represented [] seen chosen st inv len h = inv k (ground (arith, h))
    first-Represented (x ∷ xs) seen chosen (s, st) inv len h =
        elim (Bool-cases (leb capped (length chosen))) [
          | inl full ↦
              rw (first_of_kinds, full)
                (inv k
                  (kinds-all k seen (omega (arith, room, len, leb→le capped (length chosen) full))))
          | inr more ↦ elim (Bool-cases (has_of_kind (kind_of x.item) seen)) [
            | inl known ↦
                rw (first_of_kinds, more, known)
                  (first-Represented xs seen chosen st inv len (known_step x xs seen known h))
            | inr new ↦
                rw (first_of_kinds, more, new)
                  (first-Represented xs (kind_of x.item ∷ seen) (add_id chosen (id_of x)) st
                    (λ j e. elim (Bool-cases (same_kind j (kind_of x.item))) [
                      | inl same ↦
                          s (chosen_kind j (add_id chosen (id_of x)))
                            (ground (arith, same, includes-add_id chosen (id_of x)))
                      | inr other ↦
                          Represented-weaken j chosen (add_id chosen (id_of x))
                            (add_id-Grows chosen (id_of x)) (inv j (ground (arith, e, other)))
                    ])
                    (omega (
                      arith,
                      len,
                      length-add_id_le chosen (id_of x),
                      kinds-new (kind_of x.item) seen new,
                    ))
                    (ground (arith, h)))
          ]
        ]

stand_later :
    (x : RetrievalHit) (xs ys : List RetrievalHit) → All (Stands xs) ys → All (Stands (x ∷ xs)) ys
unfolding Stands
stand_later x xs [] h = tt
stand_later x xs (y ∷ ys) (s, h) = (λ p e. ground (arith, s p e), stand_later x xs ys h)

-- every hit of a list stands in it
stand_self : (hs : List RetrievalHit) → All (Stands hs) hs
unfolding Stands
stand_self [] = tt
stand_self (x ∷ xs) = (λ p e. ground (arith, e), stand_later x xs xs (stand_self xs))

take_all : {A : Type 0} (n : ℕ) (xs : List A) → length xs ≤ n → take n xs ≡ xs
take_all zero [] h = refl
take_all zero (x ∷ xs) h = absurd (omega arith)
take_all (suc n) [] h = refl
take_all (suc n) (x ∷ xs) h = ap (λ l. x ∷ l) (take_all n xs (omega arith))

module _ (k : MemoryKind) where
  add_ids-represent :
      (hs : List RetrievalHit) (chosen : List String)
      → any (is_kind k) hs ≡ true
      → any (chosen_kind k (add_ids chosen hs)) hs ≡ true
  unfolding Grows
  add_ids-represent [] chosen h = cc
  add_ids-represent (x ∷ xs) chosen h = elim (Bool-cases (is_kind k x)) [
    | inl e ↦ ground (
      arith,
      e,
      add_ids-Grows xs (add_id chosen (id_of x)) (id_of x) (includes-add_id chosen (id_of x)),
    )
    | inr e ↦ ground (arith, add_ids-represent xs (add_id chosen (id_of x)) (ground (arith, e, h)))
  ]

  choose-represents :
      (ranked : List RetrievalHit) (limit : ℕ)
      → 4 ≤ limit
      → any (is_kind k) ranked ≡ true
      → any (chosen_kind k (choose limit true ranked)) ranked ≡ true
  unfolding choose Represented
  choose-represents ranked limit room h = elim (Bool-cases (leb (length ranked) limit)) [
    | inl all ↦
        rw (choose, all)
          (rw (take_all limit ranked (leb→le _ _ all)) (add_ids-represent ranked [] h))
    | inr some ↦
        rw (choose, some)
          (Represented-weaken ranked k (first_of_kinds limit [] [] ranked) _
            (fill-Grows limit ranked (first_of_kinds limit [] [] ranked))
            (first-Represented ranked limit room k ranked [] [] (stand_self ranked) (λ j e. cc)
              (omega arith) h))
  ]

any-annotate :
    (p : MemoryRecord → Bool) (capped : ℕ) (diversity : Bool) (ranked hs : List RetrievalHit)
    (rank : ℕ)
    → any (λ h. p h.item) (annotate_from capped diversity ranked rank hs) ≡ any (λ h. p h.item) hs
unfolding annotate_from
any-annotate p capped diversity ranked [] rank = refl
any-annotate p capped diversity ranked (h ∷ hs) rank =
    ap (λ b. p h.item || b) (any-annotate p capped diversity ranked hs (rank + 1))

-- With a limit of four or more, which is the number of kinds, a kind of memory is among the selected
-- hits exactly when it is among the ranked ones: the selection by score never loses a whole kind.
pub select_with_kind_diversity-kinds :
    (ranked : List RetrievalHit) (limit : ℕ) (k : MemoryKind)
    → 4 ≤ limit
    → any (is_kind k) (select_with_kind_diversity ranked limit) ≡ any (is_kind k) ranked
unfolding select_with_kind_diversity rank_hits
select_with_kind_diversity-kinds ranked limit k room =
    any-annotate (λ r. same_kind k (kind_of r)) limit true ranked _ 1
    ∙ any-sort (is_kind k) _
    ∙ any-keep (is_kind k) (λ hit. includes (choose limit true ranked) (id_of hit)) ranked
    ∙ both_ways (Bool-cases (any (is_kind k) ranked))
  where
    both_ways :
        ((any (is_kind k) ranked ≡ true) ⊎ (any (is_kind k) ranked ≡ false))
        → any (chosen_kind k (choose limit true ranked)) ranked ≡ any (is_kind k) ranked
    both_ways (inl h) = choose-represents k ranked limit room h ∙ sym h
    both_ways (inr h) =
        none_chosen (Bool-cases (any (chosen_kind k (choose limit true ranked)) ranked))
      where
        none_chosen :
            ((any (chosen_kind k (choose limit true ranked)) ranked ≡ true)
              ⊎ (any (chosen_kind k (choose limit true ranked)) ranked ≡ false))
            → any (chosen_kind k (choose limit true ranked)) ranked ≡ any (is_kind k) ranked
        none_chosen (inl e) =
            e
            ∙ sym (
                any-weaken (chosen_kind k (choose limit true ranked)) (is_kind k) ranked
                  (λ x q. and_left _ _ q) e)
        none_chosen (inr e) = e ∙ sym h
